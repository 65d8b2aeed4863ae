-- ===== src/Verifier/Forms.antt =====
-- The forms of the signature sidecar in omega_evidence/verifier.py, and the Ed25519 layer of
-- omega_evidence/signing.py. What is not the package's own code is a field of `Host`.
use omega_evidence.Base.{
  ℕ, ◌+◌, ◌-◌, ◌*◌, ◌/◌, ◌%◌, ◌^◌, Bool, true, false, not, ◌&&◌, ◌||◌, Option, none, some, List, [],
  ◌∷◌, ◌++◌, if◌then◌else◌, ltb, leb, ◌==◌, length, take, drop, get_or, ◌≡◌, refl,
}
use omega_evidence.Base.Text.{Text, codes, ◌===◌, in_list, is_empty}
use omega_evidence.Base.Maybe.{is_some}
use omega_evidence.Value.{Value, str}

-- hashlib (hex digests), base64 (with and without `validate`), the Ed25519 check of the library
-- on raw key, signature and message, and the verifiers registered in `PQ_SIG_ALGS`.
pub record Host : Type 0 where
  pub sha3_256 : Text → Text
  pub sha256 : Text → Text
  pub b64decode : Text → Option (List ℕ)
  pub b64decode_lax : Text → Option (List ℕ)
  pub b64encode : List ℕ → Text
  pub ed25519 : List ℕ → List ℕ → Text → Bool
  pub pq_sig_algs : Text → Option (Value → Value → Text → Bool)

-- `_fold_alg`
unfoldable pub fold_alg : Text → Text
fold_alg [] = []
fold_alg (c ∷ t) =
    let rest = fold_alg t in
    if leb 65 c && leb c 90
    then (c + 32) ∷ rest
    else if (leb 97 c && leb c 122) || (leb 48 c && leb c 57)
    then c ∷ rest
    else rest

abbrev is_digit : ℕ → Bool
is_digit c = leb 48 c && leb c 57

-- One character of the pattern of `_SIGNED_UTC`, where 0 stands for [0-9].
unfoldable pub matches_form : Text → Text → Bool
matches_form [] [] = true
matches_form (p ∷ ps) (c ∷ t) = (if p == 48 then is_digit c else p == c) && matches_form ps t
matches_form _ _ = false

number : ℕ → Text → ℕ
number n [] = n
number n (c ∷ t) = number (n * 10 + (c - 48)) t

-- int(v[i:j])
abbrev part : ℕ → ℕ → Text → ℕ
part i j v = number 0 (take (j - i) (drop i v))

days_in_month : ℕ → ℕ → ℕ
days_in_month y mo =
    let leap = (y % 4 == 0 && not (y % 100 == 0)) || y % 400 == 0 in
    get_or (31 ∷ (if leap then 29 else 28) ∷ 31 ∷ 30 ∷ 31 ∷ 30 ∷ 31 ∷ 31 ∷ 30 ∷ 31 ∷ 30 ∷ 31 ∷ [])
      (mo - 1) 0

abbrev signed_utc_form : Text
signed_utc_form = codes "0000-00-00T00:00:00+00:00"

unfoldable pub signed_utc_ok : Value → Bool
unfolding matches_form number days_in_month
signed_utc_ok (str v) =
    let y = part 0 4 v in
    let mo = part 5 7 v in
    let d = part 8 10 v in
    matches_form signed_utc_form v
    && leb 1 y
    && leb 1 mo
    && leb mo 12
    && leb 1 d
    && leb d (days_in_month y mo)
    && leb (part 11 13 v) 23
    && leb (part 14 16 v) 59
    && leb (part 17 19 v) 59
signed_utc_ok _ = false

a_leap_day : signed_utc_ok (str (codes "2024-02-29T23:59:59+00:00")) ≡ true
unfolding signed_utc_ok
a_leap_day = refl

no_leap_day : signed_utc_ok (str (codes "2023-02-29T23:59:59+00:00")) ≡ false
unfolding signed_utc_ok
no_leap_day = refl

abbrev is_lower_hex_digit : ℕ → Bool
is_lower_hex_digit c = is_digit c || (leb 97 c && leb c 102)

all_lower_hex : Text → Bool
all_lower_hex [] = true
all_lower_hex (c ∷ t) = is_lower_hex_digit c && all_lower_hex t

-- re.fullmatch(r"[0-9a-f]{64}", t)
unfoldable pub is_lower_hex : Text → Bool
unfolding all_lower_hex
is_lower_hex t = length t == 64 && all_lower_hex t

abbrev hex_digit : ℕ → ℕ
hex_digit n = if ltb n 10 then 48 + n else 87 + n

unfoldable pub hex : List ℕ → Text
hex [] = []
hex (b ∷ bs) = hex_digit (b / 16) ∷ hex_digit (b % 16) ∷ hex bs

-- int.from_bytes(pk, "little")
unfoldable pub from_bytes : List ℕ → ℕ
from_bytes [] = 0
from_bytes (b ∷ bs) = b + 256 * from_bytes bs

abbrev pub weak_keys : List Text
weak_keys =
    codes "0100000000000000000000000000000000000000000000000000000000000000"
    ∷ codes "ecffffffffffffffffffffffffffffffffffffffffffffffffffffffffffff7f"
    ∷ codes "0000000000000000000000000000000000000000000000000000000000000000"
    ∷ codes "0000000000000000000000000000000000000000000000000000000000000080"
    ∷ codes "26e8958fc2b227b045c3f489f2ef98f0d5dfac05d3c63339b13802886d53fc05"
    ∷ codes "c7176a703d4dd84fba3c0b760d10670f2a2053fa2c39ccc64ec7fd7792ac037a"
    ∷ codes "26e8958fc2b227b045c3f489f2ef98f0d5dfac05d3c63339b13802886d53fc85"
    ∷ codes "c7176a703d4dd84fba3c0b760d10670f2a2053fa2c39ccc64ec7fd7792ac03fa"
    ∷ codes "0100000000000000000000000000000000000000000000000000000000000080"
    ∷ codes "ecffffffffffffffffffffffffffffffffffffffffffffffffffffffffffffff"
    ∷ []

unfoldable pub weak_ed25519_key : List ℕ → Bool
unfolding hex from_bytes in_list
weak_ed25519_key pk =
    not (length pk == 32)
    || in_list (hex pk) weak_keys
    || leb (2 ^ 255 - 19) (from_bytes pk % 2 ^ 255)

module _ (h : Host) where
  unfoldable pub verify_signature : Text → Text → Text → Bool
  unfolding weak_ed25519_key
  verify_signature key sig message = elim (h.b64decode_lax key) [
    | none ↦ false
    | some pk ↦ elim (h.b64decode_lax sig) [
      | none ↦ false
      | some raw ↦ not (weak_ed25519_key pk) && h.ed25519 pk raw message
    ]
  ]

  -- `b64_strict` of pqbackends/mldsa.py
  unfoldable pub b64_bytes : Option Value → ℕ → Option (List ℕ)
  b64_bytes (some (str s)) n =
      if not (length s == (n + 2) / 3 * 4) then none else elim (h.b64decode s) [
        | none ↦ none
        | some raw ↦ if length raw == n && (h.b64encode raw === s) then some raw else none
      ]
  b64_bytes _ n = none

  -- `_b64_strict`
  unfoldable pub b64_strict : Value → Bool
  b64_strict (str s) = not (is_empty s) && is_some (h.b64decode s)
  b64_strict _ = false

  -- `verify_pq_alg`: none where the algorithm has no backend.
  unfoldable pub verify_pq_alg : Text → Value → Value → Text → Option Bool
  verify_pq_alg alg key sig message = elim (h.pq_sig_algs alg) [
    | none ↦ none
    | some check ↦ some (check key sig message)
  ]

  -- `_fingerprint_of`
  unfoldable pub fingerprint_of : List ℕ → Text
  fingerprint_of raw =
      let d = h.sha256 raw in codes "ed25519:" ++ take 8 d ++ (8230 ∷ []) ++ drop (length d - 8) d
