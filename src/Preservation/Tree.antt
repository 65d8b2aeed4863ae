-- ===== src/Preservation/Tree.antt =====
-- Digests and the Merkle root of omega_evidence/preservation.py. What Python's hashlib and float
-- do, and what `timestamp.verify` answers, are fields of `Platform`.
use omega_evidence.Base.{
  ℕ, zero, suc, ◌+◌, ◌-◌, ◌*◌, Bool, ◌&&◌, ◌||◌, Option, none, some, List, [], ◌∷◌, ◌++◌, leb, ◌==◌,
  if◌then◌else◌, length,
}
use omega_evidence.Base.Text.{Text, codes, in_list}
use omega_evidence.Base.Result.{Result, ok, err, ◌>>=◌}
use omega_evidence.Base.Utf8.{encode}
use omega_evidence.Value.{Value, str}
use omega_evidence.Verifier.Forms.{hex}

-- What leaves a function of this module: an exception that `verify_evidence_record` turns into a
-- layer (KeyError, TypeError, AttributeError, ValueError, IndexError), or CheckNotRun.
pub data Stop : Type 0 where
  refused check_not_run : Stop

-- `digest alg` is hashlib.new(alg) on bytes; `is_zero` and `plus_one` are on a float;
-- `equal` is == on values that are not both str; `ts_verify` is the entry `verified` of what
-- timestamp.verify returns for a token and what it covers, where none is None.
pub record Platform : Type 0 where
  pub digest : Text → List ℕ → List ℕ
  pub is_zero : Text → Bool
  pub plus_one : Text → Text
  pub equal : Value → Value → Bool
  pub ts_verify : Text → Value → Result Stop (Option Bool)

-- `_SUPPORTED_HASH`
abbrev pub supported_hash : List Text
supported_hash = codes "sha256" ∷ codes "sha512" ∷ codes "sha3_256" ∷ codes "sha3_512" ∷ []

-- `_hnew`: the name of the hash.
unfoldable pub hnew : Value → Result Stop Text
hnew (str alg) = if in_list alg supported_hash then ok alg else err refused
hnew _ = err refused

abbrev pub or_refused {ℓ} : {A : Type ℓ} → Option A → Result Stop A
or_refused none = err refused
or_refused (some a) = ok a

abbrev is_space : ℕ → Bool
is_space c = (leb 9 c && leb c 13) || c == 32

abbrev nibble : ℕ → Option ℕ
nibble c =
    if leb 48 c && leb c 57
    then some (c - 48)
    else if leb 97 c && leb c 102
    then some (c - 87)
    else if leb 65 c && leb c 70
    then some (c - 55)
    else none

abbrev join_byte : Option ℕ → Option ℕ → Option (List ℕ) → Option (List ℕ)
join_byte (some a) (some b) (some bs) = some ((16 * a + b) ∷ bs)
join_byte _ _ _ = none

-- bytes.fromhex
unfoldable pub fromhex : Text → Option (List ℕ)
fromhex [] = some []
fromhex (c ∷ []) = if is_space c then some [] else none
fromhex (c ∷ d ∷ t) =
    let skipped = fromhex (d ∷ t) in
    let pair = join_byte (nibble c) (nibble d) (fromhex t) in if is_space c then skipped else pair

abbrev pub prepend : Option (List ℕ) → Option (List (List ℕ)) → Option (List (List ℕ))
prepend (some b) (some bs) = some (b ∷ bs)
prepend _ _ = none

-- [bytes.fromhex(h) for h in leaf_hexes]
unfoldable pub fromhex_all : List Text → Option (List (List ℕ))
unfolding fromhex
fromhex_all [] = some []
fromhex_all (h ∷ hs) = prepend (fromhex h) (fromhex_all hs)

module _ (p : Platform) where
  -- `_digest`
  unfoldable pub digest_of : Value → List ℕ → Result Stop Text
  unfolding hnew
  digest_of alg data_bytes = do a ← hnew alg; ok (hex (p.digest a data_bytes))

  -- One round: the level above, where an odd node is paired with itself.
  unfoldable pub next_level : Text → List (List ℕ) → List (List ℕ)
  next_level alg [] = []
  next_level alg (a ∷ []) = p.digest alg (a ++ a) ∷ []
  next_level alg (a ∷ b ∷ rest) = p.digest alg (a ++ b) ∷ next_level alg rest

  -- `while len(level) > 1`; none where the fuel ends, and for `level[0]` of an empty level.
  unfoldable pub top : ℕ → Text → List (List ℕ) → Option (List ℕ)
  unfolding next_level
  top f alg [] = none
  top f alg (a ∷ []) = some a
  top zero alg (a ∷ b ∷ rest) = none
  top (suc f) alg (a ∷ b ∷ rest) = top f alg (next_level alg (a ∷ b ∷ rest))

  -- The loop on as much fuel as there are leaves: each round shortens the level.
  unfoldable pub climb : Value → List (List ℕ) → Result Stop Text
  unfolding hnew top
  climb alg level = do a ← hnew alg; root ← or_refused (top (length level) a level); ok (hex root)

  -- `_merkle_root`. A level of one node calls no hash, so its algorithm is not looked at.
  unfoldable pub merkle_root : List Text → Value → Result Stop Text
  unfolding digest_of climb fromhex_all
  merkle_root [] alg = digest_of alg []
  merkle_root (h ∷ []) alg = do b ← or_refused (fromhex h); ok (hex b)
  merkle_root (h ∷ i ∷ hs) alg = do level ← or_refused (fromhex_all (h ∷ i ∷ hs)); climb alg level

  -- `_leaves`
  unfoldable pub leaves_of : List Value → Value → Result Stop (List Text)
  unfolding digest_of encode
  leaves_of [] alg = ok []
  leaves_of (str s ∷ vs) alg = do
    b ← or_refused (encode s)
    d ← digest_of alg b
    ds ← leaves_of vs alg
    ok (d ∷ ds)
  leaves_of (_ ∷ vs) alg = err refused
