-- ===== src/Trail/Jcs.antt =====
-- `jcs` of omega_evidence/interop/aat.py (RFC 8785), and the hashes of a record over it. What Python
-- does with floats, and SHA-256, are fields of `Hasher`. Every exception is none.
use omega_evidence.Base.{
  ℕ, suc, ◌+◌, ◌-◌, ◌/◌, ◌%◌, Bool, ◌&&◌, ◌||◌, Option, none, some, List, [], ◌∷◌, ◌++◌,
  if◌then◌else◌, ltb, leb, ◌==◌,
}
use omega_evidence.Base.Text.{Text, codes}
use omega_evidence.Base.Int.{ℤ, abs}
use omega_evidence.Base.Maybe.{◌>>=◌, ◌>>◌, guard}
use omega_evidence.Base.Utf8.{encode}
use omega_evidence.Value.{
  Value, Items, Fields, name, non_string, null, bool, int, float, str, list, tuple, dict, nil, cons,
  end, field,
}
use omega_evidence.Json.Print.{escape, print_int, print_bool, is_finite, sort_by_key, values, join}
use omega_evidence.Canonical.{safe_int}
use omega_evidence.Ledger.Chain.{without}
use omega_evidence.Verifier.Forms.{hex}
use omega_evidence.Trail.Merkle.{Hash}
use omega_evidence.Trail.Number.{es6_number}

-- `is_zero` is f == 0; `double_of` is the repr of float(x), none for the OverflowError.
pub record Hasher : Type 0 where
  pub is_zero : Text → Bool
  pub double_of : ℤ → Option Text
  pub sha256 : List ℕ → Hash

abbrev pub jcs_max_depth : ℕ
jcs_max_depth = 512

-- json.dumps(s, ensure_ascii=False)
unfoldable pub raw_escapes : Text → Text
unfolding escape
raw_escapes [] = []
raw_escapes (c ∷ s) = (if ltb c 32 || c == 34 || c == 92 then escape c else c ∷ []) ++ raw_escapes s

abbrev pub quoted : Text → Text
quoted s = 34 ∷ (raw_escapes s ++ (34 ∷ []))

abbrev units_of : ℕ → Option Text
units_of c =
    if leb 0xD800 c && leb c 0xDFFF
    then none
    else if ltb c 65536
    then some (c ∷ [])
    else some ((0xD800 + (c - 65536) / 1024) ∷ (0xDC00 + (c - 65536) % 1024) ∷ [])

-- k.encode("utf-16-be"), as its 16-bit units
unfoldable pub utf16 : Text → Option (List ℕ)
utf16 [] = some []
utf16 (c ∷ s) = do u ← units_of c; us ← utf16 s; some (u ++ us)

module _ (h : Hasher) (strict : Bool) where
  abbrev big_int : ℤ → Option Text
  big_int z = if strict then none else h.double_of z >>= λ r. some (es6_number (h.is_zero r) r)

  unfoldable mutual
    unfolding raw_escapes utf16 es6_number print_int print_bool is_finite sort_by_key values join

    -- `enc` at a depth that is not refused
    pub enc_value : ℕ → Value → Option Text
    enc_value depth null = some (codes "null")
    enc_value depth (bool b) = some (print_bool b)
    enc_value depth (int z) = if ltb safe_int (abs z) then big_int z else some (print_int z)
    enc_value depth (float r) = guard (is_finite r) >> some (es6_number (h.is_zero r) r)
    enc_value depth (str s) = some (quoted s)
    enc_value depth (list vs) = do
      ts ← enc_items (suc depth) vs
      some (91 ∷ (join (codes ",") ts ++ (93 ∷ [])))
    enc_value depth (tuple vs) = do
      ts ← enc_items (suc depth) vs
      some (91 ∷ (join (codes ",") ts ++ (93 ∷ [])))
    enc_value depth (dict fs) = do
      ms ← enc_fields (suc depth) fs
      some (123 ∷ (join (codes ",") (values (sort_by_key ms)) ++ (125 ∷ [])))
    enc_value depth _ = none

    pub enc_items : ℕ → Items → Option (List Text)
    enc_items depth nil = some []
    enc_items depth (cons v vs) = do
      guard (leb depth jcs_max_depth)
      t ← enc_value depth v
      ts ← enc_items depth vs
      some (t ∷ ts)

    -- Each member with the key by which it is sorted.
    pub enc_fields : ℕ → Fields → Option (List (List ℕ × Text))
    enc_fields depth end = some []
    enc_fields depth (field (name k) v fs) = do
      guard (leb depth jcs_max_depth)
      u ← utf16 k
      t ← enc_value depth v
      ms ← enc_fields depth fs
      some ((u, quoted k ++ (58 ∷ t)) ∷ ms)
    enc_fields depth (field (non_string k) v fs) = none

  unfoldable pub jcs : Value → Option (List ℕ)
  unfolding enc_value encode
  jcs v = do t ← enc_value 0 v; encode t

  -- `_no_batch`
  abbrev pub no_batch : Fields → Fields
  no_batch r = without (codes "batch") r

  -- `record_hash`
  unfoldable pub record_hash : Fields → Option Text
  unfolding jcs without hex
  record_hash r = do t ← jcs (dict (no_batch r)); some (hex (h.sha256 t))

  -- `leaf_hash`
  unfoldable pub leaf_hash : Fields → Option Hash
  unfolding jcs without
  leaf_hash r = do t ← jcs (dict (no_batch r)); some (h.sha256 (0 ∷ t))
