-- ===== src/Canonical.antt =====
-- omega_evidence/canonical.py: which objects may be hashed, and their canonical serialisation.
-- SHA3-256 is a parameter of what uses it: its hex digest as a function from bytes to text.
pub mod Accepts
use omega_evidence.Base.{ℕ, ◌-◌, ◌^◌, Bool, false, not, ◌&&◌, ◌||◌, none, some, [], ◌∷◌, ltb, leb}
use omega_evidence.Base.Text.{Text, ◌===◌}
use omega_evidence.Base.Int.{abs}
use omega_evidence.Base.Result.{Result, ok, err, ◌>>=◌, ◌>>◌, raise_if}
use omega_evidence.Value.{
  Value, Items, Fields, name, non_string, float, int, str, list, tuple, set, dict, nil, cons, end,
  field,
}
use omega_evidence.Json.Print.{print, tight, tag_key}

-- The reasons of the ValueErrors, and the TypeError of the encoder.
pub data Refusal : Type 0 where
  lone_surrogate float_refused int_out_of_range reserved_key key_not_string type_refused : Refusal

abbrev pub safe_int : ℕ
safe_int = 2 ^ 53 - 1

-- any(0xD800 <= ord(ch) <= 0xDFFF for ch in s)
unfoldable pub has_surrogate : Text → Bool
has_surrogate [] = false
has_surrogate (c ∷ s) = (leb 0xD800 c && leb c 0xDFFF) || has_surrogate s

-- `t in obj` for a dict
unfoldable pub has_key : Text → Fields → Bool
has_key t end = false
has_key t (field (name k) v fs) = (k === t) || has_key t fs
has_key t (field (non_string k) v fs) = has_key t fs

unfoldable mutual
  unfolding has_surrogate has_key

  pub reject_reserved : Bool → Value → Result Refusal (Unit {0})
  reject_reserved allow (str t) = raise_if (has_surrogate t) lone_surrogate
  reject_reserved allow (float r) = err float_refused
  reject_reserved allow (int z) = raise_if (ltb safe_int (abs z)) int_out_of_range
  reject_reserved allow (dict fs) = do
    raise_if (has_key tag_key fs && not allow) reserved_key
    reject_fields allow fs
  reject_reserved allow (list vs) = reject_items allow vs
  reject_reserved allow (tuple vs) = reject_items allow vs
  reject_reserved allow (set vs) = reject_items allow vs
  reject_reserved allow _ = ok tt

  pub reject_items : Bool → Items → Result Refusal (Unit {0})
  reject_items allow nil = ok tt
  reject_items allow (cons v vs) = do reject_reserved allow v; reject_items allow vs

  pub reject_fields : Bool → Fields → Result Refusal (Unit {0})
  reject_fields allow end = ok tt
  reject_fields allow (field (name k) v fs) = do
    raise_if (has_surrogate k) lone_surrogate
    reject_reserved allow v
    reject_fields allow fs
  reject_fields allow (field (non_string k) v fs) = err key_not_string

-- The bytes are ASCII, so they are the characters of the text.
unfoldable pub canonical_json : Value → Bool → Result Refusal Text
canonical_json v allow_tag = do
  reject_reserved allow_tag v
  elim (print tight v) [ none ↦ err type_refused | some t ↦ ok t ]

module _ (sha3_256 : Text → Text) where
  unfoldable pub sha3 : Value → Bool → Result Refusal Text
  unfolding canonical_json
  sha3 v from_text = do t ← canonical_json v from_text; ok (sha3_256 t)
