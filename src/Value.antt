-- ===== src/Value.antt =====
-- Python objects as the package meets them: what `json.loads` returns, and what a caller of
-- `canonical_json` or `Ledger.append` may pass.
use omega_evidence.Base.{Bool, true, false, not}
use omega_evidence.Base.Text.{Text, is_empty}
use omega_evidence.Base.Int.{ℤ, is_nat}

-- A dict key: a str, or anything else (with its text).
pub data Key : Type 0 where
  name : Text → Key
  non_string : Text → Key

mutual
  pub data Value : Type 0 where
    null : Value
    bool : Bool → Value
    int : ℤ → Value
    -- a float, by its repr
    float : Text → Value
    str : Text → Value
    list : Items → Value
    tuple : Items → Value
    set : Items → Value
    dict : Fields → Value
    -- by str(o), o.isoformat() and the bytes
    decimal : Text → Value
    datetime : Text → Value
    date : Text → Value
    bytes : Text → Value
    -- any other type, by its name
    object : Text → Value

  pub data Items : Type 0 where
    nil : Items
    cons : Value → Items → Items

  pub data Fields : Type 0 where
    end : Fields
    field : Key → Value → Fields → Fields

abbrev pub is_str : Value → Bool
is_str (str t) = true
is_str _ = false

abbrev pub is_dict : Value → Bool
is_dict (dict f) = true
is_dict _ = false

-- bool(v) of a JSON value; the argument says which floats are zero.
unfoldable pub truth : (Text → Bool) → Value → Bool
truth is_zero null = false
truth is_zero (bool b) = b
truth is_zero (int z) = not (is_nat z 0)
truth is_zero (float t) = not (is_zero t)
truth is_zero (str t) = not (is_empty t)
truth is_zero (list nil) = false
truth is_zero (dict end) = false
truth is_zero _ = true
