-- ===== src/Ledger/Portable.antt =====
-- `_check_portable` of omega_evidence/ledger.py: what `Ledger.append` refuses to write.
use omega_evidence.Base.{ltb}
use omega_evidence.Base.Int.{abs}
use omega_evidence.Base.Result.{Result, ok, err, ◌>>◌, raise_if}
use omega_evidence.Value.{
  Value, Items, Fields, name, non_string, float, int, str, list, tuple, set, dict, nil, cons, end,
  field,
}
use omega_evidence.Canonical.{
  Refusal, lone_surrogate, float_refused, int_out_of_range, key_not_string, safe_int, has_surrogate,
}

-- The keys are tested for their type alone.
unfoldable mutual
  unfolding has_surrogate

  pub check_portable : Value → Result Refusal (Unit {0})
  check_portable (float r) = err float_refused
  check_portable (str t) = raise_if (has_surrogate t) lone_surrogate
  check_portable (int z) = raise_if (ltb safe_int (abs z)) int_out_of_range
  check_portable (dict fs) = check_fields fs
  check_portable (list vs) = check_items vs
  check_portable (tuple vs) = check_items vs
  check_portable (set vs) = check_items vs
  check_portable _ = ok tt

  pub check_items : Items → Result Refusal (Unit {0})
  check_items nil = ok tt
  check_items (cons v vs) = do check_portable v; check_items vs

  pub check_fields : Fields → Result Refusal (Unit {0})
  check_fields end = ok tt
  check_fields (field (name k) v fs) = do check_portable v; check_fields fs
  check_fields (field (non_string k) v fs) = err key_not_string
