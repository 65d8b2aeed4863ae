-- ===== src/Verifier/Report.antt =====
-- The layers of a receipt of omega_evidence/verifier.py, and `_rollup`. The text of a detail is
-- left out, but for what the authenticity layer says; the clock is left out.
use omega_evidence.Base.{Bool, true, false, not, ◌&&◌, ◌||◌, Option, some, List, [], ◌∷◌, ◌++◌}

pub data LayerName : Type 0 where
  pack_json honest_scope pack_fields pack_sha3 ledger_chain rfc3161 ltv_material : LayerName
  producer_signature pq_signature trusted_signer authenticity internal : LayerName

pub data Status : Type 0 where
  passed failed skipped : Status

-- The wording of the authenticity layer; `plain` on the others.
pub data Detail : Type 0 where
  plain trusted_signed signed invalid_signature required_signature untrusted_signer : Detail
  anchored unauthenticated anchored_unverified unauthenticated_unverified : Detail

-- `assessed` is true where the layer does not carry the key.
pub record Layer : Type 0 where
  pub name : LayerName
  pub status : Status
  pub detail : Detail
  pub assessed : Bool

-- `_layer`
abbrev pub layer : LayerName → Status → Layer
layer n s = record { name = n; status = s; detail = plain; assessed = true }

abbrev pub is_pass : Status → Bool
is_pass passed = true
is_pass _ = false

abbrev pub is_fail : Status → Bool
is_fail failed = true
is_fail _ = false

-- x["status"] in ("PASS", "FAIL")
abbrev pub is_checked : Status → Bool
is_checked skipped = false
is_checked _ = true

unfoldable pub any_checked : List Layer → Bool
any_checked [] = false
any_checked (l ∷ ls) = is_checked l.status || any_checked ls

-- Every checked layer passes.
unfoldable pub none_failed : List Layer → Bool
none_failed [] = true
none_failed (l ∷ ls) = (not (is_checked l.status) || is_pass l.status) && none_failed ls

-- `bool(judged)`
unfoldable pub any_judged : List Layer → Bool
any_judged [] = false
any_judged (l ∷ ls) = (is_fail l.status && l.assessed) || any_judged ls

-- `bool(absent)`
unfoldable pub any_absent : List Layer → Bool
any_absent [] = false
any_absent (l ∷ ls) = not l.assessed || any_absent ls

-- The receipt; `pq_protected` is none for null.
pub record Receipt : Type 0 where
  pub valid : Bool
  pub assessed : Bool
  pub layers : List Layer
  pub pq_protected : Option Bool
  pub authenticated : Bool

-- `_rollup`, with the two keys that its callers set.
unfoldable pub rollup : List Layer → Option Bool → Bool → Receipt
unfolding any_checked none_failed any_judged any_absent
rollup layers pq auth = record {
  valid = any_checked layers && none_failed layers;
  assessed = any_judged layers || not (any_absent layers);
  layers = layers;
  pq_protected = pq;
  authenticated = auth;
}

-- `internal_error_receipt`
unfoldable pub internal_error_receipt : List Layer → Receipt
unfolding rollup
internal_error_receipt layers =
    let lay = record (layer internal failed) { assessed = false } in
    rollup (layers ++ (lay ∷ [])) (some false) false
