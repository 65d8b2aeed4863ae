-- ===== src/Verifier/Verdict.antt =====
-- `_decide_authenticity`, `_verify_pack` and `verify_pack` of omega_evidence/verifier.py.
use omega_evidence.Base.{
  ℕ, Bool, true, false, not, ◌&&◌, ◌||◌, Option, none, some, List, [], ◌∷◌, ◌++◌, if◌then◌else◌,
}
use omega_evidence.Base.Text.{Text, codes, is_empty}
use omega_evidence.Base.Utf8.{decode}
use omega_evidence.Base.Result.{ok, err}
use omega_evidence.Value.{Fields, dict}
use omega_evidence.Canonical.{sha3}
use omega_evidence.Ledger.Chain.{get, is_text, strip, without, entry_of}
use omega_evidence.Verifier.Report.{
  Layer, layer, passed, failed as fail, skipped, Status, Receipt, rollup, internal_error_receipt,
  Detail, is_pass, pack_json, honest_scope, pack_fields, pack_sha3, pq_signature, authenticity,
  trusted_signed, signed, invalid_signature, required_signature, untrusted_signer, anchored,
  unauthenticated, anchored_unverified, unauthenticated_unverified, LayerName,
}
use omega_evidence.Verifier.Scope.{declares_limit}
use omega_evidence.Verifier.Forms.{Host}
use omega_evidence.Verifier.Checks.{File, check_ledger, check_timestamp, digest_text}
use omega_evidence.Verifier.Signature.{Signed, Why, required, unverified, check_signature_and_trust}

-- The arguments of `verify_pack`, with what its paths lead to. An optional file is none where
-- there is none. `expected_pq` is "" for None; `inject` is the test hook of the environment.
pub record Request : Type 0 where
  pub pack : File
  pub ledger : Option File
  pub timestamp : Option File
  pub signature : Option File
  pub trust_store : Option File
  pub expected_pq : Text
  pub require_pq : Bool
  pub require_signed : Bool
  pub inject : Bool

abbrev judged : Status → Detail → Layer
judged s d = record (layer authenticity s) { detail = d }

abbrev noted : Why → Detail → Detail → Detail
noted unverified quiet note = note
noted _ quiet note = quiet

-- `_decide_authenticity`: the layer that it appends.
unfoldable pub decide_authenticity : Status → Bool → Bool → Bool → Why → Layer
decide_authenticity fail trusted trust_failed ledger_ok required = judged fail required_signature
decide_authenticity fail trusted trust_failed ledger_ok _ = judged fail invalid_signature
decide_authenticity s trusted trust_failed ledger_ok why =
    if trust_failed
    then judged fail untrusted_signer
    else if trusted
    then judged passed trusted_signed
    else if is_pass s
    then judged passed signed
    else if ledger_ok
    then judged passed (noted why anchored anchored_unverified)
    else judged fail (noted why unauthenticated unauthenticated_unverified)

abbrev pub is_pq : LayerName → Bool
is_pq pq_signature = true
is_pq _ = false

abbrev pub tri_state : Status → Option Bool
tri_state passed = some true
tri_state skipped = none
tri_state fail = some false

-- The first layer `pq-signature`, as the tri-state.
unfoldable pub pq_protected_of : List Layer → Option Bool
pq_protected_of [] = some false
pq_protected_of (l ∷ ls) =
    let rest = pq_protected_of ls in if is_pq l.name then tri_state l.status else rest

abbrev pub status_if : Bool → Status
status_if true = passed
status_if false = fail

-- The object that the bytes of the pack are.
abbrev pub pack_of : List ℕ → Option Fields
pack_of raw = elim (decode raw) [ none ↦ none | some text ↦ entry_of (strip text) ]

module _ (h : Host) where
  -- The declared digest is the one of the body.
  unfoldable pub digest_ok : Fields → Bool
  unfolding sha3 get is_text without
  digest_ok pack = elim (sha3 h.sha3_256 (dict (without (codes "pack_sha3") pack)) true) [
    | err e ↦ false
    | ok computed ↦ not (is_empty computed) && is_text (get (codes "pack_sha3") pack) computed
  ]

  -- The layers before the ones that read other files.
  abbrev pub own_layers : Fields → List Layer
  own_layers pack =
      layer pack_json passed
      ∷ layer honest_scope (status_if (declares_limit (get (codes "honest_scope") pack)))
      ∷ layer pack_fields skipped
      ∷ layer pack_sha3 (status_if (digest_ok pack))
      ∷ []

  abbrev pub sig_of : Request → Fields → Signed
  sig_of q pack =
      check_signature_and_trust h q.signature q.trust_store q.expected_pq q.require_pq
        q.require_signed (digest_text (get (codes "pack_sha3") pack))

  -- Hybrid means both: a required post-quantum layer needs a good classical one.
  abbrev pub hybrid : Request → Status → List Layer
  hybrid q s =
      if (q.require_pq || not (is_empty q.expected_pq)) && not (is_pass s)
      then layer pq_signature fail ∷ []
      else []

  unfoldable pub layers_of : Request → List ℕ → Fields → List Layer
  unfolding digest_ok declares_limit check_ledger check_timestamp check_signature_and_trust
      decide_authenticity get
  layers_of q pack_bytes pack =
      let sig = sig_of q pack in
      let anchor = check_ledger h q.ledger pack in
      own_layers pack
      ++ anchor.0
      ++ (check_timestamp h q.timestamp pack_bytes).0
      ++ sig.layers
      ++ hybrid q sig.sig_status
      ++ (decide_authenticity sig.sig_status sig.trusted sig.trust_failed anchor.1 sig.why ∷ [])

  -- The end of `_verify_pack`, where no fault was injected.
  unfoldable pub finish : Request → List ℕ → Fields → Receipt
  unfolding layers_of pq_protected_of rollup digest_ok check_signature_and_trust get
  finish q pack_bytes pack =
      let sig = sig_of q pack in
      let layers = layers_of q pack_bytes pack in
      rollup layers (pq_protected_of layers)
        (digest_ok pack && is_pass sig.sig_status && not sig.trust_failed)

  abbrev no_pack : Receipt
  no_pack = rollup (layer pack_json fail ∷ []) (some false) false

  -- The pack was read, as these bytes, and as an object if it is one.
  unfoldable pub judge : Request → List ℕ → Option Fields → Receipt
  unfolding finish rollup internal_error_receipt digest_ok declares_limit get
  judge q pack_bytes none = no_pack
  judge q pack_bytes (some pack) =
      if q.inject then internal_error_receipt (own_layers pack) else finish q pack_bytes pack

  abbrev pub judge_file : Request → File → Receipt
  judge_file q none = no_pack
  judge_file q (some raw) = judge q raw (pack_of raw)

  unfoldable pub verify_pack : Request → Receipt
  unfolding judge rollup decode strip entry_of
  verify_pack q = judge_file q q.pack
