-- ===== src/Verifier/Signature.antt =====
-- `_check_signature_and_trust` of omega_evidence/verifier.py. It returns the layers that it
-- appends, the status of the signature, and what the authenticity layer reads.
use omega_evidence.Base.{
  Bool, true, false, not, ◌&&◌, Option, none, some, List, [], ◌∷◌, ◌++◌, if◌then◌else◌,
}
use omega_evidence.Base.Text.{Text, codes, ◌===◌, is_empty}
use omega_evidence.Base.Maybe.{is_some}
use omega_evidence.Base.Utf8.{decode}
use omega_evidence.Base.Result.{ok, err}
use omega_evidence.Value.{Value, Fields, str, null}
use omega_evidence.Ledger.Chain.{get, is_text, strip, verify_text, entries_text, entry_of}
use omega_evidence.Trust.Store.{State, replay}
use omega_evidence.Trust.Registry.{is_trusted, pinned_pq}
use omega_evidence.Verifier.Report.{
  Layer, layer, passed, failed as fail, skipped, producer_signature, trusted_signer, Status,
}
use omega_evidence.Verifier.Forms.{
  Host, b64_bytes, fold_alg, signed_utc_ok, fingerprint_of, verify_signature, is_lower_hex,
}
use omega_evidence.Verifier.Checks.{File, has_unknown, check_pq_cosignature}

abbrev pub sig_sidecar_keys : List Text
sig_sidecar_keys =
    codes "signer_id"
    ∷ codes "sig_alg"
    ∷ codes "public_key_b64"
    ∷ codes "fingerprint"
    ∷ codes "signed_pack_sha3"
    ∷ codes "signature_b64"
    ∷ codes "signed_utc"
    ∷ codes "pq_sig_alg"
    ∷ codes "pq_public_key_b64"
    ∷ codes "pq_signature_b64"
    ∷ []

abbrev pub ed25519_name : Text
ed25519_name = codes "ed25519"

-- The last value that the function returns, where it is read.
pub data Why : Type 0 where
  ordinary required unverified : Why

pub record Signed : Type 0 where
  pub layers : List Layer
  pub sig_status : Status
  pub trusted : Bool
  pub trust_failed : Bool
  pub why : Why

-- The layer is FAIL, and nothing else is appended.
abbrev pub refused : Bool → Why → Signed
refused trust_failed why = record {
  layers = layer producer_signature fail ∷ [];
  sig_status = fail;
  trusted = false;
  trust_failed = trust_failed;
  why = why;
}

abbrev pub unchecked : Why → Signed
unchecked why = record {
  layers = layer producer_signature skipped ∷ [];
  sig_status = skipped;
  trusted = false;
  trust_failed = false;
  why = why;
}

-- The signature is good: what the layers behind it say.
abbrev pub accepted : List Layer → Bool → Bool → Signed
accepted more trusted trust_failed = record {
  layers = layer producer_signature passed ∷ more;
  sig_status = passed;
  trusted = trusted;
  trust_failed = trust_failed;
  why = ordinary;
}

-- A field that may be absent; `test` is what it must satisfy if it is there.
abbrev pub absent_or : (Value → Bool) → Option Value → Bool
absent_or test none = true
absent_or test (some v) = test v

abbrev pub text_or_empty : Option Value → Text
text_or_empty (some (str t)) = t
text_or_empty _ = []

abbrev data_of : Option Value → Value
data_of none = null
data_of (some v) = v

-- `expected_pq or (...)`, where "" stands for no key
abbrev pub pin_or : Text → Option Text → Text
pin_or (c ∷ t) pin = c ∷ t
pin_or [] none = []
pin_or [] (some t) = t

data_list : List Fields → List Value
unfolding get
data_list [] = []
data_list (e ∷ es) = data_of (get (codes "data") e) ∷ data_list es

-- side.get("sig_alg", "ed25519")
abbrev pub alg_of : Option Value → Option Text
alg_of none = some ed25519_name
alg_of (some (str t)) = if is_empty t then none else some t
alg_of (some _) = none

abbrev pub sig_object : File → Option Fields
sig_object none = none
sig_object (some raw) = elim (decode raw) [ none ↦ none | some text ↦ entry_of (strip text) ]

module _ (h : Host) where
  abbrev stored_state : Text → Option State
  stored_state text =
      if (verify_text h.sha256 text).0
      then elim (entries_text text) [
        | none ↦ none
        | some es ↦ elim (replay [] (data_list es)) [ err e ↦ none | ok st ↦ some st ]
      ]
      else none

  -- `TrustRegistry.replay(read_input(...))`; none where it raises.
  unfoldable pub open_store : File → Option State
  unfolding decode verify_text entries_text replay data_list
  open_store none = none
  open_store (some raw) = elim (decode raw) [ none ↦ none | some text ↦ stored_state text ]

  -- The fields that a signed sidecar has beside the algorithm, for the digest of the pack.
  unfoldable pub well_formed : Fields → Text → Bool
  unfolding b64_bytes fingerprint_of signed_utc_ok get is_text is_lower_hex
  well_formed side current = elim (b64_bytes h (get (codes "public_key_b64") side) 32) [
    | none ↦ false
    | some raw ↦
        is_some (b64_bytes h (get (codes "signature_b64") side) 64)
        && is_lower_hex current
        && absent_or (λ v. is_text (some v) (fingerprint_of h raw)) (get (codes "fingerprint") side)
        && absent_or signed_utc_ok (get (codes "signed_utc") side)
        && not (is_empty (text_or_empty (get (codes "signer_id") side)))
  ]

  -- The registry, if a store is named, for the signer and the key of the sidecar.
  unfoldable pub signed_by : Option File → Text → Bool → Fields → Text → Signed
  unfolding open_store check_pq_cosignature is_trusted pinned_pq get
  signed_by store expected_pq require_pq side current =
      let sid = text_or_empty (get (codes "signer_id") side) in
      let key = text_or_empty (get (codes "public_key_b64") side) in
      elim store [
        | none ↦ accepted (check_pq_cosignature h side current expected_pq require_pq).0 false false
        | some file ↦ elim (open_store file) [
          | none ↦
              accepted
                ((check_pq_cosignature h side current expected_pq require_pq).0
                  ++ (layer trusted_signer fail ∷ []))
                false true
          | some st ↦
              let trusted = is_trusted sid key st in
              let pin = pin_or expected_pq (if trusted then pinned_pq sid st else none) in
              accepted
                ((check_pq_cosignature h side current pin require_pq).0
                  ++ (layer trusted_signer (if trusted then passed else fail) ∷ []))
                trusted (not trusted)
        ]
      ]

  -- The algorithm is `ed25519`.
  unfoldable pub check_ed25519 : Option File → Text → Bool → Fields → Text → Signed
  unfolding well_formed signed_by verify_signature get is_text
  check_ed25519 store expected_pq require_pq side current =
      if not (well_formed side current)
      then refused false ordinary
      else if is_text (get (codes "signed_pack_sha3") side) current
          && verify_signature h (text_or_empty (get (codes "public_key_b64") side))
              (text_or_empty (get (codes "signature_b64") side)) current
      then signed_by store expected_pq require_pq side current
      else refused false ordinary

  unfoldable pub check_alg : Option Text → Option File → Text → Bool → Bool → Fields → Text → Signed
  unfolding check_ed25519 fold_alg
  check_alg none store expected_pq require_pq require_signed side current = refused false ordinary
  check_alg (some alg) store expected_pq require_pq require_signed side current =
      if alg === ed25519_name
      then check_ed25519 store expected_pq require_pq side current
      else if fold_alg alg === ed25519_name
      then refused false ordinary
      else if require_signed
      then refused false required
      else unchecked unverified

  abbrev pub check_side : Option Fields → Option File → Text → Bool → Bool → Text → Signed
  check_side none store expected_pq require_pq require_signed current = refused false ordinary
  check_side (some side) store expected_pq require_pq require_signed current =
      if has_unknown sig_sidecar_keys side
      then refused true ordinary
      else check_alg (alg_of (get (codes "sig_alg") side)) store expected_pq require_pq
          require_signed side current

  -- `_check_signature_and_trust`; no file where there is no sidecar.
  unfoldable pub check_signature_and_trust :
      Option File → Option File → Text → Bool → Bool → Text → Signed
  unfolding check_alg has_unknown get decode entry_of strip
  check_signature_and_trust none store expected_pq require_pq require_signed current =
      if require_signed then refused false required else unchecked ordinary
  check_signature_and_trust (some file) store expected_pq require_pq require_signed current =
      check_side (sig_object file) store expected_pq require_pq require_signed current
