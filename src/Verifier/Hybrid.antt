-- ===== src/Verifier/Hybrid.antt =====
-- What a required post-quantum layer demands of a pack that is valid.
use omega_evidence.Base.{
  Bool, true, false, not, ◌||◌, Option, none, some, List, [], ◌∷◌, ◌++◌, if◌then◌else◌, ◌≡◌, ◌≢◌,
  refl, inl, inr, Option-cases, ◌⊎◌, ◌∙◌,
}
use omega_evidence.Base.Text.{Text, codes, is_empty}
use omega_evidence.Value.{Fields}
use omega_evidence.Ledger.Chain.{get}
use omega_evidence.Trust.Store.{State}
use omega_evidence.Trust.Registry.{is_trusted, pinned_pq}
use omega_evidence.Verifier.Report.{
  Layer, layer, producer_signature, trusted_signer, Status, passed, failed as fail, skipped,
  none_failed, is_pass,
}
use omega_evidence.Verifier.Forms.{Host}
use omega_evidence.Verifier.Checks.{File, check_pq_cosignature, digest_text}
use omega_evidence.Verifier.Signature.{signed_by, open_store, text_or_empty, pin_or}
use omega_evidence.Verifier.Signer.{Checked, signature-passed}
use omega_evidence.Verifier.Verdict.{Request, verify_pack, sig_of, hybrid}
use omega_evidence.Verifier.Authentic.{verify_pack-cases, Judged, is_pass-eq}
use omega_evidence.Verifier.Demands.{finish-valid, layers-clean, both}
use omega_evidence.Verifier.PqLayer.{PqVerified, required-PqVerified}

-- The pinned key: the caller's, or the one that the trust store binds to the signer of the
-- sidecar, whose Ed25519 key it trusts.
abbrev pub IsPin : Host → Option File → Fields → Text → Text → Type 0
IsPin h store side expected pin =
    (pin ≡ expected)
    ⊎ ((file : File) × (st : State) × (store ≡ some file)
        × (open_store h file ≡ some st)
        × (is_trusted (text_or_empty (get (codes "signer_id") side))
              (text_or_empty (get (codes "public_key_b64") side)) st
            ≡ true)
        × (pinned_pq (text_or_empty (get (codes "signer_id") side)) st ≡ some pin))

still_required :
    (require_pq : Bool) (expected : Text) (o : Option Text)
    → (require_pq || not (is_empty expected)) ≡ true
    → (require_pq || not (is_empty (pin_or expected o))) ≡ true
still_required true expected o r = refl
still_required false [] o r = cc
still_required false (c ∷ t) o r = refl

pin_source :
    (expected : Text) (o : Option Text)
    → (pin_or expected o ≡ expected) ⊎ (o ≡ some (pin_or expected o))
pin_source (c ∷ t) o = inl refl
pin_source [] none = inl refl
pin_source [] (some t) = inr refl

head_passes :
    (ls : List Layer)
    → none_failed (layer producer_signature passed ∷ ls) ≡ true
    → none_failed ls ≡ true
unfolding none_failed
head_passes ls e = e

module _ (h : Host) (side : Fields) (digest expected : Text) (require_pq : Bool)
    (r : (require_pq || not (is_empty expected)) ≡ true) where
  abbrev Outcome : Option File → Type 0
  Outcome store = (pin : Text) × IsPin h store side expected pin × PqVerified h side digest pin

  trusted-Outcome :
      (file : File) (st : State) (o : Option Text)
      → open_store h file ≡ some st
      → is_trusted
          (text_or_empty (get (codes "signer_id") side))
          (text_or_empty (get (codes "public_key_b64") side))
          st
        ≡ true
      → pinned_pq (text_or_empty (get (codes "signer_id") side)) st ≡ o
      → none_failed (check_pq_cosignature h side digest (pin_or expected o) require_pq).0 ≡ true
      → Outcome (some file)
  trusted-Outcome file st o opened live e n = (
    _,
    source (pin_source expected o),
    required-PqVerified h side digest _ require_pq (still_required require_pq expected o r) n,
  )
    where
      source :
          (pin_or expected o ≡ expected) ⊎ (o ≡ some (pin_or expected o))
          → IsPin h (some file) side expected (pin_or expected o)
      source (inl given) = inl given
      source (inr bound) = inr (file, st, refl, opened, live, e ∙ bound)

  passes_both :
      (ls : List Layer) (s : Status)
      → none_failed (layer producer_signature passed ∷ (ls ++ (layer trusted_signer s ∷ []))) ≡ true
      → (none_failed ls ≡ true) × (none_failed (layer trusted_signer s ∷ []) ≡ true)
  unfolding none_failed
  passes_both ls s e = both ls (layer trusted_signer s ∷ []) e

  cannot_fail :
      (ls : List Layer)
      → none_failed (layer producer_signature passed ∷ (ls ++ (layer trusted_signer fail ∷ [])))
        ≢ true
  unfolding none_failed
  cannot_fail ls e = absurd (untrue (passes_both ls fail e).1)
    where
      untrue : false ≢ true
      untrue = cc

  by_trust :
      (t : Bool) (o : Option Text)
      → none_failed (
          layer producer_signature passed
          ∷ ((check_pq_cosignature h side digest
                (pin_or expected (if t then o else none))
                require_pq).0
              ++ (layer trusted_signer (if t then passed else fail) ∷ [])))
        ≡ true
      → (t ≡ true)
        × (none_failed (check_pq_cosignature h side digest (pin_or expected o) require_pq).0 ≡ true)
  unfolding none_failed
  by_trust true o e = (
    refl,
    (passes_both (check_pq_cosignature h side digest (pin_or expected o) require_pq).0 passed e).0,
  )
  by_trust false o e =
      absurd
        (cannot_fail (check_pq_cosignature h side digest (pin_or expected none) require_pq).0 e)

  signed_by-Outcome :
      (store : Option File)
      → none_failed (signed_by h store expected require_pq side digest).layers ≡ true
      → Outcome store
  unfolding signed_by
  signed_by-Outcome none e =
      (expected, inl refl, required-PqVerified h side digest expected require_pq r (only_one e))
    where
      only_one :
          none_failed (
              layer producer_signature passed
              ∷ (check_pq_cosignature h side digest expected require_pq).0)
            ≡ true
          → none_failed (check_pq_cosignature h side digest expected require_pq).0 ≡ true
      only_one k = head_passes _ k
  signed_by-Outcome (some file) e = elim (Option-cases (open_store h file)) [
    | inl broken ↦ absurd (
        cannot_fail (check_pq_cosignature h side digest expected require_pq).0
          (rw (broken, signed_by) at e))
    | inr (st, opened) ↦
        let (live, n) =
          by_trust _ (pinned_pq (text_or_empty (get (codes "signer_id") side)) st)
            (rw (opened, signed_by) at e) in
        trusted-Outcome file st _ opened live refl n
  ]

-- The sidecar and the pin of a pack that is valid although the post-quantum layer is required.
pub record Hybrid (h : Host) (q : Request) : Type 0 where
  pub judged : Judged h q
  pub checked :
      Checked h q.signature q.trust_store (digest_text (get (codes "pack_sha3") judged.pack))
  pub pin : Text
  pub is_pin : IsPin h q.trust_store checked.side q.expected_pq pin
  pub verified : PqVerified h checked.side (digest_text (get (codes "pack_sha3") judged.pack)) pin

hybrid-passed :
    (h : Host) (q : Request) (s : Status)
    → (q.require_pq || not (is_empty q.expected_pq)) ≡ true
    → none_failed (hybrid h q s) ≡ true
    → is_pass s ≡ true
unfolding none_failed
hybrid-passed h q passed r e = refl
hybrid-passed h q fail r e = cc (rw r at e)
hybrid-passed h q skipped r e = cc (rw r at e)

-- A `valid` receipt for a request that requires the post-quantum layer, by `require_pq` or by a
-- pinned key, means that the pack has both signatures over its declared digest: the Ed25519 one,
-- and one of a registered post-quantum algorithm that verifies under the pinned key. That key is
-- the caller's, or the one that the trust store binds to a signer whose Ed25519 key it trusts.
pub valid-Hybrid :
    (h : Host) (q : Request)
    → (verify_pack h q).valid ≡ true
    → (q.require_pq || not (is_empty q.expected_pq)) ≡ true
    → Hybrid h q
valid-Hybrid h q e r = elim (verify_pack-cases h q) [
  | inr bad ↦ cc
  | inl j ↦
      let digest = digest_text (get (codes "pack_sha3") j.pack) in
      let (_, _, layers, hyb, _) =
        layers-clean h q j.raw j.pack (finish-valid h q j.raw j.pack (rw j.ends at e)) in
      let good = is_pass-eq _ (hybrid-passed h q (sig_of h q j.pack).sig_status r hyb) in
      let (c, same) =
        signature-passed h q.trust_store q.expected_pq q.require_pq q.require_signed digest
          q.signature good in
      let (pin, is_pin, verified) =
        signed_by-Outcome h c.side digest q.expected_pq q.require_pq r q.trust_store
          (rw same at layers) in
      record { judged = j; checked = c; pin = pin; is_pin = is_pin; verified = verified }
]
