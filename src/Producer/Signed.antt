-- ===== src/Producer/Signed.antt =====
-- The sidecar that `sign_pack` of omega_evidence/pack.py writes, before the signature layer of
-- omega_evidence/verifier.py.
use omega_evidence.Base.{
  ℕ, ◌+◌, ◌*◌, ◌/◌, Bool, true, false, Option, none, some, List, ◌≡◌, refl, ap, ◌∙◌, length, ◌==◌,
  inl, inr, Option-cases,
}
use omega_evidence.Base.Text.{Text, ◌===◌, ===_refl, in_list, is_empty}
use omega_evidence.Value.{str, Fields}
use omega_evidence.Ledger.Chain.{get}
use omega_evidence.Verifier.Report.{passed}
use omega_evidence.Verifier.Forms.{
  Host, b64_bytes, signed_utc_ok, is_lower_hex, fingerprint_of, verify_signature,
}
use omega_evidence.Verifier.Checks.{File, has_unknown}
use omega_evidence.Verifier.Signature.{
  check_side, check_alg, check_ed25519, signed_by, open_store, well_formed,
}
use omega_evidence.Envelope.Identity.{Signer, Identity, public_key_b64, fingerprint, sign}
use omega_evidence.Envelope.RoundTrip.{IsSound}
use omega_evidence.Producer.Pack.{sign_sidecar, add_pq_signature}

-- The base64 of these n bytes has the length that RFC 4648 gives it, and is read back.
pub record IsCoded (h : Host) (n : ℕ) (bs : List ℕ) : Type 0 where
  pub sized : (length bs == n) ≡ true
  pub in_quads : (length (h.b64encode bs) == (n + 2) / 3 * 4) ≡ true
  pub decodes : h.b64decode (h.b64encode bs) ≡ some bs
  pub decodes_lax : h.b64decode_lax (h.b64encode bs) ≡ some bs

module _ (h : Host) where
  b64_bytes-IsCoded :
      (n : ℕ) (bs : List ℕ) → IsCoded h n bs → b64_bytes h (some (str (h.b64encode bs))) n ≡ some bs
  unfolding b64_bytes
  b64_bytes-IsCoded n bs c = rw (c.in_quads, c.decodes, c.sized, ===_refl (h.b64encode bs)) refl

  signed_by-passed :
      (store : Option File) (pin : Text) (require_pq : Bool) (side : Fields) (current : Text)
      → (signed_by h store pin require_pq side current).sig_status ≡ passed
  unfolding signed_by
  signed_by-passed none pin require_pq side current = refl
  signed_by-passed (some file) pin require_pq side current =
      elim (Option-cases (open_store h file)) [
        | inl e ↦ rw (e, signed_by) refl
        | inr (st, e) ↦ rw (e, signed_by) refl
      ]

  module _ (k : Signer) (i : Identity) (digest now : Text)
      (key_coded : IsCoded h 32 (k.seed_to_public i.seed))
      (sig_coded : IsCoded h 64 (k.seed_sign i.seed digest)) (sound : IsSound h k i)
      (is_hex : is_lower_hex digest ≡ true) (is_instant : signed_utc_ok (str now) ≡ true)
      (is_named : is_empty i.id_name ≡ false) where
    well_formed-sign_sidecar : well_formed h (sign_sidecar h k i digest now) digest ≡ true
    unfolding well_formed sign_sidecar get ◌===◌ public_key_b64 fingerprint sign
    well_formed-sign_sidecar =
        rw
          (
            key_coded.in_quads,
            key_coded.decodes,
            key_coded.sized,
            ===_refl (h.b64encode (k.seed_to_public i.seed)),
            well_formed,
          )
          (rw
            (
              sig_coded.in_quads,
              sig_coded.decodes,
              sig_coded.sized,
              ===_refl (h.b64encode (k.seed_sign i.seed digest)),
              is_hex,
              ===_refl (fingerprint_of h (k.seed_to_public i.seed)),
              is_instant,
              is_named,
            )
            refl)

    verified : verify_signature h (public_key_b64 h k i) (sign h k i digest) digest ≡ true
    unfolding verify_signature public_key_b64 sign
    verified =
        rw (key_coded.decodes_lax, verify_signature)
          (rw (sig_coded.decodes_lax, verify_signature)
            (rw (sound.not_weak, sound.signs digest) refl))

    -- It comes to the trust store.
    pub sign_sidecar-signed_by :
        (store : Option File) (pin : Text) (require_pq require_signed : Bool)
        → check_side h
            (some (sign_sidecar h k i digest now))
            store
            pin
            require_pq
            require_signed
            digest
          ≡ signed_by h store pin require_pq (sign_sidecar h k i digest now) digest
    unfolding sign_sidecar has_unknown get ◌===◌ in_list check_alg check_ed25519
    sign_sidecar-signed_by store pin require_pq require_signed =
        rw (well_formed-sign_sidecar, ===_refl digest, verified, check_ed25519) refl

    -- The signature layer passes on the sidecar that `sign_pack` writes, for the digest that it
    -- signs and with any trust store, pinned key and demands: where the digest is 64 lower-case
    -- hexadecimal characters, the time has the form of `signed_utc`, the identity has a name and
    -- verifies its own signatures under a key that is not weak, and base64 reads back this key
    -- and this signature.
    pub sign_sidecar-passed :
        (store : Option File) (pin : Text) (require_pq require_signed : Bool)
        → (check_side h
            (some (sign_sidecar h k i digest now))
            store
            pin
            require_pq
            require_signed
            digest).sig_status
          ≡ passed
    sign_sidecar-passed store pin require_pq require_signed =
        ap (λ s. s.sig_status) (sign_sidecar-signed_by store pin require_pq require_signed)
        ∙ signed_by-passed store pin require_pq (sign_sidecar h k i digest now) digest

    well_formed-add_pq_signature :
        (alg key sig : Text)
        → well_formed h (add_pq_signature alg key sig (sign_sidecar h k i digest now)) digest
          ≡ well_formed h (sign_sidecar h k i digest now) digest
    unfolding well_formed sign_sidecar add_pq_signature get ◌===◌ in_list
    well_formed-add_pq_signature alg key sig = refl

    -- The producer's signature still passes where `add_pq_signature` has added a post-quantum
    -- signature to the sidecar of `sign_pack`, whatever its algorithm, key and value, and with any
    -- trust store, pinned key and demands: where the digest is 64 lower-case hexadecimal
    -- characters, the time has the form of `signed_utc`, the identity has a name and verifies its
    -- own signatures under a key that is not weak, and base64 reads back this key and this
    -- signature.
    pub add_pq_signature-passed :
        (alg key sig : Text) (store : Option File) (pin : Text) (require_pq require_signed : Bool)
        → (check_side h
            (some (add_pq_signature alg key sig (sign_sidecar h k i digest now)))
            store
            pin
            require_pq
            require_signed
            digest).sig_status
          ≡ passed
    unfolding sign_sidecar add_pq_signature has_unknown get ◌===◌ in_list check_alg check_ed25519
    add_pq_signature-passed alg key sig store pin require_pq require_signed =
        rw
          (
            well_formed-add_pq_signature alg key sig ∙ well_formed-sign_sidecar,
            ===_refl digest,
            verified,
            check_ed25519,
          )
          (signed_by-passed store pin require_pq
            (add_pq_signature alg key sig (sign_sidecar h k i digest now)) digest)
