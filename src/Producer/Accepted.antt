-- ===== src/Producer/Accepted.antt =====
-- A pack of `build_pack` and its sidecar of `sign_pack`, of omega_evidence/pack.py, before the
-- verifier of omega_evidence/verifier.py.
use omega_evidence.Base.{
  ℕ, Bool, true, false, not, ◌&&◌, none, some, List, [], ◌∷◌, ◌≡◌, refl, sym, ap, ◌∙◌, untrue,
}
use omega_evidence.Base.Text.{Text, codes, is_empty}
use omega_evidence.Base.Result.{ok, after, ok-injective}
use omega_evidence.Value.{Value, Fields, str}
use omega_evidence.Canonical.{sha3, canonical_json}
use omega_evidence.Ledger.Chain.{get}
use omega_evidence.Verifier.Report.{is_pass}
use omega_evidence.Verifier.Forms.{Host, is_lower_hex, signed_utc_ok}
use omega_evidence.Verifier.Checks.{File, digest_text}
use omega_evidence.Verifier.Signature.{check_side, check_signature_and_trust, sig_object, signed_by}
use omega_evidence.Verifier.Verdict.{Request, verify_pack, judge, finish, pack_of, sig_of}
use omega_evidence.Verifier.Authentic.{finish-authenticated}
use omega_evidence.Envelope.Identity.{Signer, Identity}
use omega_evidence.Envelope.RoundTrip.{IsSound}
use omega_evidence.Producer.Pack.{build_pack, sign_sidecar}
use omega_evidence.Producer.Built.{IsBuilt, build_pack-IsBuilt, digest-IsBuilt}
use omega_evidence.Producer.Judged.{verify_pack-judge}
use omega_evidence.Producer.Signed.{IsCoded, sign_sidecar-signed_by}

hex_is_some : (t : Text) → is_lower_hex t ≡ true → is_empty t ≡ false
unfolding is_lower_hex
hex_is_some [] e = untrue e
hex_is_some (c ∷ t) e = refl

sha3-is_lower_hex :
    (hash : Text → Text) (v : Value) (allow : Bool) (d : Text)
    → ((t : Text) → is_lower_hex (hash t) ≡ true)
    → sha3 hash v allow ≡ ok d
    → is_lower_hex d ≡ true
unfolding sha3
sha3-is_lower_hex hash v allow d hexed e =
    after (canonical_json v allow) e
      (λ t is_t e1. ap is_lower_hex (sym (ok-injective e1)) ∙ hexed t)

module _ (h : Host) where
  sig_of-side :
      (q : Request) (pack : Fields) (digest : Text) (file : File) (side : Fields)
      → get (codes "pack_sha3") pack ≡ some (str digest)
      → q.signature ≡ some file
      → sig_object file ≡ some side
      → sig_of h q pack
        ≡ check_side h (some side) q.trust_store q.expected_pq q.require_pq q.require_signed digest
  unfolding check_signature_and_trust
  sig_of-side q pack digest file side declared is_file holds =
      ap
        (λ o.
          check_signature_and_trust h q.signature q.trust_store q.expected_pq q.require_pq
            q.require_signed (digest_text o))
        declared
      ∙ ap
          (λ o.
            check_signature_and_trust h o q.trust_store q.expected_pq q.require_pq q.require_signed
              digest)
          is_file
      ∙ ap (λ o. check_side h o q.trust_store q.expected_pq q.require_pq q.require_signed digest)
          holds

  no_store :
      (pin : Text) (require_pq : Bool) (side : Fields) (digest : Text)
      → let s = signed_by h none pin require_pq side digest in
        (is_pass s.sig_status && not s.trust_failed) ≡ true
  unfolding signed_by
  no_store pin require_pq side digest = refl

  judge-runs :
      (q : Request) (raw : List ℕ) (pack : Fields)
      → q.inject ≡ false
      → judge h q raw (some pack) ≡ finish h q raw pack
  unfolding judge
  judge-runs q raw pack runs = rw (runs, judge) refl

  same_digest :
      (body : Fields) (scope : Value) (pack : Fields) (digest : Text)
      → ((t : Text) → is_lower_hex (h.sha3_256 t) ≡ true)
      → IsBuilt h body scope pack
      → get (codes "pack_sha3") pack ≡ some (str digest)
      → is_lower_hex digest ≡ true
  same_digest body scope pack digest hexed b declared =
      ap (λ o. is_lower_hex (digest_text o)) (sym declared ∙ b.holds_digest)
      ∙ sha3-is_lower_hex h.sha3_256 _ false b.digest hexed b.hashed

  -- A file that the strict reader reads as what `build_pack` returned, beside a sidecar that it
  -- reads as what `sign_pack` writes for the digest of that pack, is authenticated, whatever the
  -- ledger and the time stamp are: where each SHA3-256 is 64 lower-case hexadecimal characters, the
  -- time of the signature has the form of `signed_utc`, the identity has a name and verifies its
  -- own signatures under a key that is not weak, base64 reads back this key and this signature,
  -- no trust store is named and no fault is injected.
  pub build_pack-authenticated :
      (k : Signer) (i : Identity) (kind : Text) (body : Fields) (scope : Value) (now : Text)
      (pack : Fields) (digest signed_at : Text) (q : Request) (raw : List ℕ) (file : File)
      → ((t : Text) → is_lower_hex (h.sha3_256 t) ≡ true)
      → build_pack h kind body scope now ≡ ok pack
      → get (codes "pack_sha3") pack ≡ some (str digest)
      → IsCoded h 32 (k.seed_to_public i.seed)
      → IsCoded h 64 (k.seed_sign i.seed digest)
      → IsSound h k i
      → signed_utc_ok (str signed_at) ≡ true
      → is_empty i.id_name ≡ false
      → q.pack ≡ some raw
      → pack_of raw ≡ some pack
      → q.signature ≡ some file
      → sig_object file ≡ some (sign_sidecar h k i digest signed_at)
      → q.trust_store ≡ none
      → q.inject ≡ false
      → (verify_pack h q).authenticated ≡ true
  build_pack-authenticated k i kind body scope now pack digest signed_at q raw file hexed built
        declared key sig sound instant named is_file reads is_side holds storeless runs =
      let b : IsBuilt h body scope pack = build_pack-IsBuilt h kind body scope now pack built in
      let side = sign_sidecar h k i digest signed_at in
      let intact = digest-IsBuilt h body scope pack (λ t. hex_is_some _ (hexed t)) b in
      let accepted =
        sig_of-side q pack digest file side declared is_side holds
        ∙ sign_sidecar-signed_by h k i digest signed_at key sig sound
            (same_digest body scope pack digest hexed b declared) instant named q.trust_store
            q.expected_pq q.require_pq q.require_signed
        ∙ ap (λ o. signed_by h o q.expected_pq q.require_pq side digest) storeless in
      ap (λ r. r.authenticated)
        (verify_pack-judge h q raw pack is_file reads ∙ judge-runs q raw pack runs)
      ∙ finish-authenticated h q raw pack
      ∙ ap (λ d. d && is_pass (sig_of h q pack).sig_status && not (sig_of h q pack).trust_failed)
          intact
      ∙ ap (λ s. is_pass s.sig_status && not s.trust_failed) accepted
      ∙ no_store q.expected_pq q.require_pq side digest
