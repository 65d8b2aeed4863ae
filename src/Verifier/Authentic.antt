-- ===== src/Verifier/Authentic.antt =====
-- What the receipt field `authenticated` means.
use omega_evidence.Base.{
  ℕ, true, false, not, ◌&&◌, Option, none, some, List, ◌≡◌, refl, arith, inl, inr, Bool-cases, ◌⊎◌,
  ap,
}
use omega_evidence.Base.Text.{Text, codes, ===→eq}
use omega_evidence.Base.Result.{ok, Result-cases}
use omega_evidence.Value.{Value, Fields, dict, str}
use omega_evidence.Canonical.{sha3}
use omega_evidence.Ledger.Chain.{get, is_text, without}
use omega_evidence.Verifier.Report.{
  Status, Receipt, rollup, any_checked, none_failed, internal_error_receipt, passed, failed as fail,
  skipped, is_pass,
}
use omega_evidence.Verifier.Forms.{Host}
use omega_evidence.Verifier.Checks.{File, digest_text}
use omega_evidence.Verifier.Signer.{Checked, Vouched, signature-passed, signed_by-Vouched}
use omega_evidence.Verifier.Verdict.{
  Request, verify_pack, judge, finish, own_layers, digest_ok, pack_of, sig_of,
}

-- The pack was read and its declared digest is the digest of its body; the sidecar holds an
-- Ed25519 signature over that digest, and the registry, if one is named, trusts its key.
pub record Authentic (h : Host) (q : Request) : Type 0 where
  pub raw : List ℕ
  pub pack : Fields
  pub digest : Text
  pub is_pack : q.pack ≡ some raw
  pub reads : pack_of raw ≡ some pack
  pub declared : get (codes "pack_sha3") pack ≡ some (str digest)
  pub computed : sha3 h.sha3_256 (dict (without (codes "pack_sha3") pack)) true ≡ ok digest
  pub checked : Checked h q.signature q.trust_store digest
  pub vouched : Vouched h checked.side q.trust_store

pub is_text-eq : (v : Option Value) (t : Text) → is_text v t ≡ true → v ≡ some (str t)
unfolding is_text
is_text-eq (some (str s)) t e = ap (λ u. some (str u)) (===→eq s t e)
is_text-eq none t e = cc
is_text-eq (some _) t e = cc

pub is_pass-eq : (s : Status) → is_pass s ≡ true → s ≡ passed
is_pass-eq passed e = refl
is_pass-eq fail e = cc
is_pass-eq skipped e = cc

module _ (h : Host) where
  pub digest_ok_sound :
      (pack : Fields)
      → digest_ok h pack ≡ true
      → (digest : Text) × (get (codes "pack_sha3") pack ≡ some (str digest))
        × (sha3 h.sha3_256 (dict (without (codes "pack_sha3") pack)) true ≡ ok digest)
  unfolding digest_ok
  digest_ok_sound pack e =
      elim (Result-cases (sha3 h.sha3_256 (dict (without (codes "pack_sha3") pack)) true)) [
        | inl (x, bad) ↦ cc (rw (bad, digest_ok) at e)
        | inr (digest, good) ↦
            (digest, is_text-eq _ digest (ground (arith, rw (good, digest_ok) at e)), good)
      ]

  judge-Authentic :
      (q : Request) (raw : List ℕ) (pack : Fields)
      → q.pack ≡ some raw
      → pack_of raw ≡ some pack
      → (digest_ok h pack
          && is_pass (sig_of h q pack).sig_status
          && not (sig_of h q pack).trust_failed)
        ≡ true
      → Authentic h q
  judge-Authentic q raw pack is_pack reads e =
      let sig = sig_of h q pack in
      let (digest, declared, computed) = digest_ok_sound pack (ground arith) in
      let same : digest_text (get (codes "pack_sha3") pack) ≡ digest = ap digest_text declared in
      let is_ok : sig.sig_status ≡ passed = is_pass-eq sig.sig_status (ground arith) in
      let unbroken : sig.trust_failed ≡ false = ground arith in
      let (c, rest) =
        signature-passed h q.trust_store q.expected_pq q.require_pq q.require_signed digest
          q.signature (rw same at is_ok) in
      record {
        raw = raw;
        pack = pack;
        digest = digest;
        is_pack = is_pack;
        reads = reads;
        declared = declared;
        computed = computed;
        checked = c;
        vouched =
            signed_by-Vouched h q.expected_pq q.require_pq q.require_signed c.side digest
              q.trust_store (rw (same, rest) at unbroken);
      }

  -- The pack was read, and no fault was injected.
  pub record Judged (q : Request) : Type 0 where
    pub raw : List ℕ
    pub pack : Fields
    pub is_pack : q.pack ≡ some raw
    pub reads : pack_of raw ≡ some pack
    pub ends : verify_pack h q ≡ finish h q raw pack

  abbrev Refused : Receipt → Type 0
  Refused r = (r.valid ≡ false) × (r.authenticated ≡ false)

  internal-Refused : (pack : Fields) → Refused (internal_error_receipt (own_layers h pack))
  unfolding internal_error_receipt rollup any_checked none_failed
  internal-Refused pack = (ground arith, refl)

  judge-cases :
      (q : Request) (raw : List ℕ) (o : Option Fields)
      → ((pack : Fields) × (o ≡ some pack) × (judge h q raw o ≡ finish h q raw pack))
        ⊎ Refused (judge h q raw o)
  unfolding judge rollup any_checked none_failed
  judge-cases q raw none = inr (refl, refl)
  judge-cases q raw (some pack) = elim (Bool-cases q.inject) [
    | inl broken ↦ inr (rw broken (internal-Refused pack))
    | inr runs ↦ inl (pack, refl, rw runs refl)
  ]

  file-cases : (q : Request) (o : File) → q.pack ≡ o → Judged q ⊎ Refused (verify_pack h q)
  unfolding verify_pack rollup any_checked none_failed
  file-cases q none e = inr (rw e (refl, refl))
  file-cases q (some raw) e = elim (judge-cases q raw (pack_of raw)) [
    | inl (pack, reads, ends) ↦
        inl (record { raw = raw; pack = pack; is_pack = e; reads = reads; ends = rw e ends })
    | inr bad ↦ inr (rw e bad)
  ]

  pub verify_pack-cases : (q : Request) → Judged q ⊎ Refused (verify_pack h q)
  verify_pack-cases q = file-cases q q.pack refl

  pub finish-authenticated :
      (q : Request) (raw : List ℕ) (pack : Fields)
      → (finish h q raw pack).authenticated ≡ (
          digest_ok h pack
          && is_pass (sig_of h q pack).sig_status
          && not (sig_of h q pack).trust_failed)
  unfolding finish rollup
  finish-authenticated q raw pack = refl

  -- `authenticated` is true only if the pack was read, its declared digest is the digest of its
  -- body, its signature sidecar fits the closed schema and holds an Ed25519 signature over that
  -- digest that verifies under the key in the sidecar, and the trust store, if one is named,
  -- replays to a state in which that key is the trusted one of the sidecar's signer.
  pub authenticated-Authentic :
      (q : Request) → (verify_pack h q).authenticated ≡ true → Authentic h q
  authenticated-Authentic q e = elim (verify_pack-cases q) [
    | inl j ↦
        judge-Authentic q j.raw j.pack j.is_pack j.reads (rw (j.ends, finish-authenticated) at e)
    | inr bad ↦ cc
  ]
