-- ===== src/Verifier/Signer.antt =====
-- What a signature layer that passes says of the sidecar and of the trust store.
use omega_evidence.Base.{
  Bool, true, false, not, ◌&&◌, Option, none, some, if◌then◌else◌, ◌≡◌, refl, arith, ap, ◌∙◌, ◌≢◌,
  inl, inr, Bool-cases, Option-cases,
}
use omega_evidence.Base.Text.{Text, codes, ◌===◌, ===→eq}
use omega_evidence.Value.{Fields}
use omega_evidence.Ledger.Chain.{get, is_text}
use omega_evidence.Trust.Store.{State}
use omega_evidence.Trust.Registry.{is_trusted}
use omega_evidence.Verifier.Report.{passed}
use omega_evidence.Verifier.Forms.{Host, verify_signature, fold_alg}
use omega_evidence.Verifier.Checks.{File, has_unknown}
use omega_evidence.Verifier.Signature.{
  Signed, signed_by, open_store, well_formed, check_ed25519, check_alg, check_signature_and_trust,
  text_or_empty, check_side, sig_object, refused, unchecked, ordinary, required, unverified, alg_of,
  ed25519_name, sig_sidecar_keys,
}

-- The registry, if a store is named, trusts the key of the sidecar for its signer.
pub data Vouched (h : Host) (side : Fields) : Option File → Type 0 where
  no_store : Vouched h side none
  registered :
      (file : File) (st : State)
      → open_store h file ≡ some st
      → is_trusted
          (text_or_empty (get (codes "signer_id") side))
          (text_or_empty (get (codes "public_key_b64") side))
          st
        ≡ true
      → Vouched h side (some file)

-- The sidecar holds a signature over the digest that verifies under its key.
pub record SignsDigest (h : Host) (side : Fields) (digest : Text) : Type 0 where
  pub names_digest : is_text (get (codes "signed_pack_sha3") side) digest ≡ true
  pub verifies :
      verify_signature h
        (text_or_empty (get (codes "public_key_b64") side))
        (text_or_empty (get (codes "signature_b64") side))
        digest
      ≡ true
  pub formed : well_formed h side digest ≡ true

three_tests :
    (a b c : Bool) (x : Signed)
    → (if not a
        then refused false ordinary
        else if b && c
        then x
        else refused false ordinary).sig_status
      ≡ passed
    → (a ≡ true)
      × (b ≡ true)
      × (c ≡ true)
      × ((if not a then refused false ordinary else if b && c then x else refused false ordinary)
          ≡ x)
three_tests true true true x e = (refl, refl, refl, refl)
three_tests true true false x e = cc
three_tests true false c x e = cc
three_tests false b c x e = cc

first_branch :
    (a b c : Bool) (x : Signed)
    → (if a
        then x
        else if b
        then refused false ordinary
        else if c
        then refused false required
        else unchecked unverified).sig_status
      ≡ passed
    → (a ≡ true)
      × ((if a
            then x
            else if b
            then refused false ordinary
            else if c
            then refused false required
            else unchecked unverified)
          ≡ x)
first_branch true b c x e = (refl, refl)
first_branch false true c x e = cc
first_branch false false true x e = cc
first_branch false false false x e = cc

module _ (h : Host) (expected : Text) (require_pq require_signed : Bool) (side : Fields)
    (digest : Text) where
  pub signed_by-Vouched :
      (store : Option File)
      → (signed_by h store expected require_pq side digest).trust_failed ≡ false
      → Vouched h side store
  unfolding signed_by
  signed_by-Vouched none e = no_store
  signed_by-Vouched (some file) e = elim (Option-cases (open_store h file)) [
    | inl broken ↦ cc (rw (broken, signed_by) at e)
    | inr (st, opened) ↦ registered file st opened (ground (arith, rw (opened, signed_by) at e))
  ]

  -- The layer passes: it is `signed_by` that goes on.
  pub check_ed25519-passed :
      (store : Option File)
      → (check_ed25519 h store expected require_pq side digest).sig_status ≡ passed
      → SignsDigest h side digest
        × (check_ed25519 h store expected require_pq side digest
            ≡ signed_by h store expected require_pq side digest)
  unfolding check_ed25519
  check_ed25519-passed store e =
      let (formed, names, good, same) = three_tests _ _ _ _ e in
      (record { names_digest = names; verifies = good; formed = formed }, same)

  pub check_alg-passed :
      (store : Option File) (alg : Option Text)
      → (check_alg h alg store expected require_pq require_signed side digest).sig_status ≡ passed
      → (alg ≡ some ed25519_name)
        × (check_alg h alg store expected require_pq require_signed side digest
            ≡ check_ed25519 h store expected require_pq side digest)
  unfolding check_alg
  check_alg-passed store none e = cc
  check_alg-passed store (some alg) e =
      let (known, same) =
        first_branch (alg === ed25519_name) (fold_alg alg === ed25519_name) require_signed _ e in
      (ap some (===→eq alg ed25519_name known), same)

-- The sidecar of a signature layer that passes.
pub record Checked (h : Host) (sig store : Option File) (digest : Text) : Type 0 where
  pub file : File
  pub side : Fields
  pub there : sig ≡ some file
  pub read : sig_object file ≡ some side
  pub closed : has_unknown sig_sidecar_keys side ≡ false
  pub is_ed25519 : alg_of (get (codes "sig_alg") side) ≡ some ed25519_name
  pub signs : SignsDigest h side digest

module _ (h : Host) (store : Option File) (expected : Text) (require_pq require_signed : Bool)
    (digest : Text) where
  closed-passed :
      (file : File) (side : Fields)
      → sig_object file ≡ some side
      → has_unknown sig_sidecar_keys side ≡ false
      → (check_alg h
          (alg_of (get (codes "sig_alg") side))
          store
          expected
          require_pq
          require_signed
          side
          digest).sig_status
        ≡ passed
      → (c : Checked h (some file) store digest) × (check_alg h
            (alg_of (get (codes "sig_alg") side))
            store
            expected
            require_pq
            require_signed
            side
            digest
          ≡ signed_by h store expected require_pq c.side digest)
  closed-passed file side read closed e =
      let (known, step) =
        check_alg-passed h expected require_pq require_signed side digest store _ e in
      let (signs, last) =
        check_ed25519-passed h expected require_pq require_signed side digest store
          (rw step at e) in
      (
        record {
          file = file;
          side = side;
          there = refl;
          read = read;
          closed = closed;
          is_ed25519 = known;
          signs = signs;
        },
        step ∙ last,
      )

  side-passed :
      (file : File) (o : Option Fields)
      → sig_object file ≡ o
      → (check_side h o store expected require_pq require_signed digest).sig_status ≡ passed
      → (c : Checked h (some file) store digest) × (check_side h o store expected require_pq
            require_signed digest
          ≡ signed_by h store expected require_pq c.side digest)
  side-passed file none read e = cc
  side-passed file (some side) read e = elim (Bool-cases (has_unknown sig_sidecar_keys side)) [
    | inl unknown ↦ cc (rw unknown at e)
    | inr closed ↦
        let (c, same) = closed-passed file side read closed (rw closed at e) in (c, rw closed same)
  ]

  -- With what it appends behind the signature layer.
  pub signature-passed :
      (sig : Option File)
      → (check_signature_and_trust h sig store expected require_pq require_signed digest).sig_status
        ≡ passed
      → (c : Checked h sig store digest) × (check_signature_and_trust h sig store expected
            require_pq require_signed digest
          ≡ signed_by h store expected require_pq c.side digest)
  unfolding check_signature_and_trust
  signature-passed none e = absurd (no_sidecar require_signed e)
    where
      no_sidecar :
          (b : Bool)
          → (if b then refused false required else unchecked ordinary).sig_status ≢ passed
      no_sidecar true = cc
      no_sidecar false = cc
  signature-passed (some file) e = side-passed file (sig_object file) refl e
