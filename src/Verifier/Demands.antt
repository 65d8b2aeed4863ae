-- ===== src/Verifier/Demands.antt =====
-- What the receipt field `valid` means, and what the required layers add to it.
use omega_evidence.Base.{
  ℕ, Bool, true, false, not, ◌&&◌, Option, none, some, List, [], ◌∷◌, ◌++◌, if◌then◌else◌, ◌≡◌,
  refl, arith, inl, inr, Option-cases, ◌⊎◌,
}
use omega_evidence.Base.Text.{Text, codes}
use omega_evidence.Value.{Fields, str, dict}
use omega_evidence.Ledger.Chain.{get, without}
use omega_evidence.Verifier.Report.{
  Layer, layer, pack_json, honest_scope, pack_fields, pack_sha3, rollup, none_failed, passed,
  skipped, is_pass,
}
use omega_evidence.Verifier.Scope.{declares_limit}
use omega_evidence.Verifier.Forms.{Host}
use omega_evidence.Verifier.Checks.{File, check_ledger, check_timestamp}
use omega_evidence.Verifier.Signature.{
  Signed, Why, ordinary, required, unverified, refused, unchecked, accepted, signed_by, open_store,
  check_ed25519, check_alg, check_side, check_signature_and_trust, sig_object,
}
use omega_evidence.Verifier.Verdict.{
  Request, verify_pack, finish, digest_ok, sig_of, layers_of, own_layers, hybrid,
  decide_authenticity, status_if,
}
use omega_evidence.Verifier.Authentic.{
  verify_pack-cases, Judged, finish-authenticated, Authentic, authenticated-Authentic,
  digest_ok_sound,
}
use omega_evidence.Verifier.Anchoring.{IsAnchored, check_ledger-IsAnchored}
use omega_evidence.Verifier.Overclaims.{IsLimited, declares_limit-IsLimited}
use omega_evidence.Base.Result.{ok}
use omega_evidence.Canonical.{sha3}

pub none_failed-append :
    (ls ms : List Layer) → none_failed (ls ++ ms) ≡ (none_failed ls && none_failed ms)
unfolding none_failed
none_failed-append [] ms = refl
none_failed-append (l ∷ ls) ms = ground (arith, none_failed-append ls ms)

-- The results of the signature check.
pub data Shape (require_signed : Bool) : Signed → Type 0 where
  is_refused : (f : Bool) (w : Why) → Shape require_signed (refused f w)
  is_unchecked : (w : Why) → require_signed ≡ false → Shape require_signed (unchecked w)
  is_accepted : (more : List Layer) (t f : Bool) → Shape require_signed (accepted more t f)

if-Shape : (rs b : Bool) (x y : Signed) → Shape rs x → Shape rs y → Shape rs (if b then x else y)
if-Shape rs true x y s t = s
if-Shape rs false x y s t = t

unless_required : (rs : Bool) (w v : Why) → Shape rs (if rs then refused false w else unchecked v)
unless_required true w v = is_refused false w
unless_required false w v = is_unchecked v refl

module _ (h : Host) (store : Option File) (expected : Text) (require_pq rs : Bool)
    (current : Text) where
  signed_by-Shape :
      (side : Fields) (o : Option File) → Shape rs (signed_by h o expected require_pq side current)
  unfolding signed_by
  signed_by-Shape side none = is_accepted _ _ _
  signed_by-Shape side (some file) = elim (Option-cases (open_store h file)) [
    | inl broken ↦ rw (broken, signed_by) (is_accepted _ _ _)
    | inr (st, opened) ↦ rw (opened, signed_by) (is_accepted _ _ _)
  ]

  check_ed25519-Shape :
      (side : Fields) → Shape rs (check_ed25519 h store expected require_pq side current)
  unfolding check_ed25519
  check_ed25519-Shape side =
      if-Shape rs _ _ _ (is_refused false ordinary)
        (if-Shape rs _ _ _ (signed_by-Shape side store) (is_refused false ordinary))

  check_alg-Shape :
      (side : Fields) (alg : Option Text)
      → Shape rs (check_alg h alg store expected require_pq rs side current)
  unfolding check_alg
  check_alg-Shape side none = is_refused false ordinary
  check_alg-Shape side (some alg) =
      if-Shape rs _ _ _ (check_ed25519-Shape side)
        (if-Shape rs _ _ _ (is_refused false ordinary) (unless_required rs required unverified))

  check_side-Shape :
      (o : Option Fields) → Shape rs (check_side h o store expected require_pq rs current)
  check_side-Shape none = is_refused false ordinary
  check_side-Shape (some side) =
      if-Shape rs _ _ _ (is_refused true ordinary) (check_alg-Shape side _)

  pub signature-Shape :
      (sig : Option File)
      → Shape rs (check_signature_and_trust h sig store expected require_pq rs current)
  unfolding check_signature_and_trust
  signature-Shape none = unless_required rs required ordinary
  signature-Shape (some file) = check_side-Shape (sig_object file)

-- Where the authenticity layer passes, a good signature was not refused, or the ledger anchors.
Tier : Bool → Bool → Signed → Type 0
Tier rs ledger_ok s =
    (is_pass s.sig_status && not s.trust_failed) ≡ true ⊎ ((rs ≡ false) × (ledger_ok ≡ true))

authenticity-Tier :
    (rs ledger_ok : Bool) (s : Signed)
    → Shape rs s
    → none_failed (decide_authenticity s.sig_status s.trusted s.trust_failed ledger_ok s.why ∷ [])
      ≡ true
    → Tier rs ledger_ok s
unfolding decide_authenticity none_failed Tier
authenticity-Tier rs b _ (is_refused f ordinary) e = cc
authenticity-Tier rs b _ (is_refused f required) e = cc
authenticity-Tier rs b _ (is_refused f unverified) e = cc
authenticity-Tier rs true _ (is_unchecked w r) e = inr (r, refl)
authenticity-Tier rs false _ (is_unchecked w r) e = cc
authenticity-Tier rs b _ (is_accepted more t true) e = cc
authenticity-Tier rs b _ (is_accepted more t false) e = inl refl

-- What `valid` demands of a pack that was read.
pub record Sound (h : Host) (q : Request) : Type 0 where
  pub judged : Judged h q
  pub limited : IsLimited (get (codes "honest_scope") judged.pack)
  pub digest : Text
  pub declared : get (codes "pack_sha3") judged.pack ≡ some (str digest)
  pub computed : sha3 h.sha3_256 (dict (without (codes "pack_sha3") judged.pack)) true ≡ ok digest
  pub tier :
      (((verify_pack h q).authenticated ≡ true) × Authentic h q)
      ⊎ ((q.require_signed ≡ false) × IsAnchored h q.ledger digest)

pub both :
    (ls ms : List Layer)
    → none_failed (ls ++ ms) ≡ true
    → (none_failed ls ≡ true) × (none_failed ms ≡ true)
both ls ms e = ground (arith, none_failed-append ls ms)

own-clean :
    (a b : Bool)
    → none_failed (
        layer pack_json passed
        ∷ layer honest_scope (status_if a)
        ∷ layer pack_fields skipped
        ∷ layer pack_sha3 (status_if b)
        ∷ [])
      ≡ true
    → (a ≡ true) × (b ≡ true)
unfolding none_failed
own-clean true true e = (refl, refl)
own-clean true false e = cc
own-clean false b e = cc

module _ (h : Host) where
  pub finish-valid :
      (q : Request) (raw : List ℕ) (pack : Fields)
      → (finish h q raw pack).valid ≡ true
      → none_failed (layers_of h q raw pack) ≡ true
  unfolding finish rollup
  finish-valid q raw pack e = ground arith

  -- What the layers say where none of them is FAIL.
  pub layers-clean :
      (q : Request) (raw : List ℕ) (pack : Fields)
      → none_failed (layers_of h q raw pack) ≡ true
      → (declares_limit (get (codes "honest_scope") pack) ≡ true)
        × (digest_ok h pack ≡ true)
        × (none_failed (sig_of h q pack).layers ≡ true)
        × (none_failed (hybrid h q (sig_of h q pack).sig_status) ≡ true)
        × (none_failed (
              decide_authenticity
                (sig_of h q pack).sig_status
                (sig_of h q pack).trusted
                (sig_of h q pack).trust_failed
                (check_ledger h q.ledger pack).1
                (sig_of h q pack).why
              ∷ [])
            ≡ true)
  unfolding layers_of
  layers-clean q raw pack e =
      let (all, auth) = both _ _ e in
      let (most, hyb) = both _ _ all in
      let (three, sig) = both _ _ most in
      let (few, _) = both _ (check_timestamp h q.timestamp raw).0 three in
      let (own, _) = both (own_layers h pack) (check_ledger h q.ledger pack).0 few in
      let (limit, intact) =
        own-clean (declares_limit (get (codes "honest_scope") pack)) (digest_ok h pack) own in
      (limit, intact, sig, hyb, auth)

  -- A `valid` receipt means that the pack was read; that its scope is a text with a "NOT" that
  -- stands as a word of its own, in which no claim (accredited, certified, qualified, guaranteed)
  -- stands as a word or a "not" has the stem of one at most 40 characters behind it in its sentence;
  -- that the pack holds the digest of its body; and that the pack is signed, over that digest and
  -- by a key that the registry, if one is named, trusts, or else no signature was required and
  -- the ledger is a chain, numbered and linked from the first entry on, one of whose entries names
  -- that digest. With `require_signed` the pack is thus signed.
  pub valid-Sound : (q : Request) → (verify_pack h q).valid ≡ true → Sound h q
  unfolding Tier
  valid-Sound q e = elim (verify_pack-cases h q) [
    | inr bad ↦ cc
    | inl j ↦
        let sig = sig_of h q j.pack in
        let (limit, intact, _, _, auth) =
          layers-clean q j.raw j.pack (finish-valid q j.raw j.pack (rw j.ends at e)) in
        let (digest, declared, computed) = digest_ok_sound h j.pack intact in
        record {
          judged = j;
          limited = declares_limit-IsLimited _ limit;
          digest = digest;
          declared = declared;
          computed = computed;
          tier =
              elim (authenticity-Tier q.require_signed _ sig (signature-Shape h _ _ _ _ _ _) auth) [
                | inl good ↦ inl (both_ways (rw (j.ends, finish-authenticated) (ground arith)))
                | inr (free, anchor) ↦
                    inr (free, check_ledger-IsAnchored h q.ledger j.pack digest declared anchor)
              ];
        }
  ]
    where
      both_ways :
          (verify_pack h q).authenticated ≡ true
          → ((verify_pack h q).authenticated ≡ true) × Authentic h q
      both_ways a = (a, authenticated-Authentic h q a)
