-- ===== src/Verifier/PqLayer.antt =====
-- What a post-quantum layer that is required and does not fail says of the sidecar.
use omega_evidence.Base.{
  Bool, true, false, not, ◌||◌, Option, none, some, List, [], ◌∷◌, if◌then◌else◌, ◌≡◌, refl, arith,
  inl, inr, Bool-cases, Option-cases, ap,
}
use omega_evidence.Base.Text.{Text, codes, is_empty, in_list}
use omega_evidence.Value.{Value, Fields, str}
use omega_evidence.Ledger.Chain.{get, is_text}
use omega_evidence.Verifier.Report.{Layer, layer, pq_signature, failed as fail, none_failed}
use omega_evidence.Verifier.Forms.{Host, verify_pq_alg}
use omega_evidence.Verifier.Checks.{
  check_pq_cosignature, pq_declared, pq_answer, pq_alg, differs, or_empty, known_pq_algs,
}
use omega_evidence.Verifier.Authentic.{is_text-eq}

-- The sidecar declares a registered post-quantum algorithm, names the pinned key, and holds a
-- signature over the digest that the registered verifier accepts under that key.
pub record PqVerified (h : Host) (side : Fields) (digest pin : Text) : Type 0 where
  pub alg : Text
  pub verifier : Value → Value → Text → Bool
  pub declared : get (codes "pq_sig_alg") side ≡ some (str alg)
  pub registered : h.pq_sig_algs alg ≡ some verifier
  pub names_pin : get (codes "pq_public_key_b64") side ≡ some (str pin)
  pub not_empty : is_empty pin ≡ false
  pub verifies : verifier (str pin) (or_empty (get (codes "pq_signature_b64") side)) digest ≡ true

not_refused :
    (a : Bool) (x : Option Bool) (y : List Layer × Option Bool)
    → none_failed (if a then (layer pq_signature fail ∷ [], x) else y).0 ≡ true
    → (a ≡ false) × (none_failed y.0 ≡ true)
unfolding none_failed
not_refused true x y e = cc
not_refused false x y e = (refl, e)

required_answer :
    (h : Host) (alg : Text) (pinned : Bool) (r : Option Bool)
    → none_failed (pq_answer h alg true pinned r).0 ≡ true
    → (pinned ≡ true) × (r ≡ some true)
unfolding none_failed pq_answer
required_answer h alg pinned none e = elim (Bool-cases (in_list alg known_pq_algs)) [
  | inl known ↦ cc (rw known at e)
  | inr unknown ↦ cc (rw unknown at e)
]
required_answer h alg pinned (some false) e = cc
required_answer h alg true (some true) e = (refl, refl)
required_answer h alg false (some true) e = cc

-- A text that is not empty is what `d.get(k, "")` gave, so the key was there.
or_empty-str :
    (v : Option Value) (pin : Text)
    → is_empty pin ≡ false
    → or_empty v ≡ str pin
    → v ≡ some (str pin)
or_empty-str none [] n e = cc
or_empty-str none (c ∷ t) n e = cc
or_empty-str (some v) pin n e = ap some e

some_inj : {a b : Value} → ◌≡◌ {A = Option Value} (some a) (some b) → a ≡ b
some_inj e = cc

named_pin :
    (v : Option Value) (pin : Text)
    → differs v pin ≡ false
    → is_empty pin ≡ false
    → is_text v pin ≡ true
named_pin v pin d n = ground arith

answered :
    (h : Host) (alg : Text) (key sig : Value) (digest : Text)
    → verify_pq_alg h alg key sig digest ≡ some true
    → (v : Value → Value → Text → Bool) × (h.pq_sig_algs alg ≡ some v) × (v key sig digest ≡ true)
unfolding verify_pq_alg
answered h alg key sig digest e = elim (Option-cases (h.pq_sig_algs alg)) [
  | inl no_backend ↦ cc (rw (no_backend, verify_pq_alg) at e)
  | inr (v, found) ↦ (v, found, ground (arith, rw (found, verify_pq_alg) at e))
]

module _ (h : Host) (side : Fields) (digest pin : Text) where
  declared-PqVerified :
      (alg : Text)
      → get (codes "pq_sig_alg") side ≡ some (str alg)
      → none_failed (pq_declared h alg side digest pin true).0 ≡ true
      → PqVerified h side digest pin
  unfolding pq_declared
  declared-PqVerified alg d e =
      let (same, e1) = not_refused _ _ _ e in
      let (_, e2) = not_refused _ _ _ e1 in
      let (pinned, answer) = required_answer h alg (not (is_empty pin)) _ e2 in
      let key = or_empty (get (codes "pq_public_key_b64") side) in
      let filled : is_empty pin ≡ false = ground arith in
      let names : key ≡ str pin =
        some_inj (is_text-eq (some key) pin (named_pin (some key) pin same filled)) in
      let (v, found, accepts) = answered h alg key _ digest answer in
      record {
        alg = alg;
        verifier = v;
        declared = d;
        registered = found;
        names_pin = or_empty-str _ pin filled names;
        not_empty = filled;
        verifies = rw names at accepts;
      }

  alg-PqVerified :
      (o : Option Value)
      → get (codes "pq_sig_alg") side ≡ o
      → none_failed (pq_alg h o side digest pin true).0 ≡ true
      → PqVerified h side digest pin
  unfolding none_failed
  alg-PqVerified none d e = cc
  alg-PqVerified (some (str [])) d e = cc
  alg-PqVerified (some (str (c ∷ t))) d e = declared-PqVerified (c ∷ t) d e
  alg-PqVerified (some _) d e = cc

  pub required-PqVerified :
      (require_pq : Bool)
      → (require_pq || not (is_empty pin)) ≡ true
      → none_failed (check_pq_cosignature h side digest pin require_pq).0 ≡ true
      → PqVerified h side digest pin
  unfolding check_pq_cosignature
  required-PqVerified require_pq r e =
      alg-PqVerified (get (codes "pq_sig_alg") side) refl (rw (check_pq_cosignature, r) at e)
