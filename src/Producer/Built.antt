-- ===== src/Producer/Built.antt =====
-- What `build_pack` of omega_evidence/pack.py returns, and the hash in it.
use omega_evidence.Base.{
  Bool, true, false, not, ◌&&◌, none, some, ◌≡◌, refl, sym, ap, ◌∙◌, inl, inr, Bool-cases, if-true,
  if-false, untrue,
}
use omega_evidence.Base.Text.{Text, codes, ◌===◌, ===_refl, is_empty}
use omega_evidence.Base.Maybe.{nothing}
use omega_evidence.Base.Result.{
  Result, ok, err, raise_if, after, raise_if-eq-ok, ok-injective, raised,
}
use omega_evidence.Value.{
  Value, Items, Fields, name, non_string, null, bool, int, float, str, list, tuple, set, dict,
  decimal, datetime, date, bytes, object, nil, cons, end, field,
}
use omega_evidence.Canonical.{
  Refusal, canonical_json, sha3, reject_reserved, reject_items, reject_fields, has_key,
  has_surrogate,
}
use omega_evidence.Json.Print.{tag_key}
use omega_evidence.Ledger.Chain.{get, without, is_text}
use omega_evidence.Verifier.Scope.{declares_limit}
use omega_evidence.Verifier.Forms.{Host}
use omega_evidence.Verifier.Verdict.{digest_ok}
use omega_evidence.Chip.Classes.{put}
use omega_evidence.Preservation.Sealing.{get-put, get-put_other, without-put}
use omega_evidence.Producer.Pack.{
  no_limit, not_hashed, merged, head_of, unbuilt, hashed_body, build_pack,
}

yes : (b : Bool) → not b ≡ false → b ≡ true
yes true h = refl
yes false h = untrue (sym h)

and_no : (b : Bool) → (b && not true) ≡ false
and_no true = refl
and_no false = refl

-- What may be hashed with the reserved key refused may be hashed with it allowed.
mutual
  unfolding reject_reserved

  value_allowed : (v : Value) → reject_reserved false v ≡ ok tt → reject_reserved true v ≡ ok tt
  value_allowed (dict fs) e =
      after (raise_if (has_key tag_key fs && not false) _) e
        (λ u is_u e1. rw (and_no (has_key tag_key fs)) (fields_allowed fs e1))
  value_allowed (list vs) e = items_allowed vs e
  value_allowed (tuple vs) e = items_allowed vs e
  value_allowed (set vs) e = items_allowed vs e
  value_allowed (str t) e = e
  value_allowed (float r) e = e
  value_allowed (int z) e = e
  value_allowed (bool b) e = e
  value_allowed null e = e
  value_allowed (decimal x) e = e
  value_allowed (datetime x) e = e
  value_allowed (date x) e = e
  value_allowed (bytes x) e = e
  value_allowed (object x) e = e

  items_allowed : (vs : Items) → reject_items false vs ≡ ok tt → reject_items true vs ≡ ok tt
  items_allowed nil e = refl
  items_allowed (cons v vs) e =
      after (reject_reserved false v) e
        (λ u is_u e1. rw (value_allowed v is_u) (items_allowed vs e1))

  fields_allowed : (fs : Fields) → reject_fields false fs ≡ ok tt → reject_fields true fs ≡ ok tt
  fields_allowed end e = refl
  fields_allowed (field (name k) v fs) e = after (raise_if (has_surrogate k) _) e (λ u is_u e1.
      after (reject_reserved false v) e1
        (λ w is_w e2. rw (is_u, value_allowed v is_w) (fields_allowed fs e2)))
  fields_allowed (field (non_string k) v fs) e = e

-- A key that the body does not have keeps its value.
get-merged :
    (k : Text) (acc body : Fields) → get k body ≡ none → get k (merged acc body) ≡ get k acc
unfolding merged get
get-merged k acc end e = refl
get-merged k acc (field (name j) v fs) e = elim (Bool-cases (j === k)) [
  | inl t ↦ absurd (nothing v (sym e ∙ if-true _ _ t))
  | inr f ↦ get-merged k (put j v acc) fs (sym (if-false _ _ f) ∙ e) ∙ get-put_other j k v acc f
]
get-merged k acc (field (non_string j) v fs) e = get-merged k acc fs e

-- A hash that `sha3` gives where the reserved key is refused, it gives where it is allowed.
pub sha3_allowed :
    (hash : Text → Text) (v : Value) (d : Text) → sha3 hash v false ≡ ok d → sha3 hash v true ≡ ok d
unfolding sha3 canonical_json
sha3_allowed hash v d e = after (canonical_json v false) e (λ t is_t e1.
    after (reject_reserved false v) is_t (λ u is_u e2. rw (value_allowed v is_u, e2) e1))

sha3-is_full :
    (hash : Text → Text) (v : Value) (allow : Bool) (d : Text)
    → ((t : Text) → is_empty (hash t) ≡ false)
    → sha3 hash v allow ≡ ok d
    → is_empty d ≡ false
unfolding sha3
sha3-is_full hash v allow d full e =
    after (canonical_json v allow) e (λ t is_t e1. ap is_empty (sym (ok-injective e1)) ∙ full t)

unbuilt-eq-ok : (r : Result Refusal Text) (d : Text) → unbuilt r ≡ ok d → r ≡ ok d
unbuilt-eq-ok (err e) d h = absurd (raised (not_hashed e) d h)
unbuilt-eq-ok (ok a) d h = ap ok (ok-injective h)

module _ (h : Host) where
  pub record IsBuilt (body : Fields) (scope : Value) (pack : Fields) : Type 0 where
    pub digest : Text
    pub declares : declares_limit (some scope) ≡ true
    pub hashed : sha3 h.sha3_256 (dict (without (codes "pack_sha3") pack)) false ≡ ok digest
    pub holds_digest : get (codes "pack_sha3") pack ≡ some (str digest)
    pub holds_scope :
        get (codes "honest_scope") body ≡ none → get (codes "honest_scope") pack ≡ some scope

  pub build_pack-IsBuilt :
      (kind : Text) (body : Fields) (scope : Value) (now : Text) (pack : Fields)
      → build_pack h kind body scope now ≡ ok pack
      → IsBuilt body scope pack
  unfolding build_pack get ◌===◌
  build_pack-IsBuilt kind body scope now pack e =
      after (raise_if (not (declares_limit (some scope))) no_limit) e (λ u is_u e1.
        after (hashed_body h (merged (head_of kind now scope) body)) e1 (λ d is_d e2.
          rw (sym (ok-injective e2)) record {
            digest = d;
            declares = yes (declares_limit (some scope)) (raise_if-eq-ok _ _ is_u);
            hashed =
                rw (without-put (codes "pack_sha3") (str d) (merged (head_of kind now scope) body))
                  (unbuilt-eq-ok _ d is_d);
            holds_digest =
                get-put (codes "pack_sha3") (str d) (merged (head_of kind now scope) body);
            holds_scope = λ absent.
                get-put_other (codes "pack_sha3") (codes "honest_scope") (str d)
                  (merged (head_of kind now scope) body) refl
                ∙ get-merged (codes "honest_scope") (head_of kind now scope) body absent;
          }))

  pub digest-IsBuilt :
      (body : Fields) (scope : Value) (pack : Fields)
      → ((t : Text) → is_empty (h.sha3_256 t) ≡ false)
      → IsBuilt body scope pack
      → digest_ok h pack ≡ true
  unfolding digest_ok is_text
  digest-IsBuilt body scope pack full b =
      let v : Value = dict (without (codes "pack_sha3") pack) in
      let allowed = sha3_allowed h.sha3_256 v b.digest b.hashed in
      rw (allowed, digest_ok, b.holds_digest, sha3-is_full h.sha3_256 v true b.digest full allowed)
        (===_refl b.digest)
