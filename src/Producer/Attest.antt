-- ===== src/Producer/Attest.antt =====
-- omega_evidence/attestation.py. The attributes are a dict of str, the salt and the instant are
-- given; none stands for the UnicodeEncodeError of a lone surrogate.
use omega_evidence.Base.{
  ℕ, Bool, true, false, Option, none, some, List, [], ◌∷◌, ◌++◌, if◌then◌else◌, ◌≡◌, refl, sym, ap,
  ◌∙◌, inl, inr, Bool-cases, if-true, if-false, untrue, ◌↔◌,
}
use omega_evidence.Base.Text.{Text, codes, ◌===◌, ===_refl, ===→eq, is_empty}
use omega_evidence.Base.Maybe.{◌>>=◌, after, some-injective, nothing}
use omega_evidence.Base.Utf8.{encode}
use omega_evidence.Base.Dict.{Dict, lookup}
use omega_evidence.Base.Result.{Result}
use omega_evidence.Value.{Items, Fields, name, str, list, dict, nil, cons, end, field}
use omega_evidence.Json.Print.{sort_by_key, keys}
use omega_evidence.Canonical.{Refusal, sha3}

-- `Attestation`
pub record Attestation : Type 0 where
  pub subject_ref : Text
  pub attribute_names : List Text
  pub attribute_digests : Dict Text
  pub salt : Text
  pub outcome : Text
  pub issued_utc : Text

abbrev pub salt_or : Option Text → Text → Text
salt_or none token = token
salt_or (some s) token = if is_empty s then token else s

-- A list, and a dict, of str
unfoldable pub text_items : List Text → Items
text_items [] = nil
text_items (t ∷ ts) = cons (str t) (text_items ts)

unfoldable pub text_fields : Dict Text → Fields
text_fields [] = end
text_fields ((k, t) ∷ d) = field (name k) (str t) (text_fields d)

abbrev same_text : Option Text → Text → Bool
same_text none t = false
same_text (some s) t = s === t

module _ (sha3_256 : List ℕ → Text) where
  -- `_salted`
  abbrev pub salted : Text → Text → Option Text
  salted value salt = do bytes ← encode (salt ++ codes "|" ++ value); some (sha3_256 bytes)

  unfoldable pub digests : Dict Text → Text → Option (Dict Text)
  unfolding encode
  digests [] salt = some []
  digests ((k, v) ∷ d) salt = do
    digest ← salted v salt
    rest ← digests d salt
    some ((k, digest) ∷ rest)

  -- `attest`; an empty salt is drawn by `secrets.token_hex`.
  unfoldable pub attest : Text → Dict Text → Text → Option Text → Text → Text → Option Attestation
  unfolding digests sort_by_key keys
  attest subject attributes outcome salt token now = do
    ds ← digests attributes (salt_or salt token)
    some record {
      subject_ref = subject;
      attribute_names = keys (sort_by_key attributes);
      attribute_digests = ds;
      salt = salt_or salt token;
      outcome = outcome;
      issued_utc = now;
    }

  -- `matches`
  unfoldable pub matches : Attestation → Text → Text → Option Bool
  unfolding encode lookup
  matches att attribute candidate = do
    digest ← salted candidate att.salt
    some (same_text (lookup attribute att.attribute_digests) digest)

paired : List Text → Dict Text
paired [] = []
paired (t ∷ ts) = (t, []) ∷ paired ts

-- `sorted`, on a list of str
abbrev pub sorted : List Text → List Text
unfolding paired sort_by_key keys
sorted ts = keys (sort_by_key (paired ts))

-- `digest`
unfoldable pub digest : (Text → Text) → Attestation → Result Refusal Text
unfolding sorted sha3 text_items text_fields
digest sha3_256 a =
    sha3 sha3_256
      (dict (
        field (name (codes "subject_ref")) (str a.subject_ref) (
          field (name (codes "names")) (list (text_items (sorted a.attribute_names))) (
            field (name (codes "digests")) (dict (text_fields a.attribute_digests)) (
              field (name (codes "outcome")) (str a.outcome)
                (field (name (codes "issued_utc")) (str a.issued_utc) end))))))
      false

module _ (sha3_256 : List ℕ → Text) where
  lookup-digests :
      (k salt : Text) (d ds : Dict Text)
      → digests sha3_256 d salt ≡ some ds
      → lookup k ds ≡ (lookup k d >>= λ v. salted sha3_256 v salt)
  unfolding digests lookup
  lookup-digests k salt [] ds e = ap (lookup k) (sym (some-injective e))
  lookup-digests k salt ((j, v) ∷ d) ds e = after (salted sha3_256 v salt) e (λ h is_h e1.
      after (digests sha3_256 d salt) e1 (λ rest is_rest e2.
        ap (lookup k) (sym (some-injective e2)) ∙ elim (Bool-cases (j === k)) [
          | inl t ↦ rw (t, is_h) refl
          | inr f ↦ rw f (lookup-digests k salt d rest is_rest)
        ]))

  digests-salted :
      (k salt v : Text) (d ds : Dict Text)
      → digests sha3_256 d salt ≡ some ds
      → lookup k d ≡ some v
      → (h : Text) × (salted sha3_256 v salt ≡ some h)
  unfolding digests lookup
  digests-salted k salt v [] ds e found = absurd (nothing v found)
  digests-salted k salt v ((j, w) ∷ d) ds e found = after (salted sha3_256 w salt) e (λ h is_h e1.
      after (digests sha3_256 d salt) e1 (λ rest is_rest e2. elim (Bool-cases (j === k)) [
        | inl t ↦ (
          h,
          ap (λ x. salted sha3_256 x salt) (some-injective (sym found ∙ if-true _ _ t)) ∙ is_h,
        )
        | inr f ↦ digests-salted k salt v d rest is_rest (sym (if-false _ _ f) ∙ found)
      ]))

  same_text-some : (o : Option Text) (t : Text) → same_text o t ≡ true → o ≡ some t
  same_text-some none t h = untrue h
  same_text-some (some s) t h = ap some (===→eq s t h)

  module _ (a salt c : Text) (d ds : Dict Text) (made : digests sha3_256 d salt ≡ some ds) where
    abbrev test : Option Bool
    test = salted sha3_256 c salt >>= λ t. some (same_text (lookup a ds) t)

    abbrev Agrees : Type 0
    Agrees = (v : Text) × (lookup a d ≡ some v) × (salted sha3_256 c salt ≡ salted sha3_256 v salt)

    test→Agrees : test ≡ some true → Agrees
    test→Agrees e = after (salted sha3_256 c salt) e (λ t is_t e1.
        after (lookup a d)
          (sym (lookup-digests a salt d ds made)
            ∙ same_text-some (lookup a ds) t (some-injective e1))
          (λ v is_v e2. (v, is_v, is_t ∙ sym e2)))

    Agrees→test : Agrees → test ≡ some true
    Agrees→test (v, is_v, same) =
        let (t, is_t) = digests-salted a salt v d ds made is_v in
        rw (same ∙ is_t, lookup-digests a salt d ds made, is_v, is_t, ===_refl t) refl

  -- A candidate matches what `attest` returned exactly where the attribute was attested and the candidate
  -- has the salted digest of its value.
  pub matches_iff :
      (subject : Text) (attributes : Dict Text) (outcome : Text) (salt : Option Text)
      (token now attribute candidate : Text) (att : Attestation)
      → attest sha3_256 subject attributes outcome salt token now ≡ some att
      → (matches sha3_256 att attribute candidate ≡ some true) ↔ (
          (v : Text) × (lookup attribute attributes ≡ some v)
          × (salted sha3_256 candidate (salt_or salt token)
              ≡ salted sha3_256 v (salt_or salt token)))
  unfolding attest matches
  matches_iff subject attributes outcome salt token now attribute candidate att e =
      after (digests sha3_256 attributes (salt_or salt token)) e (λ ds is_ds e1.
        rw (sym (some-injective e1)) (
          test→Agrees attribute (salt_or salt token) candidate attributes ds is_ds,
          Agrees→test attribute (salt_or salt token) candidate attributes ds is_ds,
        ))
