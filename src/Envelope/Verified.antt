-- ===== src/Envelope/Verified.antt =====
-- What it means that `from_dsse` of omega_evidence/interop/dsse.py says verified.
use omega_evidence.Base.{
  ℕ, Bool, true, false, not, ◌||◌, Option, none, some, List, ◌≡◌, ◌≢◌, refl, sym, ap, ◌∙◌, inl, inr,
  Bool-cases, if-true, if-false, untrue, and-parts,
}
use omega_evidence.Base.Text.{Text, codes, ◌===◌, ===→eq}
use omega_evidence.Value.{Value, Items, Fields, str, list, dict, nil, cons}
use omega_evidence.Ledger.Chain.{get}
use omega_evidence.Verifier.Forms.{Host, verify_signature}
use omega_evidence.Verifier.Checks.{or_empty}
use omega_evidence.Envelope.Dsse.{
  unb64_at, payload_type_name, pae, unb64, key_of, other_key, verifies_with, entry_verifies,
  any_verifies, rejected, opened, or_null, parse_payload, reading_of, read_statement, check_payload,
  check_signed, check_raw, check_fields, from_dsse,
}

-- v is one of the items.
pub data IsItem (v : Value) : Items → Type 0 where
  here : (vs : Items) → IsItem v (cons v vs)
  further : (w : Value) (vs : Items) → IsItem v vs → IsItem v (cons w vs)

module _ (h : Host) (is_zero : Text → Bool) where
  -- An entry whose signature over these bytes verifies: under the key that was given, which is the
  -- entry's own if it has one, or else under the entry's own.
  pub record IsSigned (key : Text) (signed : List ℕ) (v : Value) : Type 0 where
    pub fields : Fields
    pub is_object : v ≡ dict fields
    pub pk : Text
    pub raw : List ℕ
    pub has_key : key_of key (get (codes "publicKeyB64") fields) ≡ some pk
    pub no_other : other_key h is_zero key (get (codes "publicKeyB64") fields) ≡ false
    pub has_sig : unb64 h is_zero (or_empty (get (codes "sig") fields)) ≡ some raw
    pub verifies : verify_signature h pk (h.b64encode raw) signed ≡ true

  verifies_with-parts :
      (k : Option Text) (r : Option (List ℕ)) (signed : List ℕ)
      → verifies_with h is_zero k r signed ≡ true
      → (pk : Text) × (raw : List ℕ) × (k ≡ some pk)
        × (r ≡ some raw)
        × (verify_signature h pk (h.b64encode raw) signed ≡ true)
  verifies_with-parts (some pk) (some raw) signed e = (pk, raw, refl, refl, e)
  verifies_with-parts none r signed e = untrue e
  verifies_with-parts (some pk) none signed e = untrue e

  entry_verifies-IsSigned :
      (key : Text) (signed : List ℕ) (v : Value)
      → entry_verifies h is_zero key signed v ≡ true
      → IsSigned key signed v
  unfolding entry_verifies
  entry_verifies-IsSigned key signed (dict s) e =
      let (same, verified) = and-parts _ _ e in
      let (pk, raw, has_key, has_sig, verifies) = verifies_with-parts _ _ signed verified in
      record {
        fields = s;
        is_object = refl;
        pk = pk;
        raw = raw;
        has_key = has_key;
        no_other = not-true _ same;
        has_sig = has_sig;
        verifies = verifies;
      }
    where
      not-true : (b : Bool) → not b ≡ true → b ≡ false
      not-true true h = untrue h
      not-true false h = refl
  entry_verifies-IsSigned key signed _ e = untrue e

  any_verifies-IsItem :
      (key : Text) (signed : List ℕ) (vs : Items)
      → any_verifies h is_zero key signed vs ≡ true
      → (v : Value) × IsItem v vs × IsSigned key signed v
  unfolding any_verifies
  any_verifies-IsItem key signed nil e = untrue e
  any_verifies-IsItem key signed (cons s vs) e =
      elim (Bool-cases (entry_verifies h is_zero key signed s)) [
        | inl t ↦ (s, here vs, entry_verifies-IsSigned key signed s t)
        | inr f ↦
            let (v, within, is_signed) =
              any_verifies-IsItem key signed vs
                (sym (ap (λ b. b || any_verifies h is_zero key signed vs) f) ∙ e) in
            (v, further s vs within, is_signed)
      ]

  -- An envelope that says this: the payload type is in-toto's, the payload is a statement with
  -- this predicate, and an entry's signature verifies over the encoding of type and payload.
  pub record IsVerified (v : Value) (key : Text) (statement : Fields) (pack : Value) : Type 0 where
    pub envelope : Fields
    pub sigs : Items
    pub payload : List ℕ
    pub signed : List ℕ
    pub entry : Value
    pub is_object : v ≡ dict envelope
    pub is_in_toto : get (codes "payloadType") envelope ≡ some (str payload_type_name)
    pub has_sigs : get (codes "signatures") envelope ≡ some (list sigs)
    pub has_payload : unb64_at h is_zero (get (codes "payload") envelope) ≡ some payload
    pub encodes : pae payload_type_name payload ≡ some signed
    pub parses : parse_payload payload ≡ some statement
    pub holds_pack : pack ≡ or_null (get (codes "predicate") statement)
    pub within : IsItem entry sigs
    pub is_signed : IsSigned key signed entry

  refused {ℓ} :
      {A : Type ℓ} (o : Option Text) (b : Bool) (statement : Fields) (pack : Value)
      → rejected o ≡ opened b statement pack
      → A
  refused o b statement pack e = absurd (differ e)
    where
      differ : rejected o ≢ opened b statement pack
      differ = cc

  reading_of-opened :
      (b : Bool) (o : Option Fields) (statement : Fields) (pack : Value)
      → reading_of b o ≡ opened true statement pack
      → (b ≡ true) × (o ≡ some statement) × (pack ≡ or_null (get (codes "predicate") statement))
  reading_of-opened b none statement pack e = refused _ _ _ _ e
  reading_of-opened b (some s) statement pack e =
      let same : s ≡ statement = cc in
      let held : or_null (get (codes "predicate") s) ≡ pack = cc in
      (cc, ap some same, sym held ∙ ap (λ u. or_null (get (codes "predicate") u)) same)

  -- What is known of the envelope's fields when it is opened and verified.
  check_fields-IsVerified :
      (e statement : Fields) (pack : Value) (key : Text) (t s p : Option Value)
      → get (codes "payloadType") e ≡ t
      → get (codes "signatures") e ≡ s
      → get (codes "payload") e ≡ p
      → check_fields h is_zero key t s p ≡ opened true statement pack
      → IsVerified (dict e) key statement pack
  unfolding check_payload read_statement
  check_fields-IsVerified e statement pack key (some (str pt)) (some (list sigs)) p et es ep r =
      elim (Bool-cases (pt === payload_type_name)) [
        | inl t ↦
            raw_opened (unb64_at h is_zero p) refl (sym (if-true _ _ t) ∙ r)
              (et ∙ ap (λ u. some (str u)) (===→eq pt payload_type_name t))
        | inr f ↦ refused _ _ _ _ (sym (if-false _ _ f) ∙ r)
      ]
    where
      signed_opened :
          (raw : List ℕ) (o : Option (List ℕ))
          → unb64_at h is_zero p ≡ some raw
          → pae payload_type_name raw ≡ o
          → check_signed h is_zero key sigs raw o ≡ opened true statement pack
          → get (codes "payloadType") e ≡ some (str payload_type_name)
          → IsVerified (dict e) key statement pack
      signed_opened raw none is_raw is_signed q named = refused _ _ _ _ q
      signed_opened raw (some signed) is_raw is_signed q named =
          let (verified, parses, holds) = reading_of-opened _ _ statement pack q in
          let (entry, within, by) = any_verifies-IsItem key signed sigs verified in
          record {
            envelope = e;
            sigs = sigs;
            payload = raw;
            signed = signed;
            entry = entry;
            is_object = refl;
            is_in_toto = named;
            has_sigs = es;
            has_payload = ap (unb64_at h is_zero) ep ∙ is_raw;
            encodes = is_signed;
            parses = parses;
            holds_pack = holds;
            within = within;
            is_signed = by;
          }

      raw_opened :
          (o : Option (List ℕ))
          → unb64_at h is_zero p ≡ o
          → check_raw h is_zero key sigs o ≡ opened true statement pack
          → get (codes "payloadType") e ≡ some (str payload_type_name)
          → IsVerified (dict e) key statement pack
      raw_opened none is_raw q named = refused _ _ _ _ q
      raw_opened (some raw) is_raw q named =
          signed_opened raw (pae payload_type_name raw) is_raw refl q named
  check_fields-IsVerified e statement pack key none s p et es ep r = refused _ _ _ _ r
  check_fields-IsVerified e statement pack key (some (str pt)) none p et es ep r = refused _ _ _ _ r
  check_fields-IsVerified e statement pack key (some (str pt)) (some _) p et es ep r =
      refused _ _ _ _ r
  check_fields-IsVerified e statement pack key (some _) s p et es ep r = refused _ _ _ _ r

  -- When `from_dsse` says verified, the envelope is an object whose payload type is in-toto's,
  -- whose payload is the statement that is returned, with the pack as its predicate, and an entry
  -- of whose signatures verifies over the encoding of that type and that payload: under the key
  -- that was given, where the entry has no other key, or else under the entry's own.
  pub from_dsse-IsVerified :
      (v : Value) (key : Text) (statement : Fields) (pack : Value)
      → from_dsse h is_zero v key ≡ opened true statement pack
      → IsVerified v key statement pack
  unfolding from_dsse
  from_dsse-IsVerified (dict e) key statement pack r =
      check_fields-IsVerified e statement pack key _ _ _ refl refl refl r
  from_dsse-IsVerified _ key statement pack r = refused _ _ _ _ r
