-- ===== src/Envelope/RoundTrip.antt =====
-- What `to_dsse` of omega_evidence/interop/dsse.py signs, before `from_dsse`.
use omega_evidence.Base.{
  ℕ, ◌%◌, Bool, true, false, ◌||◌, none, some, Option-cases, List, [], ◌∷◌, ◌≡◌, ◌≢◌, ◌⊎◌, refl,
  sym, ap, ◌∙◌, inl, inr, arith, Bool-cases, if-true, if-false, untrue, length, ◌==◌, ==_iff,
}
use mathlib.Core.Path.{subst}
use omega_evidence.Base.Text.{Text, codes, ◌===◌, ===_refl, is_empty}
use omega_evidence.Base.Result.{ok, after, ok-injective}
use omega_evidence.Base.Utf8.{encode}
use omega_evidence.Value.{truth, Fields, str, dict, nil, cons}
use omega_evidence.Ledger.Chain.{get, is_text}
use omega_evidence.Canonical.{canonical_json}
use omega_evidence.Verifier.Forms.{Host, verify_signature, weak_ed25519_key}
use omega_evidence.Envelope.Identity.{Signer, Identity, public_key_b64, fingerprint, sign}
use omega_evidence.Envelope.Dsse.{
  payload_type_name, pae, unb64, full_match, is_padding, holds_char, in_std, from_dsse, to_dsse,
  build_statement, read_statement, check_payload, entry_verifies, any_verifies, envelope_of,
  entry_of, key_of, other_key, Reading, opened, rejected, reading_of, parse_payload, or_null,
  pae_bytes, check_raw, check_signed, signed_envelope,
}

-- base64 as Python documents it, on these bytes: groups of four of the standard alphabet, none for
-- no byte, which decode again.
pub record IsBase64 (h : Host) (bs : List ℕ) : Type 0 where
  pub in_fours : (length (h.b64encode bs) % 4 == 0) ≡ true
  pub standard : full_match in_std (h.b64encode bs) ≡ true
  pub decodes : h.b64decode (h.b64encode bs) ≡ some bs
  pub decodes_lax : h.b64decode_lax (h.b64encode bs) ≡ some bs
  pub no_byte : is_empty (h.b64encode bs) ≡ is_empty bs

-- An identity whose own signatures verify, under a key that is not weak.
pub record IsSound (h : Host) (k : Signer) (i : Identity) : Type 0 where
  pub not_weak : weak_ed25519_key (k.seed_to_public i.seed) ≡ false
  pub signs :
      (message : List ℕ)
      → h.ed25519 (k.seed_to_public i.seed) (k.seed_sign i.seed message) message ≡ true

-- A padding holds no other character.
padding : (d : ℕ) (t : Text) → d ≢ 61 → is_padding t ≡ true → holds_char d t ≡ false
unfolding holds_char
padding d [] n e = refl
padding d (c ∷ []) n e = ground arith
padding d (c ∷ x ∷ []) n e = ground arith
padding d (c ∷ x ∷ y ∷ t) n e = untrue e

outside :
    (d : ℕ) (s : Text)
    → d ≢ 61
    → in_std d ≡ false
    → full_match in_std s ≡ true
    → holds_char d s ≡ false
unfolding full_match holds_char
outside d [] n o e = refl
outside d (c ∷ t) n o e = elim (Bool-cases (in_std c)) [
  | inl t_in ↦ or-both (other t_in) (outside d t n o (sym (if-true _ _ t_in) ∙ e))
  | inr t_out ↦ padding d (c ∷ t) n (sym (if-false _ _ t_out) ∙ e)
]
  where
    or-both : {a b : Bool} → a ≡ false → b ≡ false → (a || b) ≡ false
    or-both h k = rw (h, k) refl

    other : in_std c ≡ true → (c == d) ≡ false
    other t_in = elim (Bool-cases (c == d)) [
      | inr f ↦ f
      | inl same ↦ untrue (sym o ∙ ap in_std (sym ((==_iff c d).0 same)) ∙ t_in)
    ]

-- "-" and "_" are not in the standard alphabet.
no_url_char : (s : Text) → full_match in_std s ≡ true → (holds_char 45 s || holds_char 95 s) ≡ false
no_url_char s e = rw (outside 45 s hyphen refl e, outside 95 s underscore refl e) refl
  where
    hyphen : ◌≢◌ {A = ℕ} 45 61
    hyphen x = omega arith

    underscore : ◌≢◌ {A = ℕ} 95 61
    underscore x = omega arith

-- Behind a signature that verified: the statement of the bytes, as the reader makes it of them,
-- or the refusal of bytes in which it finds no object.
pub data IsRead (payload : List ℕ) : Reading → Type 0 where
  is_opened :
      (statement : Fields)
      → parse_payload payload ≡ some statement
      → IsRead payload (opened true statement (or_null (get (codes "predicate") statement)))
  is_refused : parse_payload payload ≡ none → IsRead payload (rejected (some payload_type_name))

read_statement-IsRead : (payload : List ℕ) → IsRead payload (read_statement true payload)
unfolding read_statement
read_statement-IsRead payload = elim (Option-cases (parse_payload payload)) [
  | inl e ↦ subst (λ o. IsRead payload (reading_of true o)) (sym e) (is_refused e)
  | inr (s, e) ↦ subst (λ o. IsRead payload (reading_of true o)) (sym e) (is_opened s e)
]

module _ (h : Host) (is_zero : Text → Bool) where
  unb64-b64encode : (bs : List ℕ) → IsBase64 h bs → unb64 h is_zero (str (h.b64encode bs)) ≡ some bs
  unfolding unb64
  unb64-b64encode bs b =
      rw (b.in_fours, b.standard, no_url_char (h.b64encode bs) b.standard) b.decodes

  verify_signature-sign :
      (k : Signer) (i : Identity) (message : List ℕ)
      → IsBase64 h (k.seed_to_public i.seed)
      → IsBase64 h (k.seed_sign i.seed message)
      → IsSound h k i
      → verify_signature h (public_key_b64 h k i) (h.b64encode (k.seed_sign i.seed message)) message
        ≡ true
  unfolding verify_signature public_key_b64
  verify_signature-sign k i message key sig s =
      rw (key.decodes_lax, verify_signature)
        (rw (sig.decodes_lax, verify_signature) (rw (s.not_weak, s.signs message) refl))

  no_text : (t : Text) → is_empty t ≡ true → t ≡ []
  no_text [] e = refl
  no_text (c ∷ t) e = untrue e

  -- The key of a sound identity is no empty text.
  public_key_b64-some :
      (k : Signer) (i : Identity)
      → IsBase64 h (k.seed_to_public i.seed)
      → IsSound h k i
      → public_key_b64 h k i ≢ []
  unfolding public_key_b64 weak_ed25519_key
  public_key_b64-some k i key s e = untrue (
      sym s.not_weak
      ∙ ap weak_ed25519_key (no_text (k.seed_to_public i.seed) (sym key.no_byte ∙ ap is_empty e)))

  -- The producer's own key, or none, goes with its entry.
  key_agrees :
      (key own : Text)
      → own ≢ []
      → (key ≡ []) ⊎ (key ≡ own)
      → (key_of key (some (str own)) ≡ some own)
        × (other_key h is_zero key (some (str own)) ≡ false)
  unfolding truth is_text
  key_agrees key [] n g = absurd (n refl)
  key_agrees [] (c ∷ t) n g = (refl, refl)
  key_agrees (d ∷ u) (c ∷ t) n (inl e) = absurd (not_nil e)
    where
      not_nil : d ∷ u ≢ []
      not_nil = cc
  key_agrees (d ∷ u) (c ∷ t) n (inr e) = (ap some e, rw (sym e, ===_refl (d ∷ u)) refl)

  pae_in_toto :
      (payload : List ℕ)
      → pae payload_type_name payload ≡ some (pae_bytes payload_type_name payload)
  unfolding pae encode
  pae_in_toto payload = refl

  -- The one entry of the envelope verifies.
  signature_verifies :
      (k : Signer) (i : Identity) (key : Text) (signed payload : List ℕ)
      → IsBase64 h (k.seed_to_public i.seed)
      → IsBase64 h (k.seed_sign i.seed signed)
      → IsSound h k i
      → (key ≡ []) ⊎ (key ≡ public_key_b64 h k i)
      → any_verifies h is_zero key signed (
          cons (dict (entry_of (fingerprint h k i) (public_key_b64 h k i) (sign h k i signed))) nil)
        ≡ true
  unfolding any_verifies entry_verifies get ◌===◌ sign
  signature_verifies k i key signed payload pub_b64 sig_b64 s given =
      let (found, same) =
        key_agrees key (public_key_b64 h k i) (public_key_b64-some k i pub_b64 s) given in
      rw
        (
          same,
          found,
          unb64-b64encode (k.seed_sign i.seed signed) sig_b64,
          verify_signature-sign k i signed pub_b64 sig_b64 s,
        )
        refl

  envelope_reads :
      (k : Signer) (i : Identity) (key : Text) (payload : List ℕ)
      → IsBase64 h payload
      → IsBase64 h (k.seed_to_public i.seed)
      → IsBase64 h (k.seed_sign i.seed (pae_bytes payload_type_name payload))
      → IsSound h k i
      → (key ≡ []) ⊎ (key ≡ public_key_b64 h k i)
      → from_dsse h is_zero
          (dict (
            envelope_of
              (h.b64encode payload)
              (fingerprint h k i)
              (public_key_b64 h k i)
              (sign h k i (pae_bytes payload_type_name payload))))
          key
        ≡ read_statement true payload
  unfolding from_dsse check_payload get ◌===◌
  envelope_reads k i key payload pay_b64 pub_b64 sig_b64 s given =
      let signed = pae_bytes payload_type_name payload in
      let sigs =
        cons (dict (entry_of (fingerprint h k i) (public_key_b64 h k i) (sign h k i signed))) nil in
      ap (check_raw h is_zero key sigs) (unb64-b64encode payload pay_b64)
      ∙ ap (check_signed h is_zero key sigs payload) (pae_in_toto payload)
      ∙ ap (λ b. read_statement b payload)
          (signature_verifies k i key signed payload pub_b64 sig_b64 s given)

  -- `to_dsse` signs the canonical JSON of the statement that `build_statement` makes of the pack.
  -- Of the envelope that it returns, `from_dsse`, with the producer's public key or with none, says
  -- verified, with the statement that it reads from those very bytes and that statement's
  -- predicate; only where its reader finds no object in those bytes does it refuse them. The
  -- library's base64 and signature do what they are documented to do for these bytes, this key
  -- and this signature, and the key is not weak.
  pub to_dsse-from_dsse :
      (k : Signer) (pack : Fields) (i : Identity) (subject : Text) (key : Text) (statement : Fields)
      (payload : List ℕ) (envelope : Fields)
      → build_statement h is_zero pack subject ≡ ok statement
      → canonical_json (dict statement) false ≡ ok payload
      → to_dsse h is_zero k pack i subject ≡ ok envelope
      → IsBase64 h payload
      → IsBase64 h (k.seed_to_public i.seed)
      → IsBase64 h (k.seed_sign i.seed (pae_bytes payload_type_name payload))
      → IsSound h k i
      → (key ≡ []) ⊎ (key ≡ public_key_b64 h k i)
      → IsRead payload (from_dsse h is_zero (dict envelope) key)
  unfolding to_dsse
  to_dsse-from_dsse k pack i subject key statement payload envelope built printed e pay pk sig s
        given =
      after (build_statement h is_zero pack subject) e (λ st is_st e1.
        after (canonical_json (dict st) false) e1 (λ pl is_pl e2.
          let same : pl ≡ payload = ok-injective (
            sym is_pl
            ∙ ap (λ x. canonical_json (dict x) false) (ok-injective (sym is_st ∙ built))
            ∙ printed) in
          let made = ok-injective (
            sym (ap (signed_envelope h is_zero k i payload) (pae_in_toto payload))
            ∙ ap (λ p. signed_envelope h is_zero k i p (pae payload_type_name p)) (sym same)
            ∙ e2) in
          subst (IsRead payload)
            (sym (
              ap (λ u. from_dsse h is_zero (dict u) key) (sym made)
              ∙ envelope_reads k i key payload pay pk sig s given))
            (read_statement-IsRead payload)))
