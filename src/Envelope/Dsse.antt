-- ===== src/Envelope/Dsse.antt =====
-- omega_evidence/interop/dsse.py: evidence packs in signed DSSE envelopes. An envelope that is read
-- is a JSON value; which of its floats are zero is an argument, and "" stands for no public key.
use omega_evidence.Base.{
  ℕ, ◌%◌, Bool, true, false, not, ◌&&◌, ◌||◌, Option, none, some, List, [], ◌∷◌, ◌++◌, leb, ◌==◌,
  if◌then◌else◌, length,
}
use mathlib.Core.List.{map}
use omega_evidence.Base.Text.{Text, codes, ◌===◌, is_empty}
use omega_evidence.Base.Result.{Result, ok, err, ◌>>=◌}
use omega_evidence.Base.Utf8.{encode, decode}
use omega_evidence.Value.{
  Value, Items, Fields, name, null, str, list, dict, nil, cons, end, field, truth,
}
use omega_evidence.Json.Print.{print_nat}
use omega_evidence.Json.Scan.{Hooks, got, failed, malformed}
use omega_evidence.Json.Load.{json_loads}
use omega_evidence.Ledger.Strict.{nesting_depth, max_depth}
use omega_evidence.Ledger.Chain.{get, is_text}
use omega_evidence.Canonical.{Refusal, lone_surrogate, canonical_json, sha3}
use omega_evidence.Verifier.Forms.{Host, verify_signature}
use omega_evidence.Verifier.Checks.{or_empty}
use omega_evidence.Chip.Classes.{plain_hooks}
use omega_evidence.Envelope.Identity.{Signer, Identity, public_key_b64, fingerprint, sign}

abbrev pub payload_type_name : Text
payload_type_name = codes "application/vnd.in-toto+json"

abbrev pub statement_type : Text
statement_type = codes "https://in-toto.io/Statement/v1"

abbrev pub predicate_type : Text
predicate_type = codes "https://omega-evidence.org/pack/v1"

abbrev is_alnum : ℕ → Bool
is_alnum c = (leb 65 c && leb c 90) || (leb 97 c && leb c 122) || (leb 48 c && leb c 57)

abbrev pub in_std : ℕ → Bool
in_std c = is_alnum c || c == 43 || c == 47

abbrev pub in_url : ℕ → Bool
in_url c = is_alnum c || c == 95 || c == 45

-- ={0,2}
abbrev pub is_padding : Text → Bool
is_padding [] = true
is_padding (c ∷ []) = c == 61
is_padding (c ∷ d ∷ []) = c == 61 && d == 61
is_padding _ = false

-- `_STD.fullmatch` and `_URL.fullmatch`: "=" is in neither alphabet.
unfoldable pub full_match : (ℕ → Bool) → Text → Bool
full_match alphabet [] = true
full_match alphabet (c ∷ t) =
    let rest = full_match alphabet t in if alphabet c then rest else is_padding (c ∷ t)

unfoldable pub holds_char : ℕ → Text → Bool
holds_char c [] = false
holds_char c (d ∷ t) = d == c || holds_char c t

-- altchars=b"-_"
abbrev from_url : ℕ → ℕ
from_url c = if c == 45 then 43 else if c == 95 then 47 else c

-- "DSSEv1 " and the lengths
unfoldable pub pae_bytes : List ℕ → List ℕ → List ℕ
unfolding print_nat
pae_bytes pt payload =
    codes "DSSEv1 "
    ++ (print_nat (length pt)
        ++ (32 ∷ (pt ++ (32 ∷ (print_nat (length payload) ++ (32 ∷ payload))))))

abbrev pub pae_of : Option (List ℕ) → List ℕ → Option (List ℕ)
pae_of none payload = none
pae_of (some pt) payload = some (pae_bytes pt payload)

-- `pae`; none is the UnicodeEncodeError.
unfoldable pub pae : Text → List ℕ → Option (List ℕ)
unfolding encode
pae payload_type payload = pae_of (encode payload_type) payload

-- `parse_constant=_no_constant`
abbrev pub no_constant : Hooks
no_constant = record plain_hooks { parse_constant = λ t. failed malformed }

-- The statement of a payload: none where it is not UTF-8, not JSON or not an object.
unfoldable pub parse_payload : List ℕ → Option Fields
unfolding decode json_loads nesting_depth
parse_payload payload = elim (decode payload) [
  | none ↦ none
  | some text ↦
      if leb (nesting_depth text) max_depth
      then elim (json_loads no_constant text) [
        | got v r ↦ elim v [ dict fs ↦ some fs | _ ↦ none ]
        | failed e ↦ none
      ]
      else none
]

-- What `from_dsse` returns: a refusal, which may name the payload type, or `verified`, the
-- statement and the pack.
pub data Reading : Type 0 where
  rejected : Option Text → Reading
  opened : Bool → Fields → Value → Reading

abbrev pub or_null : Option Value → Value
or_null none = null
or_null (some v) = v

abbrev pub reading_of : Bool → Option Fields → Reading
reading_of verified none = rejected (some payload_type_name)
reading_of verified (some statement) =
    opened verified statement (or_null (get (codes "predicate") statement))

-- Behind the loop over the signatures.
unfoldable pub read_statement : Bool → List ℕ → Reading
unfolding parse_payload get
read_statement verified payload = reading_of verified (parse_payload payload)

abbrev pub entry_of : Text → Text → Text → Fields
entry_of keyid key sig =
    field (name (codes "keyid")) (str keyid)
      (field (name (codes "publicKeyB64")) (str key) (field (name (codes "sig")) (str sig) end))

abbrev pub envelope_of : Text → Text → Text → Text → Fields
envelope_of payload keyid key sig = field (name (codes "payload")) (str payload) (
    field (name (codes "payloadType")) (str payload_type_name)
      (field (name (codes "signatures")) (list (cons (dict (entry_of keyid key sig)) nil)) end))

abbrev pub statement_of : Value → Text → Value → Fields → Fields
statement_of n sha256 native pack = field (name (codes "_type")) (str statement_type) (
    field (name (codes "subject"))
      (list (
        cons
          (dict (
            field (name (codes "name")) n (
              field (name (codes "digest"))
                (dict (
                  field (name (codes "sha256")) (str sha256)
                    (field (name (codes "sha3_256")) native end)))
                end)))
          nil))
      (field (name (codes "predicateType")) (str predicate_type)
        (field (name (codes "predicate")) (dict pack) end)))

-- subject_name or pack.get("kind", ...)
abbrev name_of : Text → Option Value → Value
name_of (c ∷ t) kind = str (c ∷ t)
name_of [] none = str (codes "omega-evidence-pack")
name_of [] (some v) = v

-- public_key_b64 or s.get("publicKeyB64", ""), where it is a str and not "".
abbrev pub key_of : Text → Option Value → Option Text
key_of (c ∷ t) own = some (c ∷ t)
key_of [] (some (str (c ∷ t))) = some (c ∷ t)
key_of [] _ = none

module _ (h : Host) (is_zero : Text → Bool) where
  -- `_unb64`; none is the ValueError.
  unfoldable pub unb64 : Value → Option (List ℕ)
  unfolding full_match holds_char
  unb64 (str s) =
      if not (length s % 4 == 0) || not (full_match in_std s || full_match in_url s)
      then none
      else h.b64decode (if holds_char 45 s || holds_char 95 s then map from_url s else s)
  unb64 _ = none

  abbrev pub has : Option Value → Bool
  has none = false
  has (some v) = truth is_zero v

  -- The keys are there, and they differ.
  abbrev pub other_key : Text → Option Value → Bool
  other_key key own = not (is_empty key) && has own && not (is_text own key)

  abbrev pub verifies_with : Option Text → Option (List ℕ) → List ℕ → Bool
  verifies_with (some pk) (some raw) signed = verify_signature h pk (h.b64encode raw) signed
  verifies_with _ _ signed = false

  -- One entry of "signatures".
  unfoldable pub entry_verifies : Text → List ℕ → Value → Bool
  unfolding truth is_text get unb64 verify_signature
  entry_verifies key signed (dict s) =
      let own = get (codes "publicKeyB64") s in
      not (other_key key own)
      && verifies_with (key_of key own) (unb64 (or_empty (get (codes "sig") s))) signed
  entry_verifies key signed _ = false

  -- The loop: it ends at the first entry that verifies.
  unfoldable pub any_verifies : Text → List ℕ → Items → Bool
  unfolding entry_verifies
  any_verifies key signed nil = false
  any_verifies key signed (cons s sigs) =
      entry_verifies key signed s || any_verifies key signed sigs

  -- envelope["payload"], where the KeyError is none too
  abbrev pub unb64_at : Option Value → Option (List ℕ)
  unb64_at none = none
  unb64_at (some v) = unb64 v

  abbrev pub check_signed : Text → Items → List ℕ → Option (List ℕ) → Reading
  check_signed key sigs raw none = rejected none
  check_signed key sigs raw (some signed) = read_statement (any_verifies key signed sigs) raw

  abbrev pub check_raw : Text → Items → Option (List ℕ) → Reading
  check_raw key sigs none = rejected none
  check_raw key sigs (some raw) = check_signed key sigs raw (pae payload_type_name raw)

  -- Behind the checks of the envelope's own fields.
  unfoldable pub check_payload : Text → Option Value → Items → Reading
  unfolding unb64 any_verifies pae read_statement
  check_payload key payload sigs = check_raw key sigs (unb64_at payload)

  -- payloadType, signatures and payload, as `get` finds them.
  abbrev pub check_fields : Text → Option Value → Option Value → Option Value → Reading
  check_fields key (some (str pt)) (some (list sigs)) payload =
      if pt === payload_type_name then check_payload key payload sigs else rejected none
  check_fields key _ _ payload = rejected none

  -- `from_dsse`
  unfoldable pub from_dsse : Value → Text → Reading
  unfolding get ◌===◌ check_payload
  from_dsse (dict e) key =
      check_fields key (get (codes "payloadType") e) (get (codes "signatures") e)
        (get (codes "payload") e)
  from_dsse _ key = rejected none

  abbrev pub own_digest : Option Value → Result Refusal Text → Result Refusal Value
  own_digest none computed = computed >>= λ d. ok (str d)
  own_digest (some v) computed = if truth is_zero v then ok v else computed >>= λ d. ok (str d)

  -- pack.get("pack_sha3") or sha3(pack)
  unfoldable pub native_digest : Fields → Result Refusal Value
  unfolding get truth sha3
  native_digest pack = own_digest (get (codes "pack_sha3") pack) (sha3 h.sha3_256 (dict pack) false)

  -- `build_statement`
  unfoldable pub build_statement : Fields → Text → Result Refusal Fields
  unfolding canonical_json native_digest get
  build_statement pack subject = do
    canon ← canonical_json (dict pack) false
    native ← native_digest pack
    ok (statement_of (name_of subject (get (codes "kind") pack)) (h.sha256 canon) native pack)

  -- Behind the statement's canonical bytes; "in-toto" encodes.
  abbrev pub signed_envelope : Signer → Identity → List ℕ → Option (List ℕ) → Result Refusal Fields
  signed_envelope k i payload none = err lone_surrogate
  signed_envelope k i payload (some signed) = ok (
      envelope_of (h.b64encode payload) (fingerprint h k i) (public_key_b64 h k i)
        (sign h k i signed))

  -- `to_dsse`
  unfoldable pub to_dsse : Signer → Fields → Identity → Text → Result Refusal Fields
  unfolding build_statement canonical_json pae fingerprint public_key_b64 sign
  to_dsse k pack i subject = do
    statement ← build_statement pack subject
    payload ← canonical_json (dict statement) false
    signed_envelope k i payload (pae payload_type_name payload)
