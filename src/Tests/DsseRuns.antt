-- ===== src/Tests/DsseRuns.antt =====
-- Envelopes made and read with a toy base64 (four characters for each unit of a number) and a toy
-- signature, and an envelope that is written out.
use omega_evidence.Base.{
  ℕ, zero, suc, ◌+◌, ◌%◌, Bool, true, false, none, some, Option, List, [], ◌∷◌, ◌++◌, ◌≡◌, refl,
  length, ◌==◌, if◌then◌else◌, replicate, inl, arith, ap, untrue, ◌∙◌, ==_iff,
}
use omega_evidence.Base.Text.{Text, codes, ◌===◌, ===_refl, in_list, is_empty}
use omega_evidence.Base.Result.{Result, ok, err, is_ok}
use omega_evidence.Base.Utf8.{encode}
use omega_evidence.Value.{Value, null, Fields, dict, end, str, field, name, list, cons, nil}
use omega_evidence.Ledger.Chain.{get}
use omega_evidence.Json.Print.{print, text_lt}
use omega_evidence.Chip.Classes.{dict_from}
use omega_evidence.Canonical.{Refusal, canonical_json, reject_reserved}
use omega_evidence.Verifier.Forms.{Host, weak_ed25519_key, hex, from_bytes}
use omega_evidence.Envelope.Identity.{Signer, Identity, new_identity}
use omega_evidence.Envelope.Dsse.{
  pae, from_dsse, to_dsse, build_statement, full_match, in_std, payload_type_name, parse_payload,
  opened, pae_bytes,
}
use omega_evidence.Envelope.Encoding.{pae_injective}
use omega_evidence.Envelope.Verified.{IsVerified, from_dsse-IsVerified}
use omega_evidence.Envelope.RoundTrip.{IsBase64, IsSound, IsRead, to_dsse-from_dsse}

-- "AAAA" n times, and "BAAA"
abbrev units : ℕ → Text → Text
units zero t = 66 ∷ 65 ∷ 65 ∷ 65 ∷ t
units (suc n) t = 65 ∷ 65 ∷ 65 ∷ 65 ∷ units n t

abbrev encode_units : List ℕ → Text
encode_units [] = []
encode_units (n ∷ ns) = units n (encode_units ns)

abbrev decode_units : ℕ → Text → List ℕ
decode_units k (c ∷ x ∷ y ∷ z ∷ t) = elim (c == 66) [
  | true ↦ k ∷ decode_units 0 t
  | false ↦ decode_units (suc k) t
]
decode_units k _ = []

decode_units-units : (k n : ℕ) (t : Text) → decode_units k (units n t) ≡ (k + n) ∷ decode_units 0 t
decode_units-units k zero t = ap (λ m. m ∷ decode_units 0 t) zeros
  where
    zeros : k ≡ k + 0
    zeros = omega arith
decode_units-units k (suc n) t =
    decode_units-units (suc k) n t ∙ ap (λ m. m ∷ decode_units 0 t) next
  where
    next : suc k + n ≡ k + suc n
    next = omega arith

decode_units-encode_units : (ns : List ℕ) → decode_units 0 (encode_units ns) ≡ ns
decode_units-encode_units [] = refl
decode_units-encode_units (n ∷ ns) =
    decode_units-units 0 n (encode_units ns)
    ∙ ap (λ m. m ∷ decode_units 0 (encode_units ns)) zeros
    ∙ ap (λ t. n ∷ t) (decode_units-encode_units ns)
  where
    zeros : 0 + n ≡ n
    zeros = omega arith

units-standard :
    (n : ℕ) (t : Text) → full_match in_std t ≡ true → full_match in_std (units n t) ≡ true
unfolding full_match
units-standard zero t h = h
units-standard (suc n) t h = units-standard n t h

standard : (ns : List ℕ) → full_match in_std (encode_units ns) ≡ true
unfolding full_match
standard [] = refl
standard (n ∷ ns) = units-standard n (encode_units ns) (standard ns)

units-fours : (n : ℕ) (t : Text) → length t % 4 ≡ 0 → length (units n t) % 4 ≡ 0
units-fours zero t h = omega arith
units-fours (suc n) t h = omega (arith, units-fours n t h)

fours : (ns : List ℕ) → length (encode_units ns) % 4 ≡ 0
fours [] = refl
fours (n ∷ ns) = units-fours n (encode_units ns) (fours ns)

-- A signature is the key and the message.
abbrev toy : Host
toy = record {
  sha3_256 = λ t. replicate 64 97;
  sha256 = λ t. replicate 64 98;
  b64decode = λ s. some (decode_units 0 s);
  b64decode_lax = λ s. some (decode_units 0 s);
  b64encode = encode_units;
  ed25519 = λ pk sig m. sig === pk ++ m;
  pq_sig_algs = λ alg. none;
}

abbrev toy_signer : Signer
toy_signer = record { seed_to_public = λ seed. seed; seed_sign = λ seed m. seed ++ m }

encode_units-is_empty : (ns : List ℕ) → is_empty (encode_units ns) ≡ is_empty ns
encode_units-is_empty [] = refl
encode_units-is_empty (zero ∷ ns) = refl
encode_units-is_empty (suc n ∷ ns) = refl

toy-IsBase64 : (bs : List ℕ) → IsBase64 toy bs
toy-IsBase64 bs = record {
  in_fours = (==_iff _ 0).1 (fours bs);
  standard = standard bs;
  decodes = ap some (decode_units-encode_units bs);
  decodes_lax = ap some (decode_units-encode_units bs);
  no_byte = encode_units-is_empty bs;
}

abbrev producer : Identity
producer = record { id_name = codes "producer"; seed = replicate 32 7 }

producer_is_new : new_identity (codes "producer") (some (replicate 32 7)) [] ≡ some producer
unfolding new_identity
producer_is_new = refl

producer-IsSound : IsSound toy toy_signer producer
unfolding weak_ed25519_key in_list ◌===◌ hex from_bytes
producer-IsSound = record {
  not_weak = refl;
  signs = λ message. ===_refl (replicate 32 7 ++ message);
}

abbrev pack : Fields
pack = field (name (codes "kind")) (str (codes "k")) end

abbrev no_zero : Text → Bool
no_zero t = false

-- What a call that returns gives.
abbrev returned : Result Refusal Fields → Fields
returned (ok r) = r
returned (err e) = end

abbrev fields_of : Option Fields → Fields
fields_of none = end
fields_of (some fs) = fs

abbrev text_of : Result Refusal Text → Text
text_of (ok t) = t
text_of (err e) = []

ok-text_of : (r : Result Refusal Text) → is_ok r ≡ true → r ≡ ok (text_of r)
ok-text_of (ok t) h = refl
ok-text_of (err e) h = untrue h

ok-returned : (r : Result Refusal Fields) → is_ok r ≡ true → r ≡ ok (returned r)
ok-returned (ok r) h = refl
ok-returned (err e) h = untrue h

abbrev made : Fields
made = returned (to_dsse toy no_zero toy_signer pack producer [])

abbrev statement : Fields
statement = returned (build_statement toy no_zero pack [])

abbrev payload : List ℕ
payload = text_of (canonical_json (dict statement) false)

statement_is_built : build_statement toy no_zero pack [] ≡ ok statement
unfolding build_statement reject_reserved ◌===◌ print
statement_is_built = ok-returned (build_statement toy no_zero pack []) refl

payload_is_printed : canonical_json (dict statement) false ≡ ok payload
unfolding build_statement canonical_json reject_reserved ◌===◌ print
payload_is_printed = ok-text_of (canonical_json (dict statement) false) refl

-- The reader finds the pack in those bytes.
abbrev read_back : Option Fields
read_back = parse_payload payload

predicate_is_read : get (codes "predicate") (fields_of read_back) ≡ some (dict pack)
unfolding build_statement canonical_json reject_reserved ◌===◌ print get parse_payload text_lt
    dict_from in_list
predicate_is_read = refl

envelope_is_made : is_ok (to_dsse toy no_zero toy_signer pack producer []) ≡ true
unfolding to_dsse reject_reserved ◌===◌ print
envelope_is_made = refl

to_dsse-from_dsse_example : IsRead payload (from_dsse toy no_zero (dict made) [])
to_dsse-from_dsse_example =
    to_dsse-from_dsse toy no_zero toy_signer pack producer [] [] statement payload made
      statement_is_built payload_is_printed (ok-returned _ envelope_is_made) (toy-IsBase64 payload)
      (toy-IsBase64 (toy_signer.seed_to_public producer.seed))
      (toy-IsBase64 (toy_signer.seed_sign producer.seed (pae_bytes payload_type_name payload)))
      producer-IsSound (inl refl)

-- A host that knows three texts of base64.
abbrev written : Host
written = record {
  sha3_256 = λ t. replicate 64 97;
  sha256 = λ t. replicate 64 98;
  b64decode = λ s. if s === codes "e30=" then some (codes "{}") else some (codes "sig");
  b64decode_lax = λ s. if s === codes "KEYS" then some (replicate 32 7) else some (codes "sig");
  b64encode = λ bs. codes "c2ln";
  ed25519 = λ pk sig m. sig === codes "sig";
  pq_sig_algs = λ alg. none;
}

abbrev signatures : Value
signatures = list (
    cons (str (codes "no object")) (
      cons
        (dict (
          field (name (codes "sig")) (str (codes "c2ln"))
            (field (name (codes "publicKeyB64")) (str (codes "KEYS")) end)))
        nil))

abbrev an_envelope : Value
an_envelope = dict (
    field (name (codes "payload")) (str (codes "e30=")) (
      field (name (codes "payloadType")) (str payload_type_name)
        (field (name (codes "signatures")) signatures end)))

is_read : from_dsse written no_zero an_envelope [] ≡ opened true end null
unfolding from_dsse dict_from
is_read = refl

from_dsse-IsVerified_example : IsVerified written no_zero an_envelope [] end null
from_dsse-IsVerified_example = from_dsse-IsVerified written no_zero an_envelope [] end null is_read

pae_injective_example :
    (encode (codes "text/plain") ≡ encode (codes "text/plain"))
    × (◌≡◌ {A = List ℕ} (1 ∷ 2 ∷ []) (1 ∷ 2 ∷ []))
unfolding pae
pae_injective_example =
    pae_injective (codes "text/plain") (codes "text/plain") (1 ∷ 2 ∷ []) (1 ∷ 2 ∷ [])
      (pae_bytes (codes "text/plain") (1 ∷ 2 ∷ [])) refl refl
