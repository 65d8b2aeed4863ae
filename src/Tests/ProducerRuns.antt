-- ===== src/Tests/ProducerRuns.antt =====
-- Packs built and signed with toy hashes and a toy signature, and an attestation of two attributes.
use omega_evidence.Base.{
  ℕ, true, false, none, some, List, [], ◌∷◌, ◌++◌, ◌≡◌, refl, length, ◌==◌, if◌then◌else◌,
  replicate, untrue, ◌↔◌,
}
use omega_evidence.Base.Text.{Text, codes, ◌===◌, in_list}
use omega_evidence.Base.Result.{Result, ok, err, is_ok}
use omega_evidence.Base.Utf8.{encode, decode}
use omega_evidence.Base.Dict.{Dict, lookup}
use omega_evidence.Value.{Value, str, int, Fields, field, name, end}
use omega_evidence.Base.Int.{pos}
use omega_evidence.Json.Print.{print, text_lt}
use omega_evidence.Canonical.{reject_reserved}
use omega_evidence.Ledger.Chain.{get, entry_of, strip}
use omega_evidence.Ledger.Strict.{loads_strict}
use omega_evidence.Verifier.Report.{Layer, passed}
use omega_evidence.Verifier.Scope.{declares_limit}
use omega_evidence.Verifier.Forms.{Host, weak_ed25519_key, is_lower_hex, signed_utc_ok}
use omega_evidence.Verifier.Verdict.{Request, verify_pack, pack_of}
use omega_evidence.Verifier.Signature.{check_side, sig_object}
use omega_evidence.Envelope.Identity.{Signer, Identity}
use omega_evidence.Envelope.RoundTrip.{IsSound}
use omega_evidence.Producer.Pack.{Unbuilt, build_pack, sign_sidecar, add_pq_signature}
use omega_evidence.Producer.Accepted.{build_pack-authenticated}
use omega_evidence.Producer.Judged.{own_passed, build_pack-verify_pack}
use omega_evidence.Producer.Signed.{IsCoded, sign_sidecar-passed, add_pq_signature-passed}
use omega_evidence.Producer.Attest.{Attestation, attest, matches, salted, salt_or, matches_iff}

abbrev digest_text : Text
digest_text = replicate 64 97

abbrev key : List ℕ
key = replicate 32 7

abbrev signature : List ℕ
signature = replicate 64 9

-- One key and one signature, and their base64
abbrev toy : Host
toy = record {
  sha3_256 = λ t. digest_text;
  sha256 = λ t. replicate 64 98;
  b64decode = λ s. if length s == 44 then some key else some signature;
  b64decode_lax = λ s. if length s == 44 then some key else some signature;
  b64encode = λ bs. if length bs == 32 then replicate 44 65 else replicate 88 65;
  ed25519 = λ pk sig m. length sig == 64;
  pq_sig_algs = λ alg. none;
}

abbrev signer : Signer
signer = record { seed_to_public = λ seed. key; seed_sign = λ seed m. signature }

abbrev producer : Identity
producer = record { id_name = codes "acme"; seed = replicate 32 1 }

abbrev scope : Value
scope = str (codes "NOT a certificate")

abbrev body : Fields
body = field (name (codes "count")) (int (pos 3)) end

abbrev made : Result Unbuilt Fields → Fields
made (ok pack) = pack
made (err e) = end

ok-made : (r : Result Unbuilt Fields) → is_ok r ≡ true → r ≡ ok (made r)
ok-made (ok pack) h = refl
ok-made (err e) h = untrue h

abbrev a_pack : Result Unbuilt Fields
a_pack = build_pack toy (codes "audit") body scope (codes "2026-01-01T00:00:00+00:00")

is_built : is_ok a_pack ≡ true
unfolding build_pack ◌===◌ reject_reserved in_list print
is_built = refl

abbrev pack_text : Text
pack_text =
    codes
      "{\"kind\": \"audit\", \"generated_utc\": \"2026-01-01T00:00:00+00:00\", \"honest_scope\": \"NOT a certificate\", \"count\": 3, \"pack_sha3\": \"aaaaaaaaaaaaaaaaaaaaaaaaaaaaaaaaaaaaaaaaaaaaaaaaaaaaaaaaaaaaaaaa\"}"

is_read_back : pack_of pack_text ≡ some (made a_pack)
unfolding build_pack ◌===◌ reject_reserved in_list print loads_strict decode entry_of strip
is_read_back = refl

abbrev request : Request
request = record {
  pack = some pack_text;
  ledger = none;
  timestamp = none;
  signature = none;
  trust_store = none;
  expected_pq = [];
  require_pq = false;
  require_signed = false;
  inject = false;
}

build_pack-verify_pack_example :
    (rest : List Layer) × ((verify_pack toy request).layers ≡ own_passed ++ rest)
unfolding get ◌===◌
build_pack-verify_pack_example =
    build_pack-verify_pack toy (codes "audit") body scope (codes "2026-01-01T00:00:00+00:00")
      (made a_pack) request pack_text (λ t. refl) refl (ok-made a_pack is_built) refl is_read_back

-- A body that names the scope replaces the one that was tested.
abbrev replaced : Fields
replaced = made (
    build_pack toy (codes "audit")
      (field (name (codes "honest_scope")) (str (codes "certified")) end) scope
      (codes "2026-01-01T00:00:00+00:00"))

scope_is_replaced : declares_limit (get (codes "honest_scope") replaced) ≡ false
unfolding build_pack get ◌===◌ declares_limit reject_reserved in_list print
scope_is_replaced = refl

key-IsCoded : IsCoded toy 32 key
key-IsCoded = record { sized = refl; in_quads = refl; decodes = refl; decodes_lax = refl }

signature-IsCoded : IsCoded toy 64 signature
signature-IsCoded = record { sized = refl; in_quads = refl; decodes = refl; decodes_lax = refl }

producer-IsSound : IsSound toy signer producer
unfolding weak_ed25519_key ◌===◌
producer-IsSound = record { not_weak = refl; signs = λ m. refl }

abbrev side_text : Text
side_text =
    codes
      "{\"signer_id\": \"acme\", \"sig_alg\": \"ed25519\", \"public_key_b64\": \"AAAAAAAAAAAAAAAAAAAAAAAAAAAAAAAAAAAAAAAAAAAA\", \"fingerprint\": \"ed25519:bbbbbbbb\\u2026bbbbbbbb\", \"signed_pack_sha3\": \"aaaaaaaaaaaaaaaaaaaaaaaaaaaaaaaaaaaaaaaaaaaaaaaaaaaaaaaaaaaaaaaa\", \"signature_b64\": \"AAAAAAAAAAAAAAAAAAAAAAAAAAAAAAAAAAAAAAAAAAAAAAAAAAAAAAAAAAAAAAAAAAAAAAAAAAAAAAAAAAAAAAAA\", \"signed_utc\": \"2026-01-01T00:00:00+00:00\"}"

side_is_read_back :
    sig_object (some side_text)
    ≡ some (sign_sidecar toy signer producer digest_text (codes "2026-01-01T00:00:00+00:00"))
unfolding sign_sidecar ◌===◌ reject_reserved in_list print loads_strict decode entry_of strip
side_is_read_back = refl

digest_is_declared : get (codes "pack_sha3") (made a_pack) ≡ some (str digest_text)
unfolding build_pack ◌===◌ reject_reserved in_list print get
digest_is_declared = refl

build_pack-authenticated_example :
    (verify_pack toy (record request { signature = some (some side_text) })).authenticated ≡ true
unfolding is_lower_hex signed_utc_ok
build_pack-authenticated_example =
    build_pack-authenticated toy signer producer (codes "audit") body scope
      (codes "2026-01-01T00:00:00+00:00") (made a_pack) digest_text
      (codes "2026-01-01T00:00:00+00:00") (record request { signature = some (some side_text) })
      pack_text (some side_text) (λ t. refl) (ok-made a_pack is_built) digest_is_declared
      key-IsCoded signature-IsCoded producer-IsSound refl refl refl is_read_back refl
      side_is_read_back refl refl

sign_sidecar-passed_example :
    (check_side toy
      (some (sign_sidecar toy signer producer digest_text (codes "2026-01-01T00:00:00+00:00")))
      none
      []
      false
      true
      digest_text).sig_status
    ≡ passed
unfolding is_lower_hex signed_utc_ok
sign_sidecar-passed_example =
    sign_sidecar-passed toy signer producer digest_text (codes "2026-01-01T00:00:00+00:00")
      key-IsCoded signature-IsCoded producer-IsSound refl refl refl none [] false true

add_pq_signature-passed_example :
    (check_side toy
      (some (
        add_pq_signature
          (codes "ml-dsa-65")
          (codes "AAAA")
          (codes "BBBB")
          (sign_sidecar toy signer producer digest_text (codes "2026-01-01T00:00:00+00:00"))))
      none
      (codes "AAAA")
      true
      true
      digest_text).sig_status
    ≡ passed
unfolding is_lower_hex signed_utc_ok
add_pq_signature-passed_example =
    add_pq_signature-passed toy signer producer digest_text (codes "2026-01-01T00:00:00+00:00")
      key-IsCoded signature-IsCoded producer-IsSound refl refl refl (codes "ml-dsa-65")
      (codes "AAAA") (codes "BBBB") none (codes "AAAA") true true

abbrev attributes : Dict Text
attributes = (codes "name", codes "Ada") ∷ (codes "over18", codes "yes") ∷ []

abbrev toy_hash : List ℕ → Text
toy_hash bytes = 97 ∷ bytes

abbrev an_attestation : Attestation
an_attestation = record {
  subject_ref = codes "ref";
  attribute_names = codes "name" ∷ codes "over18" ∷ [];
  attribute_digests = (codes "name", codes "as1|Ada") ∷ (codes "over18", codes "as1|yes") ∷ [];
  salt = codes "s1";
  outcome = codes "accepted";
  issued_utc = codes "2026-01-01T00:00:00+00:00";
}

is_attested :
    attest toy_hash
      (codes "ref")
      attributes
      (codes "accepted")
      (some (codes "s1"))
      []
      (codes "2026-01-01T00:00:00+00:00")
    ≡ some an_attestation
unfolding attest encode text_lt
is_attested = refl

matches_iff_example :
    (matches toy_hash an_attestation (codes "over18") (codes "yes") ≡ some true) ↔ (
      (v : Text) × (lookup (codes "over18") attributes ≡ some v)
      × (salted toy_hash (codes "yes") (salt_or (some (codes "s1")) [])
          ≡ salted toy_hash v (salt_or (some (codes "s1")) [])))
matches_iff_example =
    matches_iff toy_hash (codes "ref") attributes (codes "accepted") (some (codes "s1")) []
      (codes "2026-01-01T00:00:00+00:00") (codes "over18") (codes "yes") an_attestation is_attested
