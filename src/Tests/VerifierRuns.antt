-- ===== src/Tests/VerifierRuns.antt =====
-- A signed pack, on a host whose library functions are toys.
use omega_evidence.Json.Print.{print}
use omega_evidence.Canonical.{reject_reserved}
use omega_evidence.Ledger.Strict.{loads_strict}
use omega_evidence.Base.{
  ◌+◌, true, false, none, some, [], ◌==◌, ◌≡◌, refl, length, replicate, get_or, if◌then◌else◌,
}
use omega_evidence.Base.Text.{Text, codes, ◌===◌}
use omega_evidence.Verifier.Forms.{Host}
use omega_evidence.Verifier.Verdict.{Request, verify_pack}
use omega_evidence.Verifier.Authentic.{Authentic, authenticated-Authentic}
use omega_evidence.Verifier.Hybrid.{Hybrid, valid-Hybrid}
use omega_evidence.Verifier.Demands.{Sound, valid-Sound}

-- A base64 text stands for copies of its first character; a signature fits the key before it.
abbrev pub toy : Host
toy = record {
  sha3_256 = λ t. replicate 64 (97 + (if length t == 0 then 1 else 0));
  sha256 = λ t. replicate 64 98;
  b64decode = λ s. some (replicate (if length s == 44 then 32 else 64) (get_or s 0 0));
  b64decode_lax = λ s. some (replicate (if length s == 44 then 32 else 64) (get_or s 0 0));
  b64encode = λ bs. replicate (if length bs == 32 then 44 else 88) (get_or bs 0 0);
  ed25519 = λ pk sig m. get_or sig 0 0 == get_or pk 0 0 + 1;
  pq_sig_algs = λ alg. none;
}

abbrev pub pack_text : Text
pack_text =
    codes
      "{\"honest_scope\":\"NOT legal advice\",\"pack_sha3\":\"aaaaaaaaaaaaaaaaaaaaaaaaaaaaaaaaaaaaaaaaaaaaaaaaaaaaaaaaaaaaaaaa\"}"

abbrev pub sig_text : Text
sig_text =
    codes
      "{\"public_key_b64\":\"AAAAAAAAAAAAAAAAAAAAAAAAAAAAAAAAAAAAAAAAAAAA\",\"signature_b64\":\"BBBBBBBBBBBBBBBBBBBBBBBBBBBBBBBBBBBBBBBBBBBBBBBBBBBBBBBBBBBBBBBBBBBBBBBBBBBBBBBBBBBBBBBB\",\"signed_pack_sha3\":\"aaaaaaaaaaaaaaaaaaaaaaaaaaaaaaaaaaaaaaaaaaaaaaaaaaaaaaaaaaaaaaaa\",\"signer_id\":\"alice\"}"

abbrev pub request : Request
request = record {
  pack = some pack_text;
  ledger = none;
  timestamp = none;
  signature = some (some sig_text);
  trust_store = none;
  expected_pq = [];
  require_pq = false;
  require_signed = true;
  inject = false;
}

is_authenticated : (verify_pack toy request).authenticated ≡ true
unfolding verify_pack loads_strict ◌===◌ reject_reserved print
is_authenticated = refl

is_valid : (verify_pack toy request).valid ≡ true
unfolding verify_pack loads_strict ◌===◌ reject_reserved print
is_valid = refl

-- Without the sidecar a required signature is missing.
unsigned_is_refused : (verify_pack toy (record request { signature = none })).valid ≡ false
unfolding verify_pack loads_strict ◌===◌ reject_reserved print
unsigned_is_refused = refl

authenticated-Authentic_example : Authentic toy request
authenticated-Authentic_example = authenticated-Authentic toy request is_authenticated

valid-Sound_example : Sound toy request
valid-Sound_example = valid-Sound toy request is_valid

-- With a post-quantum signature, whose verifier compares two lengths.
abbrev toy_pq : Host
toy_pq = record toy {
  pq_sig_algs = λ alg. if length alg == 9 then some (λ key sig m. length m == 64) else none;
}

abbrev hybrid_sig : Text
hybrid_sig =
    codes
      "{\"public_key_b64\":\"AAAAAAAAAAAAAAAAAAAAAAAAAAAAAAAAAAAAAAAAAAAA\",\"signature_b64\":\"BBBBBBBBBBBBBBBBBBBBBBBBBBBBBBBBBBBBBBBBBBBBBBBBBBBBBBBBBBBBBBBBBBBBBBBBBBBBBBBBBBBBBBBB\",\"signed_pack_sha3\":\"aaaaaaaaaaaaaaaaaaaaaaaaaaaaaaaaaaaaaaaaaaaaaaaaaaaaaaaaaaaaaaaa\",\"signer_id\":\"alice\",\"pq_sig_alg\":\"ml-dsa-65\",\"pq_public_key_b64\":\"KK\",\"pq_signature_b64\":\"SS\"}"

abbrev hybrid_request : Request
hybrid_request = record request {
  signature = some (some hybrid_sig);
  expected_pq = codes "KK";
  require_pq = true;
}

is_hybrid : (verify_pack toy_pq hybrid_request).valid ≡ true
unfolding verify_pack loads_strict ◌===◌ reject_reserved print
is_hybrid = refl

is_protected : (verify_pack toy_pq hybrid_request).pq_protected ≡ some true
unfolding verify_pack loads_strict ◌===◌
is_protected = refl

-- A pin that is not the key of the sidecar is refused.
wrong_pin : (verify_pack toy_pq (record hybrid_request { expected_pq = codes "LL" })).valid ≡ false
unfolding verify_pack loads_strict ◌===◌ reject_reserved print
wrong_pin = refl

valid-Hybrid_example : Hybrid toy_pq hybrid_request
valid-Hybrid_example = valid-Hybrid toy_pq hybrid_request is_hybrid refl
