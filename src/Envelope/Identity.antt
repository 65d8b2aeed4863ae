-- ===== src/Envelope/Identity.antt =====
-- The class `Identity` of omega_evidence/signing.py. The Ed25519 library's key derivation and
-- signature are fields of `Signer`; the random seed is an argument.
use omega_evidence.Base.{ℕ, Option, none, some, List, if◌then◌else◌, ◌==◌, length}
use omega_evidence.Base.Text.{Text}
use omega_evidence.Verifier.Forms.{Host, fingerprint_of}

-- `_seed_to_public` and `_seed_sign`
pub record Signer : Type 0 where
  pub seed_to_public : List ℕ → List ℕ
  pub seed_sign : List ℕ → List ℕ → List ℕ

pub record Identity : Type 0 where
  pub id_name : Text
  pub seed : List ℕ

-- `__init__`: none is the ValueError. `token` is what `secrets.token_bytes` gives.
unfoldable pub new_identity : Text → Option (List ℕ) → List ℕ → Option Identity
new_identity n none token = some record { id_name = n; seed = token }
new_identity n (some s) token =
    if length s == 32 then some record { id_name = n; seed = s } else none

module _ (h : Host) (k : Signer) where
  unfoldable pub public_key_b64 : Identity → Text
  public_key_b64 i = h.b64encode (k.seed_to_public i.seed)

  unfoldable pub fingerprint : Identity → Text
  unfolding fingerprint_of
  fingerprint i = fingerprint_of h (k.seed_to_public i.seed)

  unfoldable pub sign : Identity → List ℕ → Text
  sign i message = h.b64encode (k.seed_sign i.seed message)
