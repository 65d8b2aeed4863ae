-- ===== src/Producer/Pack.antt =====
-- `build_pack`, and the objects that `sign_pack`, `add_pq_signature` and `anchor_pack` write, of
-- omega_evidence/pack.py. The readings of the clock are arguments, and so is what a file holds.
use omega_evidence.Base.{false, not, some}
use omega_evidence.Base.Text.{Text, codes}
use omega_evidence.Base.Result.{Result, ok, err, ◌>>=◌, ◌>>◌, raise_if}
use omega_evidence.Value.{Value, Fields, name, non_string, str, dict, end, field}
use omega_evidence.Canonical.{Refusal, sha3}
use omega_evidence.Ledger.Chain.{get, without}
use omega_evidence.Verifier.Scope.{declares_limit}
use omega_evidence.Verifier.Forms.{Host}
use omega_evidence.Verifier.Checks.{or_empty}
use omega_evidence.Chip.Classes.{put}
use omega_evidence.Envelope.Identity.{Signer, Identity, public_key_b64, fingerprint, sign}

-- Why no pack is built: the ValueError on the scope, or what cannot be hashed.
pub data Unbuilt : Type 0 where
  no_limit : Unbuilt
  not_hashed : Refusal → Unbuilt

-- {..., **body}: a key that is there keeps its place and takes the new value.
unfoldable pub merged : Fields → Fields → Fields
unfolding put
merged acc end = acc
merged acc (field (name k) v fs) = merged (put k v acc) fs
merged acc (field (non_string k) v fs) = field (non_string k) v (merged acc fs)

abbrev pub head_of : Text → Text → Value → Fields
head_of kind now scope =
    field (name (codes "kind")) (str kind) (
      field (name (codes "generated_utc")) (str now)
        (field (name (codes "honest_scope")) scope end))

-- The exception of `sha3` is passed on.
abbrev pub unbuilt : Result Refusal Text → Result Unbuilt Text
unbuilt (err e) = err (not_hashed e)
unbuilt (ok d) = ok d

module _ (h : Host) where
  abbrev pub hashed_body : Fields → Result Unbuilt Text
  hashed_body pack = unbuilt (sha3 h.sha3_256 (dict (without (codes "pack_sha3") pack)) false)

  -- `build_pack`
  unfoldable pub build_pack : Text → Fields → Value → Text → Result Unbuilt Fields
  unfolding declares_limit merged sha3 without put
  build_pack kind body scope now = do
    raise_if (not (declares_limit (some scope))) no_limit
    let pack = merged (head_of kind now scope) body
    d ← hashed_body pack
    ok (put (codes "pack_sha3") (str d) pack)

  -- The sidecar of `sign_pack`, over a digest that is a str; the identity has no `sig_alg`.
  unfoldable pub sign_sidecar : Signer → Identity → Text → Text → Fields
  unfolding public_key_b64 fingerprint sign
  sign_sidecar k i digest now = field (name (codes "signer_id")) (str i.id_name) (
      field (name (codes "sig_alg")) (str (codes "ed25519")) (
        field (name (codes "public_key_b64")) (str (public_key_b64 h k i)) (
          field (name (codes "fingerprint")) (str (fingerprint h k i)) (
            field (name (codes "signed_pack_sha3")) (str digest) (
              field (name (codes "signature_b64")) (str (sign h k i digest))
                (field (name (codes "signed_utc")) (str now) end))))))

-- `add_pq_signature`, on the sidecar that was read.
unfoldable pub add_pq_signature : Text → Text → Text → Fields → Fields
unfolding put
add_pq_signature alg key sig side =
    put (codes "pq_signature_b64") (str sig)
      (put (codes "pq_public_key_b64") (str key) (put (codes "pq_sig_alg") (str alg) side))

-- The entry of `anchor_pack`.
unfoldable pub anchor_entry : Fields → Text → Fields
unfolding get
anchor_entry pack now =
    field (name (codes "anchored_pack_sha3")) (or_empty (get (codes "pack_sha3") pack))
      (field (name (codes "anchored_utc")) (str now) end)
