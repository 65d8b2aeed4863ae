-- ===== src/Trail/Epoch.antt =====
-- `anchor_epoch` of omega_evidence/interop/aat.py: the records of one epoch, which are distinct
-- objects, under one Merkle root. What is left of them where it raises is not modelled.
use omega_evidence.Base.{
  ℕ, suc, Bool, true, false, not, ◌&&◌, ◌||◌, Option, none, some, List, [], ◌∷◌, if◌then◌else◌, leb,
  ◌==◌, length,
}
use omega_evidence.Base.Text.{Text, codes}
use omega_evidence.Base.Int.{pos}
use omega_evidence.Base.Maybe.{◌>>=◌, ◌>>◌, guard}
use omega_evidence.Value.{
  Value, Items, Fields, name, bool, int, str, list, dict, nil, cons, end, field, truth,
}
use omega_evidence.Ledger.Chain.{get, without}
use omega_evidence.Verifier.Forms.{hex}
use omega_evidence.Verifier.Checks.{or_empty}
use omega_evidence.Chip.Classes.{put}
use omega_evidence.Trail.Merkle.{Hash, Side, Step, left, right, merkle_root}
use omega_evidence.Trail.Levels.{audit_paths}
use omega_evidence.Trail.Jcs.{Hasher, leaf_hash}

abbrev is_hex_digit : ℕ → Bool
is_hex_digit c = (leb 48 c && leb c 57) || (leb 97 c && leb c 102)

-- One character of the form below, where "h" is a digit and "v" the variant of RFC 4122.
unfoldable pub fits : Text → Text → Bool
fits [] [] = true
fits (p ∷ ps) (c ∷ t) =
    (if p == 104
      then is_hex_digit c
      else if p == 118
      then c == 56 || c == 57 || c == 97 || c == 98
      else p == c)
    && fits ps t
fits _ _ = false

-- u.version == 4 and str(u) == eid
unfoldable pub is_uuid4 : Text → Bool
unfolding fits
is_uuid4 eid = fits (codes "hhhhhhhh-hhhh-4hhh-vhhh-hhhhhhhhhhhh") eid

abbrev pub side_text : Side → Text
side_text left = codes "left"
side_text right = codes "right"

unfoldable pub step_object : Step → Value
unfolding hex
step_object s = dict (
    field (name (codes "hash")) (str (hex s.hash))
      (field (name (codes "side")) (str (side_text s.side)) end))

unfoldable pub proof_items : List Step → Items
unfolding step_object
proof_items [] = nil
proof_items (s ∷ path) = cons (step_object s) (proof_items path)

-- The `batch` of the i-th record.
unfoldable pub batch_of : Text → Hash → ℕ → List Step → Value
unfolding proof_items hex
batch_of eid root i path = dict (
    field (name (codes "epoch_id")) (str eid) (
      field (name (codes "merkle_root")) (str (hex root)) (
        field (name (codes "leaf_index")) (int (pos i))
          (field (name (codes "inclusion_proof")) (list (proof_items path)) end))))

-- r.pop("batch", None) on each record
unfoldable pub popped : List Fields → List Fields
unfolding without
popped [] = []
popped (r ∷ rs) = without (codes "batch") r ∷ popped rs

-- The loop that attaches the objects, from the i-th record on.
unfoldable pub attach : Text → Hash → ℕ → List Fields → List (List Step) → List Fields
unfolding batch_of put
attach eid root i (r ∷ rs) (path ∷ paths) =
    put (codes "batch") (batch_of eid root i path) r ∷ attach eid root (suc i) rs paths
attach eid root i _ _ = []

-- epoch_id or str(uuid.uuid4())
abbrev pub epoch_name : Text → Text → Text
epoch_name [] fresh = fresh
epoch_name (c ∷ t) fresh = c ∷ t

abbrev hash_name : Text
hash_name = codes "RFC 6962 / SHA-256 (leaf 0x00 || JCS(record without batch), node 0x01)"

-- The anchor, in front of its `tsa`.
abbrev pub anchor_of : Text → Hash → ℕ → Fields → Fields
anchor_of eid root count tsa = field (name (codes "epoch_id")) (str eid) (
    field (name (codes "merkle_root")) (str (hex root)) (
      field (name (codes "leaf_count")) (int (pos count))
        (field (name (codes "hash")) (str hash_name) tsa)))

abbrev tsa_object : Text → Text → Value → Value
tsa_object url imprint token = dict (
    field (name (codes "tsa_url")) (str url) (
      field (name (codes "message_imprint_sha256")) (str imprint) (
        field (name (codes "over")) (str (codes "SHA-256(raw 32-byte merkle_root)"))
          (field (name (codes "token")) token (field (name (codes "anchored")) (bool true) end)))))

module _ (h : Hasher) where
  -- The leaves; an export refuses the integers that are not portable.
  unfoldable pub leaf_hashes : List Fields → Option (List Hash)
  unfolding leaf_hash
  leaf_hashes [] = some []
  leaf_hashes (r ∷ rs) = do l ← leaf_hash h true r; ls ← leaf_hashes rs; some (l ∷ ls)

  abbrev has : Option Value → Bool
  has none = false
  has (some v) = truth h.is_zero v

  -- The `tsa` of the anchor: none is the RuntimeError where the authority gives no token. A
  -- request names the authority's address and what it replies for an imprint.
  unfoldable pub tsa_fields : Option (Text × (Text → Fields)) → Hash → Option Fields
  unfolding truth get hex
  tsa_fields none root = some end
  tsa_fields (some (url, stamp)) root =
      let imprint = hex (h.sha256 root) in
      let st = stamp imprint in
      let token = or_empty (get (codes "tsr_b64") st) in
      if has (get (codes "anchored") st) && has (get (codes "tsr_b64") st)
      then some (field (name (codes "tsa")) (tsa_object url imprint token) end)
      else none

  -- `anchor_epoch`: the records, and the anchor; none where it raises.
  unfoldable pub anchor_epoch :
      List Fields → Text → Text → Option (Text × (Text → Fields)) → Option (List Fields × Fields)
  unfolding is_uuid4 popped leaf_hashes merkle_root audit_paths attach tsa_fields
  anchor_epoch records epoch_id fresh tsa = do
    guard (not (length records == 0))
    let eid = epoch_name epoch_id fresh
    guard (is_uuid4 eid)
    leaves ← leaf_hashes (popped records)
    let root = merkle_root h.sha256 leaves
    stamped ← tsa_fields tsa root
    some (
      attach eid root 0 (popped records) (audit_paths h.sha256 leaves),
      anchor_of eid root (length records) stamped,
    )
