-- ===== src/Trail/Tombstone.antt =====
-- `tombstone` of omega_evidence/interop/aat.py, without a key: an unsigned tombstone. The time is
-- what `_rfc3339` writes; every exception is none. A record is a JSON object that was read.
use omega_evidence.Base.{Bool, false, not, ◌&&◌, Option, none, some, List, [], ◌∷◌, if◌then◌else◌}
use omega_evidence.Base.Text.{Text, codes}
use omega_evidence.Base.Maybe.{◌>>=◌, ◌>>◌, guard}
use omega_evidence.Value.{Value, Items, Fields, name, str, list, dict, null, nil, cons, end, field}
use omega_evidence.Ledger.Chain.{get, is_text}
use omega_evidence.Verifier.Forms.{is_lower_hex}
use omega_evidence.Chip.Classes.{put}
use omega_evidence.Trail.Jcs.{Hasher, record_hash}

-- One key, if it is there
abbrev pub keep_key : Option Value → Text → Fields → Fields
keep_key none k rest = rest
keep_key (some v) k rest = field (name k) v rest

-- {k: rec[k] for k in keys if k in rec}
unfoldable pub kept : List Text → Fields → Fields
unfolding get
kept [] r = end
kept (k ∷ ks) r = keep_key (get k r) k (kept ks r)

abbrev pub kept_keys : List Text
kept_keys =
    codes "record_id"
    ∷ codes "timestamp"
    ∷ codes "agent_id"
    ∷ codes "agent_version"
    ∷ codes "session_id"
    ∷ codes "parent_record_id"
    ∷ codes "prev_hash"
    ∷ codes "trust_level"
    ∷ codes "record_phase"
    ∷ codes "content_fingerprint"
    ∷ codes "recording_component"
    ∷ []

abbrev pub signature_keys : List Text
signature_keys =
    codes "signature"
    ∷ codes "sig_alg"
    ∷ codes "signer_kid"
    ∷ codes "signature_classical"
    ∷ codes "signer_kid_classical"
    ∷ []

-- `d0`, of a member that is an object
abbrev pub detail_of : Option Value → Fields
detail_of (some (dict fs)) = fs
detail_of _ = end

abbrev pub or_null : Option Value → Value
or_null none = null
or_null (some v) = v

-- The test of "lifecycle", and of "record_deleted"
unfoldable pub is_lifecycle : Fields → Bool
unfolding get is_text
is_lifecycle r = is_text (get (codes "action_type") r) (codes "lifecycle")

unfoldable pub is_deleted : Fields → Bool
unfolding get is_text
is_deleted r =
    is_text (get (codes "event") (detail_of (get (codes "action_detail") r)))
      (codes "record_deleted")

-- `_hex64`
abbrev pub hex64 : Option Value → Bool
hex64 (some (str t)) = is_lower_hex t
hex64 _ = false

unfoldable pub characters : Text → Items
characters [] = nil
characters (c ∷ t) = cons (str (c ∷ [])) (characters t)

unfoldable pub keys_of : Fields → Items
keys_of end = nil
keys_of (field (name k) v fs) = cons (str k) (keys_of fs)
keys_of (field _ v fs) = keys_of fs

-- list(v), where an absent one is []; none is the TypeError.
abbrev pub items_of : Option Value → Option Items
items_of none = some nil
items_of (some (list vs)) = some vs
items_of (some (str t)) = some (characters t)
items_of (some (dict fs)) = some (keys_of fs)
items_of (some _) = none

unfoldable pub append_item : Items → Value → Items
append_item nil v = cons v nil
append_item (cons w vs) v = cons w (append_item vs v)

abbrev pub put_some : Text → Option Value → Fields → Fields
put_some k none fs = fs
put_some k (some v) fs = put k v fs

abbrev deleters : Fields → Fields → Fields → Option Fields
deleters d0 end detail = some detail
deleters d0 orig detail = do
  vs ← items_of (get (codes "deleter_signatures") d0)
  some (put (codes "deleter_signatures") (list (append_item vs (dict orig))) detail)

abbrev original : Fields → Fields → Fields
original end detail = detail
original orig detail = put (codes "original_signature") (dict orig) detail

-- `action_detail`, with the signatures of the record
unfoldable pub signed_detail : Bool → Fields → Fields → Fields → Option Fields
unfolding get put characters keys_of append_item
signed_detail is_re d0 orig detail =
    if is_re
    then deleters d0 orig
        (put_some (codes "original_signature") (get (codes "original_signature") d0) detail)
    else some (original orig detail)

-- A tombstone keeps the type that the record had before its first tombstone.
unfoldable pub typed_detail : Bool → Fields → Fields → Fields
unfolding get put
typed_detail again d0 detail =
    if again
    then put (codes "original_action_type") (or_null (get (codes "original_action_type") d0)) detail
    else detail

abbrev pub new_detail : Text → Text → Value → Fields
new_detail reason deleted_at type = field (name (codes "event")) (str (codes "record_deleted")) (
    field (name (codes "deletion_reason")) (str reason) (
      field (name (codes "deleted_at")) (str deleted_at)
        (field (name (codes "original_action_type")) type end)))

abbrev pub closed : Fields → Fields → Value → Fields
closed r detail hash = put (codes "tombstone_hash") hash (
    put (codes "outcome") (str (codes "success")) (
      put (codes "action_detail") (dict detail)
        (put (codes "action_type") (str (codes "lifecycle")) (kept kept_keys r))))

-- The record is a tombstone whose hash is kept.
unfoldable pub keeps_hash : Fields → Bool
unfolding is_lifecycle is_deleted get is_lower_hex
keeps_hash r = is_lifecycle r && is_deleted r && hex64 (get (codes "tombstone_hash") r)

module _ (h : Hasher) where
  unfoldable pub hash_kept : Fields → Option Value
  unfolding keeps_hash get record_hash
  hash_kept r =
      if keeps_hash r
      then get (codes "tombstone_hash") r
      else record_hash h false r >>= λ t. some (str t)

  -- `tombstone`
  unfoldable pub tombstone : Fields → Text → Text → Option Fields
  unfolding kept get put is_lifecycle is_deleted signed_detail typed_detail keeps_hash hash_kept
  tombstone r reason deleted_at = do
    guard (not (is_lifecycle r && not (is_deleted r)))
    detail ←
        signed_detail (is_lifecycle r && is_deleted r) (detail_of (get (codes "action_detail") r))
          (kept signature_keys r)
          (new_detail reason deleted_at (or_null (get (codes "action_type") r)))
    hash ← hash_kept r
    some (
        closed r (typed_detail (keeps_hash r) (detail_of (get (codes "action_detail") r)) detail)
          hash)
