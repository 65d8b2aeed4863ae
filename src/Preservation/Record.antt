-- ===== src/Preservation/Record.antt =====
-- Building an evidence record, of omega_evidence/preservation.py. A record is a JSON
-- object; the readings of the clock are arguments, as is what `stamp` replies for a root, with
-- none where no TSA is named. What is left of a record where a call raises is not modelled.
use omega_evidence.Base.{
  Bool, true, false, not, ◌&&◌, Option, none, some, List, [], ◌∷◌, ◌++◌, if◌then◌else◌,
}
use omega_evidence.Base.Text.{Text, codes, ◌===◌}
use omega_evidence.Base.Int.{pos}
use omega_evidence.Base.Result.{Result, ok, err, ◌>>=◌, ◌>>◌, raise_if}
use omega_evidence.Value.{
  truth, Value, Items, Fields, name, int, str, list, dict, nil, cons, end, field,
}
use omega_evidence.Canonical.{canonical_json}
use omega_evidence.Ledger.Chain.{get, without}
use omega_evidence.Verifier.Checks.{File, or_empty}
use omega_evidence.Chip.Classes.{put, json_object}
use omega_evidence.Preservation.Tree.{
  Platform, Stop, refused, or_refused, digest_of, merkle_root, leaves_of,
}

-- canonical_json(v), whose refusals are a TypeError and ValueErrors.
unfoldable pub canonical : Value → Result Stop Text
unfolding canonical_json
canonical v = elim (canonical_json v false) [ err e ↦ err refused | ok t ↦ ok t ]

-- d[k]
abbrev pub at_key : Text → Fields → Result Stop Value
at_key k d = or_refused (get k d)

-- The fields of an object; another value has neither keys nor `get`.
abbrev pub as_dict : Value → Result Stop Fields
as_dict (dict fs) = ok fs
as_dict _ = err refused

abbrev pub values : Items → List Value
values nil = []
values (cons v vs) = v ∷ values vs

abbrev pub items : List Value → Items
items [] = nil
items (v ∷ vs) = cons v (items vs)

abbrev pub str_items : List Text → Items
str_items [] = nil
str_items (t ∷ ts) = cons (str t) (str_items ts)

-- l[-1]
abbrev pub last : List Value → Option Value
last [] = none
last (v ∷ []) = some v
last (v ∷ w ∷ vs) = last (w ∷ vs)

-- record["archive_timestamps"]: what is not a list fails below.
abbrev pub as_list : Value → Result Stop (List Value)
as_list (list vs) = ok (values vs)
as_list _ = err refused

-- What a `for` goes through: of an empty str or object nothing, and the characters of a str
-- and the keys of an object are refused by what the code does with them.
abbrev pub iterated : Value → Result Stop (List Value)
iterated (list vs) = ok (values vs)
iterated (str []) = ok []
iterated (dict end) = ok []
iterated _ = err refused

abbrev pub object_of : Value → Value
object_of s = dict (field (name (codes "pack_sha3")) s end)

abbrev pub objects : List Value → Items
objects [] = nil
objects (s ∷ ss) = cons (object_of s) (objects ss)

unfoldable pub new_record : Text → List Value → Fields → Fields
new_record scope packs entry = field (name (codes "kind")) (str (codes "omega_evidence_record")) (
    field (name (codes "honest_scope")) (str scope) (
      field (name (codes "data_objects")) (list (objects packs))
        (field (name (codes "archive_timestamps")) (list (cons (dict entry) nil)) end)))

-- HONEST_SCOPE
abbrev pub honest_scope : Text
honest_scope =
    codes "long-term evidence with RFC 4998-style renewal SEMANTICS; NOT a "
    ++ codes "qualified preservation service/QTSP, NOT the ASN.1/DER ERS wire "
    ++ codes "format, NOT proof of time by itself (an asserted timestamp proves "
    ++ codes "nothing — trusted time must come from a TSA/anchor)"

-- [d["pack_sha3"] for d in ...]
unfoldable pub declared : List Value → Result Stop (List Value)
unfolding get
declared [] = ok []
declared (v ∷ vs) = do
  d ← as_dict v
  s ← at_key (codes "pack_sha3") d
  ss ← declared vs
  ok (s ∷ ss)

module _ (p : Platform) where
  -- == of Python
  unfoldable pub same : Value → Value → Bool
  same (str s) (str t) = s === t
  same v w = p.equal v w

  unfoldable pub same_all : List Value → List Value → Bool
  unfolding same
  same_all [] [] = true
  same_all (v ∷ vs) (w ∷ ws) = same v w && same_all vs ws
  same_all _ _ = false

  -- `_pack_sha3_of`, of what the path gives to read.
  unfoldable pub pack_sha3_of : File → Result Stop Value
  unfolding truth get
  pack_sha3_of file = do
    d ← or_refused (json_object file)
    let v = or_empty (get (codes "pack_sha3") d)
    raise_if (not (truth p.is_zero v)) refused
    ok v

  unfoldable pub pack_sha3_all : List File → Result Stop (List Value)
  unfolding pack_sha3_of
  pack_sha3_all [] = ok []
  pack_sha3_all (f ∷ fs) = do v ← pack_sha3_of f; vs ← pack_sha3_all fs; ok (v ∷ vs)

  abbrev asserted : Value → Text → Fields
  asserted note now =
      field (name (codes "time_source")) (str (codes "asserted"))
        (field (name (codes "note")) note (field (name (codes "stamped_utc")) (str now) end))

  abbrev granted : Fields → Text → Fields
  granted r now = field (name (codes "time_source")) (str (codes "rfc3161")) (
      field (name (codes "tsa")) (or_empty (get (codes "tsa") r)) (
        field (name (codes "tsr_b64")) (or_empty (get (codes "tsr_b64") r))
          (field (name (codes "stamped_utc")) (str now) end)))

  abbrev note_of : Option Value → Value
  note_of none = str (codes "TSA unavailable")
  note_of (some v) = v

  -- r.get(k) is truthy
  abbrev pub has : Option Value → Bool
  has none = false
  has (some v) = truth p.is_zero v

  -- `_timestamp_root`
  unfoldable pub timestamp_root : Text → Option (Text → Fields) → Text → Fields
  unfolding truth get
  timestamp_root root none now = asserted (str (codes "no TSA supplied")) now
  timestamp_root root (some stamp) now =
      let r = stamp root in
      if has (get (codes "anchored") r)
      then granted r now
      else asserted (note_of (get (codes "note") r)) now

  -- `_finalize`
  unfoldable pub finalize : Fields → Result Stop Fields
  unfolding canonical digest_of put without
  finalize r = do
    t ← canonical (dict (without (codes "record_sha3") r))
    d ← digest_of p (str (codes "sha3_256")) t
    ok (put (codes "record_sha3") (str d) r)

  -- `ats0`
  unfoldable pub initial_entry :
      Text → List Text → Text → Option (Text → Fields) → Text → Text → Fields
  unfolding timestamp_root
  initial_entry alg leaves root tsa stamped created = field (name (codes "seq")) (int (pos 0)) (
      field (name (codes "type")) (str (codes "initial")) (
        field (name (codes "hash_alg")) (str alg) (
          field (name (codes "leaves")) (list (str_items leaves)) (
            field (name (codes "merkle_root")) (str root) (
              field (name (codes "covers")) (str (codes "data-objects")) (
                field (name (codes "timestamp")) (dict (timestamp_root root tsa stamped))
                  (field (name (codes "created_utc")) (str created) end)))))))

  -- `build_evidence_record`
  unfoldable pub build_evidence_record :
      List File → Option (Text → Fields) → Text → Text → Text → Result Stop Fields
  unfolding pack_sha3_all leaves_of merkle_root initial_entry new_record finalize
  build_evidence_record packs tsa alg stamped created = do
    pack_sha3 ← pack_sha3_all packs
    leaves ← leaves_of p pack_sha3 (str alg)
    root ← merkle_root p leaves (str alg)
    finalize (new_record honest_scope pack_sha3 (initial_entry alg leaves root tsa stamped created))
