-- ===== src/Chip/Classes.antt =====
-- The class `ChipRegistry` of omega_evidence/chip_registry.py. The network is left out: what it
-- fetches goes to the operations below. Each reading of the clock is an argument.
use omega_evidence.Base.{
  Bool, true, false, not, ◌||◌, Option, none, some, List, [], ◌∷◌, ◌++◌, if◌then◌else◌, ltb,
}
use omega_evidence.Base.Text.{Text, codes, in_list, is_empty}
use omega_evidence.Base.Dict.{Dict, lookup, insert, erase, contains}
use omega_evidence.Base.Utf8.{decode}
use omega_evidence.Value.{Value, Fields, name, non_string, str, dict, int, float, end, field}
use omega_evidence.Json.Scan.{Hooks, Read, got, failed, too_deep}
use omega_evidence.Json.Load.{json_loads}
use omega_evidence.Ledger.Strict.{nesting_depth, max_depth}
use omega_evidence.Ledger.Chain.{get, is_text}
use omega_evidence.Verifier.Report.{Layer, LayerName, authenticity, Detail, trusted_signed}
use omega_evidence.Verifier.Forms.{Host}
use omega_evidence.Verifier.Checks.{File, or_empty}
use omega_evidence.Verifier.Verdict.{Request, verify_pack}

abbrev pub baseline : Dict Text
baseline =
    (codes "nvidia-hopper-cc", codes "nvidia-nras")
    ∷ (codes "nvidia-blackwell-cc", codes "nvidia-nras")
    ∷ (codes "amd-sev-snp", codes "amd-kds")
    ∷ (codes "aws-nitro", codes "aws-nitro-attestation")
    ∷ (codes "aws-trainium", codes "aws-nitro-attestation")
    ∷ (codes "intel-tdx", codes "intel-trust-authority")
    ∷ (codes "google-cc", codes "google-cloud-attestation")
    ∷ (codes "arm-cca", codes "arm-cca-verifier")
    ∷ (codes "npu-cc", codes "vendor-npu-attestation")
    ∷ []

abbrev pub untrusted_classes : List Text
untrusted_classes = codes "self-asserted" ∷ codes "none" ∷ []

abbrev pub update_kind : Text
update_kind = codes "chip_attestation_registry_update"

pub record Candidate : Type 0 where
  pub vendor : Text
  pub technology : Text
  pub proposed_service : Text
  pub source : Text
  pub seen_utc : Text

-- One value of `_sources`.
pub record Source : Type 0 where
  pub signer_id : Value
  pub pack_sha3 : Value
  pub added : List Text
  pub rejected : List Text
  pub applied_utc : Text

pub record ChipRegistry : Type 0 where
  pub services : Dict Text
  pub sources : List Source
  pub candidates : Dict Candidate

-- `__init__`
abbrev pub new_registry : ChipRegistry
new_registry = record { services = baseline; sources = []; candidates = [] }

unfoldable pub service_for : Text → ChipRegistry → Text
service_for cls r = elim (lookup cls r.services) [ none ↦ [] | some svc ↦ svc ]

unfoldable pub is_known : Text → ChipRegistry → Bool
is_known cls r = contains cls r.services

-- cls in UNTRUSTED_CLASSES or cls in _BASELINE
unfoldable pub is_fixed : Text → Bool
is_fixed cls = in_list cls untrusted_classes || contains cls baseline

-- `self._services[cls] = str(svc)`, and the candidate goes.
unfoldable pub adopt : Text → Text → ChipRegistry → ChipRegistry
adopt cls svc r = record r {
  services = insert cls svc r.services;
  candidates = erase cls r.candidates;
}

-- One entry of an already fetched candidate feed, "" where it has no such key.
pub record Entry : Type 0 where
  pub attestation_class : Text
  pub vendor : Text
  pub technology : Text
  pub service : Text

abbrev candidate : Entry → Text → Text → Candidate
candidate e source seen = record {
  vendor = e.vendor;
  technology = e.technology;
  proposed_service = e.service;
  source = source;
  seen_utc = seen;
}

-- not cls or cls in UNTRUSTED_CLASSES or cls in self._services
unfoldable pub is_skipped : Text → ChipRegistry → Bool
unfolding is_known
is_skipped cls r = is_empty cls || in_list cls untrusted_classes || is_known cls r

unfoldable pub ingest_one : Entry → Text → Text → ChipRegistry → ChipRegistry
unfolding is_skipped
ingest_one e source seen r =
    if is_skipped e.attestation_class r
    then r
    else record r { candidates = insert e.attestation_class (candidate e source seen) r.candidates }

-- `ingest_candidates`: the registry, and the classes that it found.
unfoldable pub ingest_candidates :
    List Entry → Text → Text → ChipRegistry → ChipRegistry × List Text
unfolding ingest_one is_skipped
ingest_candidates [] source seen r = (r, [])
ingest_candidates (e ∷ es) source seen r =
    let rest = ingest_candidates es source seen (ingest_one e source seen r) in
    (rest.0, if is_skipped e.attestation_class r then rest.1 else e.attestation_class ∷ rest.1)

-- d[k] = v, in the order of json.loads
unfoldable pub put : Text → Value → Fields → Fields
put k v end = field (name k) v end
put k v (field (name j) w fs) =
    let rest = put k v fs in
    if in_list j (k ∷ []) then field (name j) v fs else field (name j) w rest
put k v (field (non_string j) w fs) = field (non_string j) w (put k v fs)

unfoldable pub dict_from : Fields → Fields → Fields
unfolding put
dict_from acc end = acc
dict_from acc (field (name k) v fs) = dict_from (put k v acc) fs
dict_from acc (field (non_string k) v fs) = dict_from acc fs

-- json.loads with no hook
abbrev pub plain_hooks : Hooks
plain_hooks = record {
  pairs = λ fs. got (dict (dict_from end fs)) [];
  parse_int = λ z. got (int z) [];
  parse_float = λ t. got (float t) [];
  parse_constant = λ t. got (float t) [];
}

-- `loads_bounded`
unfoldable pub loads_bounded : Text → Read Value
unfolding nesting_depth json_loads dict_from
loads_bounded text =
    if ltb max_depth (nesting_depth text) then failed too_deep else json_loads plain_hooks text

-- The detail of the first layer `authenticity` says "trusted-signed".
abbrev pub is_authenticity : LayerName → Bool
is_authenticity authenticity = true
is_authenticity _ = false

abbrev pub says_trusted : Detail → Bool
says_trusted trusted_signed = true
says_trusted _ = false

unfoldable pub is_trusted_signed : List Layer → Bool
is_trusted_signed [] = false
is_trusted_signed (l ∷ ls) =
    let rest = is_trusted_signed ls in
    if is_authenticity l.name then says_trusted l.detail else rest

pub data Reply : Type 0 where
  not_trusted_signed wrong_kind raised : Reply
  applied : List Text → List Text → Value → Reply

abbrev pub json_object : File → Option Fields
json_object none = none
json_object (some raw) = elim (decode raw) [
  | none ↦ none
  | some text ↦ elim (loads_bounded text) [
    | got v r ↦ elim v [ dict fs ↦ some fs | _ ↦ none ]
    | failed e ↦ none
  ]
]

-- What `str` of Python makes of a value is a parameter.
module _ (h : Host) (str_of : Value → Text) where
  -- `_merge`: the registry, the added and the rejected classes.
  unfoldable pub merge : Fields → ChipRegistry → ChipRegistry × List Text × List Text
  unfolding is_fixed adopt
  merge end r = (r, [], [])
  merge (field (non_string k) v fs) r = merge fs r
  merge (field (name cls) svc fs) r =
      let kept = merge fs r in
      let grown = merge fs (adopt cls (str_of svc) r) in
      if is_fixed cls then (kept.0, kept.1, cls ∷ kept.2) else (grown.0, cls ∷ grown.1, grown.2)

  -- `pack.get("chip_classes", {}).items()`; none where that raises.
  abbrev pub classes_of : Option Value → Option Fields
  classes_of none = some end
  classes_of (some (dict fs)) = some fs
  classes_of (some _) = none

  -- `_signer_of`. Behind a trusted-signed verdict the sidecar is an object.
  abbrev pub signer_of : Option File → Value
  signer_of none = str []
  signer_of (some file) = elim (json_object file) [
    | none ↦ str []
    | some side ↦ or_empty (get (codes "signer_id") side)
  ]

  -- The record of an applied update goes to `_sources`.
  abbrev pub note_source :
      Value → Value → Text → ChipRegistry × List Text × List Text → ChipRegistry × Reply
  note_source signer digest now (merged, added, rejected) =
      let source : Source = record {
        signer_id = signer;
        pack_sha3 = digest;
        added = added;
        rejected = rejected;
        applied_utc = now;
      } in
      (record merged { sources = merged.sources ++ (source ∷ []) }, applied added rejected signer)

  abbrev pub merge_classes :
      Option Fields → Value → Value → Text → ChipRegistry → ChipRegistry × Reply
  merge_classes none signer digest now r = (r, raised)
  merge_classes (some classes) signer digest now r = note_source signer digest now (merge classes r)

  -- The update is of the right kind.
  unfoldable pub merge_update : Option File → Fields → Text → ChipRegistry → ChipRegistry × Reply
  unfolding merge loads_bounded decode get
  merge_update signature pack now r =
      merge_classes (classes_of (get (codes "chip_classes") pack)) (signer_of signature)
        (or_empty (get (codes "pack_sha3") pack)) now r

  abbrev pub merge_pack : Option Fields → Option File → Text → ChipRegistry → ChipRegistry × Reply
  merge_pack none signature now r = (r, raised)
  merge_pack (some pack) signature now r =
      if is_text (get (codes "kind") pack) update_kind
      then merge_update signature pack now r
      else (r, wrong_kind)

  -- `apply_signed_update`, of the pack and the sidecar of a request with a trust store.
  unfoldable pub apply_signed_update : Request → Text → ChipRegistry → ChipRegistry × Reply
  unfolding verify_pack is_trusted_signed merge_update loads_bounded decode get is_text
  apply_signed_update q now r =
      let v = verify_pack h q in
      if not v.valid || not (is_trusted_signed v.layers)
      then (r, not_trusted_signed)
      else merge_pack (json_object q.pack) q.signature now r
