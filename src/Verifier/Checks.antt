-- ===== src/Verifier/Checks.antt =====
-- `_check_ledger`, `_check_timestamp` and `_check_pq_cosignature` of omega_evidence/verifier.py.
-- Each returns the layers that it appends.
use omega_evidence.Base.{
  ℕ, Bool, true, false, not, ◌&&◌, ◌||◌, Option, none, some, List, [], ◌∷◌, if◌then◌else◌,
}
use omega_evidence.Base.Text.{Text, codes, in_list, is_empty}
use omega_evidence.Base.Utf8.{decode}
use omega_evidence.Value.{
  Value, Fields, name, non_string, str, bool, int, null, list, dict, end, field, nil,
}
use omega_evidence.Base.Int.{is_nat}
use omega_evidence.Ledger.Chain.{get, is_text, verify_text, entries_text, entry_of}
use omega_evidence.Verifier.Report.{
  Layer, layer, passed, failed as fail, skipped, ledger_chain, rfc3161, ltv_material, pq_signature,
  Status,
}
use omega_evidence.Verifier.Forms.{Host, b64_strict, verify_pq_alg}

-- What a path gives to `read_input`: the bytes, or none where it raises.
abbrev pub File : Type 0
File = Option (List ℕ)

-- `_unknown`, as a test for a key outside the schema.
unfoldable pub has_unknown : List Text → Fields → Bool
unfolding in_list
has_unknown allowed end = false
has_unknown allowed (field (name k) v fs) = not (in_list k allowed) || has_unknown allowed fs
has_unknown allowed (field (non_string k) v fs) = true

abbrev pub tsr_sidecar_keys : List Text
tsr_sidecar_keys =
    codes "digest_sha256"
    ∷ codes "tsa"
    ∷ codes "tsr_b64"
    ∷ codes "stamped_utc"
    ∷ codes "validation_material"
    ∷ []

abbrev pub ledger_entry_keys : List Text
ledger_entry_keys =
    codes "idx"
    ∷ codes "ts"
    ∷ codes "data"
    ∷ codes "prev_hash"
    ∷ codes "self_hash"
    ∷ codes "anchored_pack_sha3"
    ∷ codes "anchored_utc"
    ∷ []

-- d.get(k, "")
abbrev pub or_empty : Option Value → Value
or_empty none = str []
or_empty (some v) = v

abbrev pub dict_of : Option Value → Fields
dict_of (some (dict d)) = d
dict_of _ = end

-- `_anchors_pack`, of an entry that `entries_text` returns: an object.
unfoldable pub anchors_pack : Text → Fields → Bool
unfolding get is_text
anchors_pack digest e =
    is_text (get (codes "anchored_pack_sha3") e) digest
    || is_text (get (codes "anchored_pack_sha3") (dict_of (get (codes "data") e))) digest

unfoldable pub any_unknown : List Fields → Bool
unfolding has_unknown
any_unknown [] = false
any_unknown (e ∷ es) = has_unknown ledger_entry_keys e || any_unknown es

unfoldable pub any_anchors : Text → List Fields → Bool
unfolding anchors_pack
any_anchors digest [] = false
any_anchors digest (e ∷ es) = anchors_pack digest e || any_anchors digest es

-- A digest that is not a str is "".
abbrev pub digest_text : Option Value → Text
digest_text (some (str t)) = t
digest_text _ = []

-- Behind the chain: the entries that were read.
unfoldable pub anchored_in : List Fields → Text → Bool
unfolding any_unknown any_anchors
anchored_in [] digest = false
anchored_in (e ∷ es) digest =
    not (any_unknown (e ∷ es)) && not (is_empty digest) && any_anchors digest (e ∷ es)

module _ (h : Host) where
  -- What `_check_ledger` says of the text of a ledger, for a pack with this digest.
  unfoldable pub ledger_anchors : Text → Text → Bool
  unfolding verify_text entries_text anchored_in
  ledger_anchors text digest =
      (verify_text h.sha256 text).0
      && elim (entries_text text) [ none ↦ false | some es ↦ anchored_in es digest ]

  abbrev pub text_anchors : Option Text → Text → Bool
  text_anchors none digest = false
  text_anchors (some text) digest = ledger_anchors text digest

  abbrev anchor_of : File → Text → Bool
  anchor_of none digest = false
  anchor_of (some raw) digest = text_anchors (decode raw) digest

  -- `_check_ledger`; none where there is no ledger, neither named nor beside the pack.
  unfoldable pub check_ledger : Option File → Fields → List Layer × Bool
  unfolding ledger_anchors decode get
  check_ledger none pack = (layer ledger_chain skipped ∷ [], false)
  check_ledger (some file) pack =
      let ok = anchor_of file (digest_text (get (codes "pack_sha3") pack)) in
      (layer ledger_chain (if ok then passed else fail) ∷ [], ok)

-- A sidecar: the fields of a JSON object of the strict profile.
abbrev pub sidecar_of : File → Option Fields
sidecar_of none = none
sidecar_of (some raw) = elim (decode raw) [ none ↦ none | some text ↦ entry_of text ]

-- `bool(v)` of a value that `loads_strict` returns.
unfoldable pub truthy : Option Value → Bool
truthy none = false
truthy (some null) = false
truthy (some (bool b)) = b
truthy (some (int z)) = not (is_nat z 0)
truthy (some (str t)) = not (is_empty t)
truthy (some (list nil)) = false
truthy (some (dict end)) = false
truthy (some _) = true

-- The layer `ltv-material`, where the sidecar has the material.
abbrev ltv : Option Value → List Layer
ltv (some (dict vm)) =
    if truthy (get (codes "available") vm) then layer ltv_material skipped ∷ [] else []
ltv _ = []

-- The sidecar was read. The call of `timestamp.verify` names no `ca_file`, and then it returns
-- None for `verified`: the layer is SKIP.
abbrev stamped : Text → Fields → List Layer × Status
stamped current side =
    if has_unknown tsr_sidecar_keys side
    then (layer rfc3161 fail ∷ [], fail)
    else if is_text (get (codes "digest_sha256") side) current
    then (layer rfc3161 skipped ∷ ltv (get (codes "validation_material") side), skipped)
    else (layer rfc3161 fail ∷ [], fail)

abbrev pub known_pq_algs : List Text
known_pq_algs = codes "ml-dsa-65" ∷ codes "slh-dsa-sha2-128s" ∷ []

-- "" stands for no pinned key, as both are false in Python.
abbrev pub differs : Option Value → Text → Bool
differs key expected = not (is_empty expected) && not (is_text key expected)

abbrev one : Bool → List Layer
one required = layer pq_signature (if required then fail else skipped) ∷ []

module _ (h : Host) where
  -- `_check_timestamp`; none where there is no sidecar.
  unfoldable pub check_timestamp : Option File → List ℕ → List Layer × Status
  unfolding has_unknown decode get is_text truthy entry_of
  check_timestamp none pack_bytes = (layer rfc3161 skipped ∷ [], skipped)
  check_timestamp (some file) pack_bytes = elim (sidecar_of file) [
    | none ↦ (layer rfc3161 fail ∷ [], fail)
    | some side ↦ stamped (h.sha256 pack_bytes) side
  ]

  -- `r`, the answer of the backend
  unfoldable pub pq_answer : Text → Bool → Bool → Option Bool → List Layer × Option Bool
  pq_answer palg required pinned none =
      let lay = layer pq_signature (if required then fail else skipped) in
      ((if in_list palg known_pq_algs then record lay { assessed = false } else lay) ∷ [], none)
  pq_answer palg required pinned (some false) = (layer pq_signature fail ∷ [], some false)
  pq_answer palg required pinned (some true) =
      if pinned then (layer pq_signature passed ∷ [], some true) else (one required, none)

  -- `palg` is there, and it is a str but "".
  unfoldable pub pq_declared : Text → Fields → Text → Text → Bool → List Layer × Option Bool
  unfolding pq_answer b64_strict verify_pq_alg get is_text in_list
  pq_declared palg side digest expected required =
      let pk = or_empty (get (codes "pq_public_key_b64") side) in
      let sig = or_empty (get (codes "pq_signature_b64") side) in
      if differs (some pk) expected
      then (layer pq_signature fail ∷ [], some false)
      else if required && in_list palg known_pq_algs && not (b64_strict h pk && b64_strict h sig)
      then (layer pq_signature fail ∷ [], some false)
      else pq_answer palg required (not (is_empty expected)) (verify_pq_alg h palg pk sig digest)

  -- `palg`, by what `side` holds
  abbrev pub pq_alg : Option Value → Fields → Text → Text → Bool → List Layer × Option Bool
  pq_alg none side digest expected required =
      ((if required then layer pq_signature fail ∷ [] else []), some false)
  pq_alg (some (str [])) side digest expected required = (layer pq_signature fail ∷ [], some false)
  pq_alg (some (str (c ∷ t))) side digest expected required =
      pq_declared (c ∷ t) side digest expected required
  pq_alg (some _) side digest expected required = (layer pq_signature fail ∷ [], some false)

  -- `_check_pq_cosignature`
  unfoldable pub check_pq_cosignature : Fields → Text → Text → Bool → List Layer × Option Bool
  unfolding pq_declared get
  check_pq_cosignature side digest expected require_pq =
      pq_alg (get (codes "pq_sig_alg") side) side digest expected
        (require_pq || not (is_empty expected))
