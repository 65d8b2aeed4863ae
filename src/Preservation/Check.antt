-- ===== src/Preservation/Check.antt =====
-- `verify_evidence_record` of omega_evidence/preservation.py, for a record that is a JSON value. A
-- layer is its name and its status: the texts of the details and the clock are left out.
use omega_evidence.Base.{
  ℕ, suc, Bool, true, false, not, ◌&&◌, ◌||◌, Option, none, some, List, [], ◌∷◌, ◌++◌,
  if◌then◌else◌, length,
}
use omega_evidence.Base.Text.{Text, codes, in_list}
use omega_evidence.Base.Result.{Result, ok, err, ◌>>=◌}
use omega_evidence.Value.{Value, Items, Fields, str, list, dict, nil, cons, end}
use omega_evidence.Ledger.Chain.{get, without, is_text}
use omega_evidence.Verifier.Report.{Status, passed, failed, skipped, is_pass, is_checked}
use omega_evidence.Verifier.Checks.{File, or_empty}
use omega_evidence.Preservation.Tree.{
  Platform, Stop, refused, check_not_run, or_refused, digest_of, merkle_root, leaves_of,
}
use omega_evidence.Preservation.Record.{
  at_key, as_dict, canonical, same_all, pack_sha3_all, has, last, iterated,
}
use omega_evidence.Preservation.Renewal.{prev_binding, chain_binding}

pub data LayerName : Type 0 where
  record_malformed record_sha3 has_archive_timestamps data_objects_bound : LayerName
  initial_merkle_root : LayerName
  renewal_timestamp renewal_hash_tree renewal_type time_rfc3161 time_asserted : ℕ → LayerName

pub record Layer : Type 0 where
  pub name : LayerName
  pub status : Status

-- `add` without `skip`
abbrev pub add : LayerName → Bool → Layer
add n good = record { name = n; status = if good then passed else failed }

abbrev pub add_skipped : LayerName → Layer
add_skipped n = record { name = n; status = skipped }

unfoldable pub any_checked : List Layer → Bool
any_checked [] = false
any_checked (l ∷ ls) = is_checked l.status || any_checked ls

unfoldable pub none_failed : List Layer → Bool
none_failed [] = true
none_failed (l ∷ ls) = (not (is_checked l.status) || is_pass l.status) && none_failed ls

pub record Verdict : Type 0 where
  pub valid : Bool
  pub layers : List Layer

-- The answer behind the last layer.
unfoldable pub verdict : List Layer → Verdict
unfolding any_checked none_failed
verdict layers = record { valid = any_checked layers && none_failed layers; layers = layers }

-- x == [...] for a list of str
unfoldable pub is_str_list : Items → List Text → Bool
unfolding is_text
is_str_list nil [] = true
is_str_list (cons v vs) (t ∷ ts) = is_text (some v) t && is_str_list vs ts
is_str_list _ _ = false

unfoldable pub is_texts : Option Value → List Text → Bool
unfolding is_str_list
is_texts (some (list vs)) ts = is_str_list vs ts
is_texts _ ts = false

-- d.get(k, []), to go through it
abbrev pub entries_at : Option Value → Result Stop (List Value)
entries_at none = ok []
entries_at (some v) = iterated v

-- a.get("timestamp", {}), which must have a `get`.
abbrev pub stamp_of : Option Value → Result Stop Fields
stamp_of none = ok end
stamp_of (some v) = as_dict v

-- `tok`: none where it is no str or empty.
abbrev pub token_of : Option Value → Option Text
token_of (some (str [])) = none
token_of (some (str (c ∷ t))) = some (c ∷ t)
token_of _ = none

abbrev pub answered : ℕ → Option Bool → Layer
answered i none = add_skipped (time_rfc3161 i)
answered i (some b) = add (time_rfc3161 i) b

abbrev pub not_empty : List Value → Bool
not_empty [] = false
not_empty (v ∷ vs) = true

abbrev pub malformed : Verdict
malformed = record { valid = false; layers = add record_malformed false ∷ [] }

abbrev pub caught : Result Stop (List Layer) → Result Stop Verdict
caught (ok layers) = ok (verdict layers)
caught (err refused) = ok malformed
caught (err check_not_run) = err check_not_run

-- d.get("pack_sha3", "") of each data object
unfoldable pub stated : List Value → Result Stop (List Value)
unfolding get
stated [] = ok []
stated (v ∷ vs) = do d ← as_dict v; ss ← stated vs; ok (or_empty (get (codes "pack_sha3") d) ∷ ss)

module _ (p : Platform) where
  abbrev pub hash_of : Fields → Result Stop Text
  hash_of r = do
    t ← canonical (dict (without (codes "record_sha3") r))
    digest_of p (str (codes "sha3_256")) t

  -- The layer on the packs that are named.
  unfoldable pub bound_layer : Option (List File) → List Value → List Layer
  unfolding pack_sha3_all same_all
  bound_layer none pack_sha3 = []
  bound_layer (some files) pack_sha3 = elim (pack_sha3_all p files) [
    | err e ↦ add data_objects_bound false ∷ []
    | ok found ↦ add data_objects_bound (same_all p found pack_sha3) ∷ []
  ]

  unfoldable pub initial_layer : List Value → Value → Result Stop Layer
  unfolding get leaves_of merkle_root is_texts is_text
  initial_layer pack_sha3 a0 = do
    d ← as_dict a0
    alg ← at_key (codes "hash_alg") d
    leaves ← leaves_of p pack_sha3 alg
    root ← merkle_root p leaves alg
    ok (
        add initial_merkle_root
          (is_text (get (codes "merkle_root") d) root && is_texts (get (codes "leaves") d) leaves))

  unfoldable pub initial_layers : List Value → List Value → Result Stop (List Layer)
  unfolding initial_layer
  initial_layers pack_sha3 [] = ok []
  initial_layers pack_sha3 (a0 ∷ ats) = do l ← initial_layer pack_sha3 a0; ok (l ∷ [])

  unfoldable pub timestamp_layer : List Value → Fields → Value → Result Stop Layer
  unfolding get prev_binding is_text
  timestamp_layer before cur alg = do
    prev ← or_refused (last before)
    binding ← prev_binding p prev alg
    ok (add (renewal_timestamp (length before)) (is_text (get (codes "prev_binding") cur) binding))

  unfoldable pub tree_layer : List Value → List Value → Fields → Value → Result Stop Layer
  unfolding get leaves_of chain_binding merkle_root is_texts is_text
  tree_layer pack_sha3 before cur alg = do
    leaves ← leaves_of p pack_sha3 alg
    binding ← chain_binding p before alg
    root ← merkle_root p (leaves ++ (binding ∷ [])) alg
    ok (
        add (renewal_hash_tree (length before)) (
          is_text (get (codes "chain_binding") cur) binding
          && is_texts (get (codes "leaves") cur) (leaves ++ (binding ∷ []))
          && is_text (get (codes "merkle_root") cur) root))

  -- The entry behind those of `before`.
  unfoldable pub renewal_layer : List Value → List Value → Value → Result Stop Layer
  unfolding get timestamp_layer tree_layer is_text
  renewal_layer pack_sha3 before v = do
    cur ← as_dict v
    alg ← at_key (codes "hash_alg") cur
    let type = get (codes "type") cur
    if is_text type (codes "timestamp-renewal")
        then timestamp_layer before cur alg
        else if is_text type (codes "hash-tree-renewal")
        then tree_layer pack_sha3 before cur alg
        else ok (add (renewal_type (length before)) false)

  unfoldable pub renewal_layers : List Value → List Value → List Value → Result Stop (List Layer)
  unfolding renewal_layer
  renewal_layers pack_sha3 before [] = ok []
  renewal_layers pack_sha3 before (v ∷ vs) = do
    l ← renewal_layer pack_sha3 before v
    ls ← renewal_layers pack_sha3 (before ++ (v ∷ [])) vs
    ok (l ∷ ls)

  -- The renewals: all entries but the first.
  unfoldable pub chain_layers : List Value → List Value → Result Stop (List Layer)
  unfolding renewal_layers
  chain_layers pack_sha3 [] = ok []
  chain_layers pack_sha3 (a0 ∷ ats) = renewal_layers pack_sha3 (a0 ∷ []) ats

  -- v or w
  abbrev or_else : Option Value → Value → Value
  or_else v w = if has p v then or_empty v else w

  -- a.get("merkle_root") or a.get("prev_binding") or ""
  unfoldable pub covered : Fields → Value
  unfolding get
  covered a =
      or_else (get (codes "merkle_root") a) (or_else (get (codes "prev_binding") a) (str []))

  unfoldable pub token_layer : ℕ → Fields → Option Text → Result Stop Layer
  unfolding covered
  token_layer i a none = ok (add (time_rfc3161 i) false)
  token_layer i a (some tok) = do r ← p.ts_verify tok (covered a); ok (answered i r)

  unfoldable pub time_layer : ℕ → Value → Result Stop Layer
  unfolding get is_text token_layer
  time_layer i v = do
    a ← as_dict v
    ts ← stamp_of (get (codes "timestamp") a)
    if is_text (get (codes "time_source") ts) (codes "rfc3161")
        then token_layer i a (token_of (get (codes "tsr_b64") ts))
        else ok (add_skipped (time_asserted i))

  unfoldable pub time_layers : ℕ → List Value → Result Stop (List Layer)
  unfolding time_layer
  time_layers i [] = ok []
  time_layers i (v ∷ vs) = do l ← time_layer i v; ls ← time_layers (suc i) vs; ok (l ∷ ls)

  -- The layers of `_verify_evidence_record`.
  unfoldable pub all_layers : Fields → Option (List File) → Result Stop (List Layer)
  unfolding get is_text stated bound_layer initial_layers chain_layers time_layers
  all_layers r packs = do
    recomputed ← hash_of r
    ats ← entries_at (get (codes "archive_timestamps") r)
    objs ← entries_at (get (codes "data_objects") r)
    pack_sha3 ← stated objs
    first ← initial_layers pack_sha3 ats
    chain ← chain_layers pack_sha3 ats
    times ← time_layers 0 ats
    ok (
        add record_sha3 (is_text (get (codes "record_sha3") r) recomputed)
        ∷ add has_archive_timestamps (not_empty ats)
        ∷ (bound_layer packs pack_sha3 ++ first ++ chain ++ times))

  -- `verify_evidence_record`
  unfoldable pub verify_evidence_record : Value → Option (List File) → Result Stop Verdict
  unfolding all_layers verdict
  verify_evidence_record (dict r) packs = caught (all_layers r packs)
  verify_evidence_record _ packs = ok malformed

-- The entry `due` of `renewal_due`; a list or an object is not hashable.
abbrev is_weak : List Text → Value → Result Stop Bool
is_weak weak (str alg) = ok (in_list alg weak)
is_weak weak (list vs) = err refused
is_weak weak (dict fs) = err refused
is_weak weak _ = ok false

unfoldable pub renewal_due : Fields → List Text → Result Stop (Bool × Value)
unfolding get in_list
renewal_due r weak = do
  found ← at_key (codes "archive_timestamps") r
  ats ← iterated found
  newest ← or_refused (last ats)
  d ← as_dict newest
  alg ← at_key (codes "hash_alg") d
  due ← is_weak weak alg
  ok (due, alg)
