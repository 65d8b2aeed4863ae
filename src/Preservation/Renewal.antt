-- ===== src/Preservation/Renewal.antt =====
-- The renewals of an evidence record, of omega_evidence/preservation.py.
use omega_evidence.Base.{
  zero, suc, ◌+◌, not, Option, none, some, List, [], ◌∷◌, ◌++◌, if◌then◌else◌,
}
use omega_evidence.Base.Text.{Text, codes}
use omega_evidence.Base.Int.{pos, negsuc}
use omega_evidence.Base.Result.{Result, ok, err, ◌>>=◌, raise_if}
use omega_evidence.Value.{Value, Fields, name, bool, int, float, str, list, dict, end, field}
use omega_evidence.Ledger.Chain.{get}
use omega_evidence.Verifier.Checks.{File}
use omega_evidence.Chip.Classes.{put}
use omega_evidence.Preservation.Tree.{
  Platform, Stop, refused, or_refused, hnew, digest_of, merkle_root, leaves_of,
}
use omega_evidence.Preservation.Record.{
  canonical, at_key, as_dict, items, str_items, last, as_list, iterated, declared, same_all,
  pack_sha3_all, timestamp_root, finalize,
}

module _ (p : Platform) where
  -- `_prev_binding`
  unfoldable pub prev_binding : Value → Value → Result Stop Text
  unfolding canonical digest_of
  prev_binding prev alg = do t ← canonical prev; digest_of p alg t

  -- prev["seq"] + 1
  unfoldable pub add_one : Value → Result Stop Value
  add_one (int (pos n)) = ok (int (pos (n + 1)))
  add_one (int (negsuc zero)) = ok (int (pos 0))
  add_one (int (negsuc (suc n))) = ok (int (negsuc n))
  add_one (bool b) = ok (int (pos (if b then 2 else 1)))
  add_one (float t) = ok (float (p.plus_one t))
  add_one _ = err refused

  unfoldable pub timestamp_entry :
      Value → Value → Text → Option (Text → Fields) → Text → Text → Fields
  unfolding timestamp_root
  timestamp_entry seq alg binding tsa stamped created = field (name (codes "seq")) seq (
      field (name (codes "type")) (str (codes "timestamp-renewal")) (
        field (name (codes "hash_alg")) alg (
          field (name (codes "covers")) (str (codes "previous-archive-timestamp")) (
            field (name (codes "prev_binding")) (str binding) (
              field (name (codes "timestamp")) (dict (timestamp_root p binding tsa stamped))
                (field (name (codes "created_utc")) (str created) end))))))

  -- record["archive_timestamps"].append(ats), and `_finalize`
  unfoldable pub append_entry : List Value → Fields → Fields → Result Stop Fields
  unfolding put finalize
  append_entry ats entry r =
      finalize p (put (codes "archive_timestamps") (list (items (ats ++ (dict entry ∷ [])))) r)

  -- `renew_timestamp`
  unfoldable pub renew_timestamp :
      Fields → Option (Text → Fields) → Text → Text → Result Stop Fields
  unfolding get prev_binding add_one timestamp_entry append_entry
  renew_timestamp r tsa stamped created = do
    found ← at_key (codes "archive_timestamps") r
    ats ← as_list found
    prev ← or_refused (last ats)
    d ← as_dict prev
    alg ← at_key (codes "hash_alg") d
    binding ← prev_binding prev alg
    n ← at_key (codes "seq") d
    seq ← add_one n
    append_entry ats (timestamp_entry seq alg binding tsa stamped created) r

  -- The packs that are named must be those of the record.
  unfoldable pub check_packs : Option (List File) → List Value → Result Stop (Unit {0})
  unfolding pack_sha3_all same_all
  check_packs none pack_sha3 = ok tt
  check_packs (some files) pack_sha3 = do
    found ← pack_sha3_all p files
    raise_if (not (same_all p found pack_sha3)) refused

  -- `_digest(alg, canonical_json(...))` of a list of entries
  unfoldable pub chain_binding : List Value → Value → Result Stop Text
  unfolding canonical digest_of
  chain_binding ats alg = do t ← canonical (list (items ats)); digest_of p alg t

  unfoldable pub tree_entry :
      Value → Value → List Text → Text → Text → Option (Text → Fields) → Text → Text → Fields
  unfolding timestamp_root
  tree_entry seq alg leaves root binding tsa stamped created = field (name (codes "seq")) seq (
      field (name (codes "type")) (str (codes "hash-tree-renewal")) (
        field (name (codes "hash_alg")) alg (
          field (name (codes "leaves")) (list (str_items leaves)) (
            field (name (codes "merkle_root")) (str root) (
              field (name (codes "covers")) (str (codes "data-objects+previous-chain")) (
                field (name (codes "chain_binding")) (str binding) (
                  field (name (codes "timestamp")) (dict (timestamp_root p root tsa stamped))
                    (field (name (codes "created_utc")) (str created) end))))))))

  -- `renew_hash_tree`
  unfoldable pub renew_hash_tree :
      Fields → Option (List File) → Text → Option (Text → Fields) → Text → Text → Result Stop Fields
  unfolding get declared check_packs leaves_of chain_binding merkle_root add_one tree_entry
      append_entry hnew
  renew_hash_tree r packs new_alg tsa stamped created = do
    supported ← hnew (str new_alg)
    found ← at_key (codes "archive_timestamps") r
    ats ← as_list found
    prev ← or_refused (last ats)
    given ← at_key (codes "data_objects") r
    objs ← iterated given
    pack_sha3 ← declared objs
    checked ← check_packs packs pack_sha3
    leaves ← leaves_of p pack_sha3 (str new_alg)
    binding ← chain_binding ats (str new_alg)
    root ← merkle_root p (leaves ++ (binding ∷ [])) (str new_alg)
    d ← as_dict prev
    n ← at_key (codes "seq") d
    seq ← add_one n
    append_entry ats
        (tree_entry seq (str new_alg) (leaves ++ (binding ∷ [])) root binding tsa stamped created) r
