-- ===== src/Trail/Anchored.antt =====
-- What `anchor_epoch` of omega_evidence/interop/aat.py attaches proves each record's place.
use omega_evidence.Base.{
  ℕ, zero, suc, ◌+◌, Bool, true, not, Option, some, List, [], ◌∷◌, length, get_elem?, ◌≡◌, refl,
  sym, ap, ◌∙◌, arith, ◌==◌,
}
use omega_evidence.Base.Text.{Text, codes}
use omega_evidence.Base.Maybe.{◌>>=◌, guard, after, nothing, some-injective, guard-eq-some}
use omega_evidence.Value.{Value, Fields, name, non_string, dict, end, field}
use omega_evidence.Ledger.Chain.{get, without}
use omega_evidence.Chip.Classes.{put}
use omega_evidence.Preservation.Sealing.{get-put, without-put}
use omega_evidence.Trail.Merkle.{Hash, Step, merkle_root, root_from_path, index_from_path}
use omega_evidence.Trail.Inclusion.{audit_path_proves}
use omega_evidence.Trail.Levels.{audit_paths}
use omega_evidence.Trail.Bottom.{audit_paths-audit_path}
use omega_evidence.Trail.Jcs.{Hasher, jcs, leaf_hash}
use omega_evidence.Trail.Epoch.{
  is_uuid4, batch_of, popped, attach, epoch_name, anchor_of, leaf_hashes, tsa_fields, anchor_epoch,
}

without_twice : (k : Text) (r : Fields) → without k (without k r) ≡ without k r
unfolding without
without_twice k end = refl
without_twice k (field (name j) v fs) = ground (arith, without_twice k fs)
without_twice k (field (non_string j) v fs) = ap (field (non_string j) v) (without_twice k fs)

get_elem?-popped :
    (rs : List Fields) (i : ℕ) (r : Fields)
    → get_elem? rs i ≡ some r
    → get_elem? (popped rs) i ≡ some (without (codes "batch") r)
unfolding popped
get_elem?-popped [] i r e = absurd (nothing r e)
get_elem?-popped (s ∷ rs) zero r e = ap (λ u. some (without (codes "batch") u)) (some-injective e)
get_elem?-popped (s ∷ rs) (suc i) r e = get_elem?-popped rs i r e

plus_zero : (n : ℕ) → n + 0 ≡ n
plus_zero n = omega arith

suc-plus : (n i : ℕ) → suc n + i ≡ n + suc i
suc-plus n i = omega arith

zero-plus : (i : ℕ) → 0 + i ≡ i
zero-plus i = omega arith

get_elem?-attach :
    (eid : Text) (root : Hash) (n : ℕ) (rs : List Fields) (paths : List (List Step)) (i : ℕ)
    (r : Fields) (path : List Step)
    → get_elem? rs i ≡ some r
    → get_elem? paths i ≡ some path
    → get_elem? (attach eid root n rs paths) i
      ≡ some (put (codes "batch") (batch_of eid root (n + i) path) r)
unfolding attach
get_elem?-attach eid root n [] paths i r path e f = absurd (nothing r e)
get_elem?-attach eid root n (s ∷ rs) [] i r path e f = absurd (nothing path f)
get_elem?-attach eid root n (s ∷ rs) (q ∷ paths) zero r path e f =
    rw (some-injective f, some-injective e, plus_zero n) refl
get_elem?-attach eid root n (s ∷ rs) (q ∷ paths) (suc i) r path e f =
    get_elem?-attach eid root (suc n) rs paths i r path e f
    ∙ ap (λ m. some (put (codes "batch") (batch_of eid root m path) r)) (suc-plus n i)

module _ (h : Hasher) where
  get_elem?-leaf_hashes :
      (rs : List Fields) (ls : List Hash) (i : ℕ) (r : Fields)
      → leaf_hashes h rs ≡ some ls
      → get_elem? rs i ≡ some r
      → (leaf : Hash) × (leaf_hash h true r ≡ some leaf) × (get_elem? ls i ≡ some leaf)
  unfolding leaf_hashes
  get_elem?-leaf_hashes [] ls i r e f = absurd (nothing r f)
  get_elem?-leaf_hashes (s ∷ rs) ls zero r e f = after (leaf_hash h true s) e (λ l is_l e1.
      after (leaf_hashes h rs) e1 (λ us is_us e2. (
        l,
        ap (leaf_hash h true) (sym (some-injective f)) ∙ is_l,
        ap (λ u. get_elem? u 0) (sym (some-injective e2)),
      )))
  get_elem?-leaf_hashes (s ∷ rs) ls (suc i) r e f = after (leaf_hash h true s) e (λ l is_l e1.
      after (leaf_hashes h rs) e1 (λ us is_us e2.
        let (leaf, is_leaf, there) = get_elem?-leaf_hashes rs us i r is_us f in
        (leaf, is_leaf, ap (λ u. get_elem? u (suc i)) (sym (some-injective e2)) ∙ there)))

  length-leaf_hashes :
      (rs : List Fields) (ls : List Hash)
      → leaf_hashes h (popped rs) ≡ some ls
      → length ls ≡ length rs
  unfolding leaf_hashes popped
  length-leaf_hashes [] ls e = ap length (sym (some-injective e))
  length-leaf_hashes (s ∷ rs) ls e =
      after (leaf_hash h true (without (codes "batch") s)) e (λ l is_l e1.
        after (leaf_hashes h (popped rs)) e1 (λ us is_us e2.
          ap length (sym (some-injective e2)) ∙ ap suc (length-leaf_hashes rs us is_us)))

  -- The detached object is not hashed.
  leaf_hash-batch :
      (strict : Bool) (v : Value) (r : Fields)
      → leaf_hash h strict (put (codes "batch") v (without (codes "batch") r))
        ≡ leaf_hash h strict r
  unfolding leaf_hash
  leaf_hash-batch strict v r =
      ap (λ u. jcs h strict (dict u) >>= λ t. some (h.sha256 (0 ∷ t)))
        (without-put (codes "batch") v (without (codes "batch") r)
          ∙ without_twice (codes "batch") r)

  leaf_hash-popped :
      (strict : Bool) (r : Fields)
      → leaf_hash h strict (without (codes "batch") r) ≡ leaf_hash h strict r
  unfolding leaf_hash
  leaf_hash-popped strict r =
      ap (λ u. jcs h strict (dict u) >>= λ t. some (h.sha256 (0 ∷ t)))
        (without_twice (codes "batch") r)

  -- The i-th record, with an object that proves its place under the root.
  pub record IsAnchored (eid : Text) (root : Hash) (count i : ℕ) (r o : Fields) : Type 0 where
    pub leaf : Hash
    pub path : List Step
    pub attached : get (codes "batch") o ≡ some (batch_of eid root i path)
    pub same_leaf : leaf_hash h true o ≡ leaf_hash h true r
    pub is_leaf : leaf_hash h true o ≡ some leaf
    pub leads_to_root : root_from_path h.sha256 leaf path ≡ root
    pub proves_index : index_from_path path count ≡ some i

  attach-IsAnchored :
      (eid : Text) (records : List Fields) (leaves : List Hash) (i : ℕ) (r : Fields)
      → leaf_hashes h (popped records) ≡ some leaves
      → get_elem? records i ≡ some r
      → let root = merkle_root h.sha256 leaves in
        (o : Fields) × (get_elem?
            (attach eid root 0 (popped records) (audit_paths h.sha256 leaves))
            i
          ≡ some o)
        × IsAnchored eid root (length records) i r o
  attach-IsAnchored eid records leaves i r is_leaves e =
      let there = get_elem?-popped records i r e in
      let (leaf, is_leaf, at) =
        get_elem?-leaf_hashes (popped records) leaves i (without (codes "batch") r) is_leaves
          there in
      let (path, is_path, leads, index) = (audit_path_proves h.sha256 leaves i).0 leaf at in
      let root = merkle_root h.sha256 leaves in
      let object = batch_of eid root (0 + i) path in
      let o = put (codes "batch") object (without (codes "batch") r) in
      (
        o,
        get_elem?-attach eid root 0 (popped records) (audit_paths h.sha256 leaves) i
            (without (codes "batch") r) path there
            (audit_paths-audit_path h.sha256 leaves i ∙ is_path),
        record {
          leaf = leaf;
          path = path;
          attached =
              get-put (codes "batch") object (without (codes "batch") r)
              ∙ ap (λ m. some (batch_of eid root m path)) (zero-plus i);
          same_leaf = leaf_hash-batch true object r;
          is_leaf = leaf_hash-batch true object r ∙ sym (leaf_hash-popped true r) ∙ is_leaf;
          leads_to_root = leads;
          proves_index =
              ap (index_from_path path) (sym (length-leaf_hashes records leaves is_leaves)) ∙ index;
        },
      )

  -- The records that `anchor_epoch` returns are those it was given, each with a `batch` object:
  -- the i-th names the root that the anchor holds and the place i, and its inclusion proof leads
  -- from the record's leaf hash, which the object does not change, to that root, and proves that
  -- very place in a tree of as many leaves as there are records.
  pub anchor_epoch-IsAnchored :
      (records : List Fields) (epoch_id fresh : Text) (tsa : Option (Text × (Text → Fields)))
      (out : List Fields) (anchor : Fields)
      → anchor_epoch h records epoch_id fresh tsa ≡ some (out, anchor)
      → (eid : Text) × (root : Hash) × (stamped : Fields) × (is_uuid4 eid ≡ true)
        × (anchor ≡ anchor_of eid root (length records) stamped)
        × ((i : ℕ) (r : Fields)
            → get_elem? records i ≡ some r
            → (o : Fields) × (get_elem? out i ≡ some o)
              × IsAnchored eid root (length records) i r o)
  unfolding anchor_epoch
  anchor_epoch-IsAnchored records epoch_id fresh tsa out anchor e =
      let eid = epoch_name epoch_id fresh in
      after (guard (not (length records == 0))) e (λ u is_u e1.
        after (guard (is_uuid4 eid)) e1 (λ w is_w e2.
          after (leaf_hashes h (popped records)) e2 (λ leaves is_leaves e3.
            after (tsa_fields h tsa (merkle_root h.sha256 leaves)) e3 (λ stamped is_stamped e4.
              let both = some-injective e4 in
              (
                eid,
                merkle_root h.sha256 leaves,
                stamped,
                guard-eq-some _ is_w,
                ap (λ x. x.1) (sym both),
                λ i r there.
                    let (o, at, anchored) =
                      attach-IsAnchored eid records leaves i r is_leaves there in
                    (o, ap (λ x. get_elem? x.0 i) (sym both) ∙ at, anchored),
              )))))
