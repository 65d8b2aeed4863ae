-- ===== src/Preservation/Bound.antt =====
-- What an evidence record of omega_evidence/preservation.py has to be, said without the code that
-- verifies it, and that the layers of `verify_evidence_record` establish it.
use omega_evidence.Base.Maybe.{some-injective}
use omega_evidence.Base.{
  Bool, true, false, not, ◌||◌, Option, none, some, List, [], ◌∷◌, ◌++◌, ◌≡◌, refl, ap, ◌∙◌, untrue,
  and-parts, and-both,
}
use omega_evidence.Base.Text.{Text, codes, ===→eq}
use omega_evidence.Base.Result.{Result, ok, ok-injective}
use omega_evidence.Value.{Value, Items, Fields, str, list, dict, nil, cons}
use omega_evidence.Ledger.Chain.{get, is_text}
use omega_evidence.Verifier.Report.{is_pass, is_checked}
use omega_evidence.Preservation.Tree.{Platform, Stop, or_refused, leaves_of, merkle_root}
use omega_evidence.Preservation.Record.{at_key, as_dict, str_items, last}
use omega_evidence.Preservation.Renewal.{prev_binding, chain_binding}
use omega_evidence.Preservation.Check.{Layer, add, LayerName, none_failed, is_texts, is_str_list}

pub is_text-eq : (o : Option Value) (t : Text) → is_text o t ≡ true → o ≡ some (str t)
unfolding is_text
is_text-eq (some (str s)) t h = ap (λ u. some (str u)) (===→eq s t h)
is_text-eq none t h = untrue h
is_text-eq (some _) t h = untrue h

is_str_list-eq : (vs : Items) (ts : List Text) → is_str_list vs ts ≡ true → vs ≡ str_items ts
unfolding is_str_list
is_str_list-eq nil [] h = refl
is_str_list-eq (cons v vs) (t ∷ ts) h =
    let (first, others) = and-parts (is_text (some v) t) (is_str_list vs ts) h in
    rw (some-injective (is_text-eq (some v) t first), is_str_list-eq vs ts others) refl
is_str_list-eq nil (t ∷ ts) h = untrue h
is_str_list-eq (cons v vs) [] h = untrue h

pub is_texts-eq :
    (o : Option Value) (ts : List Text) → is_texts o ts ≡ true → o ≡ some (list (str_items ts))
unfolding is_texts
is_texts-eq (some (list vs)) ts h = ap (λ u. some (list u)) (is_str_list-eq vs ts h)
is_texts-eq none ts h = untrue h
is_texts-eq (some _) ts h = untrue h

-- A layer that is no failure.
abbrev pub Stands : Layer → Type 0
Stands l = none_failed (l ∷ []) ≡ true

pub none_failed-cons :
    (l : Layer) (ls : List Layer) → none_failed (l ∷ ls) ≡ true → Stands l × (none_failed ls ≡ true)
unfolding none_failed
none_failed-cons l ls h =
    let (first, others) =
      and-parts (not (is_checked l.status) || is_pass l.status) (none_failed ls) h in
    (and-both first refl, others)

pub none_failed-append :
    (ks ls : List Layer)
    → none_failed (ks ++ ls) ≡ true
    → (none_failed ks ≡ true) × (none_failed ls ≡ true)
unfolding none_failed
none_failed-append [] ls h = (refl, h)
none_failed-append (k ∷ ks) ls h =
    let (first, others) =
      and-parts (not (is_checked k.status) || is_pass k.status) (none_failed (ks ++ ls)) h in
    let (left, right) = none_failed-append ks ls others in (and-both first left, right)

pub add-Stands : (n : LayerName) (b : Bool) → Stands (add n b) → b ≡ true
unfolding none_failed
add-Stands n true h = refl
add-Stands n false h = untrue h

-- A layer that was added, and that is no failure.
pub add-ok-Stands :
    (n : LayerName) (b : Bool) {l : Layer}
    → ◌≡◌ {A = Result Stop Layer} (ok (add n b)) (ok l)
    → Stands l
    → b ≡ true
add-ok-Stands n b h s = add-Stands n b (ap (λ k. none_failed (k ∷ [])) (ok-injective h) ∙ s)

pub or_refused-ok {ℓ} : {A : Type ℓ} (o : Option A) (a : A) → or_refused o ≡ ok a → o ≡ some a
or_refused-ok none a h = absurd cc
or_refused-ok (some b) a h = cc

pub at_key-ok : (k : Text) (d : Fields) (v : Value) → at_key k d ≡ ok v → get k d ≡ some v
at_key-ok k d v h = or_refused-ok (get k d) v h

pub as_dict-ok : (v : Value) (d : Fields) → as_dict v ≡ ok d → v ≡ dict d
as_dict-ok (dict fs) d h = cc
as_dict-ok _ d h = absurd cc

module _ (p : Platform) (packs : List Value) where
  -- The first entry: its leaves are the digests of the packs, and its root is the root of their
  -- tree, both under the hash that it names.
  pub record IsInitial (d : Fields) : Type 0 where
    pub alg : Value
    pub leaves : List Text
    pub root : Text
    pub names_hash : get (codes "hash_alg") d ≡ some alg
    pub digests : leaves_of p packs alg ≡ ok leaves
    pub computes : merkle_root p leaves alg ≡ ok root
    pub holds_root : get (codes "merkle_root") d ≡ some (str root)
    pub holds_leaves : get (codes "leaves") d ≡ some (list (str_items leaves))

  -- An entry that renews the time of the entry before it.
  pub record RenewsTime (before : List Value) (d : Fields) : Type 0 where
    pub prev : Value
    pub alg : Value
    pub binding : Text
    pub names_hash : get (codes "hash_alg") d ≡ some alg
    pub says_so : get (codes "type") d ≡ some (str (codes "timestamp-renewal"))
    pub newest : last before ≡ some prev
    pub binds : prev_binding p prev alg ≡ ok binding
    pub holds : get (codes "prev_binding") d ≡ some (str binding)

  -- An entry that renews the tree: over the packs and all the entries before it.
  pub record RenewsTree (before : List Value) (d : Fields) : Type 0 where
    pub alg : Value
    pub leaves : List Text
    pub binding : Text
    pub root : Text
    pub names_hash : get (codes "hash_alg") d ≡ some alg
    pub says_so : get (codes "type") d ≡ some (str (codes "hash-tree-renewal"))
    pub digests : leaves_of p packs alg ≡ ok leaves
    pub binds : chain_binding p before alg ≡ ok binding
    pub computes : merkle_root p (leaves ++ (binding ∷ [])) alg ≡ ok root
    pub holds_binding : get (codes "chain_binding") d ≡ some (str binding)
    pub holds_leaves : get (codes "leaves") d ≡ some (list (str_items (leaves ++ (binding ∷ []))))
    pub holds_root : get (codes "merkle_root") d ≡ some (str root)

  pub data IsChain : List Value → Type 0 where
    starts : (d : Fields) → IsInitial d → IsChain (dict d ∷ [])
    renews_time :
        (before : List Value) (d : Fields)
        → IsChain before
        → RenewsTime before d
        → IsChain (before ++ (dict d ∷ []))
    renews_tree :
        (before : List Value) (d : Fields)
        → IsChain before
        → RenewsTree before d
        → IsChain (before ++ (dict d ∷ []))
