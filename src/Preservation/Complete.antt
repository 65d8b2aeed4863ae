-- ===== src/Preservation/Complete.antt =====
-- A record that is what it has to be passes `verify_evidence_record`.
use mathlib.Core.List.{append-nil, append_assoc}
use omega_evidence.Base.{
  ℕ, Bool, true, false, not, ◌||◌, Option, none, some, List, [], ◌∷◌, ◌++◌, ◌≡◌, ◌≢◌, refl, sym, ap,
  ◌∙◌, length, and-parts, and-both,
}
use omega_evidence.Base.Text.{Text, codes, ◌===◌, ===_refl}
use omega_evidence.Base.Result.{Result, ok, after, ok-injective}
use omega_evidence.Value.{Value, Fields, str, list, dict}
use omega_evidence.Ledger.Chain.{is_text}
use omega_evidence.Ledger.Spec.{is_text_self}
use omega_evidence.Verifier.Report.{is_pass, is_checked}
use omega_evidence.Preservation.Tree.{Platform, Stop}
use omega_evidence.Preservation.Record.{str_items}
use omega_evidence.Preservation.Check.{
  Layer, add, add_skipped, LayerName, none_failed, initial_layers, chain_layers, not_empty,
  answered, is_texts, is_str_list, initial_layer, renewal_layer, renewal_layers, timestamp_layer,
  tree_layer, initial_merkle_root, renewal_timestamp, renewal_hash_tree,
}
use omega_evidence.Preservation.Bound.{
  Stands, none_failed-cons, IsChain, starts, renews_time, renews_tree, IsInitial, RenewsTime,
  RenewsTree,
}

is_str_list_self : (ts : List Text) → is_str_list (str_items ts) ts ≡ true
unfolding is_str_list is_text
is_str_list_self [] = refl
is_str_list_self (t ∷ ts) = and-both (===_refl t) (is_str_list_self ts)

is_texts_self : (ts : List Text) → is_texts (some (list (str_items ts))) ts ≡ true
unfolding is_texts
is_texts_self ts = is_str_list_self ts

pub none_failed-joined :
    (ks ls : List Layer)
    → none_failed ks ≡ true
    → none_failed ls ≡ true
    → none_failed (ks ++ ls) ≡ true
unfolding none_failed
none_failed-joined [] ls h k = k
none_failed-joined (l ∷ ks) ls h k =
    let (first, others) =
      and-parts (not (is_checked l.status) || is_pass l.status) (none_failed ks) h in
    and-both first (none_failed-joined ks ls others k)

pub none_failed_none : none_failed [] ≡ true
unfolding none_failed
none_failed_none = refl

pub add-true-Stands : (n : LayerName) → Stands (add n true)
unfolding none_failed
add-true-Stands n = refl

pub skipped-Stands : (n : LayerName) → Stands (add_skipped n)
unfolding none_failed
skipped-Stands n = refl

pub answered-Stands : (i : ℕ) (a : Option Bool) → a ≢ some false → Stands (answered i a)
answered-Stands i none h = skipped-Stands _
answered-Stands i (some true) h = add-true-Stands _
answered-Stands i (some false) h = absurd (h refl)

-- A call that gives layers of which none failed.
abbrev pub Passes : Result Stop (List Layer) → Type 0
Passes r = (ls : List Layer) × (r ≡ ok ls) × (none_failed ls ≡ true)

module _ (p : Platform) (packs : List Value) where
  initial_layer-passes :
      (d : Fields)
      → IsInitial p packs d
      → initial_layer p packs (dict d) ≡ ok (add initial_merkle_root true)
  unfolding initial_layer
  initial_layer-passes d i =
      rw
        (
          i.names_hash,
          i.digests,
          i.computes,
          i.holds_root,
          i.holds_leaves,
          is_text_self i.root,
          is_texts_self i.leaves,
        )
        refl

  timestamp_layer-passes :
      (before : List Value) (d : Fields)
      → RenewsTime p packs before d
      → renewal_layer p packs before (dict d) ≡ ok (add (renewal_timestamp (length before)) true)
  unfolding renewal_layer timestamp_layer
  timestamp_layer-passes before d i =
      rw
        (
          i.names_hash,
          i.says_so,
          is_text_self (codes "timestamp-renewal"),
          i.newest,
          i.binds,
          i.holds,
          is_text_self i.binding,
        )
        refl

  other_type : is_text (some (str (codes "hash-tree-renewal"))) (codes "timestamp-renewal") ≡ false
  unfolding is_text ◌===◌
  other_type = refl

  tree_layer-passes :
      (before : List Value) (d : Fields)
      → RenewsTree p packs before d
      → renewal_layer p packs before (dict d) ≡ ok (add (renewal_hash_tree (length before)) true)
  unfolding renewal_layer tree_layer
  tree_layer-passes before d i =
      rw
        (
          i.names_hash,
          i.says_so,
          other_type,
          is_text_self (codes "hash-tree-renewal"),
          i.digests,
          i.binds,
          i.computes,
          i.holds_binding,
          i.holds_leaves,
          i.holds_root,
          is_text_self i.binding,
          is_texts_self (i.leaves ++ (i.binding ∷ [])),
          is_text_self i.root,
        )
        refl

  renewal_layers-snoc :
      (before vs : List Value) (v : Value) (l : Layer)
      → Passes (renewal_layers p packs before vs)
      → renewal_layer p packs (before ++ vs) v ≡ ok l
      → Stands l
      → Passes (renewal_layers p packs before (vs ++ (v ∷ [])))
  unfolding renewal_layers
  renewal_layers-snoc before [] v l h e s =
      let same = ap (λ b. renewal_layer p packs b v) (sym (append-nil before)) ∙ e in
      (l ∷ [], rw same refl, s)
  renewal_layers-snoc before (w ∷ vs) v l (ls, h, n) e s =
      after (renewal_layer p packs before w) h (λ k is_k h1.
        after (renewal_layers p packs (before ++ (w ∷ [])) vs) h1 (λ ks is_ks h2.
          let (first, others) = none_failed-cons k ks (ap none_failed (ok-injective h2) ∙ n) in
          let same = ap (λ b. renewal_layer p packs b v) (append_assoc before (w ∷ []) vs) ∙ e in
          let (ms, is_ms, stand) =
            renewal_layers-snoc (before ++ (w ∷ [])) vs v l (ks, is_ks, others) same s in
          (k ∷ ms, rw (is_k, is_ms) refl, none_failed-joined (k ∷ []) ms first stand)))

  -- The entries, parted into the first and the others.
  record Checked (ats : List Value) : Type 0 where
    a0 : Value
    others : List Value
    parted : ats ≡ a0 ∷ others
    first : initial_layer p packs a0 ≡ ok (add initial_merkle_root true)
    chain : Passes (renewal_layers p packs (a0 ∷ []) others)

  Checked-snoc :
      (before : List Value) (v : Value) (n : LayerName)
      → Checked before
      → renewal_layer p packs before v ≡ ok (add n true)
      → Checked (before ++ (v ∷ []))
  Checked-snoc before v n c e = record {
    a0 = c.a0;
    others = c.others ++ (v ∷ []);
    parted = ap (λ b. b ++ (v ∷ [])) c.parted;
    first = c.first;
    chain =
        renewal_layers-snoc (c.a0 ∷ []) c.others v (add n true) c.chain
          (ap (λ b. renewal_layer p packs b v) (sym c.parted) ∙ e) (add-true-Stands n);
  }

  IsChain-Checked : (ats : List Value) → IsChain p packs ats → Checked ats
  unfolding renewal_layers
  IsChain-Checked _ (starts d i) = record {
    a0 = dict d;
    others = [];
    parted = refl;
    first = initial_layer-passes d i;
    chain = ([], refl, none_failed_none);
  }
  IsChain-Checked _ (renews_time before d chain r) =
      Checked-snoc before (dict d) _ (IsChain-Checked before chain)
        (timestamp_layer-passes before d r)
  IsChain-Checked _ (renews_tree before d chain r) =
      Checked-snoc before (dict d) _ (IsChain-Checked before chain) (tree_layer-passes before d r)

  -- The layers of the entries.
  pub chain-Passes :
      (ats : List Value)
      → IsChain p packs ats
      → (not_empty ats ≡ true)
        × Passes (initial_layers p packs ats)
        × Passes (chain_layers p packs ats)
  unfolding initial_layers chain_layers
  chain-Passes ats chain =
      let c : Checked ats = IsChain-Checked ats chain in
      rw c.parted
        (refl, (add initial_merkle_root true ∷ [], rw c.first refl, add-true-Stands _), c.chain)
