-- ===== src/Preservation/Chained.antt =====
-- The layers on the entries of a record, of omega_evidence/preservation.py, establish the chain.
use mathlib.Core.List.{append-nil, append_assoc}
use omega_evidence.Base.{
  true, false, some, List, [], ◌∷◌, ◌++◌, ◌≡◌, sym, ap, ◌∙◌, inl, inr, if◌then◌else◌, length,
  Bool-cases, if-true, if-false, untrue, and-parts,
}
use omega_evidence.Base.Text.{codes}
use omega_evidence.Base.Result.{ok, after, ok-injective}
use omega_evidence.Value.{Value, Fields, str, dict}
use omega_evidence.Ledger.Chain.{get, is_text}
use omega_evidence.Preservation.Tree.{Platform, or_refused, leaves_of, merkle_root}
use omega_evidence.Preservation.Record.{at_key, as_dict, last}
use omega_evidence.Preservation.Renewal.{prev_binding, chain_binding}
use omega_evidence.Preservation.Check.{
  Layer, add, none_failed, initial_layer, timestamp_layer, tree_layer, renewal_layer,
  renewal_layers, renewal_type,
}
use omega_evidence.Preservation.Bound.{
  renews_time, renews_tree, is_text-eq, is_texts-eq, Stands, none_failed-cons, add-ok-Stands,
  or_refused-ok, at_key-ok, as_dict-ok, IsInitial, RenewsTime, RenewsTree, IsChain,
}

module _ (p : Platform) (packs : List Value) where
  pub initial_layer-IsInitial :
      (v : Value) (l : Layer)
      → initial_layer p packs v ≡ ok l
      → Stands l
      → (d : Fields) × (v ≡ dict d) × IsInitial p packs d
  unfolding initial_layer
  initial_layer-IsInitial v l h s = after (as_dict v) h (λ d is_d h1.
      after (at_key (codes "hash_alg") d) h1 (λ alg is_alg h2.
        after (leaves_of p packs alg) h2 (λ leaves is_leaves h3.
          after (merkle_root p leaves alg) h3 (λ root is_root h4.
            let (same_root, same_leaves) = and-parts _ _ (add-ok-Stands _ _ h4 s) in
            (
              d,
              as_dict-ok v d is_d,
              record {
                alg = alg;
                leaves = leaves;
                root = root;
                names_hash = at_key-ok _ d alg is_alg;
                digests = is_leaves;
                computes = is_root;
                holds_root = is_text-eq _ root same_root;
                holds_leaves = is_texts-eq _ leaves same_leaves;
              },
            )))))

  timestamp_layer-RenewsTime :
      (before : List Value) (d : Fields) (alg : Value) (l : Layer)
      → get (codes "hash_alg") d ≡ some alg
      → get (codes "type") d ≡ some (str (codes "timestamp-renewal"))
      → timestamp_layer p before d alg ≡ ok l
      → Stands l
      → RenewsTime p packs before d
  unfolding timestamp_layer
  timestamp_layer-RenewsTime before d alg l a t h s =
      after (or_refused (last before)) h (λ prev is_prev h1.
        after (prev_binding p prev alg) h1 (λ binding is_binding h2. record {
          prev = prev;
          alg = alg;
          binding = binding;
          names_hash = a;
          says_so = t;
          newest = or_refused-ok (last before) prev is_prev;
          binds = is_binding;
          holds = is_text-eq _ binding (add-ok-Stands _ _ h2 s);
        }))

  tree_layer-RenewsTree :
      (before : List Value) (d : Fields) (alg : Value) (l : Layer)
      → get (codes "hash_alg") d ≡ some alg
      → get (codes "type") d ≡ some (str (codes "hash-tree-renewal"))
      → tree_layer p packs before d alg ≡ ok l
      → Stands l
      → RenewsTree p packs before d
  unfolding tree_layer
  tree_layer-RenewsTree before d alg l a t h s =
      after (leaves_of p packs alg) h (λ leaves is_leaves h1.
        after (chain_binding p before alg) h1 (λ binding is_binding h2.
          after (merkle_root p (leaves ++ (binding ∷ [])) alg) h2 (λ root is_root h3.
            let (others, same_root) = and-parts _ _ (add-ok-Stands _ _ h3 s) in
            let (same_binding, same_leaves) = and-parts _ _ others in
            record {
              alg = alg;
              leaves = leaves;
              binding = binding;
              root = root;
              names_hash = a;
              says_so = t;
              digests = is_leaves;
              binds = is_binding;
              computes = is_root;
              holds_binding = is_text-eq _ binding same_binding;
              holds_leaves = is_texts-eq _ (leaves ++ (binding ∷ [])) same_leaves;
              holds_root = is_text-eq _ root same_root;
            })))

  renewal_layer-IsChain :
      (before : List Value) (v : Value) (l : Layer)
      → IsChain p packs before
      → renewal_layer p packs before v ≡ ok l
      → Stands l
      → IsChain p packs (before ++ (v ∷ []))
  unfolding renewal_layer
  renewal_layer-IsChain before v l chain h s = after (as_dict v) h (λ d is_d h1.
      after (at_key (codes "hash_alg") d) h1
        (λ alg is_alg h2. rw (as_dict-ok v d is_d) (by_type d alg (at_key-ok _ d alg is_alg) h2)))
    where
      by_type :
          (d : Fields) (alg : Value)
          → get (codes "hash_alg") d ≡ some alg
          → (if is_text (get (codes "type") d) (codes "timestamp-renewal")
              then timestamp_layer p before d alg
              else if is_text (get (codes "type") d) (codes "hash-tree-renewal")
              then tree_layer p packs before d alg
              else ok (add (renewal_type (length before)) false))
            ≡ ok l
          → IsChain p packs (before ++ (dict d ∷ []))
      by_type d alg a h2 =
          elim (Bool-cases (is_text (get (codes "type") d) (codes "timestamp-renewal"))) [
            | inl t ↦ renews_time before d chain (
                timestamp_layer-RenewsTime before d alg l a (is_text-eq _ _ t)
                  (sym (if-true _ _ t) ∙ h2) s)
            | inr f ↦
                elim (Bool-cases (is_text (get (codes "type") d) (codes "hash-tree-renewal"))) [
                  | inl t ↦ renews_tree before d chain (
                      tree_layer-RenewsTree before d alg l a (is_text-eq _ _ t)
                        (sym (if-true _ _ t) ∙ sym (if-false _ _ f) ∙ h2) s)
                  | inr g ↦ untrue (
                      add-ok-Stands (renewal_type (length before)) false
                        (sym (if-false _ _ g) ∙ sym (if-false _ _ f) ∙ h2) s)
                ]
          ]

  pub renewal_layers-IsChain :
      (before vs : List Value) (ls : List Layer)
      → IsChain p packs before
      → renewal_layers p packs before vs ≡ ok ls
      → none_failed ls ≡ true
      → IsChain p packs (before ++ vs)
  unfolding renewal_layers
  renewal_layers-IsChain before [] ls chain h s = rw (append-nil before) chain
  renewal_layers-IsChain before (v ∷ vs) ls chain h s =
      after (renewal_layer p packs before v) h (λ l is_l h1.
        after (renewal_layers p packs (before ++ (v ∷ [])) vs) h1 (λ ks is_ks h2.
          let (first, others) = none_failed-cons l ks (ap none_failed (ok-injective h2) ∙ s) in
          rw (sym (append_assoc before (v ∷ []) vs)) (
            renewal_layers-IsChain (before ++ (v ∷ [])) vs ks
              (renewal_layer-IsChain before v l chain is_l first) is_ks others)))
