-- ===== src/Preservation/Passing.antt =====
-- A record that is what it has to be passes `verify_evidence_record` of omega_evidence/preservation.py.
use omega_evidence.Base.{
  ℕ, suc, true, Option, none, some, List, [], ◌∷◌, ◌++◌, ◌≡◌, ◌↔◌, refl, inl, inr, Bool-cases,
}
use omega_evidence.Base.Text.{codes}
use omega_evidence.Base.Result.{ok}
use omega_evidence.Value.{Value, Fields, dict}
use omega_evidence.Ledger.Chain.{get, is_text}
use omega_evidence.Ledger.Spec.{is_text_self}
use omega_evidence.Verifier.Checks.{File}
use omega_evidence.Preservation.Tree.{Platform}
use omega_evidence.Preservation.Check.{
  Layer, add, add_skipped, LayerName, none_failed, verdict, Verdict, time_layers, time_layer,
  token_layer, all_layers, verify_evidence_record, answered, bound_layer, time_asserted,
  data_objects_bound, record_sha3, has_archive_timestamps,
}
use omega_evidence.Preservation.Bound.{Stands}
use omega_evidence.Preservation.Sound.{
  IsTimed, asserted, with_token, AllTimed, AreBound, IsPreserved, valid-IsPreserved,
}
use omega_evidence.Preservation.Complete.{
  none_failed-joined, none_failed_none, add-true-Stands, skipped-Stands, answered-Stands, Passes,
  chain-Passes,
}

module _ (p : Platform) where
  time_layer-passes :
      (i : ℕ) (v : Value) → IsTimed p v → (l : Layer) × (time_layer p i v ≡ ok l) × Stands l
  unfolding time_layer token_layer
  time_layer-passes i _ (asserted d ts is_ts other) =
      (add_skipped (time_asserted i), rw (is_ts, other) refl, skipped-Stands _)
  time_layer-passes i _ (with_token d ts tok a is_ts t is_a n) =
      elim (Bool-cases (is_text (get (codes "time_source") ts) (codes "rfc3161"))) [
        | inr other ↦ (add_skipped (time_asserted i), rw (is_ts, other) refl, skipped-Stands _)
        | inl claims ↦ (answered i a, rw (is_ts, claims, t, is_a) refl, answered-Stands i a n)
      ]

  time_layers-pass : (i : ℕ) (vs : List Value) → AllTimed p vs → Passes (time_layers p i vs)
  unfolding time_layers
  time_layers-pass i [] h = ([], refl, none_failed_none)
  time_layers-pass i (v ∷ vs) (h, k) =
      let (l, is_l, s) = time_layer-passes i v h in
      let (ls, is_ls, n) = time_layers-pass (suc i) vs k in
      (l ∷ ls, rw (is_l, is_ls) refl, none_failed-joined (l ∷ []) ls s n)

  bound_layer-passes :
      (files : Option (List File)) (packs : List Value)
      → AreBound p files packs
      → none_failed (bound_layer p files packs) ≡ true
  unfolding bound_layer
  bound_layer-passes none packs h = none_failed_none
  bound_layer-passes (some files) packs (found, read, equal) =
      rw (read, bound_layer) (rw equal (add-true-Stands data_objects_bound))

  all_layers-pass :
      (r : Fields) (files : Option (List File))
      → IsPreserved p r files
      → (ls : List Layer) × (all_layers p r files ≡ ok (add record_sha3 true ∷ ls))
        × (none_failed ls ≡ true)
  unfolding all_layers
  all_layers-pass r files i =
      let (some_entry, (first, is_first, s1), (chain, is_chain, s2)) =
        chain-Passes p i.packs i.entries i.chain in
      let (times, is_times, s3) = time_layers-pass 0 i.entries i.times in
      let bound = bound_layer p files i.packs in
      (
        add has_archive_timestamps true ∷ (bound ++ first ++ chain ++ times),
        rw
            (
              i.hashed,
              i.holds_entries,
              i.holds_objects,
              i.states,
              is_first,
              is_chain,
              is_times,
              i.holds_hash,
              is_text_self i.hash,
              some_entry,
            )
            refl,
        none_failed-joined (add has_archive_timestamps true ∷ []) (bound ++ first ++ chain ++ times)
            (add-true-Stands has_archive_timestamps)
            (none_failed-joined (bound ++ first ++ chain) times
              (none_failed-joined (bound ++ first) chain
                (none_failed-joined bound first (bound_layer-passes files i.packs i.bound) s1) s2)
              s3),
      )

  verdict-valid :
      (n : LayerName) (ls : List Layer)
      → none_failed ls ≡ true
      → (verdict (add n true ∷ ls)).valid ≡ true
  unfolding verdict none_failed
  verdict-valid n ls h = h

  pub IsPreserved-valid :
      (r : Fields) (files : Option (List File))
      → IsPreserved p r files
      → (answer : Verdict) × (verify_evidence_record p (dict r) files ≡ ok answer)
        × (answer.valid ≡ true)
  unfolding verify_evidence_record
  IsPreserved-valid r files i =
      let (ls, computed, n) = all_layers-pass r files i in
      (verdict (add record_sha3 true ∷ ls), rw computed refl, verdict-valid record_sha3 ls n)

  -- `verify_evidence_record` returns and calls a JSON object valid exactly when it holds the hash
  -- of its own body, its entries are a chain, the packs that were named are its data objects, and
  -- each time is asserted or has a token that timestamp.verify does not refuse. In a chain the
  -- first entry holds the digests of the data objects and the root of their tree, and each later
  -- one binds the entry before it, or else the data objects and all the entries before it.
  pub verify_evidence_record_iff :
      (r : Fields) (files : Option (List File))
      → ((answer : Verdict) × (verify_evidence_record p (dict r) files ≡ ok answer)
          × (answer.valid ≡ true))
        ↔ IsPreserved p r files
  verify_evidence_record_iff r files =
      (λ (answer, h, s). valid-IsPreserved p r files answer h s, IsPreserved-valid r files)
