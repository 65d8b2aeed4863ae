-- ===== src/Preservation/Lasting.antt =====
-- A record that is preserved stays so under the renewals of omega_evidence/preservation.py.
use omega_evidence.Base.{Option, some, List, [], ◌∷◌, ◌++◌, ◌≡◌, refl, sym, ap, ◌∙◌}
use omega_evidence.Base.Text.{Text, codes, ◌===◌}
use omega_evidence.Base.Result.{ok, ◌>>=◌, after, ok-injective}
use omega_evidence.Value.{Value, Fields, str, list, dict}
use omega_evidence.Ledger.Chain.{get}
use omega_evidence.Chip.Classes.{put}
use omega_evidence.Verifier.Checks.{File}
use omega_evidence.Preservation.Tree.{Platform, or_refused, leaves_of, merkle_root, hnew}
use omega_evidence.Preservation.Record.{at_key, as_dict, as_list, iterated, declared, items, last}
use omega_evidence.Preservation.Renewal.{
  prev_binding, chain_binding, timestamp_entry, tree_entry, append_entry, add_one, check_packs,
  renew_timestamp, renew_hash_tree,
}
use omega_evidence.Preservation.Check.{stated}
use omega_evidence.Preservation.Bound.{IsChain, renews_time, renews_tree, at_key-ok, or_refused-ok}
use omega_evidence.Preservation.Sound.{IsTimed, IsPreserved}
use omega_evidence.Preservation.Sealing.{IsSealed, finalize-IsSealed, get-put, get-put_other}
use omega_evidence.Preservation.Built.{
  IsHonest, values-items, as_list-iterated, entries_at-some, declared-stated, stamped-IsTimed,
  AllTimed-snoc, covers_root, covers_binding,
}

module _ (p : Platform) where
  found_entries :
      (files : Option (List File)) (r : Fields) (found : Value) (ats : List Value)
      (before : IsPreserved p r files)
      → get (codes "archive_timestamps") r ≡ some found
      → as_list found ≡ ok ats
      → ats ≡ before.entries
  found_entries files r found ats before e l =
      ok-injective
        (sym (entries_at-some _ found ats e (as_list-iterated found ats l)) ∙ before.holds_entries)

  found_packs :
      (files : Option (List File)) (r : Fields) (given : Value) (objs packs : List Value)
      (before : IsPreserved p r files)
      → get (codes "data_objects") r ≡ some given
      → iterated given ≡ ok objs
      → declared objs ≡ ok packs
      → packs ≡ before.packs
  found_packs files r given objs packs before e l d =
      let same_objs : objs ≡ before.objects =
        ok-injective (sym (entries_at-some _ given objs e l) ∙ before.holds_objects) in
      ok-injective
        (sym (declared-stated objs packs d) ∙ ap (λ o. stated o) same_objs ∙ before.states)

  -- A record with one more entry, of which the chain and the time are right.
  appended-IsPreserved :
      (files : Option (List File)) (r sealed : Fields) (ats : List Value) (d : Fields)
      (before : IsPreserved p r files)
      → ats ≡ before.entries
      → IsChain p before.packs (ats ++ (dict d ∷ []))
      → IsTimed p (dict d)
      → append_entry p ats d r ≡ ok sealed
      → IsPreserved p sealed files
  unfolding append_entry ◌===◌
  appended-IsPreserved files r sealed ats d before e chain timed h =
      let entries = list (items (ats ++ (dict d ∷ []))) in
      let grown = put (codes "archive_timestamps") entries r in
      let s : IsSealed p grown sealed = finalize-IsSealed p grown sealed h in
      record {
        hash = s.hash;
        entries = ats ++ (dict d ∷ []);
        objects = before.objects;
        packs = before.packs;
        hashed = s.hashed;
        holds_hash = s.holds_hash;
        holds_entries =
            rw
              (
                s.keeps (codes "archive_timestamps") refl,
                get-put (codes "archive_timestamps") entries r,
                values-items (ats ++ (dict d ∷ [])),
              )
              refl;
        holds_objects =
            rw
              (
                s.keeps (codes "data_objects") refl,
                get-put_other (codes "archive_timestamps") (codes "data_objects") entries r refl,
              )
              before.holds_objects;
        states = before.states;
        bound = before.bound;
        chain = chain;
        times = AllTimed-snoc p ats (dict d) (rw e before.times) timed;
      }

  pub renew_timestamp-IsPreserved :
      (files : Option (List File)) (r : Fields) (tsa : Option (Text → Fields))
      (stamped created : Text) (renewed : Fields)
      → IsPreserved p r files
      → IsHonest p tsa
      → renew_timestamp p r tsa stamped created ≡ ok renewed
      → IsPreserved p renewed files
  unfolding renew_timestamp timestamp_entry get ◌===◌
  renew_timestamp-IsPreserved files r tsa stamped created renewed before honest h =
      after (at_key (codes "archive_timestamps") r) h (λ found is_found h1.
        after (as_list found) h1 (λ ats is_ats h2.
          after (or_refused (last ats)) h2 (λ prev is_prev h3.
            after (as_dict prev) h3 (λ pd is_pd h4.
              after (at_key (codes "hash_alg") pd) h4 (λ alg is_alg h5.
                after (prev_binding p prev alg) h5 (λ binding is_binding h6.
                  after (at_key (codes "seq") pd) h6 (λ n is_n h7.
                    after (add_one p n) h7 (λ seq is_seq h8.
                      let d = timestamp_entry p seq alg binding tsa stamped created in
                      let e =
                        found_entries files r found ats before (at_key-ok _ r found is_found)
                          is_ats in
                      appended-IsPreserved files r renewed ats d before e
                        (renews_time ats d (rw e before.chain) record {
                          prev = prev;
                          alg = alg;
                          binding = binding;
                          names_hash = refl;
                          says_so = refl;
                          newest = or_refused-ok _ prev is_prev;
                          binds = is_binding;
                          holds = refl;
                        })
                        (stamped-IsTimed p d binding tsa stamped honest refl
                          (covers_binding p d binding refl refl))
                        h8))))))))

  pub renew_hash_tree-IsPreserved :
      (files : Option (List File)) (r : Fields) (named : Option (List File)) (new_alg : Text)
      (tsa : Option (Text → Fields)) (stamped created : Text) (renewed : Fields)
      → IsPreserved p r files
      → IsHonest p tsa
      → renew_hash_tree p r named new_alg tsa stamped created ≡ ok renewed
      → IsPreserved p renewed files
  unfolding renew_hash_tree tree_entry get ◌===◌
  renew_hash_tree-IsPreserved files r named new_alg tsa stamped created renewed before honest h =
      after (hnew (str new_alg)) h (λ supported is_supported h1.
        after (at_key (codes "archive_timestamps") r) h1 (λ found is_found h2.
          after (as_list found) h2 (λ ats is_ats h3.
            after (or_refused (last ats)) h3 (λ prev is_prev h4.
              after (at_key (codes "data_objects") r) h4 (λ given is_given h5.
                after (iterated given) h5 (λ objs is_objs h6.
                  after (declared objs) h6 (λ packs is_packs h7.
                    after (check_packs p named packs) h7 (λ checked is_checked h8.
                      after (leaves_of p packs (str new_alg)) h8 (λ leaves is_leaves h9.
                        by_tree ats packs leaves prev
                          (found_entries files r found ats before (at_key-ok _ r found is_found)
                            is_ats)
                          (found_packs files r given objs packs before
                            (at_key-ok _ r given is_given) is_objs is_packs)
                          is_leaves h9)))))))))
    where
      by_tree :
          (ats packs : List Value) (leaves : List Text) (prev : Value)
          → ats ≡ before.entries
          → packs ≡ before.packs
          → leaves_of p packs (str new_alg) ≡ ok leaves
          → (do
            binding ← chain_binding p ats (str new_alg)
            root ← merkle_root p (leaves ++ (binding ∷ [])) (str new_alg)
            d ← as_dict prev
            n ← at_key (codes "seq") d
            seq ← add_one p n
            append_entry p ats
                (tree_entry p seq
                  (str new_alg)
                  (leaves ++ (binding ∷ []))
                  root
                  binding
                  tsa
                  stamped
                  created)
                r)
            ≡ ok renewed
          → IsPreserved p renewed files
      by_tree ats packs leaves prev e f is_leaves k =
          after (chain_binding p ats (str new_alg)) k (λ binding is_binding k1.
            after (merkle_root p (leaves ++ (binding ∷ [])) (str new_alg)) k1 (λ root is_root k2.
              after (as_dict prev) k2 (λ pd is_pd k3.
                after (at_key (codes "seq") pd) k3 (λ n is_n k4.
                  after (add_one p n) k4 (λ seq is_seq k5.
                    let d =
                      tree_entry p seq (str new_alg) (leaves ++ (binding ∷ [])) root binding tsa
                        stamped created in
                    appended-IsPreserved files r renewed ats d before e
                      (renews_tree ats d (rw e before.chain) record {
                        alg = str new_alg;
                        leaves = leaves;
                        binding = binding;
                        root = root;
                        names_hash = refl;
                        says_so = refl;
                        digests = ap (λ v. leaves_of p v (str new_alg)) (sym f) ∙ is_leaves;
                        binds = is_binding;
                        computes = is_root;
                        holds_binding = refl;
                        holds_leaves = refl;
                        holds_root = refl;
                      })
                      (stamped-IsTimed p d root tsa stamped honest refl
                        (covers_root p d root refl refl))
                      k5)))))
