-- ===== src/Preservation/Sound.antt =====
-- What a `valid` verdict of `verify_evidence_record` shows, of omega_evidence/preservation.py.
use omega_evidence.Base.{
  ℕ, suc, Bool, true, false, Option, none, some, List, [], ◌∷◌, ◌++◌, ◌≡◌, ◌≢◌, refl, sym, ap, ◌∙◌,
  inl, inr, if◌then◌else◌, Bool-cases, if-true, untrue, and-parts,
}
use omega_evidence.Base.Text.{Text, codes}
use omega_evidence.Base.Result.{Result, ok, err, after, ok-injective, raised, Result-cases}
use omega_evidence.Base.Maybe.{is_some, some-injective}
use omega_evidence.Value.{Value, Fields, str, dict}
use omega_evidence.Ledger.Chain.{get, is_text}
use omega_evidence.Verifier.Checks.{File}
use omega_evidence.Preservation.Tree.{Platform, Stop, refused, check_not_run}
use omega_evidence.Preservation.Record.{as_dict, pack_sha3_all, same_all}
use omega_evidence.Preservation.Check.{
  Layer, add_skipped, none_failed, verdict, Verdict, hash_of, entries_at, stated, initial_layers,
  chain_layers, time_layers, time_layer, token_layer, token_of, stamp_of, covered, all_layers,
  verify_evidence_record, not_empty, answered, caught, data_objects_bound, time_rfc3161,
  time_asserted, record_sha3, has_archive_timestamps, initial_layer, bound_layer,
}
use omega_evidence.Preservation.Bound.{
  Stands, add-Stands, add-ok-Stands, none_failed-cons, none_failed-append, IsChain, starts,
  as_dict-ok, is_text-eq,
}
use omega_evidence.Preservation.Chained.{initial_layer-IsInitial, renewal_layers-IsChain}

module _ (p : Platform) where
  -- The time of an entry is asserted, or it has a token that timestamp.verify does not refuse.
  pub data IsTimed : Value → Type 0 where
    asserted :
        (d ts : Fields)
        → stamp_of (get (codes "timestamp") d) ≡ ok ts
        → is_text (get (codes "time_source") ts) (codes "rfc3161") ≡ false
        → IsTimed (dict d)
    with_token :
        (d ts : Fields) (tok : Text) (answer : Option Bool)
        → stamp_of (get (codes "timestamp") d) ≡ ok ts
        → token_of (get (codes "tsr_b64") ts) ≡ some tok
        → p.ts_verify tok (covered p d) ≡ ok answer
        → answer ≢ some false
        → IsTimed (dict d)

  abbrev pub AllTimed : List Value → Type 0
  AllTimed [] = Unit
  AllTimed (v ∷ vs) = IsTimed v × AllTimed vs

  -- The packs named are the data objects of the record.
  abbrev pub AreBound : Option (List File) → List Value → Type 0
  AreBound none packs = Unit
  AreBound (some files) packs =
      (found : List Value) × (pack_sha3_all p files ≡ ok found) × (same_all p found packs ≡ true)

  -- What an evidence record has to be.
  pub record IsPreserved (r : Fields) (files : Option (List File)) : Type 0 where
    pub hash : Text
    pub entries : List Value
    pub objects : List Value
    pub packs : List Value
    pub hashed : hash_of p r ≡ ok hash
    pub holds_hash : get (codes "record_sha3") r ≡ some (str hash)
    pub holds_entries : entries_at (get (codes "archive_timestamps") r) ≡ ok entries
    pub holds_objects : entries_at (get (codes "data_objects") r) ≡ ok objects
    pub states : stated objects ≡ ok packs
    pub bound : AreBound files packs
    pub chain : IsChain p packs entries
    pub times : AllTimed entries

  bound_layer-AreBound :
      (files : Option (List File)) (packs : List Value)
      → none_failed (bound_layer p files packs) ≡ true
      → AreBound files packs
  unfolding bound_layer
  bound_layer-AreBound none packs h = tt
  bound_layer-AreBound (some files) packs h = elim (Result-cases (pack_sha3_all p files)) [
    | inl (e, raised) ↦
        untrue (add-Stands data_objects_bound false (sym (rw (raised, bound_layer) refl) ∙ h))
    | inr (found, read) ↦
        (found, read, add-Stands data_objects_bound _ (sym (rw (read, bound_layer) refl) ∙ h))
  ]

  chain_layers-IsChain :
      (packs ats : List Value) (first chain : List Layer)
      → not_empty ats ≡ true
      → initial_layers p packs ats ≡ ok first
      → chain_layers p packs ats ≡ ok chain
      → none_failed first ≡ true
      → none_failed chain ≡ true
      → IsChain p packs ats
  unfolding initial_layers chain_layers
  chain_layers-IsChain packs [] first chain n f c x y = untrue n
  chain_layers-IsChain packs (a0 ∷ ats) first chain n f c x y =
      after (initial_layer p packs a0) f (λ l is_l g.
        let (d, is_d, initial) =
          initial_layer-IsInitial p packs a0 l is_l (ap none_failed (ok-injective g) ∙ x) in
        renewal_layers-IsChain p packs (a0 ∷ []) ats chain (rw is_d (starts d initial)) c y)

  time_layer-IsTimed :
      (i : ℕ) (v : Value) (l : Layer) → time_layer p i v ≡ ok l → Stands l → IsTimed v
  unfolding time_layer token_layer
  time_layer-IsTimed i v l h s = after (as_dict v) h (λ d is_d h1.
      after (stamp_of (get (codes "timestamp") d)) h1
        (λ ts is_ts h2. rw (as_dict-ok v d is_d) (by_source d ts is_ts h2)))
    where
      answer_stands :
          (a : Option Bool) (k : Layer)
          → ◌≡◌ {A = Result Stop Layer} (ok (answered i a)) (ok k)
          → Stands k
          → a ≢ some false
      answer_stands none k e w x = untrue (ap is_some x)
      answer_stands (some b) k e w x =
          untrue (sym (some-injective x) ∙ add-ok-Stands (time_rfc3161 i) b e w)

      by_token :
          (d ts : Fields) (o : Option Text)
          → stamp_of (get (codes "timestamp") d) ≡ ok ts
          → token_of (get (codes "tsr_b64") ts) ≡ o
          → token_layer p i d o ≡ ok l
          → IsTimed (dict d)
      by_token d ts none is_ts t e = untrue (add-ok-Stands (time_rfc3161 i) false e s)
      by_token d ts (some tok) is_ts t e =
          after (p.ts_verify tok (covered p d)) e
            (λ a is_a e1. with_token d ts tok a is_ts t is_a (answer_stands a l e1 s))

      by_source :
          (d ts : Fields)
          → stamp_of (get (codes "timestamp") d) ≡ ok ts
          → (if is_text (get (codes "time_source") ts) (codes "rfc3161")
              then token_layer p i d (token_of (get (codes "tsr_b64") ts))
              else ok (add_skipped (time_asserted i)))
            ≡ ok l
          → IsTimed (dict d)
      by_source d ts is_ts e =
          elim (Bool-cases (is_text (get (codes "time_source") ts) (codes "rfc3161"))) [
            | inr other ↦ asserted d ts is_ts other
            | inl claims ↦
                by_token d ts (token_of (get (codes "tsr_b64") ts)) is_ts refl
                  (sym (if-true _ _ claims) ∙ e)
          ]

  time_layers-AllTimed :
      (i : ℕ) (vs : List Value) (ls : List Layer)
      → time_layers p i vs ≡ ok ls
      → none_failed ls ≡ true
      → AllTimed vs
  unfolding time_layers
  time_layers-AllTimed i [] ls h s = tt
  time_layers-AllTimed i (v ∷ vs) ls h s = after (time_layer p i v) h (λ l is_l h1.
      after (time_layers p (suc i) vs) h1 (λ ks is_ks h2.
        let (first, others) = none_failed-cons l ks (ap none_failed (ok-injective h2) ∙ s) in
        (time_layer-IsTimed i v l is_l first, time_layers-AllTimed (suc i) vs ks is_ks others)))

  all_layers-IsPreserved :
      (r : Fields) (files : Option (List File)) (ls : List Layer)
      → all_layers p r files ≡ ok ls
      → none_failed ls ≡ true
      → IsPreserved r files
  unfolding all_layers
  all_layers-IsPreserved r files ls h s = after (hash_of p r) h (λ hash is_hash h1.
      after (entries_at (get (codes "archive_timestamps") r)) h1 (λ ats is_ats h2.
        after (entries_at (get (codes "data_objects") r)) h2 (λ objs is_objs h3.
          after (stated objs) h3 (λ packs is_packs h4.
            after (initial_layers p packs ats) h4 (λ first is_first h5.
              after (chain_layers p packs ats) h5 (λ chain is_chain h6.
                after (time_layers p 0 ats) h6 (λ times is_times h7.
                  let (own, k1) = none_failed-cons _ _ (ap none_failed (ok-injective h7) ∙ s) in
                  let (some_entry, k2) = none_failed-cons _ _ k1 in
                  let (k3, times_stand) =
                    none_failed-append (bound_layer p files packs ++ first ++ chain) times k2 in
                  let (k4, chain_stands) =
                    none_failed-append (bound_layer p files packs ++ first) chain k3 in
                  let (bound_stands, first_stands) =
                    none_failed-append (bound_layer p files packs) first k4 in
                  record {
                    hash = hash;
                    entries = ats;
                    objects = objs;
                    packs = packs;
                    hashed = is_hash;
                    holds_hash = is_text-eq _ hash (add-Stands record_sha3 _ own);
                    holds_entries = is_ats;
                    holds_objects = is_objs;
                    states = is_packs;
                    bound = bound_layer-AreBound files packs bound_stands;
                    chain =
                        chain_layers-IsChain packs ats first chain
                          (add-Stands has_archive_timestamps _ some_entry) is_first is_chain
                          first_stands chain_stands;
                    times = time_layers-AllTimed 0 ats times is_times times_stand;
                  })))))))

  caught-IsPreserved :
      (r : Fields) (files : Option (List File)) (o : Result Stop (List Layer)) (answer : Verdict)
      → all_layers p r files ≡ o
      → caught o ≡ ok answer
      → answer.valid ≡ true
      → IsPreserved r files
  unfolding verdict
  caught-IsPreserved r files (ok ls) answer e h s =
      all_layers-IsPreserved r files ls e (and-parts _ _ (ap (λ w. w.valid) (ok-injective h) ∙ s)).1
  caught-IsPreserved r files (err refused) answer e h s =
      untrue (ap (λ w. w.valid) (ok-injective h) ∙ s)
  caught-IsPreserved r files (err check_not_run) answer e h s =
      absurd (raised check_not_run answer h)

  pub valid-IsPreserved :
      (r : Fields) (files : Option (List File)) (answer : Verdict)
      → verify_evidence_record p (dict r) files ≡ ok answer
      → answer.valid ≡ true
      → IsPreserved r files
  unfolding verify_evidence_record
  valid-IsPreserved r files answer h s =
      caught-IsPreserved r files (all_layers p r files) answer refl h s
