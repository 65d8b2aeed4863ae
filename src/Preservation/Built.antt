-- ===== src/Preservation/Built.antt =====
-- A record that `build_evidence_record` of omega_evidence/preservation.py returns is preserved.
use omega_evidence.Base.{
  Bool, true, false, Option, none, some, List, [], ◌∷◌, ◌++◌, ◌≡◌, ◌≢◌, refl, ap, inl, inr,
  Bool-cases, and-both,
}
use omega_evidence.Base.Text.{Text, codes, ◌===◌, ===_refl}
use omega_evidence.Base.Result.{ok, after, raised}
use omega_evidence.Base.Utf8.{encode}
use omega_evidence.Value.{Value, Fields, str, list, dict}
use omega_evidence.Ledger.Chain.{get, is_text}
use omega_evidence.Verifier.Checks.{File, or_empty}
use omega_evidence.Preservation.Tree.{
  Platform, refused, or_refused, leaves_of, merkle_root, digest_of,
}
use omega_evidence.Value.{truth}
use omega_evidence.Preservation.Record.{
  at_key, as_dict, as_list, iterated, declared, values, items, objects, same, same_all,
  pack_sha3_all, has, timestamp_root, initial_entry, new_record, honest_scope,
  build_evidence_record,
}
use omega_evidence.Preservation.Check.{entries_at, stated, token_of, covered}
use omega_evidence.Preservation.Bound.{starts, at_key-ok}
use omega_evidence.Preservation.Sound.{IsTimed, asserted, with_token, AllTimed, IsPreserved}
use omega_evidence.Preservation.Sealing.{IsSealed, finalize-IsSealed}

pub values-items : (vs : List Value) → values (items vs) ≡ vs
values-items [] = refl
values-items (v ∷ vs) = ap (λ u. v ∷ u) (values-items vs)

pub as_list-iterated : (v : Value) (vs : List Value) → as_list v ≡ ok vs → iterated v ≡ ok vs
as_list-iterated (list us) vs h = h
as_list-iterated _ vs h = absurd (raised refused vs h)

pub entries_at-some :
    (o : Option Value) (v : Value) (vs : List Value)
    → o ≡ some v
    → iterated v ≡ ok vs
    → entries_at o ≡ ok vs
entries_at-some o v vs e h = rw e h

pub stated-objects : (vs : List Value) → stated (values (objects vs)) ≡ ok vs
unfolding stated get ◌===◌
stated-objects [] = refl
stated-objects (v ∷ vs) = rw (stated-objects vs) refl

pub declared-stated : (vs ss : List Value) → declared vs ≡ ok ss → stated vs ≡ ok ss
unfolding declared stated
declared-stated [] ss h = h
declared-stated (v ∷ vs) ss h = after (as_dict v) h (λ d is_d h1.
    after (at_key (codes "pack_sha3") d) h1 (λ s is_s h2.
      after (declared vs) h2
        (λ us is_us h3. rw (is_d, at_key-ok _ d s is_s, declared-stated vs us is_us) h3)))

module _ (p : Platform) where
  -- What `stamp` replies for a text that it anchors is a token that timestamp.verify, asked about
  -- that text, does not refuse.
  abbrev pub IsHonest : Option (Text → Fields) → Type 0
  IsHonest none = Unit
  IsHonest (some stamp) =
      (root : Text)
      → has p (get (codes "anchored") (stamp root)) ≡ true
      → (tok : Text) × (answer : Option Bool) × (token_of
            (some (or_empty (get (codes "tsr_b64") (stamp root))))
          ≡ some tok)
        × (p.ts_verify tok (str root) ≡ ok answer)
        × (answer ≢ some false)

  -- The entry covers this text.
  pub stamped-IsTimed :
      (d : Fields) (text : Text) (tsa : Option (Text → Fields)) (now : Text)
      → IsHonest tsa
      → get (codes "timestamp") d ≡ some (dict (timestamp_root p text tsa now))
      → covered p d ≡ str text
      → IsTimed p (dict d)
  unfolding timestamp_root get is_text ◌===◌
  stamped-IsTimed d text none now h e c =
      asserted d (timestamp_root p text none now) (rw e refl) refl
  stamped-IsTimed d text (some stamp) now h e c =
      elim (Bool-cases (has p (get (codes "anchored") (stamp text)))) [
        | inl t ↦ granted t (h text t)
        | inr f ↦ asserted d (timestamp_root p text (some stamp) now) (rw e refl) (rw f refl)
      ]
    where
      granted :
          has p (get (codes "anchored") (stamp text)) ≡ true
          → (tok : Text) × (answer : Option Bool) × (token_of
                (some (or_empty (get (codes "tsr_b64") (stamp text))))
              ≡ some tok)
            × (p.ts_verify tok (str text) ≡ ok answer)
            × (answer ≢ some false)
          → IsTimed p (dict d)
      granted t (tok, answer, is_tok, answers, good) =
          with_token d (timestamp_root p text (some stamp) now) tok answer (rw e refl) (rw t is_tok)
            (rw c answers) good

  pub leaves_of-same :
      (vs : List Value) (alg : Value) (ls : List Text)
      → leaves_of p vs alg ≡ ok ls
      → same_all p vs vs ≡ true
  unfolding leaves_of same_all same
  leaves_of-same [] alg ls h = refl
  leaves_of-same (str s ∷ vs) alg ls h = after (or_refused (encode s)) h (λ b is_b h1.
      after (digest_of p alg b) h1 (λ d is_d h2.
        after (leaves_of p vs alg) h2
          (λ ds is_ds h3. and-both (===_refl s) (leaves_of-same vs alg ds is_ds))))
  leaves_of-same (_ ∷ vs) alg ls h = absurd (raised refused ls h)

  pub AllTimed-snoc :
      (vs : List Value) (v : Value) → AllTimed p vs → IsTimed p v → AllTimed p (vs ++ (v ∷ []))
  AllTimed-snoc [] v h t = (t, tt)
  AllTimed-snoc (w ∷ vs) v h t = (h.0, AllTimed-snoc vs v h.1 t)

  -- The text is what the entry covers, the empty text too.
  pub covers_root :
      (d : Fields) (root : Text)
      → get (codes "merkle_root") d ≡ some (str root)
      → get (codes "prev_binding") d ≡ none
      → covered p d ≡ str root
  unfolding covered truth
  covers_root d [] e f = rw (e, f) refl
  covers_root d (c ∷ t) e f = rw e refl

  pub covers_binding :
      (d : Fields) (binding : Text)
      → get (codes "merkle_root") d ≡ none
      → get (codes "prev_binding") d ≡ some (str binding)
      → covered p d ≡ str binding
  unfolding covered truth
  covers_binding d [] e f = rw (e, f) refl
  covers_binding d (c ∷ t) e f = rw (e, f) refl

  initial_entry-IsTimed :
      (alg : Text) (leaves : List Text) (root : Text) (tsa : Option (Text → Fields))
      (stamped created : Text)
      → IsHonest tsa
      → IsTimed p (dict (initial_entry p alg leaves root tsa stamped created))
  unfolding initial_entry get ◌===◌
  initial_entry-IsTimed alg leaves root tsa stamped created h =
      let d = initial_entry p alg leaves root tsa stamped created in
      stamped-IsTimed d root tsa stamped h refl (covers_root d root refl refl)

  pub build-IsPreserved :
      (files : List File) (tsa : Option (Text → Fields)) (alg stamped created : Text) (r : Fields)
      → IsHonest tsa
      → build_evidence_record p files tsa alg stamped created ≡ ok r
      → IsPreserved p r (some files)
  unfolding build_evidence_record new_record initial_entry get ◌===◌
  build-IsPreserved files tsa alg stamped created r honest h =
      after (pack_sha3_all p files) h (λ packs is_packs h1.
        after (leaves_of p packs (str alg)) h1 (λ leaves is_leaves h2.
          after (merkle_root p leaves (str alg)) h2 (λ root is_root h3.
            let entry = initial_entry p alg leaves root tsa stamped created in
            let s : IsSealed p (new_record honest_scope packs entry) r =
              finalize-IsSealed p (new_record honest_scope packs entry) r h3 in
            record {
              hash = s.hash;
              entries = dict entry ∷ [];
              objects = values (objects packs);
              packs = packs;
              hashed = s.hashed;
              holds_hash = s.holds_hash;
              holds_entries = rw (s.keeps (codes "archive_timestamps") refl) refl;
              holds_objects = rw (s.keeps (codes "data_objects") refl) refl;
              states = stated-objects packs;
              bound = (packs, is_packs, leaves_of-same packs (str alg) leaves is_leaves);
              chain = starts entry record {
                alg = str alg;
                leaves = leaves;
                root = root;
                names_hash = refl;
                digests = is_leaves;
                computes = is_root;
                holds_root = refl;
                holds_leaves = refl;
              };
              times = (initial_entry-IsTimed alg leaves root tsa stamped created honest, tt);
            })))
