-- ===== src/Verifier/Overclaims.antt =====
-- What the two searches of `_honest_scope_declares_limit` of omega_evidence/pack.py for a claim, and
-- for its denial, mean; and so what the scope of a pack that passes says.
use omega_evidence.Base.{
  ℕ, zero, suc, ◌≤◌, Bool, true, false, not, ◌&&◌, Option, none, some, List, [], ◌∷◌, ◌++◌, ◌≡◌,
  ◌≢◌, ◌⊎◌, refl, arith, inl, inr, ◌==◌, Bool-cases, and-parts, untrue, ap, sym, ◌∙◌, length,
}
use omega_evidence.Base.Text.{Text, codes, ◌===◌, ===_iff, ===_refl, in_list}
use omega_evidence.Value.{Value, str}
use omega_evidence.Verifier.Scope.{
  is_word, at_end, behind, found, word_here, has_word, any_word, any_stem, stem_within, stem_behind,
  has_negated, overclaims, stems, declares_limit,
}
use omega_evidence.Verifier.Limits.{
  cased, ends_in_word, Stands, Begins, behind-Begins, word_here-Begins, has_word-Stands,
  has_word-found, found-some, or_true,
}

unfoldable pub no_stop : Text → Bool
no_stop [] = true
no_stop (c ∷ t) = not (c == 46) && no_stop t

-- One of the stems, at most n characters on and in the same sentence.
pub record Follows (n : ℕ) (ws : List Text) (t : Text) : Type 0 where
  pub gap : Text
  pub stem : Text
  pub after : Text
  pub splits : t ≡ gap ++ (stem ++ after)
  pub near : length gap ≤ n
  pub same_sentence : no_stop gap ≡ true
  pub is_stem : in_list (cased true stem) ws ≡ true

-- A "not", in any case, that stands as a word of its own, with a stem behind it.
pub record Denies (b : Bool) (ws : List Text) (t : Text) : Type 0 where
  pub before : Text
  pub written : Text
  pub after : Text
  pub splits : t ≡ before ++ (written ++ after)
  pub spelled : cased true written ≡ codes "not"
  pub starts : ends_in_word b before ≡ false
  pub ends : at_end after ≡ true
  pub follows : Follows 40 ws after

any_stem-Follows : (n : ℕ) (ws : List Text) (t : Text) → any_stem ws t ≡ true → Follows n ws t
unfolding any_stem in_list no_stop
any_stem-Follows n [] t e = untrue e
any_stem-Follows n (w ∷ ws) t e = elim (Bool-cases (found (behind true w t))) [
  | inl here ↦
      let (rest, is_here) = found-some (behind true w t) here in
      let b : Begins true w t rest = behind-Begins true w t rest is_here in
      record {
        gap = [];
        stem = b.start;
        after = rest;
        splits = b.splits;
        near = omega arith;
        same_sentence = refl;
        is_stem = rw b.spelled (rw (===_refl w) refl);
      }
  | inr other ↦
      let f : Follows n ws t = any_stem-Follows n ws t (rw other at e) in
      record {
        gap = f.gap;
        stem = f.stem;
        after = f.after;
        splits = f.splits;
        near = f.near;
        same_sentence = f.same_sentence;
        is_stem = rw f.is_stem (or_true _);
      }
]

stem_within-Follows :
    (n : ℕ) (ws : List Text) (t : Text) → stem_within n ws t ≡ true → Follows n ws t
unfolding stem_within no_stop
stem_within-Follows n ws [] e = untrue e
stem_within-Follows zero ws (c ∷ t) e = any_stem-Follows 0 ws (c ∷ t) e
stem_within-Follows (suc n) ws (c ∷ t) e = elim (Bool-cases (any_stem ws (c ∷ t))) [
  | inl here ↦ any_stem-Follows (suc n) ws (c ∷ t) here
  | inr later ↦
      let (no_dot, rest) = and-parts (not (c == 46)) (stem_within n ws t) (rw later at e) in
      let f : Follows n ws t = stem_within-Follows n ws t rest in
      record {
        gap = c ∷ f.gap;
        stem = f.stem;
        after = f.after;
        splits = ap (λ u. c ∷ u) f.splits;
        near = omega (arith, f.near);
        same_sentence = rw no_dot f.same_sentence;
        is_stem = f.is_stem;
      }
]

stem_behind-Follows :
    (ws : List Text) (o : Option Text)
    → stem_behind ws o ≡ true
    → (t : Text) × (o ≡ some t) × Follows 40 ws t
stem_behind-Follows ws none e = untrue e
stem_behind-Follows ws (some t) e = (t, refl, stem_within-Follows 40 ws t e)

has_negated-Denies :
    (b : Bool) (ws : List Text) (t : Text) → has_negated b ws t ≡ true → Denies b ws t
unfolding has_negated ends_in_word
has_negated-Denies b ws [] e = untrue e
has_negated-Denies b ws (c ∷ t) e =
    elim (Bool-cases (stem_behind ws (word_here true b (codes "not") (c ∷ t)))) [
      | inl here ↦
          let (rest, is_here, f) = stem_behind-Follows ws _ here in
          let (free, begun, ends) = word_here-Begins true b (codes "not") (c ∷ t) rest is_here in
          record {
            before = [];
            written = begun.start;
            after = rest;
            splits = begun.splits;
            spelled = begun.spelled;
            starts = free;
            ends = ends;
            follows = f;
          }
      | inr later ↦
          let d : Denies (is_word c) ws t = has_negated-Denies (is_word c) ws t (rw later at e) in
          record {
            before = c ∷ d.before;
            written = d.written;
            after = d.after;
            splits = ap (λ u. c ∷ u) d.splits;
            spelled = d.spelled;
            starts = d.starts;
            ends = d.ends;
            follows = d.follows;
          }
    ]

any_word-has_word :
    (ws : List Text) (w t : Text)
    → in_list w ws ≡ true
    → has_word true false w t ≡ true
    → any_word ws t ≡ true
unfolding any_word in_list
any_word-has_word [] w t i e = untrue i
any_word-has_word (v ∷ ws) w t i e = ground (arith, ===_iff w v, any_word-has_word ws w t)

-- No claim of the list stands in t as a word of its own.
abbrev pub NoClaim : Text → Type 0
NoClaim t = (w : Text) → in_list w overclaims ≡ true → ¬ (Stands true false w t)

-- The scope is a text with a "NOT" of its own, and a claim in it is denied.
pub record IsLimited (scope : Option Value) : Type 0 where
  pub text : Text
  pub is_text : scope ≡ some (str text)
  pub says_not : Stands false false (codes "NOT") text
  pub denied : NoClaim text ⊎ Denies false stems text

no_empty_claim : (w : Text) → w ≡ [] → in_list w overclaims ≡ false
unfolding in_list ◌===◌
no_empty_claim [] e = refl
no_empty_claim (c ∷ w) e = absurd (not_nil e)
  where
    not_nil : c ∷ w ≢ []
    not_nil = cc

Stands-has_word :
    (w t : Text)
    → in_list w overclaims ≡ true
    → Stands true false w t
    → has_word true false w t ≡ true
unfolding cased
Stands-has_word w t i s = written_found s.written s.spelled s.splits
  where
    written_found :
        (m : Text)
        → cased true m ≡ w
        → t ≡ s.before ++ (m ++ s.after)
        → has_word true false w t ≡ true
    written_found [] spelled splits = untrue (sym (no_empty_claim w (sym spelled)) ∙ i)
    written_found (c ∷ m) spelled splits =
        rw (sym spelled, splits) (has_word-found true false s.before c m s.after s.starts s.ends)

no_claim : (t : Text) → any_word overclaims t ≡ false → NoClaim t
no_claim t e w i s = untrue (sym e ∙ any_word-has_word overclaims w t i (Stands-has_word w t i s))

denied_or_none :
    (t : Text)
    → not (any_word overclaims t && not (has_negated false stems t)) ≡ true
    → NoClaim t ⊎ Denies false stems t
denied_or_none t e = elim (Bool-cases (has_negated false stems t)) [
  | inl denied ↦ inr (has_negated-Denies false stems t denied)
  | inr plain ↦ elim (Bool-cases (any_word overclaims t)) [
    | inr none_there ↦ inl (no_claim t none_there)
    | inl claimed ↦ untrue (rw (claimed, plain) at e)
  ]
]

pub declares_limit-IsLimited : (o : Option Value) → declares_limit o ≡ true → IsLimited o
unfolding declares_limit
declares_limit-IsLimited (some (str t)) e =
    let (says, fair) = and-parts (has_word false false (codes "NOT") t) _ e in
    record {
      text = t;
      is_text = refl;
      says_not = has_word-Stands false false (codes "NOT") t says;
      denied = denied_or_none t fair;
    }
declares_limit-IsLimited none e = untrue e
declares_limit-IsLimited (some _) e = untrue e
