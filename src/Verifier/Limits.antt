-- ===== src/Verifier/Limits.antt =====
-- What `_honest_scope_declares_limit` of omega_evidence/pack.py finds in a text.
use omega_evidence.Base.{
  ℕ, Bool, true, false, ◌||◌, Option, none, some, [], ◌∷◌, ◌++◌, ◌≡◌, refl, inl, inr, if◌then◌else◌,
  if-true, if-false, Bool-cases, Option-cases, untrue, ap, sym, ◌∙◌, ==_iff,
}
use omega_evidence.Base.Text.{Text}
use omega_evidence.Base.Maybe.{some-injective, nothing}
use omega_evidence.Verifier.Scope.{is_word, lower, same, at_end, behind, found, word_here, has_word}

pub or_true : (b : Bool) → (b || true) ≡ true
or_true true = refl
or_true false = refl

-- The last character is one of a word; b where there is none.
unfoldable pub ends_in_word : Bool → Text → Bool
ends_in_word b [] = b
ends_in_word b (c ∷ t) = ends_in_word (is_word c) t

-- The text as a search reads it: under re.I, in lower case.
unfoldable pub cased : Bool → Text → Text
cased f [] = []
cased f (c ∷ t) = (if f then lower c else c) ∷ cased f t

-- The word w stands in t as a word of its own; b says that a character of a word comes before t.
pub record Stands (f b : Bool) (w t : Text) : Type 0 where
  pub before : Text
  pub written : Text
  pub after : Text
  pub splits : t ≡ before ++ (written ++ after)
  pub spelled : cased f written ≡ w
  pub starts : ends_in_word b before ≡ false
  pub ends : at_end after ≡ true

same-eq : (f : Bool) (a c : ℕ) → same f a c ≡ true → (if f then lower c else c) ≡ a
same-eq true a c e = sym ((==_iff a (lower c)).0 e)
same-eq false a c e = sym ((==_iff a c).0 e)

same_refl : (f : Bool) (c : ℕ) → same f (if f then lower c else c) c ≡ true
same_refl true c = (==_iff (lower c) (lower c)).1 refl
same_refl false c = (==_iff c c).1 refl

-- A text that begins with p, and what is behind that.
pub record Begins (f : Bool) (p t rest : Text) : Type 0 where
  pub start : Text
  pub splits : t ≡ start ++ rest
  pub spelled : cased f start ≡ p

pub behind-Begins : (f : Bool) (p t rest : Text) → behind f p t ≡ some rest → Begins f p t rest
unfolding behind cased
behind-Begins f [] t rest e = record { start = []; splits = some-injective e; spelled = refl }
behind-Begins f (a ∷ p) [] rest e = absurd (nothing rest e)
behind-Begins f (a ∷ p) (c ∷ t) rest e = elim (Bool-cases (same f a c)) [
  | inl t_same ↦
      let b : Begins f p t rest = behind-Begins f p t rest (sym (if-true _ _ t_same) ∙ e) in
      record {
        start = c ∷ b.start;
        splits = ap (λ u. c ∷ u) b.splits;
        spelled = rw (same-eq f a c t_same) (ap (λ u. a ∷ u) b.spelled);
      }
  | inr other ↦ absurd (nothing rest (sym (if-false _ _ other) ∙ e))
]

behind-cased : (f : Bool) (m rest : Text) → behind f (cased f m) (m ++ rest) ≡ some rest
unfolding behind cased
behind-cased f [] rest = refl
behind-cased f (c ∷ m) rest = if-true _ _ (same_refl f c) ∙ behind-cased f m rest

pub word_here-Begins :
    (f b : Bool) (w t rest : Text)
    → word_here f b w t ≡ some rest
    → (b ≡ false) × Begins f w t rest × (at_end rest ≡ true)
unfolding word_here
word_here-Begins f true w t rest e = absurd (nothing rest e)
word_here-Begins f false w t rest e = elim (Option-cases (behind f w t)) [
  | inl bad ↦ absurd (nothing rest (rw (bad, word_here) at e))
  | inr (r, good) ↦ elim (Bool-cases (at_end r)) [
    | inr stuck ↦ absurd (nothing rest (rw (good, stuck, word_here) at e))
    | inl free ↦
        let eq : r ≡ rest = some-injective (rw (good, free, word_here) at e) in
        (refl, behind-Begins f w t rest (good ∙ ap some eq), ap at_end (sym eq) ∙ free)
  ]
]

pub found-some : (o : Option Text) → found o ≡ true → (t : Text) × (o ≡ some t)
found-some none e = untrue e
found-some (some t) e = (t, refl)

pub has_word-Stands : (f b : Bool) (w t : Text) → has_word f b w t ≡ true → Stands f b w t
unfolding has_word ends_in_word
has_word-Stands f b w [] e = untrue e
has_word-Stands f b w (c ∷ t) e = elim (Bool-cases (found (word_here f b w (c ∷ t)))) [
  | inl here ↦
      let (rest, is_here) = found-some (word_here f b w (c ∷ t)) here in
      let (free, begun, ends) = word_here-Begins f b w (c ∷ t) rest is_here in
      record {
        before = [];
        written = begun.start;
        after = rest;
        splits = begun.splits;
        spelled = begun.spelled;
        starts = free;
        ends = ends;
      }
  | inr no_word ↦
      let s : Stands f (is_word c) w t = has_word-Stands f (is_word c) w t (rw no_word at e) in
      record {
        before = c ∷ s.before;
        written = s.written;
        after = s.after;
        splits = ap (λ u. c ∷ u) s.splits;
        spelled = s.spelled;
        starts = s.starts;
        ends = s.ends;
      }
]

pub has_word-found :
    (f b : Bool) (before : Text) (c : ℕ) (m after : Text)
    → ends_in_word b before ≡ false
    → at_end after ≡ true
    → has_word f b (cased f (c ∷ m)) (before ++ ((c ∷ m) ++ after)) ≡ true
unfolding has_word ends_in_word word_here cased
has_word-found f b [] c m after starts ends =
    rw (starts, behind-cased f (c ∷ m) after, ends, word_here) refl
has_word-found f b (d ∷ before) c m after starts ends =
    rw (has_word-found f (is_word d) before c m after starts ends) (or_true _)
