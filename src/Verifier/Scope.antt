-- ===== src/Verifier/Scope.antt =====
-- `_honest_scope_declares_limit` of omega_evidence/pack.py: its three regular expressions are
-- searches from left to right.
use omega_evidence.Base.{
  ℕ, zero, suc, ◌+◌, Bool, true, false, not, ◌&&◌, ◌||◌, Option, none, some, List, [], ◌∷◌,
  if◌then◌else◌, leb, ◌==◌, ◌≡◌, refl,
}
use omega_evidence.Base.Text.{Text, codes}
use omega_evidence.Value.{Value, str}

-- A character of the class \w under re.ASCII.
abbrev pub is_word : ℕ → Bool
is_word c = (leb 48 c && leb c 57) || (leb 65 c && leb c 90) || (leb 97 c && leb c 122) || c == 95

-- re.I under re.ASCII
abbrev pub lower : ℕ → ℕ
lower c = if leb 65 c && leb c 90 then c + 32 else c

abbrev pub same : Bool → ℕ → ℕ → Bool
same fold a c = if fold then a == lower c else a == c

-- The text behind the prefix p.
unfoldable pub behind : Bool → Text → Text → Option Text
behind fold [] t = some t
behind fold (a ∷ p) [] = none
behind fold (a ∷ p) (c ∷ t) = let rest = behind fold p t in if same fold a c then rest else none

abbrev pub at_end : Text → Bool
at_end [] = true
at_end (c ∷ t) = not (is_word c)

-- The text behind a word that stands at the head of t as a whole word.
unfoldable pub word_here : Bool → Bool → Text → Text → Option Text
unfolding behind
word_here fold after_word w t = if after_word then none else elim (behind fold w t) [
  | none ↦ none
  | some rest ↦ if at_end rest then some rest else none
]

abbrev pub found : Option Text → Bool
found none = false
found (some t) = true

-- re.search(r"\bw\b", t)
unfoldable pub has_word : Bool → Bool → Text → Text → Bool
unfolding word_here
has_word fold after_word w [] = false
has_word fold after_word w (c ∷ t) =
    found (word_here fold after_word w (c ∷ t)) || has_word fold (is_word c) w t

unfoldable pub any_word : List Text → Text → Bool
unfolding has_word
any_word [] t = false
any_word (w ∷ ws) t = has_word true false w t || any_word ws t

unfoldable pub any_stem : List Text → Text → Bool
unfolding behind
any_stem [] t = false
any_stem (w ∷ ws) t = found (behind true w t) || any_stem ws t

-- [^.]{0,n}(stem)
unfoldable pub stem_within : ℕ → List Text → Text → Bool
unfolding any_stem
stem_within n ws [] = false
stem_within zero ws (c ∷ t) = any_stem ws (c ∷ t)
stem_within (suc n) ws (c ∷ t) = any_stem ws (c ∷ t) || (not (c == 46) && stem_within n ws t)

abbrev pub stem_behind : List Text → Option Text → Bool
stem_behind ws none = false
stem_behind ws (some t) = stem_within 40 ws t

-- \bNOT\b[^.]{0,40}(stem)
unfoldable pub has_negated : Bool → List Text → Text → Bool
unfolding word_here stem_within
has_negated after_word ws [] = false
has_negated after_word ws (c ∷ t) =
    stem_behind ws (word_here true after_word (codes "not") (c ∷ t)) || has_negated (is_word c) ws t

abbrev pub overclaims : List Text
overclaims = codes "accredited" ∷ codes "certified" ∷ codes "qualified" ∷ codes "guaranteed" ∷ []

abbrev pub stems : List Text
stems = codes "accredit" ∷ codes "certif" ∷ codes "qualif" ∷ codes "guarant" ∷ []

unfoldable pub declares_limit : Option Value → Bool
unfolding has_word any_word has_negated
declares_limit (some (str t)) =
    has_word false false (codes "NOT") t
    && not (any_word overclaims t && not (has_negated false stems t))
declares_limit _ = false

negated : declares_limit (some (str (codes "integrity only, NOT certified"))) ≡ true
unfolding declares_limit
negated = refl

overclaimed : declares_limit (some (str (codes "Certified. NOT a guess."))) ≡ false
unfolding declares_limit
overclaimed = refl

lower_case : declares_limit (some (str (codes "not a legal opinion, NOTE"))) ≡ false
unfolding declares_limit
lower_case = refl
