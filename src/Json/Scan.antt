-- ===== src/Json/Scan.antt =====
-- `json.loads(text, object_pairs_hook=…, parse_float=…, parse_int=…, parse_constant=…)`.
use omega_evidence.Base.{
  ℕ, zero, suc, ◌+◌, ◌-◌, ◌*◌, Bool, true, false, ◌&&◌, ◌||◌, Option, none, some, [], ◌∷◌, ◌++◌,
  ltb, leb, ◌==◌, if◌then◌else◌, length,
}
use omega_evidence.Base.Text.{Text, codes}
use omega_evidence.Base.Int.{ℤ, pos, negsuc}
use omega_evidence.Value.{Value, Fields, null, bool}

-- What a reader may refuse. `malformed` is json's own JSONDecodeError.
pub data LoadError : Type 0 where
  malformed too_deep lone_surrogate duplicate_key float_refused int_out_of_range constant_refused :
      LoadError

pub data Read (A : Type 0) : Type 0 where
  got : A → Text → Read A
  failed : LoadError → Read A

infixl 5 ◌>>=◌
abbrev pub ◌>>=◌ : {A B : Type 0} → Read A → (A → Text → Read B) → Read B
got a t >>= f = f a t
failed e >>= f = failed e

-- the hooks of one call
pub record Hooks : Type 0 where
  pub pairs : Fields → Read Value
  pub parse_int : ℤ → Read Value
  pub parse_float : Text → Read Value
  pub parse_constant : Text → Read Value

-- A hook reads no text: what follows stays.
unfoldable pub after : Read Value → Text → Read Value
after (got v _) t = got v t
after (failed e) t = failed e

unfoldable pub is_space : ℕ → Bool
is_space c = c == 32 || c == 9 || c == 10 || c == 13

unfoldable pub skip_space : Text → Text
unfolding is_space
skip_space [] = []
skip_space (c ∷ t) = let rest = skip_space t in if is_space c then rest else c ∷ t

unfoldable pub hex_value : ℕ → Option ℕ
hex_value c =
    if leb 48 c && leb c 57
    then some (c - 48)
    else if leb 97 c && leb c 102
    then some (c - 87)
    else if leb 65 c && leb c 70
    then some (c - 55)
    else none

abbrev hex_join : Option ℕ → Option ℕ → Option ℕ → Option ℕ → Option ℕ
hex_join (some a) (some b) (some c) (some d) = some (4096 * a + 256 * b + 16 * c + d)
hex_join _ _ _ _ = none

-- The first four characters, read as hexadecimal.
unfoldable pub hex4 : Text → Option ℕ
unfolding hex_value
hex4 (a ∷ b ∷ c ∷ d ∷ t) = hex_join (hex_value a) (hex_value b) (hex_value c) (hex_value d)
hex4 _ = none

unfoldable pub is_high : ℕ → Bool
is_high c = leb 0xD800 c && leb c 0xDBFF

unfoldable pub is_low : ℕ → Bool
is_low c = leb 0xDC00 c && leb c 0xDFFF

unfoldable pub rest4 : Text → Text
rest4 (a ∷ b ∷ c ∷ d ∷ t) = t
rest4 _ = []

-- The code unit of a `\u` escape at the head, if one stands there.
unfoldable pub escaped_unit : Text → Option ℕ
unfolding hex4
escaped_unit (a ∷ b ∷ t) = if a == 92 && b == b'u' then hex4 t else none
escaped_unit _ = none

unfoldable pub rest6 : Text → Text
unfolding rest4
rest6 (a ∷ b ∷ t) = rest4 t
rest6 _ = []

pair_at : ℕ → Option ℕ → Text → ℕ × Text
pair_at hi none t = (hi, t)
pair_at hi (some lo) t =
    if is_low lo then (65536 + (hi - 0xD800) * 1024 + (lo - 0xDC00), rest6 t) else (hi, t)

unicode_at : Option ℕ → Text → Option (ℕ × Text)
unfolding pair_at escaped_unit is_high is_low rest6
unicode_at none t = none
unicode_at (some u) t = some (if is_high u then pair_at u (escaped_unit t) t else (u, t))

-- What stands behind a backslash.
unfoldable pub scan_escape : Text → Option (ℕ × Text)
unfolding unicode_at hex4 rest4
scan_escape [] = none
scan_escape (c ∷ t) =
    if c == b'u'
    then unicode_at (hex4 t) (rest4 t)
    else if c == 34 || c == 92 || c == 47
    then some (c, t)
    else if c == b'b'
    then some (8, t)
    else if c == b'f'
    then some (12, t)
    else if c == b'n'
    then some (10, t)
    else if c == b'r'
    then some (13, t)
    else if c == b't'
    then some (9, t)
    else none

abbrev push : ℕ → Option (Text × Text) → Option (Text × Text)
push c none = none
push c (some (s, t)) = some (c ∷ s, t)

-- A string behind its opening quote; the length of the text is fuel enough.
unfoldable pub scan_chars : ℕ → Text → Option (Text × Text)
unfolding scan_escape
scan_chars zero t = none
scan_chars (suc f) [] = none
scan_chars (suc f) (c ∷ t) = elim (c == 34) [
  | true ↦ some ([], t)
  | false ↦ elim (c == 92) [
    | true ↦ elim (scan_escape t) [ none ↦ none | some (d, r) ↦ push d (scan_chars f r) ]
    | false ↦ elim (ltb c 32) [ true ↦ none | false ↦ push c (scan_chars f t) ]
  ]
]

unfoldable pub scan_str : Text → Read Text
unfolding scan_chars
scan_str t = elim (scan_chars (length t) t) [ none ↦ failed malformed | some (s, r) ↦ got s r ]

unfoldable pub is_digit : ℕ → Bool
is_digit c = leb 48 c && leb c 57

-- The digits at the head, and what follows.
unfoldable pub span_digits : Text → Text × Text
unfolding is_digit
span_digits [] = ([], [])
span_digits (c ∷ t) = let (ds, r) = span_digits t in if is_digit c then (c ∷ ds, r) else ([], c ∷ t)

unfoldable pub digits_value : ℕ → Text → ℕ
digits_value acc [] = acc
digits_value acc (c ∷ t) = digits_value (acc * 10 + (c - 48)) t

unfoldable pub signed : Bool → ℕ → ℤ
signed neg zero = pos zero
signed true (suc n) = negsuc n
signed false (suc n) = pos (suc n)

-- 0 or a digit string that does not begin with 0.
unfoldable pub scan_whole : Text → Option (Text × Text)
unfolding span_digits
scan_whole [] = none
scan_whole (c ∷ t) =
    if c == 48 then some (48 ∷ [], t) else if is_digit c then some (span_digits (c ∷ t)) else none

-- A fraction, if one stands at the head.
unfoldable pub scan_fraction : Text → Text × Text
unfolding span_digits
scan_fraction [] = ([], [])
scan_fraction (c ∷ t) =
    let (ds, r) = span_digits t in
    if c == b'.' then elim ds [ [] ↦ ([], c ∷ t) | d ∷ more ↦ (c ∷ d ∷ more, r) ] else ([], c ∷ t)

exponent_digits : ℕ → Text → Text → Text × Text
unfolding span_digits
exponent_digits e signs t =
    let (ds, r) = span_digits t in
    elim ds [ [] ↦ ([], e ∷ (signs ++ t)) | d ∷ more ↦ (e ∷ (signs ++ d ∷ more), r) ]

-- An exponent, if one stands at the head.
unfoldable pub scan_exponent : Text → Text × Text
unfolding exponent_digits
scan_exponent [] = ([], [])
scan_exponent (e ∷ []) = ([], e ∷ [])
scan_exponent (e ∷ c ∷ t) =
    if e == b'e' || e == b'E'
    then (if c == b'+' || c == b'-'
        then exponent_digits e (c ∷ []) t
        else exponent_digits e [] (c ∷ t))
    else ([], e ∷ c ∷ t)

finish_number : Hooks → Bool → Text → Text × Text → Read Value
unfolding scan_exponent after signed digits_value
finish_number h neg whole (frac, t) =
    let (expo, r) = scan_exponent t in
    elim (frac ++ expo) [
      | [] ↦ after (h.parse_int (signed neg (digits_value 0 whole))) r
      | _ ∷ _ ↦ after (h.parse_float ((if neg then 45 ∷ whole else whole) ++ (frac ++ expo))) r
    ]

unfoldable pub scan_number : Hooks → Bool → Text → Read Value
unfolding finish_number scan_whole scan_fraction
scan_number h neg t = elim (scan_whole t) [
  | none ↦ failed malformed
  | some (whole, r) ↦ finish_number h neg whole (scan_fraction r)
]

-- The text behind a prefix.
unfoldable pub strip_prefix : Text → Text → Option Text
strip_prefix [] t = some t
strip_prefix (a ∷ p) [] = none
strip_prefix (a ∷ p) (b ∷ t) = let rest = strip_prefix p t in if a == b then rest else none

abbrev or_else : Option Text → (Text → Read Value) → Read Value → Read Value
or_else none f other = other
or_else (some r) f other = f r

-- A literal name or a number.
unfoldable pub scan_atom : Hooks → Text → Read Value
unfolding strip_prefix scan_number after
scan_atom h t =
    or_else (strip_prefix (codes "null") t) (λ r. got null r)
      (or_else (strip_prefix (codes "true") t) (λ r. got (bool true) r)
        (or_else (strip_prefix (codes "false") t) (λ r. got (bool false) r)
          (or_else (strip_prefix (codes "NaN") t) (λ r. after (h.parse_constant (codes "NaN")) r)
            (or_else (strip_prefix (codes "Infinity") t)
              (λ r. after (h.parse_constant (codes "Infinity")) r)
              (or_else (strip_prefix (codes "-Infinity") t)
                (λ r. after (h.parse_constant (codes "-Infinity")) r)
                (or_else (strip_prefix (codes "-") t) (scan_number h true)
                  (scan_number h false t)))))))
