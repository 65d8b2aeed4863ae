-- ===== src/Trail/Number.antt =====
-- `_es6_number` of omega_evidence/interop/aat.py, on the repr of a float.
use omega_evidence.Base.{
  ℕ, ◌+◌, ◌-◌, Bool, false, ◌&&◌, [], ◌∷◌, ◌++◌, if◌then◌else◌, ltb, leb, ◌==◌, length, take, drop,
  replicate, ◌≡◌, refl,
}
use omega_evidence.Base.Text.{Text, codes, is_empty}
use omega_evidence.Json.Print.{print_nat}
use omega_evidence.Json.Scan.{digits_value}

-- The text before the first c, and the text behind it: none behind it where c is not there.
unfoldable pub split_at : ℕ → Text → Text × Text
split_at c [] = ([], [])
split_at c (d ∷ t) = let rest = split_at c t in if d == c then ([], t) else (d ∷ rest.0, rest.1)

-- t.lstrip("0")
unfoldable pub lstrip_zeros : Text → Text
lstrip_zeros [] = []
lstrip_zeros (c ∷ t) = let rest = lstrip_zeros t in if c == 48 then rest else c ∷ t

-- t.rstrip("0")
unfoldable pub rstrip_zeros : Text → Text
rstrip_zeros [] = []
rstrip_zeros (c ∷ t) =
    let rest = rstrip_zeros t in if is_empty rest && c == 48 then [] else c ∷ rest

-- int(exp), as what is above and what is below zero; 0 where there is no exponent.
unfoldable pub exponent : Text → ℕ × ℕ
unfolding digits_value
exponent [] = (0, 0)
exponent (c ∷ t) =
    if c == 45 then (0, digits_value 0 t) else (digits_value 0 (if c == 43 then t else c ∷ t), 0)

abbrev or_zero : Text → Text
or_zero [] = codes "0"
or_zero (c ∷ t) = c ∷ t

-- digits[0], and the others behind a point
abbrev pointed : Text → Text
pointed [] = []
pointed (c ∷ []) = c ∷ []
pointed (c ∷ d ∷ t) = c ∷ 46 ∷ d ∷ t

-- The placement rules, where n is `up - down`.
unfoldable pub placed : Text → ℕ → ℕ → Text
unfolding print_nat
placed digits up down =
    let k = length digits in
    if leb (k + down) up && leb up (21 + down)
    then digits ++ replicate (up - (k + down)) 48
    else if ltb down up && leb up (21 + down)
    then take (up - down) digits ++ (46 ∷ drop (up - down) digits)
    else if ltb down (up + 6) && leb up down
    then codes "0." ++ (replicate (down - up) 48 ++ digits)
    else if ltb down up
    then pointed digits ++ (101 ∷ 43 ∷ print_nat (up - down - 1))
    else pointed digits ++ (101 ∷ 45 ∷ print_nat (down + 1 - up))

-- Of the integer and the fractional digits, and the exponent.
unfoldable pub number_text : Text → Text → ℕ × ℕ → Text
unfolding lstrip_zeros rstrip_zeros placed
number_text ip frac (up, down) =
    let fp = rstrip_zeros frac in
    let whole = lstrip_zeros ip in
    let rest = lstrip_zeros fp in
    let digits = or_zero (rstrip_zeros (lstrip_zeros (ip ++ fp))) in
    let small = or_zero (rstrip_zeros rest) in
    if is_empty whole
    then placed small up (down + (length fp - length rest))
    else placed digits (length whole + up) down

-- repr(abs(f))
unfoldable pub unsigned_number : Text → Text
unfolding split_at exponent number_text
unsigned_number r =
    let (mant, exp) = split_at 101 r in
    let (ip, fp) = split_at 46 mant in number_text ip fp (exponent exp)

-- `_es6_number`: `zero` is f == 0.
unfoldable pub es6_number : Bool → Text → Text
unfolding unsigned_number
es6_number is_zero [] = []
es6_number is_zero (c ∷ r) =
    let negative = 45 ∷ unsigned_number r in
    let positive = unsigned_number (c ∷ r) in
    if is_zero then codes "0" else if c == 45 then negative else positive

fixed : es6_number false (codes "2.9514790517935283e+20") ≡ codes "295147905179352830000"
unfolding es6_number
fixed = refl

small : es6_number false (codes "1e-06") ≡ codes "0.000001"
unfolding es6_number
small = refl

tiny : es6_number false (codes "-1e-07") ≡ codes "-1e-7"
unfolding es6_number
tiny = refl

large : es6_number false (codes "1e+21") ≡ codes "1e+21"
unfolding es6_number
large = refl

plain : es6_number false (codes "333333333.3333333") ≡ codes "333333333.3333333"
unfolding es6_number
plain = refl

whole_float : es6_number false (codes "100.0") ≡ codes "100"
unfolding es6_number
whole_float = refl
