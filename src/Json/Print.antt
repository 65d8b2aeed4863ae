-- ===== src/Json/Print.antt =====
-- `json.dumps(o, sort_keys=True, ensure_ascii=True, allow_nan=False, default=…)`.
use omega_evidence.Base.{
  ℕ, zero, suc, ◌+◌, ◌-◌, ◌/◌, ◌%◌, Bool, true, false, ◌&&◌, ◌||◌, Option, none, some, List, [],
  ◌∷◌, ◌++◌, ltb, leb, ◌==◌, not, if◌then◌else◌, ◌≡◌, refl,
}
use omega_evidence.Base.Text.{Text, codes, in_list}
use omega_evidence.Base.Maybe.{◌>>=◌}
use omega_evidence.Base.Int.{ℤ, pos, negsuc}
use omega_evidence.Value.{
  Value, Items, Fields, name, non_string, null, bool, int, float, str, list, tuple, set, dict,
  decimal, datetime, date, bytes, object, nil, cons, end, field,
}

-- One hexadecimal digit in lower case.
unfoldable pub hex_digit : ℕ → ℕ
hex_digit d = if ltb d 10 then 48 + d else 87 + d

-- `'\\u{0:04x}'.format(n)`
unfoldable pub unicode_escape : ℕ → Text
unfolding hex_digit
unicode_escape n =
    92
    ∷ b'u'
    ∷ hex_digit (n / 4096 % 16)
    ∷ hex_digit (n / 256 % 16)
    ∷ hex_digit (n / 16 % 16)
    ∷ hex_digit (n % 16)
    ∷ []

-- One character of a string under ensure_ascii.
unfoldable pub escape : ℕ → Text
unfolding unicode_escape
escape c =
    if c == 34
    then 92 ∷ 34 ∷ []
    else if c == 92
    then 92 ∷ 92 ∷ []
    else if c == 10
    then 92 ∷ b'n' ∷ []
    else if c == 13
    then 92 ∷ b'r' ∷ []
    else if c == 9
    then 92 ∷ b't' ∷ []
    else if c == 12
    then 92 ∷ b'f' ∷ []
    else if c == 8
    then 92 ∷ b'b' ∷ []
    else if leb 32 c && ltb c 127
    then c ∷ []
    else if ltb c 65536
    then unicode_escape c
    else unicode_escape (55296 + (c - 65536) / 1024 % 1024)
      ++ unicode_escape (56320 + (c - 65536) % 1024)

unfoldable pub escapes : Text → Text
unfolding escape
escapes [] = []
escapes (c ∷ s) = escape c ++ escapes s

unfoldable pub print_str : Text → Text
unfolding escapes
print_str s = 34 ∷ (escapes s ++ (34 ∷ []))

-- Decimal digits before an accumulator; the fuel n + 1 is enough for n.
unfoldable pub digits : ℕ → ℕ → Text → Text
digits zero n acc = acc
digits (suc f) n acc =
    let rest = digits f (n / 10) ((48 + n % 10) ∷ acc) in if ltb n 10 then (48 + n) ∷ acc else rest

unfoldable pub print_nat : ℕ → Text
unfolding digits
print_nat n = digits (suc n) n []

unfoldable pub print_int : ℤ → Text
unfolding print_nat
print_int (pos n) = print_nat n
print_int (negsuc n) = 45 ∷ print_nat (suc n)

-- The arguments of one call: the separators of items and keys, `sort_keys`, and whether
-- `default=_default` is given.
pub record Style : Type 0 where
  pub item : Text
  pub key : Text
  pub sort_keys : Bool
  pub tagging : Bool

abbrev pub tight : Style
tight = record { item = codes ","; key = codes ":"; sort_keys = true; tagging = true }

-- json.dumps(x, sort_keys=True, default=_default)
abbrev pub loose : Style
loose = record { item = codes ", "; key = codes ": "; sort_keys = true; tagging = true }

unfoldable pub join : Text → List Text → Text
join sep [] = []
join sep (t ∷ []) = t
join sep (t ∷ u ∷ ts) = t ++ (sep ++ join sep (u ∷ ts))

-- str < str: by code points.
unfoldable pub text_lt : Text → Text → Bool
text_lt [] [] = false
text_lt [] (b ∷ t) = true
text_lt (a ∷ s) [] = false
text_lt (a ∷ s) (b ∷ t) = ltb a b || ((a == b) && text_lt s t)

-- `sorted` by a text key: a stable insertion sort.
module _ {ℓ} {A : Type ℓ} where
  unfoldable pub insert_sorted : Text → A → List (Text × A) → List (Text × A)
  insert_sorted k a [] = (k, a) ∷ []
  insert_sorted k a ((j, b) ∷ l) =
      if text_lt j k then (j, b) ∷ insert_sorted k a l else (k, a) ∷ (j, b) ∷ l

  unfoldable pub sort_by_key : List (Text × A) → List (Text × A)
  unfolding insert_sorted
  sort_by_key [] = []
  sort_by_key ((k, a) ∷ l) = insert_sorted k a (sort_by_key l)

  unfoldable pub keys : List (Text × A) → List Text
  keys [] = []
  keys ((k, a) ∷ l) = k ∷ keys l

  unfoldable pub values : List (Text × A) → List A
  values [] = []
  values ((k, a) ∷ l) = a ∷ values l

unfoldable pub print_bool : Bool → Text
print_bool true = codes "true"
print_bool false = codes "false"

unfoldable pub is_finite : Text → Bool
is_finite r = not (in_list r (codes "nan" ∷ codes "inf" ∷ codes "-inf" ∷ []))

unfoldable pub print_list : Style → List Text → Text
unfolding join
print_list s ts = 91 ∷ (join s.item ts ++ (93 ∷ []))

print_pairs : Style → List (Text × Text) → List Text
print_pairs s [] = []
print_pairs s ((k, t) ∷ l) = (print_str k ++ (s.key ++ t)) ∷ print_pairs s l

-- The pairs come sorted.
unfoldable pub print_dict : Style → List (Text × Text) → Text
unfolding join print_pairs print_str
print_dict s l = 123 ∷ (join s.item (print_pairs s l) ++ (125 ∷ []))

abbrev pub tag_key : Text
tag_key = codes "__omega_reserved_type__"

unfoldable pub order : Style → List (Text × Text) → List (Text × Text)
unfolding sort_by_key
order s l = if s.sort_keys then sort_by_key l else l

-- What `_default` returns for a type that is not JSON's: {_TAG: type, "value": value}.
unfoldable pub print_tagged : Style → Text → Text → Option Text
unfolding print_dict order
print_tagged s type printed =
    if s.tagging
    then some (print_dict s (order s ((tag_key, print_str type) ∷ (codes "value", printed) ∷ [])))
    else none

-- bytes.hex()
unfoldable pub hex : Text → Text
unfolding hex_digit
hex [] = []
hex (b ∷ bs) = hex_digit (b / 16) ∷ hex_digit (b % 16) ∷ hex bs

-- `none` where json.dumps raises: a type that `_default` refuses, a float that is no JSON number.
-- A key that is not a str is refused too: every caller refuses such a dict before it prints it.
unfoldable mutual
  unfolding print_str print_int print_bool is_finite print_list print_dict print_tagged hex
      sort_by_key order values

  pub print : Style → Value → Option Text
  print s null = some (codes "null")
  print s (bool b) = some (print_bool b)
  print s (int z) = some (print_int z)
  print s (float r) = if is_finite r then some r else none
  print s (str t) = some (print_str t)
  print s (list vs) = do ts ← print_items s vs; some (print_list s ts)
  print s (tuple vs) = do ts ← print_items s vs; some (print_list s ts)
  print s (set vs) = do
    ms ← print_members s vs
    print_tagged s (codes "set") (print_list s (values (sort_by_key ms)))
  print s (dict fs) = do ps ← print_fields s fs; some (print_dict s (order s ps))
  print s (decimal t) = print_tagged s (codes "Decimal") (print_str t)
  print s (datetime t) = print_tagged s (codes "datetime") (print_str t)
  print s (date t) = print_tagged s (codes "date") (print_str t)
  print s (bytes b) = print_tagged s (codes "bytes") (print_str (hex b))
  print s (object t) = none

  pub print_items : Style → Items → Option (List Text)
  print_items s nil = some []
  print_items s (cons v vs) = do t ← print s v; ts ← print_items s vs; some (t ∷ ts)

  -- the members of a set, each with the key by which `_default` sorts it
  pub print_members : Style → Items → Option (List (Text × Text))
  print_members s nil = some []
  print_members s (cons v vs) = do
    k ← print loose v
    t ← print s v
    ms ← print_members s vs
    some ((k, t) ∷ ms)

  pub print_fields : Style → Fields → Option (List (Text × Text))
  print_fields s end = some []
  print_fields s (field (name k) v fs) = do
    t ← print s v
    ps ← print_fields s fs
    some ((k, t) ∷ ps)
  print_fields s (field (non_string k) v fs) = none

abbrev sample : Value
sample = dict (
    field (name (codes "b")) (list (cons (int (negsuc 9)) (cons (bool true) nil)))
      (field (name (codes "a")) (decimal (codes "1.0")) end))

print-sample :
    print tight sample
    ≡ some (
        codes
          "{\"a\":{\"__omega_reserved_type__\":\"Decimal\",\"value\":\"1.0\"},\"b\":[-10,true]}")
unfolding print text_lt
print-sample = refl

print_escapes :
    print tight (str (9 ∷ 233 ∷ 128512 ∷ [])) ≡ some (codes "\"\\t\\u00e9\\ud83d\\ude00\"")
unfolding print
print_escapes = refl
