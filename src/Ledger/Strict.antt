-- ===== src/Ledger/Strict.antt =====
-- The acceptance profile of omega_evidence/ledger.py: the two scans that come before the JSON
-- parser, its hooks, and `loads_strict`.
use omega_evidence.Base.{
  ℕ, zero, suc, ◌+◌, Bool, true, false, ◌&&◌, ◌||◌, not, Option, none, some, [], ◌∷◌, ltb, ◌==◌,
  if◌then◌else◌, length, drop, take, get_or,
}
use omega_evidence.Base.Text.{Text}
use omega_evidence.Base.Int.{ℤ, pos, negsuc, abs}
use omega_evidence.Value.{Value, Fields, name, non_string, dict, int, end, field}
use omega_evidence.Json.Scan.{
  too_deep, lone_surrogate, duplicate_key, float_refused, int_out_of_range, constant_refused, Read,
  got, failed, Hooks, is_high, is_low, hex4,
}
use omega_evidence.Json.Load.{json_loads}
use omega_evidence.Canonical.{safe_int, has_key}

abbrev pub max_depth : ℕ
max_depth = 512

-- The variables of the loop of `_nesting_depth`; the depth may go below zero.
pub record Nest : Type 0 where
  pub depth : ℤ
  pub mx : ℕ
  pub in_str : Bool
  pub esc : Bool

abbrev pub deeper : ℤ → ℤ
deeper (pos n) = pos (n + 1)
deeper (negsuc zero) = pos 0
deeper (negsuc (suc n)) = negsuc n

abbrev pub shallower : ℤ → ℤ
shallower (pos zero) = negsuc 0
shallower (pos (suc n)) = pos n
shallower (negsuc n) = negsuc (n + 1)

-- max(mx, depth), where mx is never negative
abbrev pub max_depth_of : ℕ → ℤ → ℕ
max_depth_of mx (pos n) = if ltb mx n then n else mx
max_depth_of mx (negsuc n) = mx

unfoldable pub nest_step : Nest → ℕ → Nest
nest_step s c =
    if s.in_str
    then (if s.esc
        then record s { esc = false }
        else if c == 92
        then record s { esc = true }
        else if c == 34
        then record s { in_str = false }
        else s)
    else if c == 34
    then record s { in_str = true }
    else if c == 91 || c == 123
    then record s { depth = deeper s.depth; mx = max_depth_of s.mx (deeper s.depth) }
    else if c == 93 || c == 125
    then record s { depth = shallower s.depth }
    else s

unfoldable pub nest_loop : Nest → Text → Nest
unfolding nest_step
nest_loop s [] = s
nest_loop s (c ∷ t) = nest_loop (nest_step s c) t

abbrev pub nest_start : Nest
nest_start = record { depth = pos 0; mx = 0; in_str = false; esc = false }

unfoldable pub nesting_depth : Text → ℕ
unfolding nest_loop
nesting_depth text = (nest_loop nest_start text).mx

-- What the scan for lone surrogates does at one position: it finds one, or goes on behind the
-- characters that it has read.
pub data Action : Type 0 where
  found : Action
  skip : ℕ → Action

-- The escape of a high surrogate stands at the head of the text, which is `text[i:]`: a low one
-- must follow at once.
pair_action : Text → Action
unfolding hex4 is_low
pair_action t =
    if ltb (length t) 8 || not (get_or t 6 0 == 92) || not (get_or t 7 0 == b'u')
    then found
    else elim (hex4 (take 4 (drop 8 t))) [
      | none ↦ found
      | some lo ↦ if is_low lo then skip 12 else found
    ]

unit_action : Option ℕ → Text → Action
unfolding pair_action is_high is_low
unit_action none t = skip 2
unit_action (some cp) t = if is_high cp then pair_action t else if is_low cp then found else skip 6

-- One round of the loop at `text[i:]`.
action : Text → Action
unfolding unit_action hex4
action t =
    if not (get_or t 0 0 == 92)
    then skip 1
    else if ltb 5 (length t) && get_or t 1 0 == b'u'
    then unit_action (hex4 (take 4 (drop 2 t))) t
    else skip 2

-- The loop, from `text[i:]`; each round goes on by one character at least, so the length is
-- fuel enough.
lone_from : ℕ → Text → Bool
unfolding action
lone_from zero t = false
lone_from (suc f) [] = false
lone_from (suc f) (c ∷ t) = elim (action (c ∷ t)) [
  | found ↦ true
  | skip n ↦ lone_from f (drop n (c ∷ t))
]

unfoldable pub has_lone_surrogate : Text → Bool
unfolding lone_from
has_lone_surrogate text = lone_from (length text) text

-- `k in d` for one of the pairs behind it.
unfoldable pub has_duplicate : Fields → Bool
unfolding has_key
has_duplicate end = false
has_duplicate (field (name k) v fs) = has_key k fs || has_duplicate fs
has_duplicate (field (non_string k) v fs) = has_duplicate fs

unfoldable pub reject_dup : Fields → Read Value
unfolding has_duplicate
reject_dup pairs = if has_duplicate pairs then failed duplicate_key else got (dict pairs) []

unfoldable pub no_float : Text → Read Value
no_float x = failed float_refused

unfoldable pub bounded_int : ℤ → Read Value
bounded_int v = if ltb safe_int (abs v) then failed int_out_of_range else got (int v) []

abbrev pub strict_hooks : Hooks
strict_hooks = record {
  pairs = reject_dup;
  parse_int = bounded_int;
  parse_float = no_float;
  parse_constant = λ c. failed constant_refused;
}

unfoldable pub loads_strict : Text → Read Value
unfolding nesting_depth has_lone_surrogate json_loads reject_dup no_float bounded_int
loads_strict text =
    if ltb max_depth (nesting_depth text)
    then failed too_deep
    else if has_lone_surrogate text
    then failed lone_surrogate
    else json_loads strict_hooks text
