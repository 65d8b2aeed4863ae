-- ===== src/Ledger/Chain.antt =====
-- Reading a ledger of omega_evidence/ledger.py: the hash of an entry, the lines of a text,
-- `verify_text`, `entries_text` and `Ledger._replay`. SHA-256 is a parameter: the hex digest of an
-- ASCII text, as a function.
use omega_evidence.Base.{
  ℕ, ◌+◌, Bool, true, false, ◌&&◌, ◌||◌, not, Option, none, some, List, [], ◌∷◌, ltb, leb, ◌==◌,
  if◌then◌else◌, length, replicate,
}
use mathlib.Core.List.{reverse}
use omega_evidence.Base.Text.{Text, codes, ◌===◌, is_empty}
use omega_evidence.Base.Int.{is_nat}
use omega_evidence.Base.Utf8.{decode}
use omega_evidence.Value.{Value, Fields, name, non_string, str, dict, int, end, field}
use omega_evidence.Json.Print.{Style, print}
use omega_evidence.Json.Scan.{got, failed}
use omega_evidence.Ledger.Strict.{loads_strict}

abbrev pub genesis : Text
genesis = replicate 64 48

-- json.dumps(d, sort_keys=True, separators=(",", ":"), allow_nan=False): no `default`
abbrev pub hashed : Style
hashed = record { item = codes ","; key = codes ":"; sort_keys = true; tagging = false }

-- `e.get(k)`
unfoldable pub get : Text → Fields → Option Value
get t end = none
get t (field (name k) v fs) = if k === t then some v else get t fs
get t (field (non_string k) v fs) = get t fs

-- {k: v for k, v in d.items() if k != key}
unfoldable pub without : Text → Fields → Fields
without t end = end
without t (field (name k) v fs) =
    let rest = without t fs in if k === t then rest else field (name k) v rest
without t (field (non_string k) v fs) = field (non_string k) v (without t fs)

-- `x == s` for a str s
unfoldable pub is_text : Option Value → Text → Bool
is_text (some (str t)) s = t === s
is_text _ s = false

-- `not isinstance(x, bool) and x == n` for a count n
unfoldable pub is_count : Option Value → ℕ → Bool
is_count (some (int z)) n = is_nat z n
is_count _ n = false

abbrev pub is_blank_char : ℕ → Bool
is_blank_char c = c == 32 || c == 9 || c == 13 || c == 10

unfoldable pub strip_left : Text → Text
strip_left [] = []
strip_left (c ∷ t) = let rest = strip_left t in if is_blank_char c then rest else c ∷ t

unfoldable pub strip_right : Text → Text
strip_right [] = []
strip_right (c ∷ t) =
    let rest = strip_right t in if is_empty rest && is_blank_char c then [] else c ∷ rest

-- line.strip(" \t\r\n")
unfoldable pub strip : Text → Text
unfolding strip_left strip_right
strip line = strip_right (strip_left line)

abbrev pub on_first : ℕ → List Text → List Text
on_first c [] = (c ∷ []) ∷ []
on_first c (l ∷ ls) = (c ∷ l) ∷ ls

-- `_lines` and `split("\n")`: LF alone separates.
unfoldable pub lines : Text → List Text
lines [] = [] ∷ []
lines (c ∷ t) = let rest = lines t in if c == 10 then [] ∷ rest else on_first c rest

-- A line, read as an entry: an object of the strict profile.
unfoldable pub entry_of : Text → Option Fields
entry_of line = elim (loads_strict line) [
  | got v r ↦ elim v [ dict fs ↦ some fs | _ ↦ none ]
  | failed e ↦ none
]

abbrev pub bad_kept : ℕ
bad_kept = 1000

-- The variables of the loop of `verify_text`; the newest bad line comes first in `bad`.
pub record Walk : Type 0 where
  pub bad : List ℕ
  pub broken : Bool
  pub prev : Text
  pub n : ℕ

unfoldable pub mark : ℕ → Walk → Walk
mark i w = record w {
  broken = true;
  bad = if ltb (length w.bad) bad_kept then i ∷ w.bad else w.bad;
}

abbrev pub next_prev : Option Value → Text → Text
next_prev (some (str t)) prev = t
next_prev _ prev = prev

module _ (sha256 : Text → Text) where
  abbrev hash_of : Option Text → Option Text
  hash_of none = none
  hash_of (some t) = some (sha256 t)

  -- `none` where json.dumps raises.
  unfoldable pub hash_entry : Fields → Option Text
  unfolding without
  hash_entry entry = hash_of (print hashed (dict (without (codes "self_hash") entry)))

  abbrev matches : Option Value → Option Text → Bool
  matches v none = false
  matches v (some h) = is_text v h

  -- The test of one entry against the number and the hash before it.
  unfoldable pub links : ℕ → Text → Fields → Bool
  unfolding hash_entry get is_text is_count
  links n prev e =
      is_count (get (codes "idx") e) n
      && is_text (get (codes "prev_hash") e) prev
      && matches (get (codes "self_hash") e) (hash_entry e)

  unfoldable pub walk_entry : ℕ → Option Fields → Walk → Walk
  unfolding mark links get
  walk_entry i none w = let m = mark i w in record m { n = w.n + 1 }
  walk_entry i (some e) w =
      let m = if links w.n w.prev e then w else mark i w in
      record m { prev = next_prev (get (codes "self_hash") e) w.prev; n = w.n + 1 }

  unfoldable pub walk_line : ℕ → Text → Walk → Walk
  unfolding walk_entry strip entry_of
  walk_line i line w = if is_empty (strip line) then w else walk_entry i (entry_of (strip line)) w

  unfoldable pub walk : ℕ → List Text → Walk → Walk
  unfolding walk_line
  walk i [] w = w
  walk i (line ∷ ls) w =
      let rest = walk (i + 1) ls (walk_line i line w) in
      if leb bad_kept (length w.bad) then w else rest

  abbrev pub walk_start : Walk
  walk_start = record { bad = []; broken = false; prev = genesis; n = 0 }

  unfoldable pub verify_text : Text → Bool × List ℕ
  unfolding walk lines
  verify_text text = let w = walk 0 (lines text) walk_start in (not w.broken, reverse w.bad)

  -- The test of `_replay`: it does not read idx.
  unfoldable pub replay_links : Text → Fields → Bool
  unfolding hash_entry get is_text
  replay_links prev e =
      is_text (get (codes "prev_hash") e) prev && matches (get (codes "self_hash") e) (hash_entry e)

  abbrev pub replay_entry : Option Fields → ℕ → Text → Option (ℕ × Text)
  replay_entry none count prev = none
  replay_entry (some e) count prev =
      if replay_links prev e
      then some (count + 1, next_prev (get (codes "self_hash") e) prev)
      else none

  unfoldable pub replay_line : Text → ℕ × Text → Option (ℕ × Text)
  unfolding replay_links strip entry_of
  replay_line line (count, prev) =
      if is_empty (strip line)
      then some (count, prev)
      else replay_entry (entry_of (strip line)) count prev

  unfoldable pub replay_lines : List Text → ℕ × Text → Option (ℕ × Text)
  unfolding replay_line
  replay_lines [] s = some s
  replay_lines (line ∷ ls) s = elim (replay_line line s) [
    | none ↦ none
    | some s' ↦ replay_lines ls s'
  ]

  -- `Ledger._replay`; `none` is the RuntimeError.
  unfoldable pub replay : Text → ℕ × Text → Option (ℕ × Text)
  unfolding replay_lines lines decode
  replay raw s = elim (decode raw) [ none ↦ none | some text ↦ replay_lines (lines text) s ]

-- `entries_text`; `none` is the ValueError.
unfoldable pub entries_of : List Text → Option (List Fields)
unfolding strip entry_of
entries_of [] = some []
entries_of (line ∷ ls) =
    let rest = entries_of ls in
    if is_empty (strip line) then rest else elim (entry_of (strip line)) [
      | none ↦ none
      | some e ↦ elim rest [ none ↦ none | some es ↦ some (e ∷ es) ]
    ]

unfoldable pub entries_text : Text → Option (List Fields)
unfolding entries_of lines
entries_text text = entries_of (lines text)
