-- ===== src/Json/Load.antt =====
-- `json.loads` on whole texts: arrays and objects, by recursion on fuel.
use omega_evidence.Base.{
  ℕ, zero, suc, ◌+◌, ◌*◌, Bool, true, false, [], ◌∷◌, ◌==◌, if◌then◌else◌, length,
}
use omega_evidence.Base.Text.{Text}
use omega_evidence.Value.{Value, Items, Fields, name, str, list, nil, cons, end, field}
use omega_evidence.Json.Scan.{
  malformed, Read, got, failed, Hooks, after, skip_space, scan_str, scan_atom, ◌>>=◌,
}

-- What a value begins with.
pub data Lead : Type 0 where
  quote bracket brace atom : Lead

lead : ℕ → Lead
lead c = if c == 34 then quote else if c == 91 then bracket else if c == 123 then brace else atom

abbrev starts : ℕ → Text → Bool
starts c [] = false
starts c (d ∷ t) = c == d

abbrev tail : Text → Text
tail [] = []
tail (c ∷ t) = t

-- `none` of the fuel left is read as a malformed text; `load` gives enough for every text.
unfoldable mutual
  unfolding lead skip_space scan_str scan_atom after

  pub scan_value : Hooks → ℕ → Text → Read Value
  scan_value h zero t = failed malformed
  scan_value h (suc f) [] = failed malformed
  scan_value h (suc f) (c ∷ t) = elim (lead c) [
    | quote ↦ scan_str t >>= λ s r. got (str s) r
    | bracket ↦ elim (starts 93 (skip_space t)) [
      | true ↦ got (list nil) (tail (skip_space t))
      | false ↦ scan_items h f (skip_space t) >>= λ vs r. got (list vs) r
    ]
    | brace ↦ elim (starts 125 (skip_space t)) [
      | true ↦ after (h.pairs end) (tail (skip_space t))
      | false ↦ scan_fields h f (skip_space t) >>= λ fs r. after (h.pairs fs) r
    ]
    | atom ↦ scan_atom h (c ∷ t)
  ]

  -- the items of an array and its closing bracket
  pub scan_items : Hooks → ℕ → Text → Read Items
  scan_items h zero t = failed malformed
  scan_items h (suc f) t = scan_value h f t >>= λ v r. elim (starts 93 (skip_space r)) [
    | true ↦ got (cons v nil) (tail (skip_space r))
    | false ↦ elim (starts 44 (skip_space r)) [
      | true ↦ scan_items h f (skip_space (tail (skip_space r))) >>= λ vs q. got (cons v vs) q
      | false ↦ failed malformed
    ]
  ]

  -- the members of an object and its closing brace
  pub scan_fields : Hooks → ℕ → Text → Read Fields
  scan_fields h zero t = failed malformed
  scan_fields h (suc f) [] = failed malformed
  scan_fields h (suc f) (c ∷ t) = elim (c == 34) [
    | false ↦ failed malformed
    | true ↦ scan_str t >>= λ k r. elim (starts 58 (skip_space r)) [
      | false ↦ failed malformed
      | true ↦ scan_value h f (skip_space (tail (skip_space r))) >>= λ v q.
          elim (starts 125 (skip_space q)) [
            | true ↦ got (field (name k) v end) (tail (skip_space q))
            | false ↦ elim (starts 44 (skip_space q)) [
              | true ↦ scan_fields h f (skip_space (tail (skip_space q))) >>= λ fs p.
                  got (field (name k) v fs) p
              | false ↦ failed malformed
            ]
          ]
    ]
  ]

-- nothing but spaces may follow the value
finish : Read Value → Read Value
unfolding skip_space
finish (failed e) = failed e
finish (got v r) = elim (skip_space r) [ [] ↦ got v [] | c ∷ t ↦ failed malformed ]

-- A text that begins with a byte order mark is refused.
unfoldable pub json_loads : Hooks → Text → Read Value
unfolding scan_value finish
json_loads h t = elim (starts 65279 t) [
  | true ↦ failed malformed
  | false ↦ finish (scan_value h (2 * length t + 2) (skip_space t))
]
