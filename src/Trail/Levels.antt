-- ===== src/Trail/Levels.antt =====
-- `merkle_levels` and `audit_paths` of omega_evidence/interop/aat.py: the tree built once, from the
-- leaves up.
use omega_evidence.Base.{
  ℕ, zero, suc, ◌-◌, ◌/◌, ◌%◌, Bool, Option, none, some, List, [], ◌∷◌, ◌++◌, if◌then◌else◌, ltb,
  ◌==◌, length, get_elem?,
}
use omega_evidence.Trail.Merkle.{Hash, Step, left, right, node}

-- pos ^ 1
unfoldable pub beside : ℕ → ℕ
beside pos = if pos % 2 == 0 then suc pos else pos - 1

abbrev pub step_of : Option Hash → Bool → List Step
step_of none lower = []
step_of (some h) lower = record { hash = h; side = if lower then left else right } ∷ []

-- The step at one level: none for an unpaired node.
unfoldable pub step_at : List Hash → ℕ → List Step
unfolding beside
step_at lvl pos = step_of (get_elem? lvl (beside pos)) (ltb (beside pos) pos)

-- The loop over `levels[:-1]`.
unfoldable pub path_through : List (List Hash) → ℕ → List Step
unfolding step_at
path_through [] pos = []
path_through (lvl ∷ []) pos = []
path_through (lvl ∷ above ∷ levels) pos = step_at lvl pos ++ path_through (above ∷ levels) (pos / 2)

-- The paths of `count` leaves from the i-th on.
unfoldable pub paths_from : List (List Hash) → ℕ → ℕ → List (List Step)
unfolding path_through
paths_from levels i zero = []
paths_from levels i (suc count) = path_through levels i ∷ paths_from levels (suc i) count

module _ (sha256 : List ℕ → Hash) where
  -- The level above: an unpaired last node is promoted.
  unfoldable pub pair_up : List Hash → List Hash
  pair_up [] = []
  pair_up (x ∷ []) = x ∷ []
  pair_up (x ∷ y ∷ xs) = node sha256 x y ∷ pair_up xs

  -- Each level is shorter than the one below it, so the number of leaves is fuel enough.
  unfoldable pub levels_on : ℕ → List Hash → List (List Hash)
  unfolding pair_up
  levels_on zero cur = cur ∷ []
  levels_on (suc f) [] = [] ∷ []
  levels_on (suc f) (x ∷ []) = (x ∷ []) ∷ []
  levels_on (suc f) (x ∷ y ∷ xs) = (x ∷ y ∷ xs) ∷ levels_on f (pair_up (x ∷ y ∷ xs))

  unfoldable pub merkle_levels : List Hash → List (List Hash)
  unfolding levels_on
  merkle_levels [] = (sha256 [] ∷ []) ∷ []
  merkle_levels (x ∷ xs) = levels_on (length (x ∷ xs)) (x ∷ xs)

  unfoldable pub audit_paths : List Hash → List (List Step)
  unfolding merkle_levels paths_from
  audit_paths leaves = paths_from (merkle_levels leaves) 0 (length leaves)
