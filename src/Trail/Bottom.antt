-- ===== src/Trail/Bottom.antt =====
-- The levels of the tree, read from the leaves up, give the paths of `audit_path`, of omega_evidence/interop/aat.py.
use omega_evidence.Base.{
  ℕ, zero, suc, ◌+◌, ◌/◌, ◌≤◌, ◌<◌, none, some, List, [], ◌∷◌, ◌++◌, ltb, length, get_elem?,
  if◌then◌else◌, ◌≡◌, refl, ap, sym, ◌∙◌, arith, ltb→lt,
}
use omega_evidence.Trail.Merkle.{Hash, audit_on, audit_path}
use omega_evidence.Trail.Levels.{
  step_at, path_through, paths_from, pair_up, levels_on, merkle_levels, audit_paths,
}
use omega_evidence.Trail.Halves.{length-pair_up}
use omega_evidence.Trail.Paths.{ltb-suc, suc-plus, zero-plus, if-some, audit, audit-pair_up_on}

module _ (sha256 : List ℕ → Hash) where
  -- The levels above the leaves.
  path_through-cons :
      (lvl : List Hash) (f : ℕ) (xs : List Hash) (i : ℕ)
      → path_through (lvl ∷ levels_on sha256 f xs) i
        ≡ step_at lvl i ++ path_through (levels_on sha256 f xs) (i / 2)
  unfolding levels_on path_through
  path_through-cons lvl zero xs i = refl
  path_through-cons lvl (suc f) [] i = refl
  path_through-cons lvl (suc f) (x ∷ []) i = refl
  path_through-cons lvl (suc f) (x ∷ y ∷ xs) i = refl

  single : (x : Hash) (i : ℕ) → path_through ((x ∷ []) ∷ []) i ≡ audit sha256 (x ∷ []) i
  unfolding path_through audit_on
  single x i = refl

  path_through-levels_on :
      (f : ℕ) (xs : List Hash) (i : ℕ)
      → length xs ≤ f
      → i < length xs
      → path_through (levels_on sha256 f xs) i ≡ audit sha256 xs i
  unfolding levels_on
  path_through-levels_on f [] i h less = absurd (omega arith)
  path_through-levels_on zero (x ∷ xs) i h less = absurd (omega arith)
  path_through-levels_on (suc f) (x ∷ []) i h less = single x i
  path_through-levels_on (suc f) (x ∷ y ∷ xs) i h less =
      let all = x ∷ y ∷ xs in
      path_through-cons all f (pair_up sha256 all) i
      ∙ ap (λ p. step_at all i ++ p)
          (path_through-levels_on f (pair_up sha256 all) (i / 2)
            (omega (arith, length-pair_up sha256 all)) (omega (arith, length-pair_up sha256 all)))
      ∙ sym (audit-pair_up_on sha256 (length all) all i (omega arith) less)

  get_elem?-paths_from :
      (levels : List (List Hash)) (i count j : ℕ)
      → get_elem? (paths_from levels i count) j
        ≡ (if ltb j count then some (path_through levels (i + j)) else none)
  unfolding paths_from
  get_elem?-paths_from levels i zero j = ground arith
  get_elem?-paths_from levels i (suc count) zero = ground arith
  get_elem?-paths_from levels i (suc count) (suc j) =
      get_elem?-paths_from levels (suc i) count j ∙ shift
    where
      shift :
          (if ltb j count then some (path_through levels (suc i + j)) else none)
          ≡ (if ltb (suc j) (suc count) then some (path_through levels (i + suc j)) else none)
      shift = rw (ltb-suc j count, suc-plus i j) refl

  -- The paths that `audit_paths` reads off one tree, built from the leaves up, are those that
  -- `audit_path` computes leaf by leaf from the top down: for each index of each list of leaves,
  -- with no path where `audit_path` raises.
  pub audit_paths-audit_path :
      (leaves : List Hash) (i : ℕ)
      → get_elem? (audit_paths sha256 leaves) i ≡ audit_path sha256 leaves i
  unfolding audit_paths merkle_levels audit_path
  audit_paths-audit_path [] i = ground arith
  audit_paths-audit_path (x ∷ xs) i =
      let all = x ∷ xs in
      let levels = levels_on sha256 (length all) all in
      get_elem?-paths_from levels 0 (length all) i
      ∙ if-some (ltb i (length all)) (λ l.
        ap (path_through levels) (zero-plus i)
        ∙ path_through-levels_on (length all) all i (omega arith) (ltb→lt i (length all) l))
