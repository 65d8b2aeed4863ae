-- ===== src/Trail/Rebuild.antt =====
-- `merkle_levels` of omega_evidence/interop/aat.py builds the tree of `merkle_root`.
use omega_evidence.Base.{
  ℕ, zero, suc, ◌*◌, ◌≤◌, Option, none, some, List, [], ◌∷◌, length, take, drop, ◌≡◌, refl, ap, sym,
  ◌∙◌, arith, length-take, length-drop,
}
use omega_evidence.Trail.Merkle.{Hash, split_point, node, merkle_root, root_on}
use omega_evidence.Trail.Inclusion.{split_point_bounds, merkle_root-node}
use omega_evidence.Trail.Levels.{pair_up, levels_on, merkle_levels}
use omega_evidence.Trail.Halves.{
  pairs, split_point-pairs, length-pair_up, take-pair_up, drop-pair_up,
}

-- levels[-1]
abbrev pub last_level : List (List Hash) → Option (List Hash)
last_level [] = none
last_level (l ∷ []) = some l
last_level (l ∷ m ∷ ls) = last_level (m ∷ ls)

module _ (sha256 : List ℕ → Hash) where
  -- The root of a list with at least two leaves, whatever it looks like.
  pub merkle_root-split :
      (xs : List Hash) (k : ℕ)
      → 2 ≤ length xs
      → split_point (length xs) ≡ k
      → merkle_root sha256 xs
        ≡ node sha256 (merkle_root sha256 (take k xs)) (merkle_root sha256 (drop k xs))
  merkle_root-split [] k h e = absurd (omega arith)
  merkle_root-split (x ∷ []) k h e = absurd (omega arith)
  merkle_root-split (x ∷ y ∷ xs) k h e = rw (sym e) (merkle_root-node sha256 x y xs)

  node-both : {a b c d : Hash} → a ≡ b → c ≡ d → node sha256 a c ≡ node sha256 b d
  node-both p q = rw (p, q) refl

  merkle_root-two : (x y : Hash) → merkle_root sha256 (x ∷ y ∷ []) ≡ node sha256 x y
  unfolding merkle_root root_on split_point
  merkle_root-two x y = refl

  merkle_root-one : (x : Hash) → merkle_root sha256 (x ∷ []) ≡ x
  unfolding merkle_root root_on
  merkle_root-one x = refl

  -- Pairing at least three leaves keeps the root if it does so in both halves.
  merkle_root-halves :
      (xs : List Hash) (k : ℕ)
      → 3 ≤ length xs
      → split_point (pairs (length xs)) ≡ k
      → merkle_root sha256 (pair_up sha256 (take (k * 2) xs)) ≡ merkle_root sha256 (take (k * 2) xs)
      → merkle_root sha256 (pair_up sha256 (drop (k * 2) xs)) ≡ merkle_root sha256 (drop (k * 2) xs)
      → merkle_root sha256 (pair_up sha256 xs) ≡ merkle_root sha256 xs
  merkle_root-halves xs k h e lower upper =
      merkle_root-split (pair_up sha256 xs) k (omega (arith, length-pair_up sha256 xs))
        (ap split_point (length-pair_up sha256 xs) ∙ e)
      ∙ node-both (ap (merkle_root sha256) (take-pair_up sha256 k xs) ∙ lower)
          (ap (merkle_root sha256) (drop-pair_up sha256 k xs) ∙ upper)
      ∙ sym (
          merkle_root-split xs (k * 2) (omega arith)
            (split_point-pairs (length xs) h ∙ ap (λ j. j * 2) e))

  merkle_root-pair_up_on :
      (f : ℕ) (xs : List Hash)
      → length xs ≤ f
      → merkle_root sha256 (pair_up sha256 xs) ≡ merkle_root sha256 xs
  unfolding pair_up
  merkle_root-pair_up_on f [] h = refl
  merkle_root-pair_up_on f (x ∷ []) h = refl
  merkle_root-pair_up_on f (x ∷ y ∷ []) h =
      merkle_root-one (node sha256 x y) ∙ sym (merkle_root-two x y)
  merkle_root-pair_up_on zero (x ∷ y ∷ z ∷ xs) h = absurd (omega arith)
  merkle_root-pair_up_on (suc f) (x ∷ y ∷ z ∷ xs) h =
      let all = x ∷ y ∷ z ∷ xs in
      let k = split_point (pairs (length all)) in
      let (pos, less, _) = split_point_bounds (pairs (length all)) (omega arith) in
      merkle_root-halves all k (omega arith) refl
        (merkle_root-pair_up_on f (take (k * 2) all) (omega (arith, length-take (k * 2) all)))
        (merkle_root-pair_up_on f (drop (k * 2) all) (omega (arith, length-drop (k * 2) all)))

  -- Pairing the leaves keeps the root.
  pub merkle_root-pair_up :
      (xs : List Hash) → merkle_root sha256 (pair_up sha256 xs) ≡ merkle_root sha256 xs
  merkle_root-pair_up xs = merkle_root-pair_up_on (length xs) xs (omega arith)

  last_level-cons :
      (l : List Hash) (f : ℕ) (xs : List Hash)
      → last_level (l ∷ levels_on sha256 f xs) ≡ last_level (levels_on sha256 f xs)
  unfolding levels_on
  last_level-cons l zero xs = refl
  last_level-cons l (suc f) [] = refl
  last_level-cons l (suc f) (x ∷ []) = refl
  last_level-cons l (suc f) (x ∷ y ∷ xs) = refl

  last_level-levels_on :
      (f : ℕ) (x : Hash) (xs : List Hash)
      → length (x ∷ xs) ≤ f
      → last_level (levels_on sha256 f (x ∷ xs)) ≡ some (merkle_root sha256 (x ∷ xs) ∷ [])
  unfolding levels_on pair_up
  last_level-levels_on zero x xs h = absurd (omega arith)
  last_level-levels_on (suc f) x [] h = ap (λ r. some (r ∷ [])) (sym (merkle_root-one x))
  last_level-levels_on (suc f) x (y ∷ xs) h =
      last_level-cons (x ∷ y ∷ xs) f (pair_up sha256 (x ∷ y ∷ xs))
      ∙ last_level-levels_on f (node sha256 x y) (pair_up sha256 xs)
          (omega (arith, length-pair_up sha256 xs))
      ∙ ap (λ r. some (r ∷ [])) (merkle_root-pair_up (x ∷ y ∷ xs))

  -- The tree that `merkle_levels` builds from the leaves up ends in the one root that
  -- `merkle_root` computes from the top down, for every list of leaves, the empty one too.
  pub merkle_levels-merkle_root :
      (leaves : List Hash)
      → last_level (merkle_levels sha256 leaves) ≡ some (merkle_root sha256 leaves ∷ [])
  unfolding merkle_levels merkle_root root_on
  merkle_levels-merkle_root [] = refl
  merkle_levels-merkle_root (x ∷ xs) = last_level-levels_on (length (x ∷ xs)) x xs (omega arith)
