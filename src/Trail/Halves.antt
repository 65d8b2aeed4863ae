-- ===== src/Trail/Halves.antt =====
-- How the split point of a tree goes with the pairing of its leaves.
use omega_evidence.Base.{
  ℕ, zero, suc, ◌+◌, ◌*◌, ◌/◌, ◌≤◌, List, [], ◌∷◌, length, take, drop, ◌≡◌, refl, ap, ◌∙◌, arith,
  lt→ltb, if-true,
}
use omega_evidence.Trail.Merkle.{Hash, doubled, split_point, node}
use omega_evidence.Trail.Levels.{pair_up}

-- (n + 1) / 2, the number of pairs of n leaves
abbrev pub pairs : ℕ → ℕ
pairs n = (n + 1) / 2

doubled-eq : (f g k n : ℕ) → 1 ≤ k → n ≤ f + k → n ≤ g + k → doubled f k n ≡ doubled g k n
unfolding doubled
doubled-eq zero zero k n p a b = refl
doubled-eq zero (suc g) k n p a b = ground arith
doubled-eq (suc f) zero k n p a b = ground arith
doubled-eq (suc f) (suc g) k n p a b =
    ground (arith, doubled-eq f g (k * 2) n (omega arith) (omega arith) (omega arith))

doubled-twice : (f k n : ℕ) → doubled f (k * 2) n ≡ doubled f k (pairs n) * 2
unfolding doubled
doubled-twice zero k n = refl
doubled-twice (suc f) k n = ground (arith, doubled-twice f (k * 2) n)

-- From three leaves on, the split point is twice that of the pairs.
pub split_point-pairs : (n : ℕ) → 3 ≤ n → split_point n ≡ split_point (pairs n) * 2
unfolding split_point
split_point-pairs zero h = absurd (omega arith)
split_point-pairs (suc n) h =
    if-true _ _ (lt→ltb 2 (suc n) (omega arith))
    ∙ doubled-twice n 1 (suc n)
    ∙ ap (λ k. k * 2)
        (doubled-eq n (pairs (suc n)) 1 (pairs (suc n)) (omega arith) (omega arith) (omega arith))

suc-twice : (k : ℕ) → suc k * 2 ≡ suc (suc (k * 2))
suc-twice k = omega arith

module _ (sha256 : List ℕ → Hash) where
  pub length-pair_up : (xs : List Hash) → length (pair_up sha256 xs) ≡ pairs (length xs)
  unfolding pair_up
  length-pair_up [] = refl
  length-pair_up (x ∷ []) = refl
  length-pair_up (x ∷ y ∷ xs) = omega (arith, length-pair_up xs)

  pub take-pair_up :
      (k : ℕ) (xs : List Hash) → take k (pair_up sha256 xs) ≡ pair_up sha256 (take (k * 2) xs)
  unfolding pair_up
  take-pair_up zero xs = refl
  take-pair_up (suc k) [] = rw (suc-twice k) refl
  take-pair_up (suc k) (x ∷ []) = rw (suc-twice k) (one k)
    where
      one : (k : ℕ) → x ∷ take k [] ≡ pair_up sha256 (take (suc (suc (k * 2))) (x ∷ []))
      one zero = refl
      one (suc k) = refl
  take-pair_up (suc k) (x ∷ y ∷ xs) =
      rw (suc-twice k) (ap (λ t. node sha256 x y ∷ t) (take-pair_up k xs))

  pub drop-pair_up :
      (k : ℕ) (xs : List Hash) → drop k (pair_up sha256 xs) ≡ pair_up sha256 (drop (k * 2) xs)
  unfolding pair_up
  drop-pair_up zero xs = refl
  drop-pair_up (suc k) [] = rw (suc-twice k) refl
  drop-pair_up (suc k) (x ∷ []) = rw (suc-twice k) (none_left k)
    where
      none_left : (k : ℕ) → drop k [] ≡ pair_up sha256 (drop (suc (suc (k * 2))) (x ∷ []))
      none_left zero = refl
      none_left (suc k) = refl
  drop-pair_up (suc k) (x ∷ y ∷ xs) = rw (suc-twice k) (drop-pair_up k xs)
