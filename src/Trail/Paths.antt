-- ===== src/Trail/Paths.antt =====
-- The audit path of a leaf of the tree of omega_evidence/interop/aat.py, one level at a time.
use mathlib.Core.List.{append_assoc}
use omega_evidence.Base.{
  ℕ, zero, suc, ◌+◌, ◌-◌, ◌*◌, ◌/◌, ◌≤◌, ◌<◌, Bool, true, false, none, some, List, [], ◌∷◌, ◌++◌,
  ltb, length, take, drop, get_elem?, if◌then◌else◌, ◌≡◌, refl, ap, sym, ◌∙◌, arith, inl, inr,
  Bool-cases, length-take, length-drop, tests, lt→ltb,
}
use omega_evidence.Trail.Merkle.{
  Hash, Step, left, right, split_point, merkle_root, root_on, audit_on,
}
use omega_evidence.Trail.Inclusion.{split_point_bounds, get_elem?-take, get_elem?-drop}
use omega_evidence.Trail.Levels.{beside, step_of, step_at, pair_up}
use omega_evidence.Trail.Halves.{
  pairs, split_point-pairs, length-pair_up, take-pair_up, drop-pair_up,
}
use omega_evidence.Trail.Rebuild.{merkle_root-pair_up}

beside-lower : (k i : ℕ) → i < k * 2 → beside i < k * 2
unfolding beside
beside-lower k i h = ground arith

beside-upper : (k i : ℕ) → k * 2 ≤ i → (k * 2 ≤ beside i) × (beside (i - k * 2) ≡ beside i - k * 2)
unfolding beside
beside-upper k i h = ground arith

step_at-take : (k i : ℕ) (xs : List Hash) → i < k * 2 → step_at (take (k * 2) xs) i ≡ step_at xs i
unfolding step_at
step_at-take k i xs h =
    ap (λ o. step_of o (ltb (beside i) i))
      (get_elem?-take (k * 2) (beside i) xs (beside-lower k i h))

same_side : (k i : ℕ) → k * 2 ≤ i → ltb (beside i - k * 2) (i - k * 2) ≡ ltb (beside i) i
same_side k i h = ground (arith, beside-upper k i h)

step_at-drop :
    (k i : ℕ) (xs : List Hash) → k * 2 ≤ i → step_at (drop (k * 2) xs) (i - k * 2) ≡ step_at xs i
unfolding step_at
step_at-drop k i xs h =
    let (above, same) = beside-upper k i h in
    ap (λ b. step_of (get_elem? (drop (k * 2) xs) b) (ltb b (i - k * 2))) same
    ∙ ap (λ o. step_of o (ltb (beside i - k * 2) (i - k * 2)))
        (get_elem?-drop (k * 2) (beside i) xs above)
    ∙ ap (step_of (get_elem? xs (beside i))) (same_side k i h)

pub ltb-suc : (i j : ℕ) → ltb (suc i) (suc j) ≡ ltb i j
ltb-suc i j = ground arith

pub suc-plus : (i j : ℕ) → i + suc j ≡ suc i + j
suc-plus i j = omega arith

pub zero-plus : (i : ℕ) → 0 + i ≡ i
zero-plus i = omega arith

pub if-some :
    {A : Type 0} (b : Bool) {p q : A}
    → (b ≡ true → p ≡ q)
    → (if b then some p else none) ≡ (if b then some q else none)
if-some true h = ap some (h refl)
if-some false h = refl

module _ (sha256 : List ℕ → Hash) where
  audit_on-eq :
      (f g : ℕ) (xs : List Hash) (i : ℕ)
      → length xs ≤ f
      → length xs ≤ g
      → audit_on sha256 f xs i ≡ audit_on sha256 g xs i
  unfolding audit_on
  audit_on-eq zero zero xs i a b = refl
  audit_on-eq zero (suc g) [] i a b = refl
  audit_on-eq zero (suc g) (x ∷ xs) i a b = absurd (omega arith)
  audit_on-eq (suc f) zero [] i a b = refl
  audit_on-eq (suc f) zero (x ∷ xs) i a b = absurd (omega arith)
  audit_on-eq (suc f) (suc g) [] i a b = refl
  audit_on-eq (suc f) (suc g) (x ∷ []) i a b = refl
  audit_on-eq (suc f) (suc g) (x ∷ y ∷ xs) i a b =
      let all = x ∷ y ∷ xs in
      let k = split_point (length all) in
      let (pos, less, _) = split_point_bounds (length all) (omega arith) in
      rw
        (
          audit_on-eq f g (take k all) i (omega (arith, length-take k all))
              (omega (arith, length-take k all)),
          audit_on-eq f g (drop k all) (i - k) (omega (arith, length-drop k all))
              (omega (arith, length-drop k all)),
        )
        refl

  -- The path of a leaf that is there.
  abbrev pub audit : List Hash → ℕ → List Step
  audit xs i = audit_on sha256 (length xs) xs i

  audit-lower :
      (xs : List Hash) (k i : ℕ)
      → 2 ≤ length xs
      → split_point (length xs) ≡ k
      → i < k
      → audit xs i
        ≡ audit (take k xs) i
          ++ (record { hash = merkle_root sha256 (drop k xs); side = right } ∷ [])
  unfolding audit_on
  audit-lower [] k i h e less = absurd (omega arith)
  audit-lower (x ∷ []) k i h e less = absurd (omega arith)
  audit-lower (x ∷ y ∷ xs) k i h e less =
      let all = x ∷ y ∷ xs in
      let (pos, bound, _) = split_point_bounds (length all) (omega arith) in
      rw
        (
          e,
          lt→ltb i k less,
          audit_on-eq (suc (length xs)) (length (take k all)) (take k all) i
              (omega (arith, length-take k all)) (omega arith),
        )
        refl

  audit-upper :
      (xs : List Hash) (k i : ℕ)
      → 2 ≤ length xs
      → split_point (length xs) ≡ k
      → k ≤ i
      → audit xs i
        ≡ audit (drop k xs) (i - k)
          ++ (record { hash = merkle_root sha256 (take k xs); side = left } ∷ [])
  unfolding audit_on
  audit-upper [] k i h e less = absurd (omega arith)
  audit-upper (x ∷ []) k i h e less = absurd (omega arith)
  audit-upper (x ∷ y ∷ xs) k i h e above =
      let all = x ∷ y ∷ xs in
      let (pos, bound, _) = split_point_bounds (length all) (omega arith) in
      rw
        (
          e,
          not_less i k above,
          audit_on-eq (suc (length xs)) (length (drop k all)) (drop k all) (i - k)
              (omega (arith, length-drop k all)) (omega arith),
        )
        refl
    where
      not_less : (i k : ℕ) → k ≤ i → ltb i k ≡ false
      not_less i k h = ground arith

  audit-one :
      (x : Hash) → audit (x ∷ []) 0 ≡ step_at (x ∷ []) 0 ++ audit (pair_up sha256 (x ∷ [])) 0
  unfolding audit_on step_at pair_up
  audit-one x = refl

  audit-first :
      (x y : Hash)
      → audit (x ∷ y ∷ []) 0 ≡ step_at (x ∷ y ∷ []) 0 ++ audit (pair_up sha256 (x ∷ y ∷ [])) 0
  unfolding audit_on step_at pair_up merkle_root root_on split_point
  audit-first x y = refl

  audit-second :
      (x y : Hash)
      → audit (x ∷ y ∷ []) 1 ≡ step_at (x ∷ y ∷ []) 1 ++ audit (pair_up sha256 (x ∷ y ∷ [])) 0
  unfolding audit_on step_at pair_up merkle_root root_on split_point
  audit-second x y = refl

  -- A path in the paired leaves, by the halves of the leaves.
  paired-lower :
      (xs : List Hash) (k i : ℕ)
      → 3 ≤ length xs
      → split_point (pairs (length xs)) ≡ k
      → i < k
      → audit (pair_up sha256 xs) i
        ≡ audit (pair_up sha256 (take (k * 2) xs)) i
          ++ (record { hash = merkle_root sha256 (drop (k * 2) xs); side = right } ∷ [])
  paired-lower xs k i h e less =
      audit-lower (pair_up sha256 xs) k i (omega (arith, length-pair_up sha256 xs))
        (ap split_point (length-pair_up sha256 xs) ∙ e) less
      ∙ rw
          (
            take-pair_up sha256 k xs,
            drop-pair_up sha256 k xs,
            merkle_root-pair_up sha256 (drop (k * 2) xs),
          )
          refl

  paired-upper :
      (xs : List Hash) (k i : ℕ)
      → 3 ≤ length xs
      → split_point (pairs (length xs)) ≡ k
      → k ≤ i
      → audit (pair_up sha256 xs) i
        ≡ audit (pair_up sha256 (drop (k * 2) xs)) (i - k)
          ++ (record { hash = merkle_root sha256 (take (k * 2) xs); side = left } ∷ [])
  paired-upper xs k i h e above =
      audit-upper (pair_up sha256 xs) k i (omega (arith, length-pair_up sha256 xs))
        (ap split_point (length-pair_up sha256 xs) ∙ e) above
      ∙ rw
          (
            take-pair_up sha256 k xs,
            drop-pair_up sha256 k xs,
            merkle_root-pair_up sha256 (take (k * 2) xs),
          )
          refl

  -- The path of a leaf is its step to its neighbour and then the path of the pair.
  abbrev StepsUp : List Hash → ℕ → Type 0
  StepsUp xs i = audit xs i ≡ step_at xs i ++ audit (pair_up sha256 xs) (i / 2)

  audit-halves :
      (xs : List Hash) (k i : ℕ)
      → 3 ≤ length xs
      → i < length xs
      → split_point (pairs (length xs)) ≡ k
      → (i < k * 2 → StepsUp (take (k * 2) xs) i)
      → (k * 2 ≤ i → StepsUp (drop (k * 2) xs) (i - k * 2))
      → StepsUp xs i
  audit-halves xs k i h less e lower upper = elim (Bool-cases (ltb i (k * 2))) [
    | inl t ↦ in_lower (omega tests)
    | inr f ↦ in_upper (not_lower f)
  ]
    where
      not_lower : ltb i (k * 2) ≡ false → k * 2 ≤ i
      not_lower f = ground arith

      split : split_point (length xs) ≡ k * 2
      split = split_point-pairs (length xs) h ∙ ap (λ j. j * 2) e

      in_lower : i < k * 2 → StepsUp xs i
      in_lower l =
          audit-lower xs (k * 2) i (omega arith) split l
          ∙ ap
              (λ p.
                p ++ (record { hash = merkle_root sha256 (drop (k * 2) xs); side = right } ∷ []))
              (lower l
                ∙ ap (λ s. s ++ audit (pair_up sha256 (take (k * 2) xs)) (i / 2))
                    (step_at-take k i xs l))
          ∙ append_assoc (step_at xs i) (audit (pair_up sha256 (take (k * 2) xs)) (i / 2)) _
          ∙ ap (λ p. step_at xs i ++ p) (sym (paired-lower xs k (i / 2) h e (omega arith)))

      shift : k * 2 ≤ i → (i - k * 2) / 2 ≡ i / 2 - k
      shift u = omega arith

      in_upper : k * 2 ≤ i → StepsUp xs i
      in_upper u =
          audit-upper xs (k * 2) i (omega arith) split u
          ∙ ap
              (λ p. p ++ (record { hash = merkle_root sha256 (take (k * 2) xs); side = left } ∷ []))
              (upper u
                ∙ ap (λ s. s ++ audit (pair_up sha256 (drop (k * 2) xs)) ((i - k * 2) / 2))
                    (step_at-drop k i xs u)
                ∙ ap (λ j. step_at xs i ++ audit (pair_up sha256 (drop (k * 2) xs)) j) (shift u))
          ∙ append_assoc (step_at xs i) (audit (pair_up sha256 (drop (k * 2) xs)) (i / 2 - k)) _
          ∙ ap (λ p. step_at xs i ++ p) (sym (paired-upper xs k (i / 2) h e (omega arith)))

  pub audit-pair_up_on :
      (f : ℕ) (xs : List Hash) (i : ℕ)
      → length xs ≤ f
      → i < length xs
      → audit xs i ≡ step_at xs i ++ audit (pair_up sha256 xs) (i / 2)
  audit-pair_up_on f [] i h less = absurd (omega arith)
  audit-pair_up_on f (x ∷ []) zero h less = audit-one x
  audit-pair_up_on f (x ∷ []) (suc i) h less = absurd (omega arith)
  audit-pair_up_on f (x ∷ y ∷ []) zero h less = audit-first x y
  audit-pair_up_on f (x ∷ y ∷ []) (suc zero) h less = audit-second x y
  audit-pair_up_on f (x ∷ y ∷ []) (suc (suc i)) h less = absurd (omega arith)
  audit-pair_up_on zero (x ∷ y ∷ z ∷ xs) i h less = absurd (omega arith)
  audit-pair_up_on (suc f) (x ∷ y ∷ z ∷ xs) i h less =
      let all = x ∷ y ∷ z ∷ xs in
      let k = split_point (pairs (length all)) in
      let (pos, bound, _) = split_point_bounds (pairs (length all)) (omega arith) in
      audit-halves all k i (omega arith) less refl
        (λ l.
          audit-pair_up_on f (take (k * 2) all) i (omega (arith, length-take (k * 2) all))
            (omega (arith, length-take (k * 2) all)))
        (λ u.
          audit-pair_up_on f (drop (k * 2) all) (i - k * 2) (omega (arith, length-drop (k * 2) all))
            (omega (arith, length-drop (k * 2) all)))
