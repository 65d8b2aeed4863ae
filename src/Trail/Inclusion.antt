-- ===== src/Trail/Inclusion.antt =====
-- What the audit paths of the Merkle tree prove.
use mathlib.Core.List.{reverse, reverse-append}
use native.Mathlib.Numerals.{unary_clauses}
use omega_evidence.Base.{
  ℕ, zero, suc, ◌+◌, ◌-◌, ◌*◌, ◌≤◌, ◌<◌, true, false, Option, none, some, List, [], ◌∷◌, ◌++◌, ltb,
  length, take, drop, get_elem?, ◌≡◌, refl, ap, ◌∙◌, arith, inl, inr, Bool-cases, length-take,
  length-drop, tests,
}
use omega_evidence.Trail.Merkle.{
  Hash, Step, left, right, doubled, split_point, descend, index_from_path, node, root_on,
  merkle_root, audit_on, audit_path, climb, root_from_path,
}

-- A power of two below n stays below it while it is doubled, and is at least its half at the end.
doubled_bounds :
    (f k n : ℕ)
    → 1 ≤ k
    → k < n
    → n ≤ f + k
    → (1 ≤ doubled f k n) × (doubled f k n < n) × (n ≤ doubled f k n * 2)
unfolding doubled
doubled_bounds zero k n a b c = absurd (omega arith)
doubled_bounds (suc f) k n a b c = elim (Bool-cases (ltb (k * 2) n)) [
  | inl more ↦
      rw (more, doubled) (doubled_bounds f (k * 2) n (omega arith) (omega tests) (omega arith))
  | inr done ↦ rw (done, doubled) (a, b, ground arith)
]

-- For n of at least 2 the two halves are not empty, and the lower one is at least the upper one.
pub split_point_bounds :
    (n : ℕ) → 2 ≤ n → (1 ≤ split_point n) × (split_point n < n) × (n ≤ split_point n * 2)
unfolding split_point
split_point_bounds n h = doubled_bounds n 1 n (omega arith) (omega arith) (omega arith)

pub get_elem?-take : (k i : ℕ) (xs : List Hash) → i < k → get_elem? (take k xs) i ≡ get_elem? xs i
get_elem?-take zero i xs h = absurd (omega arith)
get_elem?-take (suc k) i [] h = refl
get_elem?-take (suc k) zero (x ∷ xs) h = refl
get_elem?-take (suc k) (suc i) (x ∷ xs) h = get_elem?-take k i xs (omega arith)

pub get_elem?-drop :
    (k i : ℕ) (xs : List Hash) → k ≤ i → get_elem? (drop k xs) (i - k) ≡ get_elem? xs i
get_elem?-drop zero i xs h = simp unary_clauses refl
get_elem?-drop (suc k) zero xs h = absurd (omega arith)
get_elem?-drop (suc k) (suc i) [] h = refl
get_elem?-drop (suc k) (suc i) (x ∷ xs) h = simp unary_clauses (get_elem?-drop k i xs (omega arith))

pub in_range :
    (xs : List Hash) (i : ℕ) (x : Hash) → get_elem? xs i ≡ some x → ltb i (length xs) ≡ true
in_range [] i x e = cc
in_range (y ∷ xs) zero x e = ground arith
in_range (y ∷ xs) (suc i) x e = ground (arith, in_range xs i x e)

pub out_of_range : (xs : List Hash) (i : ℕ) → get_elem? xs i ≡ none → ltb i (length xs) ≡ false
out_of_range [] i e = ground arith
out_of_range (y ∷ xs) zero e = cc
out_of_range (y ∷ xs) (suc i) e = ground (arith, out_of_range xs i e)

module _ (sha256 : List ℕ → Hash) where
  root_on-eq :
      (f g : ℕ) (xs : List Hash)
      → length xs ≤ f
      → length xs ≤ g
      → root_on sha256 f xs ≡ root_on sha256 g xs
  unfolding root_on
  root_on-eq zero zero xs a b = refl
  root_on-eq zero (suc g) [] a b = refl
  root_on-eq zero (suc g) (x ∷ xs) a b = absurd (omega arith)
  root_on-eq (suc f) zero [] a b = refl
  root_on-eq (suc f) zero (x ∷ xs) a b = absurd (omega arith)
  root_on-eq (suc f) (suc g) [] a b = refl
  root_on-eq (suc f) (suc g) (x ∷ []) a b = refl
  root_on-eq (suc f) (suc g) (x ∷ y ∷ xs) a b =
      let all = x ∷ y ∷ xs in
      let k = split_point (length all) in
      let (pos, less, _) = split_point_bounds (length all) (omega arith) in
      let lower =
        root_on-eq f g (take k all) (omega (arith, length-take k all))
          (omega (arith, length-take k all)) in
      let upper =
        root_on-eq f g (drop k all) (omega (arith, length-drop k all))
          (omega (arith, length-drop k all)) in
      rw (lower, upper) refl

  -- The number of leaves is fuel enough: more gives the same root.
  pub root_on_enough :
      (f : ℕ) (xs : List Hash) → length xs ≤ f → root_on sha256 f xs ≡ merkle_root sha256 xs
  unfolding merkle_root
  root_on_enough f xs h = root_on-eq f (length xs) xs h (omega arith)

  root_from_path-snoc :
      (h : Hash) (path : List Step) (s : Step)
      → root_from_path sha256 h (path ++ (s ∷ [])) ≡ climb sha256 s (root_from_path sha256 h path)
  unfolding root_from_path
  root_from_path-snoc h [] s = refl
  root_from_path-snoc h (t ∷ path) s = root_from_path-snoc (climb sha256 t h) path s

  -- The steps from the root down.
  descend-snoc :
      (lo size : ℕ) (path : List Step) (s : Step)
      → 2 ≤ size
      → descend lo size (reverse (path ++ (s ∷ []))) ≡ (elim s.side [
        | right ↦ descend lo (split_point size) (reverse path)
        | left ↦ descend (lo + split_point size) (size - split_point size) (reverse path)
      ])
  unfolding descend
  descend-snoc lo size path s h = rw (reverse-append path (s ∷ [])) (ground arith)

  pub merkle_root-node :
      (x y : Hash) (xs : List Hash)
      → let k = split_point (length (x ∷ y ∷ xs)) in
        merkle_root sha256 (x ∷ y ∷ xs)
        ≡ node sha256
            (merkle_root sha256 (take k (x ∷ y ∷ xs)))
            (merkle_root sha256 (drop k (x ∷ y ∷ xs)))
  unfolding merkle_root root_on
  merkle_root-node x y xs =
      let all = x ∷ y ∷ xs in
      let k = split_point (length all) in
      let (pos, less, _) = split_point_bounds (length all) (omega arith) in
      rw
        (
          root_on_enough (suc (length xs)) (take k all) (omega (arith, length-take k all)),
          root_on_enough (suc (length xs)) (drop k all) (omega (arith, length-drop k all)),
        )
        refl

  -- One step more at the end of a path, above the root r that it proves.
  module _ (leaf r u : Hash) (path : List Step) (n lo v : ℕ) (big : 2 ≤ n)
      (proves : root_from_path sha256 leaf path ≡ r) where
    from_lower :
        descend lo (split_point n) (reverse path) ≡ some v
        → let longer = path ++ (record { hash = u; side = right } ∷ []) in
          (root_from_path sha256 leaf longer ≡ node sha256 r u)
          × (descend lo n (reverse longer) ≡ some v)
    from_lower d = (rw (root_from_path-snoc, proves) refl, rw (descend-snoc lo n path _ big) d)

    from_upper :
        descend (lo + split_point n) (n - split_point n) (reverse path) ≡ some v
        → let longer = path ++ (record { hash = u; side = left } ∷ []) in
          (root_from_path sha256 leaf longer ≡ node sha256 u r)
          × (descend lo n (reverse longer) ≡ some v)
    from_upper d = (rw (root_from_path-snoc, proves) refl, rw (descend-snoc lo n path _ big) d)

  one_leaf :
      (x : Hash) (lo : ℕ) (leaf : Hash)
      → ◌≡◌ {A = Option Hash} (some x) (some leaf)
      → (root_from_path sha256 leaf [] ≡ merkle_root sha256 (x ∷ []))
        × (descend lo 1 [] ≡ some (lo + 0))
  unfolding root_from_path merkle_root root_on descend
  one_leaf x lo leaf e = (cc, simp unary_clauses refl)

  -- The two halves, for an index in the tree.
  pub audit_on-proves :
      (f : ℕ) (xs : List Hash) (i lo : ℕ) (leaf : Hash)
      → length xs ≤ f
      → get_elem? xs i ≡ some leaf
      → (root_from_path sha256 leaf (audit_on sha256 f xs i) ≡ merkle_root sha256 xs)
        × (descend lo (length xs) (reverse (audit_on sha256 f xs i)) ≡ some (lo + i))
  unfolding audit_on
  audit_on-proves f [] i lo leaf a e = cc
  audit_on-proves zero (x ∷ xs) i lo leaf a e = absurd (omega arith)
  audit_on-proves (suc f) (x ∷ []) zero lo leaf a e = one_leaf x lo leaf e
  audit_on-proves (suc f) (x ∷ []) (suc i) lo leaf a e = cc
  audit_on-proves (suc f) (x ∷ y ∷ xs) i lo leaf a e =
      let all = x ∷ y ∷ xs in
      let n = length all in
      let k = split_point n in
      let (pos, less, _) = split_point_bounds n (omega arith) in
      let size_lower : length (take k all) ≡ k = omega (arith, length-take k all) in
      let size_upper : length (drop k all) ≡ n - k = length-drop k all in
      elim (Bool-cases (ltb i k)) [
        | inl lower ↦
            let (r, d) =
              audit_on-proves f (take k all) i lo leaf (omega arith)
                (get_elem?-take k i all (omega tests) ∙ e) in
            rw (lower, merkle_root-node)
              (from_lower leaf _ (merkle_root sha256 (drop k all)) _ n lo _ (omega arith) r
                (rw size_lower at d))
        | inr upper ↦
            let past : k ≤ i = ground arith in
            let (r, d) =
              audit_on-proves f (drop k all) (i - k) (lo + k) leaf (omega arith)
                (get_elem?-drop k i all past ∙ e) in
            let total : lo + k + (i - k) ≡ lo + i = omega arith in
            rw (upper, merkle_root-node)
              (from_upper leaf _ (merkle_root sha256 (take k all)) _ n lo _ (omega arith) r
                (rw (size_upper, total) at d))
      ]

  -- Every leaf of a tree has an audit path, and that path proves the leaf and its place: from the
  -- leaf it leads to the root of the tree, and for a tree of that size it proves that very index.
  -- An index that is out of range has none.
  pub audit_path_proves :
      (leaves : List Hash) (i : ℕ)
      → ((leaf : Hash)
          → get_elem? leaves i ≡ some leaf
          → (path : List Step) × (audit_path sha256 leaves i ≡ some path)
            × (root_from_path sha256 leaf path ≡ merkle_root sha256 leaves)
            × (index_from_path path (length leaves) ≡ some i))
        × (get_elem? leaves i ≡ none → audit_path sha256 leaves i ≡ none)
  unfolding audit_path index_from_path
  audit_path_proves leaves i = (
    λ leaf e.
        let (r, d) = audit_on-proves (length leaves) leaves i 0 leaf (omega arith) e in
        (_, rw (in_range leaves i leaf e) refl, r, d ∙ ap some (omega arith)),
    λ e. rw (out_of_range leaves i e) refl,
  )
