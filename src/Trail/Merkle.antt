-- ===== src/Trail/Merkle.antt =====
-- The Merkle tree of omega_evidence/interop/aat.py (RFC 6962): root, audit path, and what a path
-- proves. SHA-256 is a parameter, from bytes to bytes. A step holds the bytes of the hash that the
-- code writes with `.hex()` and reads with `bytes.fromhex`.
use mathlib.Core.List.{reverse}
use omega_evidence.Base.{
  ℕ, zero, suc, ◌+◌, ◌-◌, ◌*◌, Option, none, some, List, [], ◌∷◌, ◌++◌, if◌then◌else◌, ltb, leb,
  ◌==◌, length, take, drop,
}

abbrev pub Hash : Type 0
Hash = List ℕ

-- Where the sibling sits.
pub data Side : Type 0 where
  left right : Side

pub record Step : Type 0 where
  pub hash : Hash
  pub side : Side

-- k = 1; while k * 2 < n: k *= 2
unfoldable pub doubled : ℕ → ℕ → ℕ → ℕ
doubled zero k n = k
doubled (suc f) k n = let rest = doubled f (k * 2) n in if ltb (k * 2) n then rest else k

-- Each round doubles k, so n rounds are enough.
unfoldable pub split_point : ℕ → ℕ
unfolding doubled
split_point n = doubled n 1 n

-- The loop of `index_from_path`, on the steps from the root down; none is the ValueError.
unfoldable pub descend : ℕ → ℕ → List Step → Option ℕ
descend lo size [] = if size == 1 then some lo else none
descend lo size (s ∷ path) =
    let k = split_point size in
    let to_left = descend lo k path in
    let to_right = descend (lo + k) (size - k) path in
    if leb size 1 then none else elim s.side [ right ↦ to_left | left ↦ to_right ]

unfoldable pub index_from_path : List Step → ℕ → Option ℕ
unfolding descend
index_from_path path n = descend 0 n (reverse path)

module _ (sha256 : List ℕ → Hash) where
  -- `_node`
  abbrev pub node : Hash → Hash → Hash
  node l r = sha256 (1 ∷ (l ++ r))

  -- Both halves are shorter, so the number of leaves is fuel enough.
  unfoldable pub root_on : ℕ → List Hash → Hash
  root_on zero leaves = sha256 []
  root_on (suc f) [] = sha256 []
  root_on (suc f) (x ∷ []) = x
  root_on (suc f) (x ∷ y ∷ xs) =
      let k = split_point (length (x ∷ y ∷ xs)) in
      node (root_on f (take k (x ∷ y ∷ xs))) (root_on f (drop k (x ∷ y ∷ xs)))

  unfoldable pub merkle_root : List Hash → Hash
  unfolding root_on
  merkle_root leaves = root_on (length leaves) leaves

  unfoldable pub audit_on : ℕ → List Hash → ℕ → List Step
  unfolding merkle_root
  audit_on zero leaves i = []
  audit_on (suc f) [] i = []
  audit_on (suc f) (x ∷ []) i = []
  audit_on (suc f) (x ∷ y ∷ xs) i =
      let k = split_point (length (x ∷ y ∷ xs)) in
      let lower = take k (x ∷ y ∷ xs) in
      let upper = drop k (x ∷ y ∷ xs) in
      let in_lower =
        audit_on f lower i ++ (record { hash = merkle_root upper; side = right } ∷ []) in
      let in_upper =
        audit_on f upper (i - k) ++ (record { hash = merkle_root lower; side = left } ∷ []) in
      if ltb i k then in_lower else in_upper

  -- none is the ValueError of an index out of range.
  unfoldable pub audit_path : List Hash → ℕ → Option (List Step)
  unfolding audit_on
  audit_path leaves i =
      if ltb i (length leaves) then some (audit_on (length leaves) leaves i) else none

  abbrev pub climb : Step → Hash → Hash
  climb s h = elim s.side [ left ↦ node s.hash h | right ↦ node h s.hash ]

  unfoldable pub root_from_path : Hash → List Step → Hash
  root_from_path leaf [] = leaf
  root_from_path leaf (s ∷ path) = root_from_path (climb s leaf) path
