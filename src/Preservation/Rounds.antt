-- ===== src/Preservation/Rounds.antt =====
-- The loop of `_merkle_root` of omega_evidence/preservation.py against the tree it stands for.
use omega_evidence.Base.{
  ℕ, zero, suc, ◌+◌, ◌*◌, ◌≤◌, true, Option, none, some, List, [], ◌∷◌, ◌++◌, ◌≡◌, refl, length,
  arith,
}
use omega_evidence.Base.Text.{Text, in_list}
use omega_evidence.Base.Result.{ok}
use omega_evidence.Value.{str}
use omega_evidence.Verifier.Forms.{hex}
use omega_evidence.Preservation.Tree.{
  Platform, supported_hash, hnew, fromhex, fromhex_all, prepend, next_level, top, climb,
  merkle_root,
}

prepend-some :
    (x : Option (List ℕ)) (y : Option (List (List ℕ))) (level : List (List ℕ))
    → prepend x y ≡ some level
    → (a : List ℕ) × (rest : List (List ℕ)) × (x ≡ some a) × (y ≡ some rest) × (level ≡ a ∷ rest)
prepend-some (some a) (some rest) level e = (a, rest, refl, refl, cc)
prepend-some none y level e = absurd cc
prepend-some (some a) none level e = absurd cc

fromhex_all-cons :
    (h : Text) (hs : List Text) (level : List (List ℕ))
    → fromhex_all (h ∷ hs) ≡ some level
    → (a : List ℕ) × (rest : List (List ℕ)) × (fromhex h ≡ some a)
      × (fromhex_all hs ≡ some rest)
      × (level ≡ a ∷ rest)
unfolding fromhex_all
fromhex_all-cons h hs level e = prepend-some (fromhex h) (fromhex_all hs) level e

fromhex_all-nil : (rest : List (List ℕ)) → fromhex_all [] ≡ some rest → rest ≡ []
unfolding fromhex_all
fromhex_all-nil rest e = cc

module _ (p : Platform) (alg : Text) where
  -- The level above: neighbours are hashed together, an odd node at the end with itself.
  pub data Paired : List (List ℕ) → List (List ℕ) → Type 0 where
    even : Paired [] []
    odd : (a : List ℕ) → Paired (a ∷ []) (p.digest alg (a ++ a) ∷ [])
    pair :
        (a b : List ℕ) {rest above : List (List ℕ)}
        → Paired rest above
        → Paired (a ∷ b ∷ rest) (p.digest alg (a ++ b) ∷ above)

  -- The one node to which a level leads.
  pub data IsRoot : List (List ℕ) → List ℕ → Type 0 where
    alone : (a : List ℕ) → IsRoot (a ∷ []) a
    above :
        {a b : List ℕ} {rest level : List (List ℕ)} {root : List ℕ}
        → Paired (a ∷ b ∷ rest) level
        → IsRoot level root
        → IsRoot (a ∷ b ∷ rest) root

  next_level-Paired : (level : List (List ℕ)) → Paired level (next_level p alg level)
  unfolding next_level
  next_level-Paired [] = even
  next_level-Paired (a ∷ []) = odd a
  next_level-Paired (a ∷ b ∷ rest) = pair a b (next_level-Paired rest)

  length-next_level :
      (level : List (List ℕ)) → 2 * length (next_level p alg level) ≤ length level + 1
  unfolding next_level
  length-next_level [] = omega arith
  length-next_level (a ∷ []) = omega arith
  length-next_level (a ∷ b ∷ rest) = omega (arith, length-next_level rest)

  -- Fuel for the length of the level is enough.
  top_ends :
      (f : ℕ) (a : List ℕ) (level : List (List ℕ))
      → length (a ∷ level) ≤ f
      → (root : List ℕ) × (top p f alg (a ∷ level) ≡ some root) × IsRoot (a ∷ level) root
  unfolding top next_level
  top_ends f a [] h = (a, refl, alone a)
  top_ends zero a (b ∷ rest) h = absurd (omega arith)
  top_ends (suc f) a (b ∷ rest) h =
      let (root, computed, is_root) =
        top_ends f (p.digest alg (a ++ b)) (next_level p alg rest)
          (omega (arith, length-next_level rest)) in
      (root, computed, above (next_level-Paired (a ∷ b ∷ rest)) is_root)

  climb_ends :
      (a : List ℕ) (level : List (List ℕ))
      → in_list alg supported_hash ≡ true
      → (root : List ℕ) × (climb p (str alg) (a ∷ level) ≡ ok (hex root)) × IsRoot (a ∷ level) root
  unfolding climb hnew
  climb_ends a level h =
      let (root, computed, is_root) = top_ends (length (a ∷ level)) a level (omega arith) in
      (root, rw (h, computed), is_root)

  -- The rounds of `_merkle_root` end on every list of leaves but the empty one, under a supported
  -- hash and where each leaf is hexadecimal, and what is left is the root of their tree.
  pub merkle_root_ends :
      (h : Text) (hs : List Text) (level : List (List ℕ))
      → in_list alg supported_hash ≡ true
      → fromhex_all (h ∷ hs) ≡ some level
      → (root : List ℕ) × (merkle_root p (h ∷ hs) (str alg) ≡ ok (hex root)) × IsRoot level root
  unfolding merkle_root
  merkle_root_ends h [] level s e =
      let (a, rest, first, others, split) = fromhex_all-cons h [] level e in
      (a, rw first refl, rw (split, fromhex_all-nil rest others) (alone a))
  merkle_root_ends h (i ∷ hs) level s e =
      let (a, rest, first, others, split) = fromhex_all-cons h (i ∷ hs) level e in
      let (root, computed, is_root) = climb_ends a rest s in
      (root, rw (e, split) computed, rw split is_root)
