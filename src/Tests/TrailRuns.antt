-- ===== src/Tests/TrailRuns.antt =====
-- A tree of five leaves with a toy hash: the sum of the bytes and their number.
use omega_evidence.Base.{ℕ, ◌+◌, ◌%◌, none, some, List, [], ◌∷◌, ◌≡◌, refl, length, get_elem?}
use omega_evidence.Trail.Merkle.{
  Hash, Step, merkle_root, audit_path, root_from_path, index_from_path, split_point,
}
use omega_evidence.Trail.Levels.{merkle_levels, audit_paths}
use omega_evidence.Trail.Rebuild.{last_level, merkle_levels-merkle_root}
use omega_evidence.Trail.Bottom.{audit_paths-audit_path}
use omega_evidence.Trail.Inclusion.{audit_path_proves}

abbrev sum : List ℕ → ℕ
sum [] = 0
sum (b ∷ bs) = b + sum bs

abbrev pub toy_sha256 : List ℕ → Hash
toy_sha256 bs = sum bs % 256 ∷ length bs % 256 ∷ []

abbrev five : List Hash
five = (10 ∷ 1 ∷ []) ∷ (20 ∷ 1 ∷ []) ∷ (30 ∷ 1 ∷ []) ∷ (40 ∷ 1 ∷ []) ∷ (50 ∷ 1 ∷ []) ∷ []

splits : split_point 5 ≡ 4
unfolding split_point
splits = refl

audit_path_proves_example :
    ((leaf : Hash)
      → get_elem? five 4 ≡ some leaf
      → (path : List Step) × (audit_path toy_sha256 five 4 ≡ some path)
        × (root_from_path toy_sha256 leaf path ≡ merkle_root toy_sha256 five)
        × (index_from_path path (length five) ≡ some 4))
    × (get_elem? five 4 ≡ none → audit_path toy_sha256 five 4 ≡ none)
audit_path_proves_example = audit_path_proves toy_sha256 five 4

merkle_levels-merkle_root_example :
    last_level (merkle_levels toy_sha256 five) ≡ some (merkle_root toy_sha256 five ∷ [])
merkle_levels-merkle_root_example = merkle_levels-merkle_root toy_sha256 five

audit_paths-audit_path_example :
    get_elem? (audit_paths toy_sha256 five) 3 ≡ audit_path toy_sha256 five 3
audit_paths-audit_path_example = audit_paths-audit_path toy_sha256 five 3
