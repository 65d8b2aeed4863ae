-- ===== src/Tests/PreservationRuns.antt =====
-- An evidence record over two packs, with a toy hash, built and then renewed twice.
use omega_evidence.Base.{
  ℕ, ◌+◌, ◌%◌, true, false, none, some, List, [], ◌∷◌, ◌≡◌, ◌≢◌, ◌↔◌, refl, length,
}
use omega_evidence.Base.Text.{Text, codes, ◌===◌, in_list}
use omega_evidence.Base.Result.{Result, ok, err}
use omega_evidence.Base.Utf8.{decode}
use omega_evidence.Ledger.Chain.{get}
use omega_evidence.Chip.Classes.{loads_bounded}
use omega_evidence.Canonical.{reject_reserved}
use omega_evidence.Json.Print.{print, text_lt}
use omega_evidence.Value.{Fields, dict, end, str, bool, field, name}
use omega_evidence.Verifier.Forms.{hex}
use omega_evidence.Verifier.Checks.{File}
use omega_evidence.Preservation.Tree.{Platform, Stop, merkle_root, fromhex_all}
use omega_evidence.Value.{truth}
use omega_evidence.Preservation.Record.{build_evidence_record}
use omega_evidence.Preservation.Renewal.{renew_timestamp, renew_hash_tree}
use omega_evidence.Preservation.Check.{Verdict, verify_evidence_record}
use omega_evidence.Preservation.Rounds.{merkle_root_ends, IsRoot}
use omega_evidence.Preservation.Sound.{IsPreserved}
use omega_evidence.Preservation.Passing.{verify_evidence_record_iff}
use omega_evidence.Preservation.Built.{IsHonest}
use omega_evidence.Preservation.Kept.{built, time_renewed, tree_renewed}
use omega_evidence.Preservation.Kept.{IsKept, IsKept-valid}

abbrev sum : List ℕ → ℕ
sum [] = 0
sum (b ∷ bs) = b + sum bs

abbrev toy : Platform
toy = record {
  digest = λ alg bs. (sum alg + sum bs) % 256 ∷ length bs % 256 ∷ [];
  is_zero = λ t. false;
  plus_one = λ t. t;
  equal = λ v w. false;
  ts_verify = λ tok covered. ok (some true);
}

abbrev packs : List File
packs =
    some (codes "{\"pack_sha3\":\"a1\"}")
    ∷ some (codes "{\"kind\":\"k\",\"pack_sha3\":\"b2\"}")
    ∷ []

abbrev record_in : Result Stop Fields → Fields
record_in (ok r) = r
record_in (err e) = end

-- The reply of an authority that grants its token.
abbrev stamp : Text → Fields
stamp root =
    field (name (codes "anchored")) (bool true)
      (field (name (codes "tsr_b64")) (str (codes "MIAB")) end)

stamp-IsHonest : IsHonest toy (some stamp)
unfolding get truth ◌===◌
stamp-IsHonest root h = (codes "MIAB", some true, refl, refl, granted)
  where
    granted : some true ≢ some false
    granted = cc

first_record : Fields
first_record =
    record_in
      (build_evidence_record toy packs (some stamp) (codes "sha256") (codes "t0") (codes "t1"))

first_built :
    build_evidence_record toy packs (some stamp) (codes "sha256") (codes "t0") (codes "t1")
    ≡ ok first_record
unfolding first_record build_evidence_record decode loads_bounded ◌===◌ in_list hex reject_reserved
    print
first_built = refl

second_record : Fields
second_record = record_in (renew_timestamp toy first_record none (codes "t2") (codes "t3"))

second_renewed : renew_timestamp toy first_record none (codes "t2") (codes "t3") ≡ ok second_record
unfolding first_record second_record renew_timestamp build_evidence_record decode loads_bounded
    ◌===◌ in_list hex reject_reserved print text_lt
second_renewed = refl

third_record : Fields
third_record = record_in (
    renew_hash_tree toy second_record none (codes "sha3_512") (some stamp) (codes "t4")
      (codes "t5"))

third_renewed :
    renew_hash_tree toy second_record none (codes "sha3_512") (some stamp) (codes "t4") (codes "t5")
    ≡ ok third_record
unfolding first_record second_record third_record renew_timestamp renew_hash_tree
    build_evidence_record decode loads_bounded ◌===◌ in_list hex reject_reserved print text_lt
third_renewed = refl

renewed_twice : IsKept toy packs third_record
renewed_twice =
    tree_renewed second_record none (codes "sha3_512") (some stamp) (codes "t4") (codes "t5")
      (time_renewed first_record none (codes "t2") (codes "t3")
        (built (some stamp) (codes "sha256") (codes "t0") (codes "t1") stamp-IsHonest first_built)
        tt second_renewed)
      stamp-IsHonest third_renewed

IsKept-valid_example :
    (answer : Verdict) × (verify_evidence_record toy (dict third_record) (some packs) ≡ ok answer)
    × (answer.valid ≡ true)
IsKept-valid_example = IsKept-valid toy packs third_record renewed_twice

verify_evidence_record_iff_example :
    ((answer : Verdict) × (verify_evidence_record toy (dict third_record) (some packs) ≡ ok answer)
      × (answer.valid ≡ true))
    ↔ IsPreserved toy third_record (some packs)
verify_evidence_record_iff_example = verify_evidence_record_iff toy third_record (some packs)

merkle_root_ends_example :
    (root : List ℕ) × (merkle_root toy
        (codes "00ff" ∷ codes "0A0b" ∷ codes "0102" ∷ [])
        (str (codes "sha512"))
      ≡ ok (hex root))
    × IsRoot toy (codes "sha512") ((0 ∷ 255 ∷ []) ∷ (10 ∷ 11 ∷ []) ∷ (1 ∷ 2 ∷ []) ∷ []) root
unfolding fromhex_all in_list ◌===◌
merkle_root_ends_example =
    merkle_root_ends toy (codes "sha512") (codes "00ff") (codes "0A0b" ∷ codes "0102" ∷ [])
      ((0 ∷ 255 ∷ []) ∷ (10 ∷ 11 ∷ []) ∷ (1 ∷ 2 ∷ []) ∷ []) refl refl
