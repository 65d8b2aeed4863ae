-- ===== src/Preservation/Kept.antt =====
-- Records of omega_evidence/preservation.py that were built and then renewed verify.
use omega_evidence.Base.{true, Option, some, List, ◌≡◌}
use omega_evidence.Base.Text.{Text}
use omega_evidence.Base.Result.{ok}
use omega_evidence.Value.{Fields, dict}
use omega_evidence.Verifier.Checks.{File}
use omega_evidence.Preservation.Tree.{Platform}
use omega_evidence.Preservation.Record.{build_evidence_record}
use omega_evidence.Preservation.Renewal.{renew_timestamp, renew_hash_tree}
use omega_evidence.Preservation.Check.{Verdict, verify_evidence_record}
use omega_evidence.Preservation.Sound.{IsPreserved}
use omega_evidence.Preservation.Passing.{IsPreserved-valid}
use omega_evidence.Preservation.Built.{IsHonest, build-IsPreserved}
use omega_evidence.Preservation.Lasting.{renew_timestamp-IsPreserved, renew_hash_tree-IsPreserved}

module _ (p : Platform) where
  -- A record that was built over these packs, and then renewed any number of times, in time or in
  -- the hash tree, with honest time-stamp authorities.
  pub data IsKept (files : List File) : Fields → Type 0 where
    built :
        (tsa : Option (Text → Fields)) (alg stamped created : Text) {r : Fields}
        → IsHonest p tsa
        → build_evidence_record p files tsa alg stamped created ≡ ok r
        → IsKept files r
    time_renewed :
        (r : Fields) (tsa : Option (Text → Fields)) (stamped created : Text) {renewed : Fields}
        → IsKept files r
        → IsHonest p tsa
        → renew_timestamp p r tsa stamped created ≡ ok renewed
        → IsKept files renewed
    tree_renewed :
        (r : Fields) (named : Option (List File)) (new_alg : Text) (tsa : Option (Text → Fields))
        (stamped created : Text) {renewed : Fields}
        → IsKept files r
        → IsHonest p tsa
        → renew_hash_tree p r named new_alg tsa stamped created ≡ ok renewed
        → IsKept files renewed

  pub IsKept-IsPreserved :
      (files : List File) (r : Fields) → IsKept files r → IsPreserved p r (some files)
  IsKept-IsPreserved files r (built tsa alg stamped created h e) =
      build-IsPreserved p files tsa alg stamped created r h e
  IsKept-IsPreserved files _ (time_renewed r tsa stamped created k h e) =
      renew_timestamp-IsPreserved p (some files) r tsa stamped created _
        (IsKept-IsPreserved files r k) h e
  IsKept-IsPreserved files _ (tree_renewed r named new_alg tsa stamped created k h e) =
      renew_hash_tree-IsPreserved p (some files) r named new_alg tsa stamped created _
        (IsKept-IsPreserved files r k) h e

  -- A record that `build_evidence_record` returned for some packs, renewed any number of times by
  -- `renew_timestamp` and `renew_hash_tree`, verifies with those packs: `verify_evidence_record`
  -- returns and says valid. Each reply that anchored a text holds a token that timestamp.verify,
  -- asked about that text, does not refuse.
  pub IsKept-valid :
      (files : List File) (r : Fields)
      → IsKept files r
      → (answer : Verdict) × (verify_evidence_record p (dict r) (some files) ≡ ok answer)
        × (answer.valid ≡ true)
  IsKept-valid files r k = IsPreserved-valid p r (some files) (IsKept-IsPreserved files r k)
