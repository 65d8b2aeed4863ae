-- ===== src/Tests/AgentRuns.antt =====
-- Attestations of a candidate and of a known class.
use omega_evidence.Base.{true, false, List, [], ◌∷◌, ◌≡◌, refl, none, some, inr}
use omega_evidence.Base.Text.{Text, codes, ◌===◌, in_list}
use omega_evidence.Base.Dict.{contains, insert}
use omega_evidence.Value.{Fields, name, str, bool, end, field}
use omega_evidence.Chip.Classes.{new_registry, ingest_candidates}
use omega_evidence.Ledger.Chain.{get}
use omega_evidence.Chip.Rules.{Call, feed, calls}
use omega_evidence.Agent.Attestation.{
  check_attestation, class_of, untrusted_class, token_recorded_unverified, consistent, deny,
  executed,
}
use omega_evidence.Agent.Classes.{candidate-untrusted}
use omega_evidence.Tests.VerifierRuns.{toy}
use omega_evidence.Tests.ChipRuns.{new_chip, no_text}

-- An attestation with every field that a caller can set.
abbrev claims : Text → Fields
claims cls = field (name (codes "attestation_class")) (str cls) (
    field (name (codes "verified_by_service")) (bool true) (
      field (name (codes "service_quote")) (str (codes "q"))
        (field (name (codes "report_sha256")) (str (codes "r")) end)))

abbrev discovery : List Call
discovery = feed (new_chip ∷ []) (codes "url") (codes "t") ∷ []

is_candidate :
    contains (codes "photonic-cc") (calls toy no_text discovery new_registry).candidates ≡ true
unfolding ingest_candidates contains in_list ◌===◌ insert
is_candidate = refl

is_class :
    class_of (get (codes "attestation_class") (claims (codes "photonic-cc")))
    ≡ str (codes "photonic-cc")
unfolding get ◌===◌
is_class = refl

known :
    (check_attestation (claims (codes "arm-cca")) none).attestation_status
    ≡ token_recorded_unverified
unfolding check_attestation ◌===◌ in_list contains
known = refl

denied_but_executed : consistent deny executed true ≡ false
unfolding consistent
denied_but_executed = refl

candidate-untrusted_example :
    (check_attestation
      (claims (codes "photonic-cc"))
      (some (calls toy no_text discovery new_registry))).attestation_status
    ≡ untrusted_class
candidate-untrusted_example =
    candidate-untrusted toy no_text discovery (codes "photonic-cc") (claims (codes "photonic-cc"))
      is_class (inr is_candidate)
