-- ===== src/Agent/Attestation.antt =====
-- `check_attestation`, `AgentAction.consistent` and `AgentEvidenceLog.verify` of
-- omega_evidence/agent.py. A class that is not a str is unknown (an unhashable one, which raises
-- in the source, is not modelled apart).
use omega_evidence.Base.{
  ℕ, Bool, true, false, not, ◌&&◌, ◌||◌, Option, none, some, List, [], if◌then◌else◌, leb, length,
}
use omega_evidence.Base.Text.{Text, codes, in_list}
use omega_evidence.Base.Dict.{lookup, contains}
use omega_evidence.Value.{Value, Fields, str}
use omega_evidence.Ledger.Chain.{get, bad_kept}
use omega_evidence.Ledger.Writer.{Ledger, Disk, verify as verify_ledger}
use omega_evidence.Verifier.Checks.{truthy, or_empty}
use omega_evidence.Chip.Classes.{ChipRegistry, is_known, service_for, baseline, untrusted_classes}

-- The four texts of `attestation_status`.
pub data AttestationStatus : Type 0 where
  untrusted_class token_recorded_unverified producer_claimed no_claim : AttestationStatus

pub record Attestation : Type 0 where
  pub attestation_class : Value
  pub known_class : Bool
  pub verified_by_service : Bool
  pub service_token_present : Bool
  pub attestation_service : Value
  pub expected_service : Text
  pub device_id : Value
  pub trustworthy : Bool
  pub verified_here : Bool
  pub attestation_status : AttestationStatus
  pub requires_service_verification : Bool

-- a.get("attestation_class", "none")
abbrev pub class_of : Option Value → Value
class_of none = str (codes "none")
class_of (some v) = v

-- The registry, or else the baseline.
unfoldable pub knows : Option ChipRegistry → Value → Bool
unfolding is_known
knows none (str cls) = contains cls baseline
knows (some r) (str cls) = is_known cls r
knows _ _ = false

unfoldable pub expects : Option ChipRegistry → Value → Text
unfolding service_for
expects none (str cls) = elim (lookup cls baseline) [ none ↦ [] | some svc ↦ svc ]
expects (some r) (str cls) = service_for cls r
expects _ _ = []

unfoldable pub is_untrusted : Value → Bool
is_untrusted (str cls) = in_list cls untrusted_classes
is_untrusted _ = false

unfoldable pub status_of : Bool → Bool → Bool → Bool → AttestationStatus
status_of unknown verified token report =
    if unknown
    then untrusted_class
    else if verified && token && report
    then token_recorded_unverified
    else if verified
    then producer_claimed
    else no_claim

-- `x or y`
abbrev or_value : Option Value → Value → Value
or_value x y = if truthy x then or_empty x else y

-- `check_attestation`; `{}` stands for None.
unfoldable pub check_attestation : Fields → Option ChipRegistry → Attestation
unfolding get truthy knows expects is_untrusted status_of
check_attestation a registry =
    let cls = class_of (get (codes "attestation_class") a) in
    let verified = truthy (get (codes "verified_by_service") a) in
    let token =
      truthy (get (codes "service_attestation_token") a)
      || truthy (get (codes "service_quote") a) in
    let report = truthy (get (codes "report_sha256") a) in
    let known = knows registry cls in
    record {
      attestation_class = cls;
      known_class = known;
      verified_by_service = verified;
      service_token_present = token;
      attestation_service = or_value (get (codes "service") a) (str (expects registry cls));
      expected_service = expects registry cls;
      device_id = or_empty (get (codes "device_id") a);
      trustworthy = false;
      verified_here = false;
      attestation_status = status_of (is_untrusted cls || not known) verified token report;
      requires_service_verification = true;
    }

pub data Decision : Type 0 where
  allow deny allow_with_approval : Decision

pub data Outcome : Type 0 where
  executed blocked pending_approval : Outcome

-- `AgentAction.consistent`, of the decision, the outcome and `bool(human_approver)`.
unfoldable pub consistent : Decision → Outcome → Bool → Bool
consistent deny blocked approver = true
consistent allow executed approver = true
consistent allow_with_approval executed approver = approver
consistent allow_with_approval pending_approval approver = approver
consistent _ _ approver = false

pub record LogVerdict : Type 0 where
  pub chain_ok : Bool
  pub bad_entries : List ℕ
  pub bad_entries_truncated : Bool
  pub entries : ℕ

-- `AgentEvidenceLog.verify`
unfoldable pub verify_log : (Text → Text) → Ledger → Disk → LogVerdict
unfolding verify_ledger
verify_log sha256 lg d =
    let (ok, bad) = verify_ledger sha256 d in
    record {
      chain_ok = ok;
      bad_entries = bad;
      bad_entries_truncated = leb bad_kept (length bad);
      entries = lg.count;
    }
