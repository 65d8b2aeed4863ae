-- ===== src/Agent/Classes.antt =====
-- What a declared attestation of a chip can be recorded as.
use omega_evidence.Base.{true, false, not, ◌||◌, none, some, List, ◌≡◌, refl, arith, inl, inr, ◌⊎◌}
use omega_evidence.Base.Text.{Text, codes, in_list}
use omega_evidence.Base.Dict.{lookup, contains}
use omega_evidence.Value.{Value, Fields, str}
use omega_evidence.Ledger.Chain.{get}
use omega_evidence.Verifier.Forms.{Host}
use omega_evidence.Chip.Classes.{ChipRegistry, is_known, new_registry, untrusted_classes}
use omega_evidence.Chip.Rules.{Call, calls, calls-IsRooted, new_registry-IsRooted}
use omega_evidence.Agent.Attestation.{
  check_attestation, knows, is_untrusted, status_of, untrusted_class, class_of,
}

unknown-status :
    (cls : Text) (r : ChipRegistry) (a : Fields)
    → class_of (get (codes "attestation_class") a) ≡ str cls
    → (is_untrusted (str cls) || not (knows (some r) (str cls))) ≡ true
    → (check_attestation a (some r)).attestation_status ≡ untrusted_class
unfolding check_attestation status_of
unknown-status cls r a named unknown = rw (named, unknown) refl

unknown-known :
    (cls : Text) (r : ChipRegistry)
    → lookup cls r.services ≡ none
    → knows (some r) (str cls) ≡ false
unfolding knows is_known contains
unknown-known cls r e = rw (contains, e) refl

-- After any updates and feeds from a new registry, whatever they hold: an attestation of a class
-- that is untrusted, or that is only a candidate, is recorded as of an untrusted class, with
-- whatever token or report it comes.
pub candidate-untrusted :
    (h : Host) (str_of : Value → Text) (cs : List Call) (cls : Text) (a : Fields)
    → class_of (get (codes "attestation_class") a) ≡ str cls
    → (in_list cls untrusted_classes ≡ true)
      ⊎ (contains cls (calls h str_of cs new_registry).candidates ≡ true)
    → (check_attestation a (some (calls h str_of cs new_registry))).attestation_status
      ≡ untrusted_class
unfolding is_untrusted
candidate-untrusted h str_of cs cls a named which =
    let r = calls h str_of cs new_registry in
    let i = calls-IsRooted h str_of cs new_registry new_registry-IsRooted in
    elim which [
      | inl listed ↦ unknown-status cls r a named (ground arith)
      | inr candidate ↦
          unknown-status cls r a named (ground (arith, unknown-known cls r (i.apart cls candidate)))
    ]
