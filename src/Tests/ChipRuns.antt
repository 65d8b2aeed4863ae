-- ===== src/Tests/ChipRuns.antt =====
-- A registry of chips that a feed and a refused update go through.
use omega_evidence.Base.Dict.{contains}
use omega_evidence.Base.{List, [], ◌∷◌, ◌≡◌, refl}
use omega_evidence.Base.Text.{Text, codes, in_list, ◌===◌}
use omega_evidence.Value.{Value}
use omega_evidence.Chip.Classes.{Entry, new_registry, ingest_candidates}
use omega_evidence.Chip.Rules.{
  Call, feed, update, calls, IsRooted, calls-IsRooted, new_registry-IsRooted,
}
use omega_evidence.Tests.VerifierRuns.{toy, request}

abbrev pub no_text : Value → Text
no_text v = []

abbrev pub new_chip : Entry
new_chip = record {
  attestation_class = codes "photonic-cc";
  vendor = codes "v";
  technology = codes "t";
  service = codes "s";
}

abbrev known_chip : Entry
known_chip = record new_chip { attestation_class = codes "arm-cca" }

-- A class that is known is no candidate.
found :
    (ingest_candidates (known_chip ∷ new_chip ∷ []) (codes "url") (codes "t") new_registry).1
    ≡ codes "photonic-cc" ∷ []
unfolding ingest_candidates in_list ◌===◌ contains
found = refl

abbrev some_calls : List Call
some_calls =
    feed (known_chip ∷ new_chip ∷ []) (codes "url") (codes "t") ∷ update request (codes "u") ∷ []

calls-IsRooted_example : IsRooted (calls toy no_text some_calls new_registry)
calls-IsRooted_example = calls-IsRooted toy no_text some_calls new_registry new_registry-IsRooted
