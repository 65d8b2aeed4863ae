-- ===== src/Tests/GateRuns.antt =====
-- Two attempts to register a backend: one that discerns, and one that accepts everything.
use omega_evidence.Base.{ℕ, true, Option, some, List, [], ◌∷◌, ◌≡◌, refl, ◌==◌, get_or}
use omega_evidence.Base.Text.{Text, codes, ◌===◌}
use omega_evidence.Base.Dict.{lookup, insert}
use omega_evidence.Gate.Kat.{Backend, Vector, run_kat, register_pq_backend, no_vectors, accepted}
use omega_evidence.Gate.Gated.{Attempt, attempts, IsGated, attempts-IsGated}

abbrev as_bytes : Text → Option (List ℕ)
as_bytes t = some t

abbrev as_text : List ℕ → Text
as_text bs = bs

-- Accepts a signature that begins with the byte of the message.
abbrev discerning : Backend
discerning key sig message = some (get_or sig 0 0 == get_or message 0 1)

abbrev careless : Backend
careless key sig message = some true

abbrev vectors : List Vector
vectors = record { public = codes "k"; signature = 8 ∷ 1 ∷ []; message = 8 ∷ [] } ∷ []

careless_fails : run_kat as_bytes as_text careless vectors ≡ accepted 0
unfolding run_kat
careless_fails = refl

no_vectors_fail : run_kat as_bytes as_text discerning [] ≡ no_vectors
unfolding run_kat
no_vectors_fail = refl

abbrev both : List Attempt
both =
    record { alg = codes "a"; backend = discerning; kat = vectors }
    ∷ record { alg = codes "a"; backend = careless; kat = vectors }
    ∷ []

is_registered : lookup (codes "a") (attempts as_bytes as_text both []) ≡ some discerning
unfolding register_pq_backend lookup insert ◌===◌
is_registered = refl

attempts-IsGated_example : IsGated as_bytes as_text discerning
attempts-IsGated_example =
    attempts-IsGated as_bytes as_text both (codes "a") discerning is_registered
