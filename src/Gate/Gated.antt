-- ===== src/Gate/Gated.antt =====
-- What a registered backend has gone through (omega_evidence/pqbackends/gate.py).
use omega_evidence.Base.{
  ℕ, ◌+◌, Bool, true, false, Option, none, some, List, [], ◌∷◌, ◌≡◌, ◌≢◌, refl, inl, inr,
  Bool-cases,
}
use omega_evidence.Base.Text.{Text, ◌===◌}
use omega_evidence.Base.Dict.{Dict, lookup, insert, lookup-insert}
use omega_evidence.Gate.Kat.{
  Backend, Vector, KatResult, passed, tamper_b64, tampered_answer, judge_vector, run_vectors,
  run_kat, register_if, register_pq_backend,
}

-- One attempt to register a backend with its vectors.
pub record Attempt : Type 0 where
  pub alg : Text
  pub backend : Backend
  pub kat : List Vector

module _ (b64decode : Text → Option (List ℕ)) (b64encode : List ℕ → Text) where
  abbrev pub attempts : List Attempt → Dict Backend → Dict Backend
  attempts [] algs = algs
  attempts (a ∷ more) algs =
      attempts more (register_pq_backend b64decode b64encode a.alg a.backend a.kat algs)

  -- The backend accepts each vector, and refuses it with the first bit of its signature flipped.
  abbrev pub Discerns : Backend → List Vector → Type 0
  Discerns verify [] = Unit
  Discerns verify (v ∷ vs) =
      (verify v.public v.signature v.message ≡ some true)
      × (tampered_answer b64decode b64encode (tamper_b64 b64decode b64encode v.signature) verify v
          ≡ some false)
      × Discerns verify vs

  abbrev pub IsGated : Backend → Type 0
  IsGated verify = (kat : List Vector) × (kat ≢ []) × Discerns verify kat

  judged_passed :
      (i : ℕ) (good bad : Option Bool) (rest : KatResult)
      → judge_vector b64decode b64encode i good bad rest ≡ passed
      → (good ≡ some true) × (bad ≡ some false) × (rest ≡ passed)
  judged_passed i none bad rest e = cc
  judged_passed i (some false) bad rest e = cc
  judged_passed i (some true) none rest e = cc
  judged_passed i (some true) (some true) rest e = cc
  judged_passed i (some true) (some false) rest e = (refl, refl, e)

  run_vectors-Discerns :
      (i : ℕ) (verify : Backend) (vs : List Vector)
      → run_vectors b64decode b64encode i verify vs ≡ passed
      → Discerns verify vs
  unfolding run_vectors
  run_vectors-Discerns i verify [] e = tt
  run_vectors-Discerns i verify (v ∷ vs) e =
      let (good, bad, rest) = judged_passed i _ _ _ e in
      (good, bad, run_vectors-Discerns (i + 1) verify vs rest)

  run_kat-IsGated :
      (verify : Backend) (kat : List Vector)
      → run_kat b64decode b64encode verify kat ≡ passed
      → IsGated verify
  unfolding run_kat
  run_kat-IsGated verify [] e = cc
  run_kat-IsGated verify (v ∷ vs) e = (v ∷ vs, (λ n. cc), run_vectors-Discerns 0 verify (v ∷ vs) e)

  AllGated : Dict Backend → Type 0
  AllGated algs = (alg : Text) (verify : Backend) → lookup alg algs ≡ some verify → IsGated verify

  same_backend : {v w : Backend} → ◌≡◌ {A = Option Backend} (some v) (some w) → v ≡ w
  same_backend e = cc

  inserted-AllGated :
      (alg : Text) (verify : Backend) (algs : Dict Backend)
      → IsGated verify
      → AllGated algs
      → AllGated (insert alg verify algs)
  unfolding AllGated
  inserted-AllGated alg verify algs g all j w e = elim (Bool-cases (alg === j)) [
    | inl own ↦ rw (← same_backend (rw (lookup-insert alg j verify algs, own) at e)) g
    | inr other ↦ all j w (rw (lookup-insert alg j verify algs, other) at e)
  ]

  register-AllGated :
      (result : KatResult) (alg : Text) (verify : Backend) (algs : Dict Backend)
      → (result ≡ passed → IsGated verify)
      → AllGated algs
      → AllGated (register_if b64decode b64encode result alg verify algs)
  register-AllGated passed alg verify algs g all = inserted-AllGated alg verify algs (g refl) all
  register-AllGated _ alg verify algs g all = all

  attempts-AllGated :
      (more : List Attempt) (algs : Dict Backend) → AllGated algs → AllGated (attempts more algs)
  unfolding register_pq_backend
  attempts-AllGated [] algs all = all
  attempts-AllGated (a ∷ more) algs all =
      attempts-AllGated more _
        (register-AllGated _ a.alg a.backend algs (run_kat-IsGated a.backend a.kat) all)

  -- After any attempts to register post-quantum backends, each backend that is registered accepted
  -- every vector of some known-answer test that is not empty, and refused every one of them with
  -- the first bit of its signature flipped.
  pub attempts-IsGated :
      (more : List Attempt) (alg : Text) (verify : Backend)
      → lookup alg (attempts more []) ≡ some verify
      → IsGated verify
  unfolding AllGated lookup
  attempts-IsGated more alg verify e = attempts-AllGated more [] (λ j w n. cc) alg verify e
