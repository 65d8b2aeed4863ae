-- ===== src/Gate/Kat.antt =====
-- `run_kat` and `register_pq_backend` of omega_evidence/pqbackends/gate.py, with the dict
-- `PQ_SIG_ALGS` of omega_evidence/signing.py. A backend that raises is none; base64 is a parameter.
use omega_evidence.Base.{
  ℕ, ◌+◌, ◌-◌, ◌%◌, Bool, true, false, Option, none, some, List, [], ◌∷◌, if◌then◌else◌, ◌==◌,
}
use omega_evidence.Base.Text.{Text}
use omega_evidence.Base.Dict.{Dict, insert}

abbrev pub Backend : Type 0
Backend = Text → Text → List ℕ → Option Bool

-- A vector, its message read by bytes.fromhex.
pub record Vector : Type 0 where
  pub public : Text
  pub signature : Text
  pub message : List ℕ

-- The reasons, with the number of the vector; `uncaught` is an exception that leaves `run_kat`.
pub data KatResult : Type 0 where
  passed no_vectors uncaught : KatResult
  raised rejected accepted : ℕ → KatResult

-- raw[0] ^= 0x01
abbrev pub flip : List ℕ → List ℕ
flip [] = []
flip (b ∷ bs) = (if b % 2 == 0 then b + 1 else b - 1) ∷ bs

module _ (b64decode : Text → Option (List ℕ)) (b64encode : List ℕ → Text) where
  -- `_tamper_b64`
  unfoldable pub tamper_b64 : Text → Option Text
  tamper_b64 sig = elim (b64decode sig) [ none ↦ none | some raw ↦ some (b64encode (flip raw)) ]

  abbrev pub tampered_answer : Option Text → Backend → Vector → Option Bool
  tampered_answer none verify v = none
  tampered_answer (some sig) verify v = verify v.public sig v.message

  -- The answer for the tampered signature; `rest` is what the vectors behind say.
  abbrev pub judge_tampered : ℕ → Option Bool → KatResult → KatResult
  judge_tampered i none rest = uncaught
  judge_tampered i (some true) rest = accepted i
  judge_tampered i (some false) rest = rest

  abbrev pub judge_vector : ℕ → Option Bool → Option Bool → KatResult → KatResult
  judge_vector i none bad rest = raised i
  judge_vector i (some false) bad rest = rejected i
  judge_vector i (some true) bad rest = judge_tampered i bad rest

  unfoldable pub run_vectors : ℕ → Backend → List Vector → KatResult
  unfolding tamper_b64
  run_vectors i verify [] = passed
  run_vectors i verify (v ∷ vs) =
      judge_vector i (verify v.public v.signature v.message)
        (tampered_answer (tamper_b64 v.signature) verify v) (run_vectors (i + 1) verify vs)

  unfoldable pub run_kat : Backend → List Vector → KatResult
  unfolding run_vectors
  run_kat verify [] = no_vectors
  run_kat verify (v ∷ vs) = run_vectors 0 verify (v ∷ vs)

  abbrev pub register_if : KatResult → Text → Backend → Dict Backend → Dict Backend
  register_if passed alg verify algs = insert alg verify algs
  register_if _ alg verify algs = algs

  -- `register_pq_backend`: PQ_SIG_ALGS behind it.
  unfoldable pub register_pq_backend : Text → Backend → List Vector → Dict Backend → Dict Backend
  unfolding run_kat
  register_pq_backend alg verify kat algs = register_if (run_kat verify kat) alg verify algs
