-- ===== src/Lib.antt =====
-- OMEGA Open Evidence: a model of the Python package omega_evidence.
--
-- An evidence pack is a JSON object with a digest of its own body. Beside it lie a signature
-- sidecar, a time-stamp sidecar and a hash-chained ledger; a trust store, itself such a ledger,
-- says which key a signer has. The verifier reads these files and gives a receipt of layers.
--
-- Which file models what (paths of the repository):
--   Base      Python's str and bytes (lists of numbers), dict, UTF-8, results
--   Value     the Python objects that canonical.py and ledger.py tell apart
--   Json      json.dumps and json.loads as far as the package's options use them: Json.Print is
--             the printer, Json.Scan the tokens, Json.Load the parser on fuel (one unit for each
--             character; every call of it reads one)
--   Canonical omega_evidence/canonical.py: reject_reserved, canonical_json, sha3
--   Ledger    omega_evidence/ledger.py: Ledger.Strict is loads_strict with its scans,
--             Ledger.Portable is _check_portable, Ledger.Chain reads (verify_text, entries_text,
--             _replay), Ledger.Writer is the class Ledger with its file; Ledger.Spec, Decides,
--             Reports, Append, Appended and Raises hold the theory
--   Trust     omega_evidence/trust.py: Trust.Store is _apply and the replay, Trust.Registry the
--             methods; Trust.Events, Methods, Refines and Tofu hold the theory
--   Verifier  omega_evidence/verifier.py with the checks that it calls in pack.py, signing.py and
--             pqbackends/mldsa.py: Verifier.Report is the receipt, Scope the honest-scope gate,
--             Forms the sidecar's forms and Ed25519, Checks the ledger, time-stamp and
--             post-quantum layers, Signature the signature layer, Verdict the whole of
--             verify_pack; Signer, Authentic, Anchoring, Limits, Overclaims, Demands, PqLayer and
--             Hybrid hold the theory
--   Trail     omega_evidence/interop/aat.py: Trail.Merkle is the Merkle tree from the top down and
--             Trail.Levels from the leaves up (both on fuel: the number of leaves, of which each
--             round leaves fewer), Trail.Number and Trail.Jcs the canonical JSON of records,
--             Trail.Epoch the anchoring of an epoch, Trail.Tombstone the erasure of a record;
--             Erased, Inclusion, Halves, Rebuild, Paths, Bottom,
--             Depth and Anchored hold the theory
--   Chip      omega_evidence/chip_registry.py: Chip.Classes is the registry, Chip.Rules its theory
--   Agent     omega_evidence/agent.py: Agent.Attestation is check_attestation with the coherence
--             test, Agent.Classes its theory
--   Gate      omega_evidence/pqbackends/gate.py: Gate.Kat is the known-answer test and the
--             registration, Gate.Gated its theory
--   Preservation omega_evidence/preservation.py: Preservation.Tree is the digests and the Merkle
--             root (on fuel: the number of leaves; each round shortens the level), Record builds a
--             record, Renewal renews it, Check verifies it; Rounds, Bound, Chained, Sound,
--             Complete, Passing, Sealing, Built, Lasting and Kept hold the theory
--   Envelope  omega_evidence/interop/dsse.py and the class Identity of omega_evidence/signing.py:
--             Envelope.Identity, Envelope.Dsse; Encoding, Verified and RoundTrip hold the theory
--   Producer  Producer.Pack is omega_evidence/pack.py's build_pack and the objects that are
--             written beside a pack, Producer.Attest is omega_evidence/attestation.py with its
--             theory; Built, Judged, Signed and Accepted relate the packs to the verifier
--   Tests     runs on small inputs
--
-- A str is its list of code points, lone surrogates included; bytes are a list of numbers. An
-- exception is a value of a result type. A file that several writers share is a value that each
-- call, atomic under the file lock, takes and gives back. The hash functions, base64, the Ed25519
-- library and the registered post-quantum verifiers are parameters; what a
-- theorem needs of their documented behaviour stands among its hypotheses.
--
-- Fuel: the JSON parser, the scan for lone surrogates and UTF-8 decoding run on the length of
-- their input, and each round reads at least one character of it.
--
-- Not modelled: flock; the file system beyond a growing file and what of it is on the disk, whose
-- calls succeed, so that an OSError of a write, a flush or an fsync is left out; threads; the
-- clock, whose readings are arguments; the texts of messages and details; MemoryError and
-- RecursionError; what openssl and the network say of time stamps; that the JSON reader gives back
-- what the printer wrote; the other modules of the package, and the verifiers in other languages.
pub mod Base
pub mod Value
pub mod Json
pub mod Canonical
pub mod Ledger
pub mod Trust
pub mod Verifier
pub mod Trail
pub mod Chip
pub mod Agent
pub mod Gate
pub mod Preservation
pub mod Envelope
pub mod Producer
pub mod Tests
