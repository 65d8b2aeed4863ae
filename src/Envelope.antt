-- ===== src/Envelope.antt =====
-- omega_evidence/interop/dsse.py, with the producer's identity of omega_evidence/signing.py.
pub mod Identity
pub mod Dsse
pub mod Encoding
pub mod Verified
pub mod RoundTrip
