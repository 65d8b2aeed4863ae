-- ===== src/Preservation/Sealing.antt =====
-- Assignment to a key of a JSON object, and `_finalize` of omega_evidence/preservation.py.
use omega_evidence.Base.{false, some, ◌≡◌, ap, sym, arith}
use omega_evidence.Base.Text.{Text, codes, ◌===◌, ===_iff, in_list}
use omega_evidence.Base.Result.{ok, after, ok-injective}
use omega_evidence.Value.{Value, Fields, name, non_string, str, dict, end, field}
use omega_evidence.Ledger.Chain.{get, without}
use omega_evidence.Chip.Classes.{put}
use omega_evidence.Preservation.Tree.{Platform, digest_of}
use omega_evidence.Preservation.Record.{canonical, finalize}
use omega_evidence.Preservation.Check.{hash_of}

pub get-put : (k : Text) (v : Value) (r : Fields) → get k (put k v r) ≡ some v
unfolding get put in_list
get-put k v end = ground (arith, ===_iff k k)
get-put k v (field (name j) w fs) = ground (arith, ===_iff j k, get-put k v fs)
get-put k v (field (non_string j) w fs) = get-put k v fs

pub get-put_other :
    (k j : Text) (v : Value) (r : Fields) → (k === j) ≡ false → get j (put k v r) ≡ get j r
unfolding get put in_list
get-put_other k j v end h = ground arith
get-put_other k j v (field (name i) w fs) h =
    ground (arith, ===_iff i k, ===_iff i j, ===_iff k j, get-put_other k j v fs h)
get-put_other k j v (field (non_string i) w fs) h = get-put_other k j v fs h

pub without-put : (k : Text) (v : Value) (r : Fields) → without k (put k v r) ≡ without k r
unfolding without put in_list
without-put k v end = ground (arith, ===_iff k k)
without-put k v (field (name j) w fs) = ground (arith, ===_iff j k, without-put k v fs)
without-put k v (field (non_string j) w fs) = ap (field (non_string j) w) (without-put k v fs)

module _ (p : Platform) where
  -- What `_finalize` leaves.
  pub record IsSealed (r sealed : Fields) : Type 0 where
    pub hash : Text
    pub hashed : hash_of p sealed ≡ ok hash
    pub holds_hash : get (codes "record_sha3") sealed ≡ some (str hash)
    pub keeps : (j : Text) → (codes "record_sha3" === j) ≡ false → get j sealed ≡ get j r

  pub finalize-IsSealed : (r sealed : Fields) → finalize p r ≡ ok sealed → IsSealed r sealed
  unfolding finalize
  finalize-IsSealed r sealed h =
      after (canonical (dict (without (codes "record_sha3") r))) h (λ t is_t h1.
        after (digest_of p (str (codes "sha3_256")) t) h1 (λ d is_d h2.
          rw (sym (ok-injective h2)) record {
            hash = d;
            hashed = rw (without-put (codes "record_sha3") (str d) r, is_t) is_d;
            holds_hash = get-put (codes "record_sha3") (str d) r;
            keeps = λ j other. get-put_other (codes "record_sha3") j (str d) r other;
          }))
