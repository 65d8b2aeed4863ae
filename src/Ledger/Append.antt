-- ===== src/Ledger/Append.antt =====
-- What one call of `Ledger.append` does to the file and to the instance.
use omega_evidence.Base.{
  ℕ, ◌<◌, true, Option, none, some, [], ◌∷◌, ◌++◌, ◌≡◌, refl, arith, length, inl, inr, Option-cases,
}
use omega_evidence.Base.Text.{Text, ◌===◌}
use omega_evidence.Base.Result.{ok, err}
use omega_evidence.Value.{Value, Fields, dict}
use omega_evidence.Json.Print.{print}
use omega_evidence.Canonical.{Refusal}
use omega_evidence.Ledger.Portable.{check_portable}
use omega_evidence.Ledger.Chain.{hash_entry, get}
use omega_evidence.Ledger.Spec.{Links}
use omega_evidence.Ledger.Writer.{
  Ledger, Disk, refused, sync, batch, contents, written, write, entry, entry_locked, resync_locked,
  append, locked, opened, with_line, with_hash,
}

module _ (sha256 : Text → Text) where
  module _ (line : Text) (lg : Ledger) (d : Disk) where
    pub file-write : contents (write sha256 line lg d).1.file ≡ contents d.file ++ line
    unfolding write
    file-write = ground arith

    pub size-write : (write sha256 line lg d).0.size ≡ lg.size
    unfolding write
    size-write = ground arith

    pub count-write : (write sha256 line lg d).0.count ≡ lg.count
    unfolding write
    count-write = ground arith

    pub synced-write :
        lg.durability ≡ sync → (write sha256 line lg d).1.synced ≡ length (contents d.file ++ line)
    unfolding write
    synced-write h = ground arith

    pub pending-write :
        lg.durability ≡ batch
        → lg.fh ≡ true
        → lg.pending < lg.batch_size
        → (write sha256 line lg d).0.pending < lg.batch_size
    unfolding write
    pending-write h k p = ground arith

  -- The entry that is written carries the number and the hash that the instance holds.
  entry-Links :
      (n : ℕ) (ts prev h : Text) (payload : Value)
      → hash_entry sha256 (entry sha256 n ts payload prev []) ≡ some h
      → Links sha256 n prev h (entry sha256 n ts payload prev h)
  unfolding hash_entry entry get ◌===◌
  entry-Links n ts prev h payload e = record {
    numbered = refl;
    follows = refl;
    carries = refl;
    hashes = e;
  }

  with_line-ok :
      (e : Fields) (o : Option Text) (e' : Fields) (line : Text)
      → with_line sha256 e o ≡ ok (e', line)
      → (t : Text) × (o ≡ some t) × (e' ≡ e) × (line ≡ t ++ (10 ∷ []))
  with_line-ok e none e' line q = cc
  with_line-ok e (some t) e' line q = (t, refl, ground arith, ground arith)

  -- What a written entry and its line are, from the instance that wrote them.
  pub record IsWritten (ts : Text) (payload : Value) (lg : Ledger) (e : Fields) (line : Text)
      : Type 0 where
    pub h : Text
    pub t : Text
    pub is_entry : e ≡ entry sha256 lg.count ts payload lg.last h
    pub links : Links sha256 lg.count lg.last h e
    pub printed : print written (dict e) ≡ some t
    pub is_line : line ≡ t ++ (10 ∷ [])

  written-entry :
      (ts : Text) (payload : Value) (lg : Ledger) (h : Text) (e : Fields) (line : Text)
      → hash_entry sha256 (entry sha256 lg.count ts payload lg.last []) ≡ some h
      → with_line sha256
          (entry sha256 lg.count ts payload lg.last h)
          (print written (dict (entry sha256 lg.count ts payload lg.last h)))
        ≡ ok (e, line)
      → IsWritten ts payload lg e line
  written-entry ts payload lg h e line hash q =
      let (t, printed, same, l) = with_line-ok _ _ e line q in
      record {
        h = h;
        t = t;
        is_entry = same;
        links = rw same (entry-Links lg.count ts lg.last h payload hash);
        printed = rw same printed;
        is_line = l;
      }

  entry_locked_lem :
      (ts : Text) (payload : Value) (lg : Ledger)
      → entry_locked sha256 ts payload lg
        ≡ with_hash sha256 lg.count ts payload lg.last
            (hash_entry sha256 (entry sha256 lg.count ts payload lg.last []))
  unfolding entry_locked
  entry_locked_lem ts payload lg = refl

  pub entry_locked-IsWritten :
      (ts : Text) (payload : Value) (lg : Ledger) (e : Fields) (line : Text)
      → entry_locked sha256 ts payload lg ≡ ok (e, line)
      → IsWritten ts payload lg e line
  entry_locked-IsWritten ts payload lg e line q =
      elim (Option-cases (hash_entry sha256 (entry sha256 lg.count ts payload lg.last []))) [
        | inl no_hash ↦ cc (rw (entry_locked_lem ts payload lg, no_hash) at q)
        | inr (h, hash) ↦
            written-entry ts payload lg h e line hash
              (rw (entry_locked_lem ts payload lg, hash) at q)
      ]

  abbrev pub created : Disk → Disk
  created d = record d { file = some (contents d.file) }

  pub append-refused :
      (ts : Text) (payload : Value) (lg : Ledger) (d : Disk) (e : Refusal)
      → check_portable payload ≡ err e
      → append sha256 ts payload lg d ≡ (err (refused e), lg, d)
  unfolding append
  append-refused ts payload lg d e h = rw (h, append)

  pub append-locked :
      (ts : Text) (payload : Value) (lg : Ledger) (d : Disk) (u : Unit {0})
      → check_portable payload ≡ ok u
      → append sha256 ts payload lg d
        ≡ locked sha256 ts payload
            (resync_locked sha256 (opened sha256 lg) (contents d.file))
            (opened sha256 lg)
            (created d)
  unfolding append
  append-locked ts payload lg d u h = rw (h, append)
