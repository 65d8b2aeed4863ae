-- ===== src/Ledger/Appended.antt =====
-- The contract of `Ledger.append` of omega_evidence/ledger.py, for the calls that return.
use omega_evidence.Base.{
  ℕ, ◌+◌, ◌<◌, true, Option, none, some, ◌++◌, ltb, ◌==◌, ◌≡◌, refl, arith, sym, length,
  length-append, inl, inr, Bool-cases, ap, ◌∙◌, ==_iff,
}
use omega_evidence.Base.Text.{Text}
use omega_evidence.Base.Result.{Result, ok, err, Result-cases}
use omega_evidence.Value.{Value, Fields}
use omega_evidence.Ledger.Portable.{check_portable}
use omega_evidence.Ledger.Writer.{
  Ledger, Disk, Failure, sync, batch, contents, entry_locked, resync_locked, append, self_hash_of,
  finish, locked, opened, loaded, truncated,
}
use omega_evidence.Ledger.Append.{
  IsWritten, entry_locked-IsWritten, append-refused, append-locked, created, file-write, size-write,
  count-write, synced-write, pending-write,
}

module _ (sha256 : Text → Text) where
  -- The same instance but for what it accounts for.
  record Resynced (lg lr : Ledger) (bytes : Text) : Type 0 where
    sized : lr.size ≡ length bytes
    same_mode : lr.durability ≡ lg.durability
    same_batch : lr.batch_size ≡ lg.batch_size
    same_pending : lr.pending ≡ lg.pending
    same_fh : lr.fh ≡ lg.fh

  loaded-Resynced :
      (o : Option (ℕ × Text)) (lg lr : Ledger) (bytes : Text)
      → loaded sha256 o lg (length bytes) ≡ ok lr
      → Resynced lg lr bytes
  loaded-Resynced none lg lr bytes h = cc
  loaded-Resynced (some (c, l)) lg lr bytes h = record {
    sized = ground arith;
    same_mode = ground arith;
    same_batch = ground arith;
    same_pending = ground arith;
    same_fh = ground arith;
  }

  resync_locked-Resynced :
      (lg lr : Ledger) (bytes : Text) → resync_locked sha256 lg bytes ≡ ok lr → Resynced lg lr bytes
  unfolding resync_locked
  resync_locked-Resynced lg lr bytes h = elim (Bool-cases (length bytes == lg.size)) [
    | inl same ↦
        let e : lg ≡ lr = ground (arith, rw same at h) in
        let s : length bytes ≡ lg.size = (==_iff _ _).0 same in
        rw (← e) (record {
          sized = sym s;
          same_mode = refl;
          same_batch = refl;
          same_pending = refl;
          same_fh = refl;
        })
    | inr other ↦ elim (Bool-cases (ltb (length bytes) lg.size)) [
      | inl short ↦ cc (rw (other, short) at h)
      | inr long ↦ loaded-Resynced _ lg lr bytes (rw (other, long) at h)
    ]
  ]

  -- What a call that returns an entry has done.
  pub record Appended (ts : Text) (payload : Value) (lg : Ledger) (d : Disk) (e : Fields)
      (lg' : Ledger) (d' : Disk) : Type 0 where
    pub lr : Ledger
    pub line : Text
    pub synced_up : resync_locked sha256 (opened sha256 lg) (contents d.file) ≡ ok lr
    pub is_written : IsWritten sha256 ts payload lr e line
    pub one_line : contents d'.file ≡ contents d.file ++ line
    pub counted : lg'.count ≡ lr.count + 1
    pub last_is : lg'.last ≡ self_hash_of sha256 e
    pub sized : lg'.size ≡ length (contents d'.file)
    pub durable : lg.durability ≡ sync → d'.synced ≡ length (contents d'.file)
    pub window : lg.durability ≡ batch → lg.pending < lg.batch_size → lg'.pending < lg.batch_size

  resync-short :
      (lg : Ledger) (bytes : Text)
      → length bytes < lg.size
      → resync_locked sha256 lg bytes ≡ err truncated
  unfolding resync_locked
  resync-short lg bytes h = ground arith

  pub opened-size : (lg : Ledger) → (opened sha256 lg).size ≡ lg.size
  opened-size lg = ground arith

  opened-durability : (lg : Ledger) → (opened sha256 lg).durability ≡ lg.durability
  opened-durability lg = ground arith

  opened-batch : (lg : Ledger) → lg.durability ≡ batch → (opened sha256 lg).fh ≡ true
  opened-batch lg h = ground arith

  opened-pending : (lg : Ledger) → (opened sha256 lg).pending ≡ lg.pending
  opened-pending lg = ground arith

  opened-batch_size : (lg : Ledger) → (opened sha256 lg).batch_size ≡ lg.batch_size
  opened-batch_size lg = ground arith

  finish-Appended :
      (ts : Text) (payload : Value) (lg lr : Ledger) (d : Disk) (e : Fields) (line : Text)
      → resync_locked sha256 (opened sha256 lg) (contents d.file) ≡ ok lr
      → entry_locked sha256 ts payload lr ≡ ok (e, line)
      → let (_, lg', d') = finish sha256 (ok (e, line)) lr (created sha256 d) in
        Appended ts payload lg d e lg' d'
  finish-Appended ts payload lg lr d e line up eq =
      let r = resync_locked-Resynced (opened sha256 lg) lr (contents d.file) up in
      let fw = file-write sha256 line lr (created sha256 d) in
      record {
        lr = lr;
        line = line;
        synced_up = up;
        is_written = entry_locked-IsWritten sha256 ts payload lr e line eq;
        one_line = fw;
        counted = ap (λ k. k + 1) (count-write sha256 line lr (created sha256 d));
        last_is = refl;
        sized = omega (
          arith,
          size-write sha256 line lr (created sha256 d),
          r.sized,
          ap length fw,
          length-append (contents d.file) line,
        );
        durable = λ m.
            synced-write sha256 line lr (created sha256 d)
              (r.same_mode ∙ (opened-durability lg ∙ m))
            ∙ ap length (sym fw);
        window = λ m k.
            let b : lr.batch_size ≡ lg.batch_size = r.same_batch ∙ opened-batch_size lg in
            let p : lr.pending ≡ lg.pending = r.same_pending ∙ opened-pending lg in
            let w =
              pending-write sha256 line lr (created sha256 d)
                (r.same_mode ∙ (opened-durability lg ∙ m)) (r.same_fh ∙ opened-batch lg m)
                (omega arith) in
            omega (arith, w, b);
      }

  locked-Appended :
      (ts : Text) (payload : Value) (lg : Ledger) (d : Disk) (r : Result Failure Ledger)
      (e : Fields)
      → resync_locked sha256 (opened sha256 lg) (contents d.file) ≡ r
      → (locked sha256 ts payload r (opened sha256 lg) (created sha256 d)).0 ≡ ok e
      → let (_, lg', d') = locked sha256 ts payload r (opened sha256 lg) (created sha256 d) in
        Appended ts payload lg d e lg' d'
  locked-Appended ts payload lg d (err x) e up h = cc
  locked-Appended ts payload lg d (ok lr) e up h =
      elim (Result-cases (entry_locked sha256 ts payload lr)) [
        | inl (x, bad) ↦ cc (rw bad at h)
        | inr ((e', line), good) ↦
            let same : e' ≡ e = ground (arith, rw good at h) in
            rw (good, ← same) (finish-Appended ts payload lg lr d e' line up good)
      ]

  -- A call of `append` that returns an entry, under the file lock, has added exactly one line to
  -- the file, after replaying what others had written. The entry carries the number and the hash
  -- that the instance then holds, and its own hash; the line is its JSON text and a line feed. The
  -- instance goes on from that entry and accounts for every byte of the file. In sync mode the
  -- whole file is then on the disk; in batch mode fewer than `batch_size` entries of this instance
  -- still wait for the fsync, if that held before.
  pub append-Appended :
      (ts : Text) (payload : Value) (lg : Ledger) (d : Disk) (e : Fields)
      → (append sha256 ts payload lg d).0 ≡ ok e
      → Appended ts payload lg d e
          (append sha256 ts payload lg d).1
          (append sha256 ts payload lg d).2
  append-Appended ts payload lg d e h = elim (Result-cases (check_portable payload)) [
    | inl (x, bad) ↦ cc (rw (append-refused sha256 ts payload lg d x bad) at h)
    | inr (u, good) ↦ rw (append-locked sha256 ts payload lg d u good) (
        locked-Appended ts payload lg d _ e refl
          (rw (append-locked sha256 ts payload lg d u good) at h))
  ]
