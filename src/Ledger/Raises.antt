-- ===== src/Ledger/Raises.antt =====
-- The calls of `Ledger.append` of omega_evidence/ledger.py that raise before they write.
use omega_evidence.Base.{
  ℕ, ◌<◌, Option, none, some, ltb, ◌==◌, drop, ◌≡◌, refl, arith, length, inl, inr, ◌⊎◌, Bool-cases,
  ap, ◌∙◌,
}
use mathlib.Core.Path.{subst}
use omega_evidence.Base.Text.{Text}
use omega_evidence.Base.Result.{Result, ok, err, Result-cases}
use omega_evidence.Value.{Value}
use omega_evidence.Canonical.{Refusal}
use omega_evidence.Ledger.Portable.{check_portable}
use omega_evidence.Ledger.Chain.{replay}
use omega_evidence.Ledger.Writer.{
  Ledger, Disk, Failure, refused, corrupt, truncated, contents, entry_locked, resync_locked, append,
  locked, opened, loaded,
}
use omega_evidence.Ledger.Append.{append-refused, append-locked, created}
use omega_evidence.Ledger.Appended.{opened-size}

module _ (sha256 : Text → Text) where
  -- Why a call raises what it raises.
  pub data Reason (ts : Text) (payload : Value) (lg : Ledger) (bytes : Text)
      : Failure → Type 0 where
    not_portable :
        (e : Refusal) → check_portable payload ≡ err e → Reason ts payload lg bytes (refused e)
    shortened : length bytes < lg.size → Reason ts payload lg bytes truncated
    broken_behind :
        lg.size < length bytes
        → replay sha256 (drop lg.size bytes) (lg.count, lg.last) ≡ none
        → Reason ts payload lg bytes corrupt
    not_printed :
        (lr : Ledger) (x : Failure)
        → resync_locked sha256 (opened sha256 lg) bytes ≡ ok lr
        → entry_locked sha256 ts payload lr ≡ err x
        → Reason ts payload lg bytes x

  resync-short :
      (lg : Ledger) (bytes : Text)
      → length bytes < lg.size
      → resync_locked sha256 lg bytes ≡ err truncated
  unfolding resync_locked
  resync-short lg bytes h = ground arith

  opened-count : (lg : Ledger) → (opened sha256 lg).count ≡ lg.count
  opened-count lg = ground arith

  opened-last : (lg : Ledger) → (opened sha256 lg).last ≡ lg.last
  opened-last lg = ground arith

  err-eq : {A : Type 0} (x y : Failure) → ◌≡◌ {A = Result Failure A} (err x) (err y) → x ≡ y
  err-eq x y h = cc

  loaded-raises :
      (o : Option (ℕ × Text)) (lo : Ledger) (n : ℕ) (x : Failure)
      → loaded sha256 o lo n ≡ err x
      → (o ≡ none) × (corrupt ≡ x)
  loaded-raises none lo n x h = (refl, err-eq corrupt x h)
  loaded-raises (some (c, l)) lo n x h = cc

  resync-raises :
      (lo : Ledger) (bytes : Text) (x : Failure)
      → resync_locked sha256 lo bytes ≡ err x
      → ((length bytes < lo.size) × (truncated ≡ x))
        ⊎ ((lo.size < length bytes)
            × (replay sha256 (drop lo.size bytes) (lo.count, lo.last) ≡ none)
            × (corrupt ≡ x))
  unfolding resync_locked
  resync-raises lo bytes x h = elim (Bool-cases (length bytes == lo.size)) [
    | inl same ↦ cc (rw same at h)
    | inr other ↦ elim (Bool-cases (ltb (length bytes) lo.size)) [
      | inl short ↦ inl (ground arith, err-eq truncated x (rw (other, short) at h))
      | inr long ↦
          let (lost, is_x) =
            loaded-raises (replay sha256 (drop lo.size bytes) (lo.count, lo.last)) lo (length bytes)
              x (rw (other, long) at h) in
          inr (ground arith, lost, is_x)
    ]
  ]

  resync-Reason :
      (ts : Text) (payload : Value) (lg : Ledger) (bytes : Text) (x : Failure)
      → resync_locked sha256 (opened sha256 lg) bytes ≡ err x
      → Reason ts payload lg bytes x
  resync-Reason ts payload lg bytes x h = elim (resync-raises (opened sha256 lg) bytes x h) [
    | inl (short, is_x) ↦
        subst (Reason ts payload lg bytes) is_x
          (shortened (omega (arith, short, opened-size sha256 lg)))
    | inr (long, lost, is_x) ↦ subst (Reason ts payload lg bytes) is_x (
        broken_behind (omega (arith, long, opened-size sha256 lg))
          (rw (opened-size sha256 lg, opened-count lg, opened-last lg) at lost))
  ]

  locked-raises :
      (ts : Text) (payload : Value) (lg : Ledger) (d : Disk) (r : Result Failure Ledger)
      (x : Failure)
      → resync_locked sha256 (opened sha256 lg) (contents d.file) ≡ r
      → (locked sha256 ts payload r (opened sha256 lg) (created sha256 d)).0 ≡ err x
      → ((locked sha256 ts payload r (opened sha256 lg) (created sha256 d)).2 ≡ created sha256 d)
        × Reason ts payload lg (contents d.file) x
  locked-raises ts payload lg d (err y) x up h =
      (refl, resync-Reason ts payload lg (contents d.file) x (up ∙ ap err (err-eq y x h)))
  locked-raises ts payload lg d (ok lr) x up h =
      elim (Result-cases (entry_locked sha256 ts payload lr)) [
        | inl (y, bad) ↦ (rw bad, not_printed lr x up (bad ∙ ap err (err-eq y x (rw bad at h))))
        | inr (e, good) ↦ cc (rw good at h)
      ]

  -- Where the calls of the file system succeed: a call of `append` that raises writes no byte. It
  -- raises because the data is not portable; or the file is shorter than the instance accounts
  -- for; or what others have written behind that does not go on with the chain; or, all this
  -- being in order, the entry cannot be printed. A file that is shorter than the instance
  -- accounts for is refused by every call whose data is portable.
  pub append-raises :
      (ts : Text) (payload : Value) (lg : Ledger) (d : Disk)
      → ((x : Failure)
          → (append sha256 ts payload lg d).0 ≡ err x
          → (contents (append sha256 ts payload lg d).2.file ≡ contents d.file)
            × Reason ts payload lg (contents d.file) x)
        × (check_portable payload ≡ ok tt
            → length (contents d.file) < lg.size
            → (append sha256 ts payload lg d).0 ≡ err truncated)
  append-raises ts payload lg d = (unchanged, short)
    where
      unchanged :
          (x : Failure)
          → (append sha256 ts payload lg d).0 ≡ err x
          → (contents (append sha256 ts payload lg d).2.file ≡ contents d.file)
            × Reason ts payload lg (contents d.file) x
      unchanged x h = elim (Result-cases (check_portable payload)) [
        | inl (y, bad) ↦
            let eq = append-refused sha256 ts payload lg d y bad in
            (
              rw eq,
              subst (Reason ts payload lg (contents d.file)) (err-eq (refused y) x (rw eq at h))
                  (not_portable y bad),
            )
        | inr (u, good) ↦
            let eq = append-locked sha256 ts payload lg d u good in
            let (same, why) =
              locked-raises ts payload lg d
                (resync_locked sha256 (opened sha256 lg) (contents d.file)) x refl (rw eq at h) in
            (rw eq (ap (λ (k : Disk). contents k.file) same), why)
      ]

      short :
          check_portable payload ≡ ok tt
          → length (contents d.file) < lg.size
          → (append sha256 ts payload lg d).0 ≡ err truncated
      short good less = rw (
        append-locked sha256 ts payload lg d tt good,
        resync-short (opened sha256 lg) (contents d.file) (omega (arith, opened-size sha256 lg)),
      )
