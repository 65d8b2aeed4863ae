-- ===== src/Ledger/Writer.antt =====
-- `class Ledger` of omega_evidence/ledger.py: an instance, the file that it shares with other
-- writers, and one call of a method under the file lock, which makes the call atomic. The calls
-- of the file system succeed; the clock's reading is an argument.
use omega_evidence.Base.{
  ℕ, ◌+◌, Bool, true, false, Option, none, some, List, [], ◌∷◌, ◌++◌, ltb, leb, ◌==◌, if◌then◌else◌,
  length, drop,
}
use omega_evidence.Base.Text.{Text, codes, ◌===◌}
use omega_evidence.Base.Int.{pos, ℤ, negsuc}
use omega_evidence.Base.Utf8.{decode}
use omega_evidence.Base.Result.{Result, ok, err}
use omega_evidence.Value.{Value, Fields, name, str, dict, int, end, field}
use omega_evidence.Json.Print.{Style, print}
use omega_evidence.Canonical.{Refusal}
use omega_evidence.Ledger.Portable.{check_portable}
use omega_evidence.Ledger.Chain.{genesis, hash_entry, replay, verify_text}

pub data Durability : Type 0 where
  sync batch : Durability

pub record Ledger : Type 0 where
  pub durability : Durability
  pub batch_size : ℕ
  pub count : ℕ
  pub last : Text
  pub size : ℕ
  pub fh : Bool
  pub pending : ℕ

-- The file, if it is there, and how many of its bytes are known to be on the disk.
pub record Disk : Type 0 where
  pub file : Option Text
  pub synced : ℕ

pub data Failure : Type 0 where
  bad_durability corrupt truncated type_refused : Failure
  refused : Refusal → Failure

abbrev pub contents : Option Text → Text
contents none = []
contents (some t) = t

-- json.dumps(entry, separators=(",", ":"), allow_nan=False): in the dict's own order
abbrev pub written : Style
written = record { item = codes ","; key = codes ":"; sort_keys = false; tagging = false }

unfoldable pub fsync : Disk → Disk
fsync d = record d { synced = length (contents d.file) }

unfoldable pub flush_locked : Ledger → Disk → Ledger × Disk
unfolding fsync
flush_locked lg d =
    if lg.fh
    then (if ltb 0 lg.pending then (record lg { pending = 0 }, fsync d) else (lg, d))
    else (lg, d)

unfoldable pub close : Ledger → Disk → Ledger × Disk
unfolding flush_locked
close lg d = let (lg', d') = flush_locked lg d in (record lg' { fh = false }, d')

-- An instance before `_load`; max(1, batch_size).
abbrev pub fresh : Durability → ℤ → Ledger
fresh m batch_size = record {
  durability = m;
  batch_size = elim batch_size [ pos n ↦ if ltb 1 n then n else 1 | negsuc n ↦ 1 ];
  count = 0;
  last = genesis;
  size = 0;
  fh = false;
  pending = 0;
}

module _ (sha256 : Text → Text) where
  abbrev pub loaded : Option (ℕ × Text) → Ledger → ℕ → Result Failure Ledger
  loaded none lg size = err corrupt
  loaded (some (count, last)) lg size = ok (record lg { count = count; last = last; size = size })

  unfoldable pub load : Ledger → Disk → Result Failure Ledger
  unfolding replay
  load lg d = elim d.file [
    | none ↦ ok lg
    | some raw ↦ loaded (replay sha256 raw (0, genesis)) lg (length raw)
  ]

  -- `Ledger.__init__`
  unfoldable pub init : Text → ℤ → Disk → Result Failure Ledger
  unfolding load
  init durability batch_size d =
      if durability === codes "sync"
      then load (fresh sync batch_size) d
      else if durability === codes "batch"
      then load (fresh batch batch_size) d
      else err bad_durability

  unfoldable pub resync_locked : Ledger → Text → Result Failure Ledger
  unfolding replay
  resync_locked lg bytes =
      if length bytes == lg.size
      then ok lg
      else if ltb (length bytes) lg.size
      then err truncated
      else loaded (replay sha256 (drop lg.size bytes) (lg.count, lg.last)) lg (length bytes)

  unfoldable pub entry : ℕ → Text → Value → Text → Text → Fields
  entry idx ts payload prev_hash self_hash = field (name (codes "idx")) (int (pos idx)) (
      field (name (codes "ts")) (str ts) (
        field (name (codes "data")) payload (
          field (name (codes "prev_hash")) (str prev_hash)
            (field (name (codes "self_hash")) (str self_hash) end))))

  abbrev pub with_line : Fields → Option Text → Result Failure (Fields × Text)
  with_line e none = err type_refused
  with_line e (some t) = ok (e, t ++ (10 ∷ []))

  abbrev pub with_hash : ℕ → Text → Value → Text → Option Text → Result Failure (Fields × Text)
  with_hash idx ts payload prev none = err type_refused
  with_hash idx ts payload prev (some h) =
      with_line (entry idx ts payload prev h) (print written (dict (entry idx ts payload prev h)))

  -- `_entry_locked`: the next entry, and its line.
  unfoldable pub entry_locked : Text → Value → Ledger → Result Failure (Fields × Text)
  unfolding entry hash_entry
  entry_locked ts payload lg =
      with_hash lg.count ts payload lg.last
        (hash_entry sha256 (entry lg.count ts payload lg.last []))

  abbrev pub self_hash_of : Fields → Text
  self_hash_of (field a b (field c d (field e f (field g h (field i (str t) end))))) = t
  self_hash_of _ = []

  -- The write and the fsync that the mode asks for.
  unfoldable pub write : Text → Ledger → Disk → Ledger × Disk
  unfolding fsync flush_locked
  write line lg d =
      let grown = record d { file = some (contents d.file ++ line) } in
      elim lg.durability [
        | sync ↦ (lg, fsync grown)
        | batch ↦
            let counted = record lg { pending = lg.pending + 1 } in
            if leb lg.batch_size counted.pending
            then flush_locked counted grown
            else (counted, grown)
      ]

  abbrev pub finish :
      Result Failure (Fields × Text) → Ledger → Disk → Result Failure Fields × Ledger × Disk
  finish (err e) lg d = (err e, lg, d)
  finish (ok (e, line)) lg d =
      let (lg', d') = write line lg d in
      (
        ok e,
        record lg' { last = self_hash_of e; count = lg'.count + 1; size = lg'.size + length line },
        d',
      )

  abbrev pub locked :
      Text → Value → Result Failure Ledger → Ledger → Disk → Result Failure Fields × Ledger × Disk
  locked ts payload (err e) lg d = (err e, lg, d)
  locked ts payload (ok lg') lg d = finish (entry_locked ts payload lg') lg' d

  -- open(path, "a") creates the file; in batch mode the handle stays.
  abbrev pub opened : Ledger → Ledger
  opened lg = elim lg.durability [ sync ↦ lg | batch ↦ record lg { fh = true } ]

  -- `Ledger.append`
  unfoldable pub append : Text → Value → Ledger → Disk → Result Failure Fields × Ledger × Disk
  unfolding check_portable resync_locked entry_locked write
  append ts payload lg d = elim (check_portable payload) [
    | err e ↦ (err (refused e), lg, d)
    | ok _ ↦
        let created = record d { file = some (contents d.file) } in
        locked ts payload (resync_locked (opened lg) (contents d.file)) (opened lg) created
  ]

  -- `Ledger.verify`
  unfoldable pub verify : Disk → Bool × List ℕ
  unfolding verify_text decode
  verify d = elim d.file [
    | none ↦ (true, [])
    | some raw ↦ elim (decode raw) [ none ↦ (false, 0 ∷ []) | some text ↦ verify_text sha256 text ]
  ]
