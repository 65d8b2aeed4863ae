-- ===== src/Tests/LedgerRuns.antt =====
-- A ledger with a toy hash: the letter that the length of the text chooses.
use omega_evidence.Ledger.Strict.{loads_strict}
use omega_evidence.Base.{
  ◌+◌, ◌%◌, true, false, none, some, List, [], ◌∷◌, ◌≡◌, ◌↔◌, ◌≤◌, ◌<◌, refl, length,
}
use omega_evidence.Base.Text.{Text, codes, ◌===◌}
use omega_evidence.Base.Utf8.{decode}
use omega_evidence.Base.Result.{ok, err}
use omega_evidence.Value.{Value, Fields, name, int, dict, end, field}
use omega_evidence.Base.Int.{pos}
use omega_evidence.Json.Print.{print, text_lt}
use omega_evidence.Canonical.{reject_reserved}
use omega_evidence.Canonical.Accepts.{Occurs, IsPortable, reject_reserved_iff}
use omega_evidence.Ledger.Portable.{check_portable}
use omega_evidence.Ledger.Chain.{genesis, verify_text, entries_text, replay}
use omega_evidence.Ledger.Spec.{IsChain}
use omega_evidence.Ledger.Decides.{verify_text_iff, replay-verify_text, last_hash}
use omega_evidence.Ledger.Reports.{length-verify_text}
use omega_evidence.Ledger.Writer.{
  Ledger, Disk, append, fresh, sync, entry, contents, Failure, truncated,
}
use omega_evidence.Ledger.Appended.{append-Appended, Appended}
use omega_evidence.Ledger.Raises.{append-raises, Reason}

abbrev pub toy_hash : Text → Text
toy_hash t = (97 + length t % 26) ∷ []

abbrev payload : Value
payload = dict (field (name (codes "a")) (int (pos 1)) end)

abbrev empty_ledger : Ledger
empty_ledger = fresh sync (pos 1)

abbrev empty_disk : Disk
empty_disk = record { file = none; synced = 0 }

abbrev first : Fields
first = entry toy_hash 0 (codes "t") payload genesis (codes "i")

abbrev first_line : Text
first_line =
    codes
      "{\"idx\":0,\"ts\":\"t\",\"data\":{\"a\":1},\"prev_hash\":\"0000000000000000000000000000000000000000000000000000000000000000\",\"self_hash\":\"i\"}\n"

returns : (append toy_hash (codes "t") payload empty_ledger empty_disk).0 ≡ ok first
unfolding append print ◌===◌ text_lt
returns = refl

writes : contents (append toy_hash (codes "t") payload empty_ledger empty_disk).2.file ≡ first_line
unfolding append print ◌===◌ text_lt
writes = refl

verifies : (verify_text toy_hash first_line).0 ≡ true
unfolding verify_text loads_strict ◌===◌ print text_lt
verifies = refl

decodes : decode first_line ≡ some first_line
unfolding decode
decodes = refl

portable : check_portable payload ≡ ok tt
unfolding check_portable
portable = refl

-- A line that was changed is not verified.
tampered : verify_text toy_hash (codes "{}\n") ≡ (false, 0 ∷ [])
unfolding verify_text loads_strict
tampered = refl

append-Appended_example :
    Appended toy_hash
      (codes "t")
      payload
      empty_ledger
      empty_disk
      first
      (append toy_hash (codes "t") payload empty_ledger empty_disk).1
      (append toy_hash (codes "t") payload empty_ledger empty_disk).2
append-Appended_example =
    append-Appended toy_hash (codes "t") payload empty_ledger empty_disk first returns

abbrev behind : Ledger
behind = record empty_ledger { size = 5 }

append-raises_example :
    ((x : Failure)
      → (append toy_hash (codes "t") payload behind empty_disk).0 ≡ err x
      → (contents (append toy_hash (codes "t") payload behind empty_disk).2.file
          ≡ contents empty_disk.file)
        × Reason toy_hash (codes "t") payload behind (contents empty_disk.file) x)
    × (check_portable payload ≡ ok tt
        → length (contents empty_disk.file) < behind.size
        → (append toy_hash (codes "t") payload behind empty_disk).0 ≡ err truncated)
append-raises_example = append-raises toy_hash (codes "t") payload behind empty_disk

verify_text_iff_example :
    ((verify_text toy_hash first_line).0 ≡ true)
    ↔ ((es : List Fields) × (entries_text first_line ≡ some es) × IsChain toy_hash 0 genesis es)
verify_text_iff_example = verify_text_iff toy_hash first_line

replay-verify_text_example :
    (es : List Fields) × (entries_text first_line ≡ some es)
    × (replay toy_hash first_line (0, genesis) ≡ some (length es, last_hash genesis es))
replay-verify_text_example = replay-verify_text toy_hash first_line first_line decodes verifies

length-verify_text_example :
    (length (verify_text toy_hash first_line).1 ≤ 1000)
    × (((verify_text toy_hash first_line).0 ≡ true)
        ↔ (length (verify_text toy_hash first_line).1 ≡ 0))
length-verify_text_example = length-verify_text toy_hash first_line

reject_reserved_iff_example :
    (reject_reserved true payload ≡ ok tt) ↔ ((w : Value) → Occurs w payload → IsPortable true w)
reject_reserved_iff_example = reject_reserved_iff true payload

-- A key with a lone surrogate is portable for `append`, and the file is then refused.
abbrev surrogate_key : Value
surrogate_key = dict (field (name (0xD800 ∷ [])) (int (pos 1)) end)

surrogate_key_portable : check_portable surrogate_key ≡ ok tt
unfolding check_portable
surrogate_key_portable = refl

surrogate_key_breaks :
    (verify_text toy_hash
      (contents (append toy_hash (codes "t") surrogate_key empty_ledger empty_disk).2.file)).0
    ≡ false
unfolding append verify_text loads_strict ◌===◌ print text_lt
surrogate_key_breaks = refl
