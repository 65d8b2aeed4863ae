-- ===== src/Ledger/Reports.antt =====
-- The list of bad lines that `verify_text` reports.
use mathlib.Core.List.{reverse}
use omega_evidence.Base.{
  ℕ, ◌+◌, ◌≤◌, ◌<◌, true, false, not, Option, none, some, List, [], ◌∷◌, ltb, leb, length-append,
  length, ◌≡◌, refl, arith, ◌↔◌, Bool-cases, inl, inr,
}
use mathlib.Core.List.{reverse-cons}
use omega_evidence.Base.Text.{Text, is_empty}
use omega_evidence.Value.{Fields}
use omega_evidence.Ledger.Spec.{walk_line-blank, walk_line-entry}
use omega_evidence.Ledger.Chain.{
  walk, walk_line, walk_entry, Walk, walk_start, verify_text, lines, bad_kept, mark, links, strip,
  entry_of,
}

length-reverse : (xs : List ℕ) → length (reverse xs) ≡ length xs
length-reverse [] = refl
length-reverse (x ∷ xs) =
    rw reverse-cons (omega (arith, length-append (reverse xs) (x ∷ []), length-reverse xs))

-- At most `BAD_KEPT` lines are kept, and one at least once the chain is broken.
record IsReport (w : Walk) : Type 0 where
  few : length w.bad ≤ bad_kept
  some_bad : w.broken ≡ true → 0 < length w.bad
  no_bad : w.broken ≡ false → length w.bad ≡ 0

mark-IsReport : (i : ℕ) (w : Walk) → IsReport w → IsReport (mark i w)
unfolding mark
mark-IsReport i w r = elim (Bool-cases (ltb (length w.bad) bad_kept)) [
  | inl room ↦
      rw room (record { few = ground arith; some_bad = λ _. omega arith; no_bad = λ h. cc })
  | inr full ↦ rw full (record { few = r.few; some_bad = λ _. ground arith; no_bad = λ h. cc })
]

module _ (sha256 : Text → Text) where
  walk_entry-IsReport :
      (i : ℕ) (e : Option Fields) (w : Walk) → IsReport w → IsReport (walk_entry sha256 i e w)
  unfolding walk_entry
  walk_entry-IsReport i none w r =
      let m = mark-IsReport i w r in
      record { few = m.few; some_bad = m.some_bad; no_bad = m.no_bad }
  walk_entry-IsReport i (some e) w r = elim (Bool-cases (links sha256 w.n w.prev e)) [
    | inl good ↦
        rw (good, walk_entry) (record { few = r.few; some_bad = r.some_bad; no_bad = r.no_bad })
    | inr bad ↦
        let m = mark-IsReport i w r in
        rw (bad, walk_entry) (record { few = m.few; some_bad = m.some_bad; no_bad = m.no_bad })
  ]

  walk_line-IsReport :
      (i : ℕ) (l : Text) (w : Walk) → IsReport w → IsReport (walk_line sha256 i l w)
  walk_line-IsReport i l w r = elim (Bool-cases (is_empty (strip l))) [
    | inl blank ↦ rw (walk_line-blank sha256 i l w blank) r
    | inr full ↦
        rw (walk_line-entry sha256 i l w full) (walk_entry-IsReport i (entry_of (strip l)) w r)
  ]

  walk-IsReport : (i : ℕ) (ls : List Text) (w : Walk) → IsReport w → IsReport (walk sha256 i ls w)
  unfolding walk
  walk-IsReport i [] w r = r
  walk-IsReport i (l ∷ ls) w r = elim (Bool-cases (leb bad_kept (length w.bad))) [
    | inl stop ↦ rw stop r
    | inr more ↦
        rw more (walk-IsReport (i + 1) ls (walk_line sha256 i l w) (walk_line-IsReport i l w r))
  ]

  start-IsReport : IsReport (walk_start sha256)
  start-IsReport = record { few = omega arith; some_bad = λ h. cc; no_bad = λ h. refl }

  verdict :
      (w : Walk) → IsReport w → (length w.bad ≤ 1000) × ((not w.broken ≡ true) ↔ (length w.bad ≡ 0))
  verdict w r = elim (Bool-cases w.broken) [
    | inl b ↦ (r.few, (λ h. cc (rw b at h), λ h. absurd (omega (arith, r.some_bad b))))
    | inr b ↦ (r.few, (λ h. r.no_bad b, λ h. rw b))
  ]

  -- `verify_text` reports at most 1000 lines, and reports none exactly when it says True.
  pub length-verify_text :
      (text : Text)
      → (length (verify_text sha256 text).1 ≤ 1000)
        × (((verify_text sha256 text).0 ≡ true) ↔ (length (verify_text sha256 text).1 ≡ 0))
  unfolding verify_text
  length-verify_text text =
      let w = walk sha256 0 (lines text) (walk_start sha256) in
      let r = walk-IsReport 0 (lines text) (walk_start sha256) start-IsReport in
      rw length-reverse (verdict w r)
