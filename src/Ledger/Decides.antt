-- ===== src/Ledger/Decides.antt =====
-- `verify_text` and the loader `Ledger._replay` against the definition of a chain.
use omega_evidence.Base.{
  ℕ, ◌+◌, true, false, some, List, [], ◌∷◌, length, ◌≡◌, refl, arith, ◌↔◌, inl, inr, Bool-cases,
  Option-cases, ap, ◌∙◌,
}
use omega_evidence.Base.Text.{Text, codes, is_empty}
use omega_evidence.Base.Utf8.{decode}
use omega_evidence.Value.{Fields}
use omega_evidence.Ledger.Chain.{
  get, entry_of, entries_of, entries_text, walk, verify_text, genesis, lines, strip, replay,
  replay_lines, replay_links, next_prev,
}
use omega_evidence.Ledger.Spec.{
  Links, IsChain, intact, walk_line-blank, walk_line-entry, walk_entry-good, walk-cons, walk_sound,
  is_text_self,
}

-- The hash that a chain ends with.
abbrev pub last_hash : Text → List Fields → Text
last_hash prev [] = prev
last_hash prev (e ∷ es) = last_hash (next_prev (get (codes "self_hash") e) prev) es

-- What a list of lines decodes to, one line at a time.
data Lines : List Text → List Fields → Type 0 where
  done : Lines [] []
  blank :
      {l : Text} {ls : List Text} {es : List Fields}
      → is_empty (strip l) ≡ true
      → Lines ls es
      → Lines (l ∷ ls) es
  entry :
      {l : Text} {ls : List Text} {e : Fields} {es : List Fields}
      → is_empty (strip l) ≡ false
      → entry_of (strip l) ≡ some e
      → Lines ls es
      → Lines (l ∷ ls) (e ∷ es)

entries_of-full :
    (l : Text) (ls : List Text) (es : List Fields)
    → is_empty (strip l) ≡ false
    → entries_of (l ∷ ls) ≡ some es
    → (e : Fields) × (r : List Fields) × (entry_of (strip l) ≡ some e)
      × (entries_of ls ≡ some r)
      × (e ∷ r ≡ es)
unfolding entries_of
entries_of-full l ls es h q = elim (Option-cases (entry_of (strip l))) [
  | inl bad ↦ cc (rw (h, bad) at q)
  | inr (e, good) ↦ elim (Option-cases (entries_of ls)) [
    | inl bad ↦ cc (rw (h, good, bad) at q)
    | inr (r, rest) ↦ (e, r, good, rest, ground (arith, rw (h, good, rest) at q))
  ]
]

entries_of-Lines : (ls : List Text) (es : List Fields) → entries_of ls ≡ some es → Lines ls es
unfolding entries_of
entries_of-Lines [] [] h = done
entries_of-Lines [] (e ∷ es) h = cc
entries_of-Lines (l ∷ ls) es h = elim (Bool-cases (is_empty (strip l))) [
  | inl b ↦ blank b (entries_of-Lines ls es (rw b at h))
  | inr f ↦
      let (e, r, good, rest, eq) = entries_of-full l ls es f h in
      rw (← eq) (entry f good (entries_of-Lines ls r rest))
]

module _ (sha256 : Text → Text) where
  walk_complete :
      (i n : ℕ) (prev : Text) {ls : List Text} {es : List Fields}
      → Lines ls es
      → IsChain sha256 n prev es
      → walk sha256 i ls (intact sha256 n prev) ≡ intact sha256 (n + length es) (last_hash prev es)
  walk_complete i n prev done c = unfold walk in ap (λ k. intact sha256 k prev) (omega arith)
  walk_complete i n prev (blank {l = l} {ls = ls} b r) c =
      rw (walk-cons sha256 i n prev l ls, walk_line-blank sha256 i l (intact sha256 n prev) b)
        (walk_complete (i + 1) n prev r c)
  walk_complete i n prev (entry {l = l} {ls = ls} {e = e} {es = es} f good r) (h, link, c) =
      rw
        (
          walk-cons sha256 i n prev l ls,
          walk_line-entry sha256 i l (intact sha256 n prev) f,
          good,
          walk_entry-good sha256 i n prev h e link,
          link.carries,
        )
        (walk_complete (i + 1) (n + 1) h r c
          ∙ ap (λ k. intact sha256 k (last_hash h es)) (omega arith))

  -- `verify_text` says True exactly of a text whose lines, the blank ones left out, are all
  -- objects of the strict profile that form a chain: numbered from 0, each with the hash of the
  -- entry before it (64 zeros at first) and its own hash, recomputed.
  pub verify_text_iff :
      (text : Text)
      → ((verify_text sha256 text).0 ≡ true)
        ↔ ((es : List Fields) × (entries_text text ≡ some es) × IsChain sha256 0 genesis es)
  unfolding verify_text entries_text
  verify_text_iff text = (
    λ h. walk_sound sha256 0 0 genesis (lines text) (ground arith),
    λ (es, found, c).
        rw (walk_complete 0 0 genesis (entries_of-Lines (lines text) es found) c) refl,
  )

  replay_links-Links :
      (n : ℕ) (prev h : Text) (e : Fields)
      → Links sha256 n prev h e
      → replay_links sha256 prev e ≡ true
  unfolding replay_links
  replay_links-Links n prev h e l =
      rw (l.follows, l.carries, l.hashes, is_text_self prev) (is_text_self h)

  replay_lines-chain :
      (count n : ℕ) (prev : Text) {ls : List Text} {es : List Fields}
      → Lines ls es
      → IsChain sha256 n prev es
      → replay_lines sha256 ls (count, prev) ≡ some (count + length es, last_hash prev es)
  unfolding replay_lines
  replay_lines-chain count n prev done c = ap (λ k. some (k, prev)) (omega arith)
  replay_lines-chain count n prev (blank {ls = ls} b r) c =
      rw (b, replay_lines) (replay_lines-chain count n prev r c)
  replay_lines-chain count n prev (entry {e = e} {es = es} f good r) (h, link, c) =
      rw (f, good, replay_links-Links n prev h e link, link.carries, replay_lines)
        (replay_lines-chain (count + 1) (n + 1) h r c
          ∙ ap (λ k. some (k, last_hash h es)) (omega arith))

  -- A ledger file that `verify_text` passes is loaded by `_replay` without an error, and the
  -- loader ends with the number of its entries and the hash of the last one, from which the next
  -- append goes on.
  pub replay-verify_text :
      (raw text : Text)
      → decode raw ≡ some text
      → (verify_text sha256 text).0 ≡ true
      → (es : List Fields) × (entries_text text ≡ some es)
        × (replay sha256 raw (0, genesis) ≡ some (length es, last_hash genesis es))
  unfolding replay entries_text
  replay-verify_text raw text d h =
      let (es, found, c) = (verify_text_iff text).0 h in
      (
        es,
        found,
        rw (d, replay)
            (replay_lines-chain 0 0 genesis (entries_of-Lines (lines text) es found) c
              ∙ ap (λ k. some (k, last_hash genesis es)) (omega arith)),
      )
