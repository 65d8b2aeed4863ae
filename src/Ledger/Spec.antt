-- ===== src/Ledger/Spec.antt =====
-- What a valid ledger is, stated on its entries, and how the loop of `verify_text` meets it.
use omega_evidence.Base.{
  ℕ, ◌+◌, true, false, Option, none, some, List, [], ◌∷◌, ==_iff, ◌≡◌, refl, arith, inl, inr,
  Bool-cases, Option-cases, ap, ◌∙◌,
}
use omega_evidence.Base.Text.{Text, codes, ===→eq, ===_refl, is_empty}
use omega_evidence.Base.Int.{pos, negsuc}
use omega_evidence.Value.{Value, Fields, str, int}
use omega_evidence.Ledger.Chain.{
  get, is_text, is_count, entry_of, entries_of, hash_entry, links, walk, walk_line, walk_entry,
  mark, Walk, strip,
}

is_text→eq : (v : Option Value) (s : Text) → is_text v s ≡ true → v ≡ some (str s)
unfolding is_text
is_text→eq none s h = cc
is_text→eq (some (str t)) s h = ap (λ u. some (str u)) (===→eq t s h)
is_text→eq (some _) s h = cc

is_count→eq : (v : Option Value) (n : ℕ) → is_count v n ≡ true → v ≡ some (int (pos n))
unfolding is_count
is_count→eq none s h = cc
is_count→eq (some (int (pos m))) n h = ap (λ u. some (int (pos u))) ((==_iff m n).0 h)
is_count→eq (some (int (negsuc m))) n h = cc
is_count→eq (some _) n h = cc

pub is_text_self : (s : Text) → is_text (some (str s)) s ≡ true
unfolding is_text
is_text_self s = ===_refl s

is_count_self : (n : ℕ) → is_count (some (int (pos n))) n ≡ true
unfolding is_count
is_count_self n = (==_iff n n).1 refl

module _ (sha256 : Text → Text) where
  -- An entry that carries the number n and the hash prev, and its own hash h.
  pub record Links (n : ℕ) (prev h : Text) (e : Fields) : Type 0 where
    pub numbered : get (codes "idx") e ≡ some (int (pos n))
    pub follows : get (codes "prev_hash") e ≡ some (str prev)
    pub carries : get (codes "self_hash") e ≡ some (str h)
    pub hashes : hash_entry sha256 e ≡ some h

  -- Entries that carry the numbers from n on, each with the hash of the one before it.
  abbrev pub IsChain : ℕ → Text → List Fields → Type 0
  IsChain n prev [] = Unit
  IsChain n prev (e ∷ es) = (h : Text) × Links n prev h e × IsChain (n + 1) h es

  links→Links :
      (n : ℕ) (prev : Text) (e : Fields)
      → links sha256 n prev e ≡ true
      → (h : Text) × Links n prev h e
  unfolding links
  links→Links n prev e t = elim (Option-cases (hash_entry sha256 e)) [
    | inl no_hash ↦ ground arith
    | inr (h, eq) ↦ (
      h,
      record {
        numbered = is_count→eq _ n (ground arith);
        follows = is_text→eq _ prev (ground arith);
        carries = is_text→eq _ h (ground arith);
        hashes = eq;
      },
    )
  ]

  pub Links→links :
      (n : ℕ) (prev h : Text) (e : Fields) → Links n prev h e → links sha256 n prev e ≡ true
  unfolding links
  Links→links n prev h e l =
      rw (l.numbered, l.follows, l.carries, l.hashes, is_count_self n, is_text_self prev)
        (is_text_self h)

  pub walk_line-broken :
      (i : ℕ) (line : Text) (w : Walk) → w.broken ≡ true → (walk_line sha256 i line w).broken ≡ true
  unfolding walk_line walk_entry mark
  walk_line-broken i line w b = ground arith

  pub walk-broken :
      (i : ℕ) (ls : List Text) (w : Walk) → w.broken ≡ true → (walk sha256 i ls w).broken ≡ true
  unfolding walk
  walk-broken i [] w b = b
  walk-broken i (l ∷ ls) w b =
      ground (arith, walk-broken (i + 1) ls (walk_line sha256 i l w) (walk_line-broken i l w b))

  pub walk_line-blank :
      (i : ℕ) (l : Text) (w : Walk) → is_empty (strip l) ≡ true → walk_line sha256 i l w ≡ w
  unfolding walk_line
  walk_line-blank i l w h = rw h

  pub walk_line-entry :
      (i : ℕ) (l : Text) (w : Walk)
      → is_empty (strip l) ≡ false
      → walk_line sha256 i l w ≡ walk_entry sha256 i (entry_of (strip l)) w
  unfolding walk_line
  walk_line-entry i l w h = rw h

  -- Nothing marked so far.
  abbrev pub intact : ℕ → Text → Walk
  intact n prev = record { bad = []; broken = false; prev = prev; n = n }

  pub walk_entry-good :
      (i n : ℕ) (prev h : Text) (e : Fields)
      → Links n prev h e
      → walk_entry sha256 i (some e) (intact n prev) ≡ intact (n + 1) h
  unfolding walk_entry
  walk_entry-good i n prev h e l = rw (Links→links n prev h e l, l.carries)

  pub walk_entry-bad :
      (i : ℕ) (e : Fields) (w : Walk)
      → links sha256 w.n w.prev e ≡ false
      → (walk_entry sha256 i (some e) w).broken ≡ true
  unfolding walk_entry mark
  walk_entry-bad i e w h = rw h

  walk_entry-none : (i : ℕ) (w : Walk) → (walk_entry sha256 i none w).broken ≡ true
  unfolding walk_entry mark
  walk_entry-none i w = refl

  pub walk-cons :
      (i n : ℕ) (prev l : Text) (ls : List Text)
      → walk sha256 i (l ∷ ls) (intact n prev)
        ≡ walk sha256 (i + 1) ls (walk_line sha256 i l (intact n prev))
  unfolding walk
  walk-cons i n prev l ls = refl

  entries_of-blank :
      (l : Text) (ls : List Text) → is_empty (strip l) ≡ true → entries_of (l ∷ ls) ≡ entries_of ls
  unfolding entries_of
  entries_of-blank l ls h = rw h

  entries_of-entry :
      (l : Text) (ls : List Text) (e : Fields) (es : List Fields)
      → is_empty (strip l) ≡ false
      → entry_of (strip l) ≡ some e
      → entries_of ls ≡ some es
      → entries_of (l ∷ ls) ≡ some (e ∷ es)
  unfolding entries_of
  entries_of-entry l ls e es h k r = rw (h, k, r)

  unbroken :
      (i : ℕ) (ls : List Text) (w : Walk) → (walk sha256 i ls w).broken ≡ false → w.broken ≡ false
  unbroken i ls w h = elim (Bool-cases w.broken) [ inl b ↦ cc (walk-broken i ls w b) | inr b ↦ b ]

  abbrev pub Decoded : ℕ → Text → List Text → Type 0
  Decoded n prev ls = (es : List Fields) × (entries_of ls ≡ some es) × IsChain n prev es

  -- one line that is not blank, and what the loop says of the rest
  sound_entry :
      (i n : ℕ) (prev l : Text) (ls : List Text)
      → ((m : ℕ) (q : Text) → (walk sha256 (i + 1) ls (intact m q)).broken ≡ false → Decoded m q ls)
      → is_empty (strip l) ≡ false
      → (walk sha256 (i + 1) ls (walk_entry sha256 i (entry_of (strip l)) (intact n prev))).broken
        ≡ false
      → Decoded n prev (l ∷ ls)
  sound_entry i n prev l ls ih nb h = elim (Option-cases (entry_of (strip l))) [
    | inl e ↦ cc (walk_entry-none i (intact n prev), unbroken (i + 1) ls _ (rw e at h))
    | inr (e, eq) ↦ elim (Bool-cases (links sha256 n prev e)) [
      | inr no_link ↦
          cc (walk_entry-bad i e (intact n prev) no_link, unbroken (i + 1) ls _ (rw eq at h))
      | inl link ↦
          let (hash, l') = links→Links n prev e link in
          let (es, found, chain) =
            ih (n + 1) hash (rw (eq, walk_entry-good i n prev hash e l') at h) in
          (e ∷ es, entries_of-entry l ls e es nb eq found, (hash, l', chain))
    ]
  ]

  pub walk_sound :
      (i n : ℕ) (prev : Text) (ls : List Text)
      → (walk sha256 i ls (intact n prev)).broken ≡ false
      → Decoded n prev ls
  walk_sound i n prev [] h = ([], unfold entries_of in refl, tt)
  walk_sound i n prev (l ∷ ls) h = elim (Bool-cases (is_empty (strip l))) [
    | inl blank ↦
        let (es, found, chain) =
          walk_sound (i + 1) n prev ls
            (rw (walk-cons i n prev l ls, walk_line-blank i l (intact n prev) blank) at h) in
        (es, entries_of-blank l ls blank ∙ found, chain)
    | inr full ↦
        sound_entry i n prev l ls (λ m q. walk_sound (i + 1) m q ls) full
          (rw (walk-cons i n prev l ls, walk_line-entry i l (intact n prev) full) at h)
  ]
