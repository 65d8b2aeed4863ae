-- ===== src/Trust/Tofu.antt =====
-- Trust on first use: what a call that returns means for the keys of a signer.
use omega_evidence.Base.{
  Bool, true, false, not, ◌&&◌, Option, none, some, ◌≡◌, ◌≢◌, refl, arith, inl, inr, ap, sym,
  untrue, Bool-cases,
}
use mathlib.Core.Path.{subst}
use omega_evidence.Base.Text.{Text, codes, ===_iff, ===_refl}
use omega_evidence.Base.Dict.{lookup, insert, lookup-insert}
use omega_evidence.Base.Result.{ok, >>-eq-ok, raise_if, raise_if-eq-ok}
use omega_evidence.Value.{str}
use omega_evidence.Trust.Store.{Pin, pin, is_revoked}
use omega_evidence.Trust.Registry.{
  Registry, trust, rotate, key_record, check_pq, check_key, trusted, Reply, rotated, is_none,
  or_else, is_trusted, pinned_pq, kept_pq, pq_of_pin, contradiction, pq_undecided,
}
use omega_evidence.Trust.Methods.{store-ok}
use omega_evidence.Trust.Refines.{trust_locked-known}

-- The post-quantum key after a rotation, from `drop_pq`, the key that was given and the pin before.
pub data PinAfter : Bool → Option Text → Option Pin → Option Text → Type 0 where
  dropped : (before : Option Pin) → PinAfter true none before none
  given : (before : Option Pin) (q : Text) → PinAfter false (some q) before (some q)
  never_pinned : PinAfter false none none none
  carried_over : (p : Pin) → p.revoked ≡ false → PinAfter false none (some p) p.pq_pubkey
  nothing_to_carry :
      (p : Pin) → p.revoked ≡ true → p.pq_pubkey ≡ none → PinAfter false none (some p) none

left_of_revoked :
    (p : Pin)
    → p.revoked ≡ true
    → (p.revoked && not (is_none p.pq_pubkey) && true && true) ≡ false
    → p.pq_pubkey ≡ none
left_of_revoked p rev u = ground arith

kept_pq-PinAfter :
    (drop_pq : Bool) (pq : Option Text) (cur : Option Pin)
    → (not (is_none pq) && drop_pq) ≡ false
    → (is_revoked cur && not (is_none (pq_of_pin cur)) && is_none pq && not drop_pq) ≡ false
    → PinAfter drop_pq pq cur (kept_pq drop_pq pq cur)
kept_pq-PinAfter true none cur c u = dropped cur
kept_pq-PinAfter true (some q) cur c u = untrue (sym c)
kept_pq-PinAfter false (some q) cur c u = given cur q
kept_pq-PinAfter false none none c u = never_pinned
kept_pq-PinAfter false none (some p) c u = elim (Bool-cases p.revoked) [
  | inr live ↦ carried_over p live
  | inl rev ↦
      let gone : p.pq_pubkey ≡ none = left_of_revoked p rev u in
      subst (PinAfter false none (some p)) (sym gone) (nothing_to_carry p rev gone)
]

module _ (sid pk ts since : Text) (pq : Option Text) (r r' : Registry) (x : Reply) where
  others-kept :
      (p : Pin) (j : Text)
      → r'.state ≡ insert sid p r.state
      → sid ≢ j
      → lookup j r'.state ≡ lookup j r.state
  others-kept p j e ne = rw (e, lookup-insert) (ground (arith, ===_iff sid j))

  stored-is_trusted :
      (p : Pin)
      → p.revoked ≡ false
      → p.pubkey ≡ pk
      → r'.state ≡ insert sid p r.state
      → is_trusted sid pk r'.state ≡ true
  unfolding is_trusted
  stored-is_trusted p live key e =
      rw (e, is_trusted, lookup-insert, ===_refl sid, live, key) (===_refl pk)

  found-is_trusted :
      (p : Pin)
      → p.revoked ≡ false
      → p.pubkey ≡ pk
      → lookup sid r.state ≡ some p
      → is_trusted sid pk r.state ≡ true
  unfolding is_trusted
  found-is_trusted p live key e = rw (is_trusted, e, live, key) (===_refl pk)

  stored_pq :
      (kept : Option Text)
      → r'.state ≡ insert sid (pin pk kept (some (str since))) r.state
      → pinned_pq sid r'.state ≡ kept
  unfolding pinned_pq
  stored_pq kept e = rw (e, pinned_pq, lookup-insert, ===_refl sid)

  -- A call of `trust` that returns, for a signer that is in the registry, shows that the signer was
  -- not revoked and had this very key: `trust` neither replaces a key nor lifts a revocation. The
  -- key is trusted afterwards, and the pin of every other signer is untouched.
  pub trust_keeps_key :
      (p : Pin)
      → lookup sid r.state ≡ some p
      → trust sid pk pq ts since r ≡ ok (x, r')
      → (p.revoked ≡ false)
        × (p.pubkey ≡ pk)
        × (is_trusted sid pk r'.state ≡ true)
        × ((j : Text) → sid ≢ j → lookup j r'.state ≡ lookup j r.state)
  unfolding trust
  trust_keeps_key p e h =
      let (_, h1) = >>-eq-ok (check_key sid) _ h in
      let (_, h2) = >>-eq-ok (check_key pk) _ h1 in
      let (_, h3) = >>-eq-ok (check_pq pq) _ h2 in
      let (live, key, how) = trust_locked-known p sid pk ts since pq r r' x (rw e at h3) in
      elim how [
        | inl same ↦ (live, key, rw (← same) (found-is_trusted p live key e), λ j ne. rw same)
        | inr (_, st) ↦
            let now = pin pk (or_else pq p.pq_pubkey) (some (str since)) in
            let eq =
              ap (λ (k : Registry). k.state)
                (store-ok sid now (key_record (codes "trust") sid pk pq ts) trusted x r r' st) in
            (live, key, stored-is_trusted now refl refl eq, λ j ne. others-kept now j eq ne)
      ]

  -- A call of `rotate` that returns makes the new key the trusted one. The post-quantum key that is
  -- then pinned is none with `drop_pq`; else the key that was given; else, where none was given, the
  -- one that a signer who is not revoked had, and none for a new signer or a revoked one, who had
  -- none either. Every other pin is untouched.
  pub rotate_pins :
      (drop_pq : Bool)
      → rotate sid pk pq drop_pq ts since r ≡ ok (x, r')
      → (is_trusted sid pk r'.state ≡ true)
        × PinAfter drop_pq pq (lookup sid r.state) (pinned_pq sid r'.state)
        × ((j : Text) → sid ≢ j → lookup j r'.state ≡ lookup j r.state)
  unfolding rotate
  rotate_pins drop_pq h =
      let cur = lookup sid r.state in
      let kept = kept_pq drop_pq pq cur in
      let (_, h1) = >>-eq-ok (check_key sid) _ h in
      let (_, h2) = >>-eq-ok (check_key pk) _ h1 in
      let (_, h3) = >>-eq-ok (check_pq pq) _ h2 in
      let (c, h4) = >>-eq-ok (raise_if (not (is_none pq) && drop_pq) contradiction) _ h3 in
      let undecided =
        is_revoked cur && not (is_none (pq_of_pin cur)) && is_none pq && not drop_pq in
      let (u, h5) = >>-eq-ok (raise_if undecided pq_undecided) _ h4 in
      let now = pin pk kept (some (str since)) in
      let eq =
        ap (λ (k : Registry). k.state)
          (store-ok sid now (key_record (codes "rotate") sid pk kept ts)
            (rotated (not (is_none kept) && is_none pq)) x r r' h5) in
      let pinned = stored_pq kept eq in
      (
        stored-is_trusted now refl refl eq,
        rw pinned (
            kept_pq-PinAfter drop_pq pq cur
              (raise_if-eq-ok (not (is_none pq) && drop_pq) contradiction c)
              (raise_if-eq-ok undecided pq_undecided u)),
        λ j ne. others-kept now j eq ne,
      )
