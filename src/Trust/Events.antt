-- ===== src/Trust/Events.antt =====
-- What the replay of a record does to the pins: the rules of the registry, on its own history.
use omega_evidence.Base.{
  true, false, Option, none, some, List, [], ◌∷◌, if◌then◌else◌, ◌≡◌, refl, arith, inl, inr,
  Option-cases, Bool-cases,
}
use omega_evidence.Base.Text.{Text, ◌===◌, ===_iff}
use omega_evidence.Base.Dict.{lookup, lookup-insert}
use omega_evidence.Base.Result.{Result, ok, >>=-eq-ok}
use omega_evidence.Value.{Value, Fields, dict, null}
use omega_evidence.Trust.Store.{
  Pin, State, Event, ignored, trusts, rotates, revokes, step, pin, is_revoked, apply, replay,
  read_event, Broken,
}
use omega_evidence.Trust.Registry.{is_trusted, pinned_pq}

-- The records that re-establish a signer.
abbrev pub Rotates : Text → Event → Type 0
Rotates sid (rotates s pk pq since) = s ≡ sid
Rotates sid _ = ⊥

-- The pin of one signer after an event, from the pin before it.
abbrev pub pin_after : Text → Option Pin → Event → Option Pin
pin_after k cur ignored = cur
pin_after k cur (trusts sid pk pq since) =
    if sid === k then (if is_revoked cur then cur else some (pin pk pq since)) else cur
pin_after k cur (rotates sid pk pq since) = if sid === k then some (pin pk pq since) else cur
pin_after k none (revokes sid reason) = none
pin_after k (some p) (revokes sid reason) =
    if sid === k then some (record p { revoked = true; reason = reason }) else some p

-- An event changes the pin of its own signer alone, and that by the rules.
pub lookup-step :
    (k : Text) (st : State) (e : Event) → lookup k (step st e) ≡ pin_after k (lookup k st) e
unfolding step
lookup-step k st ignored = refl
lookup-step k st (trusts sid pk pq since) =
    ground (arith, lookup-insert sid k (pin pk pq since) st, ===_iff sid k)
lookup-step k st (rotates sid pk pq since) = lookup-insert sid k (pin pk pq since) st
lookup-step k st (revokes sid reason) = elim (Option-cases (lookup sid st)) [
  | inl absent ↦ ground (arith, ===_iff sid k)
  | inr (p, there) ↦
      ground (
        arith,
        lookup-insert sid k (record p { revoked = true; reason = reason }) st,
        ===_iff sid k,
      )
]

pub ok_inj : {a b : State} → ◌≡◌ {A = Result Broken State} (ok a) (ok b) → a ≡ b
ok_inj h = cc

-- No record of the list re-establishes the signer.
abbrev pub NoRotation : Text → List Value → Type 0
NoRotation k [] = Unit
NoRotation k (dict d ∷ ds) = ((e : Event) → read_event d ≡ ok e → ¬ Rotates k e) × NoRotation k ds
NoRotation k (_ ∷ ds) = NoRotation k ds

pin_after-revoked :
    (k : Text) (cur : Option Pin) (e : Event)
    → ¬ Rotates k e
    → is_revoked cur ≡ true
    → is_revoked (pin_after k cur e) ≡ true
pin_after-revoked k cur ignored n h = h
pin_after-revoked k cur (trusts sid pk pq since) n h = ground arith
pin_after-revoked k cur (rotates sid pk pq since) n h = elim (Bool-cases (sid === k)) [
  | inl same ↦ absurd (n ((===_iff sid k).0 same))
  | inr other ↦ rw other h
]
pin_after-revoked k none (revokes sid reason) n h = cc
pin_after-revoked k (some p) (revokes sid reason) n h = ground arith

is_trusted-revoked :
    (k pk : Text) (st : State) → is_revoked (lookup k st) ≡ true → is_trusted k pk st ≡ false
unfolding is_trusted
is_trusted-revoked k pk st h = ground arith

pinned_pq-revoked :
    (k : Text) (st : State) → is_revoked (lookup k st) ≡ true → pinned_pq k st ≡ none
unfolding pinned_pq
pinned_pq-revoked k st h = ground arith

-- `apply` on an object is one event.
pub apply-dict :
    (st st' : State) (v : Value)
    → apply st v ≡ ok st'
    → (d : Fields) × (e : Event) × (v ≡ dict d) × (read_event d ≡ ok e) × (step st e ≡ st')
unfolding apply
apply-dict st st' (dict d) h =
    let (e, read, done) = >>=-eq-ok (read_event d) _ h in (d, e, refl, read, ground arith)
apply-dict st st' null h = cc
apply-dict st st' _ h = cc

replay-revoked :
    (k : Text) (st st' : State) (ds : List Value)
    → replay st ds ≡ ok st'
    → NoRotation k ds
    → is_revoked (lookup k st) ≡ true
    → is_revoked (lookup k st') ≡ true
unfolding replay
replay-revoked k st st' [] h n r = rw (← (ok_inj h)) r
replay-revoked k st st' (v ∷ ds) h n r =
    let (mid, one, rest) = >>=-eq-ok (apply st v) _ h in
    let (d, e, is_dict, read, done) = apply-dict st mid v one in
    let n' : NoRotation k (dict d ∷ ds) = rw is_dict at n in
    let after : is_revoked (lookup k (step st e)) ≡ true =
      rw lookup-step (pin_after-revoked k (lookup k st) e (n'.0 e read) r) in
    replay-revoked k mid st' ds rest n'.1 (rw done at after)

-- Once a signer is revoked, no record but its own rotation re-establishes it: whatever follows in
-- the store, the signer stays revoked, no key of it is trusted and it has no post-quantum pin.
pub revoked_stays :
    (k pk : Text) (st st' : State) (ds : List Value)
    → is_revoked (lookup k st) ≡ true
    → NoRotation k ds
    → replay st ds ≡ ok st'
    → (is_revoked (lookup k st') ≡ true) × (is_trusted k pk st' ≡ false) × (pinned_pq k st' ≡ none)
revoked_stays k pk st st' ds r n h =
    let r' = replay-revoked k st st' ds h n r in
    (r', is_trusted-revoked k pk st' r', pinned_pq-revoked k st' r')
