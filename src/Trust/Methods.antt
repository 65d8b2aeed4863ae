-- ===== src/Trust/Methods.antt =====
-- The instance of a registry against the replay of its ledger: the relation of the two, and what
-- one record does to it.
use omega_evidence.Base.{
  true, false, Option, none, some, List, [], ◌∷◌, ◌++◌, if◌then◌else◌, ◌≡◌, ◌≢◌, refl, arith, inl,
  inr, Bool-cases, ap, ◌∙◌,
}
use omega_evidence.Base.Text.{Text, codes, ◌===◌, ===_iff, is_empty}
use omega_evidence.Base.Dict.{lookup, insert, lookup-insert}
use omega_evidence.Base.Result.{ok, >>=-eq-ok, Result-cases}
use omega_evidence.Value.{Value, Fields, dict, str}
use omega_evidence.Ledger.Portable.{check_portable}
use omega_evidence.Trust.Store.{
  Pin, State, Event, trusts, rotates, revokes, step, pin, is_revoked, apply, replay, read_event,
}
use omega_evidence.Trust.Registry.{
  Registry, key_record, revoke_record, is_key, append_record, store, check_key, check_pq, Reply,
  pq_of_pin,
}
use omega_evidence.Trust.Events.{pin_after, lookup-step, ok_inj}

-- A pin without the time at which it was set, which `append` and the instance read separately.
abbrev pub visible : Option Pin → Option Pin
visible none = none
visible (some p) = some (record p { since = none })

abbrev pub SameView : State → State → Type 0
SameView a b = (k : Text) → visible (lookup k a) ≡ visible (lookup k b)

-- A key that is there is not empty.
abbrev pub AreKeys : Option Text → Type 0
AreKeys none = Unit
AreKeys (some t) = t ≢ []

-- The ledger replays to what the instance holds.
pub record Agrees (r : Registry) : Type 0 where
  pub replayed : State
  pub runs : replay [] r.log ≡ ok replayed
  pub same : SameView replayed r.state
  pub named : lookup [] r.state ≡ none
  pub pq_named : (k : Text) → AreKeys (pq_of_pin (lookup k r.state))

replay-snoc :
    (st st' : State) (ds : List Value) (d : Fields) (e : Event)
    → replay st ds ≡ ok st'
    → read_event d ≡ ok e
    → replay st (ds ++ (dict d ∷ [])) ≡ ok (step st' e)
unfolding replay
replay-snoc st st' [] d e h r = rw r (ap (λ s. ok (step s e)) (ok_inj h))
replay-snoc st st' (v ∷ ds) d e h r =
    let (mid, one, rest) = >>=-eq-ok (apply st v) _ h in rw one (replay-snoc mid st' ds d e rest r)

-- A record that `read_event` reads, and the pin that the instance stores for its signer.
pub store-Agrees :
    (sid : Text) (p : Pin) (d : Fields) (e : Event) (r r' : Registry) (a : Agrees r)
    → sid ≢ []
    → AreKeys p.pq_pubkey
    → read_event d ≡ ok e
    → ((k : Text)
        → visible (pin_after k (lookup k a.replayed) e)
          ≡ (if sid === k then visible (some p) else visible (lookup k a.replayed)))
    → r' ≡ record { state = insert sid p r.state; log = r.log ++ (dict d ∷ []) }
    → Agrees r'
store-Agrees sid p d e r r' a ne pq read view eq = rw eq (record {
  replayed = step a.replayed e;
  runs = replay-snoc [] a.replayed r.log d e a.runs read;
  same = λ k.
      rw (lookup-step, lookup-insert)
        (elim (Bool-cases (sid === k)) [
          | inl own ↦ rw own (rw own at (view k))
          | inr other ↦ rw other ((rw other at (view k)) ∙ a.same k)
        ]);
  named = rw lookup-insert (ground (arith, ===_iff sid []));
  pq_named = λ k.
      rw lookup-insert (elim (Bool-cases (sid === k)) [
        | inl own ↦ rw own pq
        | inr other ↦ rw other (a.pq_named k)
      ]);
})

pub is_key-ne : (t : Text) → is_key t ≡ true → t ≢ []
unfolding is_key
is_key-ne [] h = cc
is_key-ne (c ∷ t) h = ground arith

pub is_key-is_empty : (t : Text) → is_key t ≡ true → is_empty t ≡ false
unfolding is_key
is_key-is_empty [] h = cc
is_key-is_empty (c ∷ t) h = refl

pub read_event-trust :
    (sid pk ts : Text) (pq : Option Text)
    → is_key sid ≡ true
    → is_key pk ≡ true
    → AreKeys pq
    → (d : Fields) × (key_record (codes "trust") sid pk pq ts ≡ dict d)
      × (read_event d ≡ ok (trusts sid pk pq (some (str ts))))
unfolding key_record read_event ◌===◌
read_event-trust sid pk ts none s p q = (_, refl, rw (is_key-is_empty sid s, is_key-is_empty pk p))
read_event-trust sid pk ts (some []) s p q = absurd (q refl)
read_event-trust sid pk ts (some (c ∷ v)) s p q =
    (_, refl, rw (is_key-is_empty sid s, is_key-is_empty pk p))

pub read_event-rotate :
    (sid pk ts : Text) (pq : Option Text)
    → is_key sid ≡ true
    → is_key pk ≡ true
    → AreKeys pq
    → (d : Fields) × (key_record (codes "rotate") sid pk pq ts ≡ dict d)
      × (read_event d ≡ ok (rotates sid pk pq (some (str ts))))
unfolding key_record read_event ◌===◌
read_event-rotate sid pk ts none s p q = (_, refl, rw (is_key-is_empty sid s, is_key-is_empty pk p))
read_event-rotate sid pk ts (some []) s p q = absurd (q refl)
read_event-rotate sid pk ts (some (c ∷ v)) s p q =
    (_, refl, rw (is_key-is_empty sid s, is_key-is_empty pk p))

pub read_event-revoke :
    (sid reason ts : Text)
    → is_empty sid ≡ false
    → (d : Fields) × (revoke_record sid reason ts ≡ dict d)
      × (read_event d ≡ ok (revokes sid (some (str reason))))
unfolding revoke_record read_event ◌===◌
read_event-revoke sid reason ts s = (_, refl, rw s)

pub append_record-ok :
    (v : Value) (r r' : Registry)
    → append_record v r ≡ ok r'
    → r' ≡ record r { log = r.log ++ (v ∷ []) }
unfolding append_record
append_record-ok v r r' h = elim (Result-cases (check_portable v)) [
  | inl (x, bad) ↦ cc (rw (bad, append_record) at h)
  | inr (u, good) ↦ ground (arith, rw (good, append_record) at h)
]

pub store-ok :
    (sid : Text) (p : Pin) (v : Value) (reply x : Reply) (r r' : Registry)
    → store sid p v reply r ≡ ok (x, r')
    → r' ≡ record { state = insert sid p r.state; log = r.log ++ (v ∷ []) }
unfolding store
store-ok sid p v reply x r r' h =
    let (r1, one, rest) = >>=-eq-ok (append_record v r) _ h in
    ground (arith, append_record-ok v r r1 one)

pub check_key-ok : (v : Text) → check_key v ≡ ok tt → is_key v ≡ true
check_key-ok v h = ground arith

pub check_pq-ok : (pq : Option Text) → check_pq pq ≡ ok tt → AreKeys pq
check_pq-ok none h = tt
check_pq-ok (some v) h = is_key-ne v (check_key-ok v h)

pub visible-is_revoked : (a b : Option Pin) → visible a ≡ visible b → is_revoked a ≡ is_revoked b
visible-is_revoked none none h = refl
visible-is_revoked none (some q) h = cc
visible-is_revoked (some p) none h = cc
visible-is_revoked (some p) (some q) h = ground arith

module _ (sid pk ts since : Text) (pq : Option Text) (r r' : Registry) (x reply : Reply)
    (s : is_key sid ≡ true) (k : is_key pk ≡ true) (q : AreKeys pq) (a : Agrees r) where
  pub trusted-Agrees :
      (kept : Option Text)
      → kept ≡ pq
      → is_revoked (lookup sid r.state) ≡ false
      → store sid (pin pk kept (some (str since))) (key_record (codes "trust") sid pk pq ts) reply r
        ≡ ok (x, r')
      → Agrees r'
  trusted-Agrees kept e live h =
      let (d, is_dict, read) = read_event-trust sid pk ts pq s k q in
      store-Agrees sid (pin pk kept (some (str since))) d _ r r' a (is_key-ne sid s) (rw e q) read
        view (rw is_dict at (store-ok sid _ _ reply x r r' h))
    where
      view :
          (j : Text)
          → visible (pin_after j (lookup j a.replayed) (trusts sid pk pq (some (str ts)))) ≡ (
              if sid === j
              then visible (some (pin pk kept (some (str since))))
              else visible (lookup j a.replayed))
      view j = elim (Bool-cases (sid === j)) [
        | inl own ↦
            let same : sid ≡ j = (===_iff sid j).0 own in
            let live' : is_revoked (lookup j r.state) ≡ false = rw same at live in
            rw (own, visible-is_revoked _ _ (a.same j) ∙ live', e)
        | inr other ↦ rw other
      ]

  pub rotated-Agrees :
      store sid (pin pk pq (some (str since))) (key_record (codes "rotate") sid pk pq ts) reply r
        ≡ ok (x, r')
      → Agrees r'
  rotated-Agrees h =
      let (d, is_dict, read) = read_event-rotate sid pk ts pq s k q in
      store-Agrees sid (pin pk pq (some (str since))) d _ r r' a (is_key-ne sid s) q read
        (λ j. elim (Bool-cases (sid === j)) [ inl own ↦ rw own | inr other ↦ rw other ])
        (rw is_dict at (store-ok sid _ _ reply x r r' h))
