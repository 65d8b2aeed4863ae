-- ===== src/Trust/Refines.antt =====
-- The methods trust, rotate and revoke against the replay of the ledger that they write.
use omega_evidence.Base.{
  Bool, true, false, not, ◌&&◌, Option, none, some, List, [], ◌∷◌, ◌++◌, if◌then◌else◌, ◌≡◌, ◌≢◌,
  refl, arith, inl, inr, Bool-cases, ◌⊎◌, ap, ◌∙◌,
}
use omega_evidence.Base.Text.{Text, codes, ◌===◌, ===→eq, is_empty}
use omega_evidence.Base.Dict.{lookup, insert}
use omega_evidence.Base.Result.{
  Result, ok, err, >>=-eq-ok, >>-eq-ok, raise_if, raise_if-eq-ok, Result-cases,
}
use omega_evidence.Value.{Value, str}
use omega_evidence.Trust.Store.{Pin, revokes, pin, is_revoked}
use omega_evidence.Trust.Registry.{
  Registry, TrustError, trust, rotate, revoke, key_record, revoke_record, is_key, append_record,
  store, trust_locked, Reply, trusted, revoked, rotated, signer_revoked, different_key,
  different_pq_key, contradiction, pq_undecided, check_pq, is_idempotent, is_none, or_else,
  both_differ, kept_pq, pq_of_pin, revoke_locked,
}
use omega_evidence.Trust.Events.{pin_after}
use omega_evidence.Trust.Methods.{
  Agrees, AreKeys, check_key-ok, check_pq-ok, trusted-Agrees, rotated-Agrees, store-Agrees,
  append_record-ok, visible, read_event-revoke,
}

not-false : (b : Bool) → not b ≡ false → b ≡ true
not-false true h = refl
not-false false h = cc

module _ (p : Pin) (sid pk ts since : Text) (pq : Option Text) (r r' : Registry) (x : Reply) where
  abbrev pub Stored : Type 0
  Stored =
      store sid (pin pk (or_else pq p.pq_pubkey) (some (str since)))
        (key_record (codes "trust") sid pk pq ts) trusted r
      ≡ ok (x, r')

  -- What the guards of `trust` let through for a signer that is known.
  pub trust_locked-known :
      trust_locked (some p) sid pk pq ts since r ≡ ok (x, r')
      → (p.revoked ≡ false)
        × (p.pubkey ≡ pk)
        × ((r ≡ r') ⊎ ((is_idempotent p pk pq ≡ false) × Stored))
  unfolding trust_locked
  trust_locked-known h =
      let (live, h1) = >>-eq-ok (raise_if p.revoked signer_revoked) _ h in
      let (key, h2) = >>-eq-ok (raise_if (not (p.pubkey === pk)) different_key) _ h1 in
      let (_, h3) = >>-eq-ok (raise_if (both_differ p.pq_pubkey pq) different_pq_key) _ h2 in
      (
        raise_if-eq-ok p.revoked signer_revoked live,
        ===→eq p.pubkey pk (not-false (p.pubkey === pk) (raise_if-eq-ok _ different_key key)),
        elim (Bool-cases (is_idempotent p pk pq)) [
          | inl again ↦ inl (ground (arith, rw again at h3))
          | inr more ↦ inr (more, rw more at h3)
        ],
      )

kept-eq :
    (p : Pin) (pk : Text) (pq : Option Text)
    → is_idempotent p pk pq ≡ false
    → or_else pq p.pq_pubkey ≡ pq
kept-eq p pk none h = cc
kept-eq p pk (some v) h = refl

trust_locked-Agrees :
    (o : Option Pin) (sid pk ts since : Text) (pq : Option Text) (r r' : Registry) (x : Reply)
    → is_key sid ≡ true
    → is_key pk ≡ true
    → AreKeys pq
    → Agrees r
    → lookup sid r.state ≡ o
    → trust_locked o sid pk pq ts since r ≡ ok (x, r')
    → Agrees r'
trust_locked-Agrees none sid pk ts since pq r r' x s k q a e h =
    trusted-Agrees sid pk ts since pq r r' x trusted s k q a pq refl (rw e)
      (unfold trust_locked in h)
trust_locked-Agrees (some p) sid pk ts since pq r r' x s k q a e h =
    let (live, _, how) = trust_locked-known p sid pk ts since pq r r' x h in
    elim how [
      | inl same ↦ rw (← same) a
      | inr (more, st) ↦
          trusted-Agrees sid pk ts since pq r r' x trusted s k q a (or_else pq p.pq_pubkey)
            (kept-eq p pk pq more) (rw e live) st
    ]

trust-Agrees :
    (sid pk : Text) (pq : Option Text) (ts since : Text) (r r' : Registry) (x : Reply)
    → trust sid pk pq ts since r ≡ ok (x, r')
    → Agrees r
    → Agrees r'
unfolding trust
trust-Agrees sid pk pq ts since r r' x h a =
    let (s, h1) = >>-eq-ok _ _ h in
    let (k, h2) = >>-eq-ok _ _ h1 in
    let (q, h3) = >>-eq-ok _ _ h2 in
    trust_locked-Agrees (lookup sid r.state) sid pk ts since pq r r' x (check_key-ok sid s)
      (check_key-ok pk k) (check_pq-ok pq q) a refl h3

kept-AreKeys :
    (drop_pq : Bool) (pq : Option Text) (cur : Option Pin)
    → AreKeys pq
    → AreKeys (pq_of_pin cur)
    → AreKeys (kept_pq drop_pq pq cur)
kept-AreKeys true pq cur q c = tt
kept-AreKeys false none cur q c = c
kept-AreKeys false (some v) cur q c = q

rotate-Agrees :
    (sid pk : Text) (pq : Option Text) (drop_pq : Bool) (ts since : Text) (r r' : Registry)
    (x : Reply)
    → rotate sid pk pq drop_pq ts since r ≡ ok (x, r')
    → Agrees r
    → Agrees r'
unfolding rotate
rotate-Agrees sid pk pq drop_pq ts since r r' x h a =
    let (s, h1) = >>-eq-ok _ _ h in
    let (k, h2) = >>-eq-ok _ _ h1 in
    let cur = lookup sid r.state in
    let kept = kept_pq drop_pq pq cur in
    let (q, h3) = >>-eq-ok (check_pq pq) _ h2 in
    let (_, h4) = >>-eq-ok (raise_if (not (is_none pq) && drop_pq) contradiction) _ h3 in
    let (_, h5) =
      >>-eq-ok
        (raise_if (is_revoked cur && not (is_none (pq_of_pin cur)) && is_none pq && not drop_pq)
          pq_undecided)
        _ h4 in
    rotated-Agrees sid pk ts since kept r r' x (rotated (not (is_none kept) && is_none pq))
      (check_key-ok sid s) (check_key-ok pk k)
      (kept-AreKeys drop_pq pq cur (check_pq-ok pq q) (a.pq_named sid)) a h5

named_signer : (t : Text) → t ≢ [] → is_empty t ≡ false
named_signer [] h = absurd (h refl)
named_signer (c ∷ t) h = refl

revoked_view :
    (sid k : Text) (cur : Option Pin) (p : Pin) (reason : Option Value)
    → (sid ≡ k → visible cur ≡ visible (some p))
    → visible (pin_after k cur (revokes sid reason)) ≡ (
        if sid === k
        then visible (some (record p { revoked = true; reason = reason }))
        else visible cur)
revoked_view sid k none p reason h = elim (Bool-cases (sid === k)) [
  | inl own ↦ cc (h (===→eq sid k own))
  | inr other ↦ rw other
]
revoked_view sid k (some p0) p reason h = elim (Bool-cases (sid === k)) [
  | inl own ↦ rw own (ground (arith, h (===→eq sid k own)))
  | inr other ↦ rw other
]

revoke-ok :
    (sid : Text) (p : Pin) (v : Value) (r r1 r' : Registry) (x : Reply)
    → append_record v r ≡ ok r1
    → ◌≡◌ {A = Result TrustError (Reply × Registry)}
        (ok (revoked, record r1 { state = insert sid p r1.state }))
        (ok (x, r'))
    → r' ≡ record { state = insert sid p r.state; log = r.log ++ (v ∷ []) }
revoke-ok sid p v r r1 r' x one rest = ground (arith, append_record-ok v r r1 one)

revoke_locked-Agrees :
    (o : Option Pin) (sid reason ts : Text) (r r' : Registry) (x : Reply)
    → lookup sid r.state ≡ o
    → revoke_locked o sid reason ts r ≡ ok (x, r')
    → Agrees r
    → Agrees r'
revoke_locked-Agrees none sid reason ts r r' x e h a = cc
revoke_locked-Agrees (some p) sid reason ts r r' x e h a =
    let (r1, one, rest) = >>=-eq-ok (append_record (revoke_record sid reason ts) r) _ h in
    let (d, is_dict, read) =
      read_event-revoke sid reason ts
        (named_signer sid (λ n. cc (a.named, e, ap (λ k. lookup k r.state) n))) in
    let p' = record p { revoked = true; reason = some (str reason) } in
    store-Agrees sid p' d (revokes sid (some (str reason))) r r' a
      (λ n. cc (a.named, e, ap (λ k. lookup k r.state) n)) (rw e at (a.pq_named sid)) read
      (λ k.
        revoked_view sid k (lookup k a.replayed) p (some (str reason))
          (λ own. rw own at (a.same sid ∙ ap visible e)))
      (rw is_dict at (revoke-ok sid p' (revoke_record sid reason ts) r r1 r' x one rest))

revoke-Agrees :
    (sid reason ts : Text) (r r' : Registry) (x : Reply)
    → revoke sid reason ts r ≡ ok (x, r')
    → Agrees r
    → Agrees r'
unfolding revoke
revoke-Agrees sid reason ts r r' x h a =
    revoke_locked-Agrees (lookup sid r.state) sid reason ts r r' x refl h a

-- One call on a registry, the two readings of the clock with it.
pub data Call : Type 0 where
  trust_call : Text → Text → Option Text → Text → Text → Call
  rotate_call : Text → Text → Option Text → Bool → Text → Text → Call
  revoke_call : Text → Text → Text → Call

abbrev pub call : Call → Registry → Result TrustError (Reply × Registry)
call (trust_call sid pk pq ts since) r = trust sid pk pq ts since r
call (rotate_call sid pk pq drop_pq ts since) r = rotate sid pk pq drop_pq ts since r
call (revoke_call sid reason ts) r = revoke sid reason ts r

abbrev pub settle : Result TrustError (Reply × Registry) → Registry → Registry
settle (ok (x, r')) r = r'
settle (err e) r = r

-- A call that raises leaves the registry as it was.
abbrev pub calls : List Call → Registry → Registry
calls [] r = r
calls (c ∷ cs) r = calls cs (settle (call c r) r)

call-Agrees :
    (c : Call) (r r' : Registry) (x : Reply) → call c r ≡ ok (x, r') → Agrees r → Agrees r'
call-Agrees (trust_call sid pk pq ts since) r r' x h a = trust-Agrees sid pk pq ts since r r' x h a
call-Agrees (rotate_call sid pk pq drop_pq ts since) r r' x h a =
    rotate-Agrees sid pk pq drop_pq ts since r r' x h a
call-Agrees (revoke_call sid reason ts) r r' x h a = revoke-Agrees sid reason ts r r' x h a

settle-Agrees : (c : Call) (r : Registry) → Agrees r → Agrees (settle (call c r) r)
settle-Agrees c r a = elim (Result-cases (call c r)) [
  | inl (e, bad) ↦ rw bad a
  | inr ((x, r'), good) ↦ rw good (call-Agrees c r r' x good a)
]

-- After any calls of `trust`, `rotate` and `revoke`, those that raise among them, the ledger
-- replays without an error, to the same keys, post-quantum keys, revocations and reasons as the
-- instance holds for every signer, if that was so before them.
pub calls-Agrees : (cs : List Call) (r : Registry) → Agrees r → Agrees (calls cs r)
calls-Agrees [] r a = a
calls-Agrees (c ∷ cs) r a = calls-Agrees cs (settle (call c r) r) (settle-Agrees c r a)
