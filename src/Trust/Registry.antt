-- ===== src/Trust/Registry.antt =====
-- The methods of `TrustRegistry` in omega_evidence/trust.py. The ledger is the list of the data
-- that was appended; an append raises where `_check_portable` does. The arguments are str, and
-- each reading of the clock is an argument.
use omega_evidence.Base.{
  ℕ, Bool, true, false, not, ◌&&◌, ◌||◌, Option, none, some, List, [], ◌∷◌, ◌++◌, if◌then◌else◌,
  leb, ◌==◌,
}
use omega_evidence.Base.Text.{Text, codes, ◌===◌}
use omega_evidence.Base.Dict.{lookup, insert}
use omega_evidence.Base.Result.{Result, ok, err, ◌>>=◌, ◌>>◌, raise_if}
use omega_evidence.Value.{Value, name, str, dict, end, field}
use omega_evidence.Canonical.{Refusal}
use omega_evidence.Ledger.Portable.{check_portable}
use omega_evidence.Trust.Store.{Pin, State, pin, is_revoked}

pub record Registry : Type 0 where
  pub state : State
  pub log : List Value

pub data TrustError : Type 0 where
  empty_key signer_revoked different_key different_pq_key contradiction pq_undecided
        unknown_signer :
      TrustError
  not_portable : Refusal → TrustError

-- str.isspace, by code point
unfoldable pub is_space : ℕ → Bool
is_space c =
    (leb 9 c && leb c 13)
    || (leb 28 c && leb c 32)
    || c == 133
    || c == 160
    || c == 5760
    || (leb 8192 c && leb c 8202)
    || c == 8232
    || c == 8233
    || c == 8239
    || c == 8287
    || c == 12288

abbrev last_is_space : ℕ → Text → Bool
last_is_space c [] = is_space c
last_is_space c (d ∷ t) = last_is_space d t

-- `v.strip()` is v and not ""
unfoldable pub is_key : Text → Bool
unfolding is_space
is_key [] = false
is_key (c ∷ t) = not (is_space c) && not (last_is_space c t)

-- `_key`
abbrev pub check_key : Text → Result TrustError (Unit {0})
check_key v = raise_if (not (is_key v)) empty_key

abbrev pub check_pq : Option Text → Result TrustError (Unit {0})
check_pq none = ok tt
check_pq (some v) = check_key v

-- Keyed fields of a record, `pq_pubkey` last and only if there is one.
unfoldable pub key_record : Text → Text → Text → Option Text → Text → Value
key_record action sid pk pq ts = dict (
    field (name (codes "action")) (str action) (
      field (name (codes "signer_id")) (str sid) (
        field (name (codes "pubkey")) (str pk) (
          field (name (codes "ts")) (str ts)
            (elim pq [ none ↦ end | some v ↦ field (name (codes "pq_pubkey")) (str v) end ])))))

unfoldable pub revoke_record : Text → Text → Text → Value
revoke_record sid reason ts = dict (
    field (name (codes "action")) (str (codes "revoke")) (
      field (name (codes "signer_id")) (str sid)
        (field (name (codes "reason")) (str reason) (field (name (codes "ts")) (str ts) end))))

-- `self._ledger.append(rec)`
unfoldable pub append_record : Value → Registry → Result TrustError Registry
unfolding check_portable
append_record rec r = elim (check_portable rec) [
  | err e ↦ err (not_portable e)
  | ok _ ↦ ok (record r { log = r.log ++ (rec ∷ []) })
]

abbrev pub pq_of_pin : Option Pin → Option Text
pq_of_pin none = none
pq_of_pin (some p) = p.pq_pubkey

abbrev pub or_else : Option Text → Option Text → Option Text
or_else none b = b
or_else (some a) b = some a

abbrev pub same_text : Option Text → Option Text → Bool
same_text (some a) (some b) = a === b
same_text none none = true
same_text _ _ = false

abbrev pub both_differ : Option Text → Option Text → Bool
both_differ (some a) (some b) = not (a === b)
both_differ _ _ = false

pub data Reply : Type 0 where
  trusted idempotent revoked : Reply
  rotated : Bool → Reply

unfoldable pub store : Text → Pin → Value → Reply → Registry → Result TrustError (Reply × Registry)
unfolding append_record
store sid p rec reply r = do
  r' ← append_record rec r
  ok (reply, record r' { state = insert sid p r'.state })

abbrev pub is_idempotent : Pin → Text → Option Text → Bool
is_idempotent p pk none = true
is_idempotent p pk (some v) = same_text p.pq_pubkey (some v)

-- The part of `trust` under the lock.
unfoldable pub trust_locked :
    Option Pin
    → Text
    → Text
    → Option Text
    → Text
    → Text
    → Registry
    → Result TrustError (Reply × Registry)
unfolding store key_record
trust_locked none sid pk pq ts since r =
    store sid (pin pk pq (some (str since))) (key_record (codes "trust") sid pk pq ts) trusted r
trust_locked (some p) sid pk pq ts since r = do
  raise_if p.revoked signer_revoked
  raise_if (not (p.pubkey === pk)) different_key
  raise_if (both_differ p.pq_pubkey pq) different_pq_key
  let again =
      store sid (pin pk (or_else pq p.pq_pubkey) (some (str since)))
        (key_record (codes "trust") sid pk pq ts) trusted r
  (if is_idempotent p pk pq then ok (idempotent, r) else again)

unfoldable pub trust :
    Text → Text → Option Text → Text → Text → Registry → Result TrustError (Reply × Registry)
unfolding trust_locked
trust sid pk pq ts since r = do
  check_key sid
  check_key pk
  check_pq pq
  trust_locked (lookup sid r.state) sid pk pq ts since r

abbrev pub is_none : Option Text → Bool
is_none none = true
is_none (some t) = false

abbrev pub kept_pq : Bool → Option Text → Option Pin → Option Text
kept_pq true pq cur = none
kept_pq false pq cur = or_else pq (pq_of_pin cur)

unfoldable pub rotate :
    Text → Text → Option Text → Bool → Text → Text → Registry → Result TrustError (Reply × Registry)
unfolding store key_record
rotate sid pk pq drop_pq ts since r =
    let cur = lookup sid r.state in
    let kept = kept_pq drop_pq pq cur in
    do
      check_key sid
      check_key pk
      check_pq pq
      raise_if (not (is_none pq) && drop_pq) contradiction
      raise_if (is_revoked cur && not (is_none (pq_of_pin cur)) && is_none pq && not drop_pq)
          pq_undecided
      store sid (pin pk kept (some (str since))) (key_record (codes "rotate") sid pk kept ts)
          (rotated (not (is_none kept) && is_none pq)) r

abbrev pub revoke_locked :
    Option Pin → Text → Text → Text → Registry → Result TrustError (Reply × Registry)
revoke_locked none sid reason ts r = err unknown_signer
revoke_locked (some p) sid reason ts r = do
  r' ← append_record (revoke_record sid reason ts) r
  ok (
    revoked,
    record r' {
      state = insert sid (record p { revoked = true; reason = some (str reason) }) r'.state;
    },
  )

unfoldable pub revoke : Text → Text → Text → Registry → Result TrustError (Reply × Registry)
unfolding append_record revoke_record
revoke sid reason ts r = revoke_locked (lookup sid r.state) sid reason ts r

unfoldable pub is_trusted : Text → Text → State → Bool
is_trusted sid pk st = elim (lookup sid st) [
  | none ↦ false
  | some p ↦ not p.revoked && (p.pubkey === pk)
]

-- the method `pq_pubkey`
unfoldable pub pinned_pq : Text → State → Option Text
pinned_pq sid st = elim (lookup sid st) [
  | none ↦ none
  | some p ↦ if p.revoked then none else p.pq_pubkey
]

pub data Status : Type 0 where
  unknown : Status
  known : Bool → Option Value → Status

unfoldable pub status : Text → State → Status
status sid st = elim (lookup sid st) [ none ↦ unknown | some p ↦ known p.revoked p.reason ]
