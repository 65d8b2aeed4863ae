-- ===== src/Trust/Store.antt =====
-- The state of a `TrustRegistry` of omega_evidence/trust.py, and `_apply`: the replay of a record.
use omega_evidence.Base.{Bool, true, false, Option, none, some, List, [], ◌∷◌, if◌then◌else◌}
use omega_evidence.Base.Text.{Text, codes, is_empty}
use omega_evidence.Base.Dict.{Dict, lookup, insert}
use omega_evidence.Base.Result.{Result, ok, err, ◌>>=◌}
use omega_evidence.Value.{Value, Fields, str, dict}
use omega_evidence.Ledger.Chain.{get, is_text}

-- One value of `_state`; `since` and `reason` are what the record held, if it held one.
pub record Pin : Type 0 where
  pub pubkey : Text
  pub pq_pubkey : Option Text
  pub revoked : Bool
  pub since : Option Value
  pub reason : Option Value

abbrev pub State : Type 0
State = Dict Pin

-- The ValueErrors of a broken store.
pub data Broken : Type 0 where
  not_object no_signer no_pubkey bad_pq_pubkey : Broken

-- What an accepted record says.
pub data Event : Type 0 where
  ignored : Event
  trusts : Text → Text → Option Text → Option Value → Event
  rotates : Text → Text → Option Text → Option Value → Event
  revokes : Text → Option Value → Event

-- A value that must be a str and not "".
unfoldable pub text_of : Option Value → Option Text
text_of (some (str t)) = if is_empty t then none else some t
text_of _ = none

abbrev required : Option Text → Broken → Result Broken Text
required none e = err e
required (some t) e = ok t

-- `pq_pubkey` may be absent; if it is there, it must be a text.
unfoldable pub pq_of : Option Value → Result Broken (Option Text)
unfolding text_of
pq_of none = ok none
pq_of (some v) = elim (text_of (some v)) [ none ↦ err bad_pq_pubkey | some t ↦ ok (some t) ]

abbrev keyed : (Text → Text → Option Text → Option Value → Event) → Fields → Result Broken Event
keyed event d = do
  sid ← required (text_of (get (codes "signer_id") d)) no_signer
  pk ← required (text_of (get (codes "pubkey") d)) no_pubkey
  pq ← pq_of (get (codes "pq_pubkey") d)
  ok (event sid pk pq (get (codes "ts") d))

abbrev revocation : Fields → Result Broken Event
revocation d = do
  sid ← required (text_of (get (codes "signer_id") d)) no_signer
  pq ← pq_of (get (codes "pq_pubkey") d)
  ok (revokes sid (get (codes "reason") d))

unfoldable pub read_event : Fields → Result Broken Event
unfolding text_of pq_of get is_text
read_event d =
    let act = get (codes "action") d in
    if is_text act (codes "trust")
    then keyed trusts d
    else if is_text act (codes "rotate")
    then keyed rotates d
    else if is_text act (codes "revoke")
    then revocation d
    else ok ignored

abbrev pub pin : Text → Option Text → Option Value → Pin
pin pk pq since = record {
  pubkey = pk;
  pq_pubkey = pq;
  revoked = false;
  since = since;
  reason = none;
}

abbrev pub is_revoked : Option Pin → Bool
is_revoked none = false
is_revoked (some p) = p.revoked

-- `state[sid]["revoked"] = True`, for a signer that is there
unfoldable pub set_revoked : Text → Option Value → Option Pin → State → State
set_revoked sid reason none st = st
set_revoked sid reason (some p) st = insert sid (record p { revoked = true; reason = reason }) st

unfoldable pub step : State → Event → State
unfolding set_revoked
step st ignored = st
step st (trusts sid pk pq since) =
    if is_revoked (lookup sid st) then st else insert sid (pin pk pq since) st
step st (rotates sid pk pq since) = insert sid (pin pk pq since) st
step st (revokes sid reason) = set_revoked sid reason (lookup sid st) st

-- `_apply`
unfoldable pub apply : State → Value → Result Broken State
unfolding read_event step
apply st (dict d) = do e ← read_event d; ok (step st e)
apply st _ = err not_object

-- The loop of `__init__` and of `replay` over the entries' data.
unfoldable pub replay : State → List Value → Result Broken State
unfolding apply
replay st [] = ok st
replay st (d ∷ ds) = do st' ← apply st d; replay st' ds
