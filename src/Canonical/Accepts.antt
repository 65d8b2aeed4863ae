-- ===== src/Canonical/Accepts.antt =====
-- `_reject_reserved` of omega_evidence/canonical.py against the values that occur in an object, at
-- any depth and as a key too.
use omega_evidence.Base.{Bool, false, ◌≡◌, refl, ◌≤◌, arith, ◌↔◌, ◌&&◌, not}
use omega_evidence.Base.Text.{Text}
use omega_evidence.Base.Int.{abs}
use omega_evidence.Base.Result.{ok, >>-eq-ok, raise_if-eq-ok}
use omega_evidence.Value.{
  Value, Items, Fields, name, non_string, float, int, str, list, tuple, set, dict, nil, cons, end,
  field, null,
}
use omega_evidence.Json.Print.{tag_key}
use omega_evidence.Canonical.{
  has_surrogate, has_key, safe_int, reject_reserved, reject_items, reject_fields,
}

mutual
  pub data Occurs (w : Value) : Value → Type 0 where
    here : {v : Value} → w ≡ v → Occurs w v
    in_list : {vs : Items} → OccursItem w vs → Occurs w (list vs)
    in_tuple : {vs : Items} → OccursItem w vs → Occurs w (tuple vs)
    in_set : {vs : Items} → OccursItem w vs → Occurs w (set vs)
    in_dict : {fs : Fields} → OccursField w fs → Occurs w (dict fs)

  pub data OccursItem (w : Value) : Items → Type 0 where
    first : {v : Value} {vs : Items} → Occurs w v → OccursItem w (cons v vs)
    later : {v : Value} {vs : Items} → OccursItem w vs → OccursItem w (cons v vs)

  pub data OccursField (w : Value) : Fields → Type 0 where
    as_key : {k : Text} {v : Value} {fs : Fields} → w ≡ str k → OccursField w (field (name k) v fs)
    as_value :
        {k : Text} {v : Value} {fs : Fields} → Occurs w v → OccursField w (field (name k) v fs)
    beyond :
        {k : Text} {v : Value} {fs : Fields}
        → OccursField w fs
        → OccursField w (field (name k) v fs)

abbrev pub AllNamed : Fields → Type 0
AllNamed end = Unit
AllNamed (field (name k) v fs) = AllNamed fs
AllNamed (field (non_string k) v fs) = ⊥

-- The condition on one value, whatever it holds.
abbrev pub IsPortable : Bool → Value → Type 0
IsPortable allow (str t) = has_surrogate t ≡ false
IsPortable allow (float r) = ⊥
IsPortable allow (int z) = abs z ≤ safe_int
IsPortable allow (dict fs) = AllNamed fs × ((has_key tag_key fs && not allow) ≡ false)
IsPortable allow _ = Unit

named : (allow : Bool) (fs : Fields) → reject_fields allow fs ≡ ok tt → AllNamed fs
unfolding reject_reserved
named allow end h = tt
named allow (field (name k) v fs) h = named allow fs (>>-eq-ok _ _ (>>-eq-ok _ _ h).1).1
named allow (field (non_string k) v fs) h = cc

at_root : (allow : Bool) (v : Value) → reject_reserved allow v ≡ ok tt → IsPortable allow v
unfolding reject_reserved
at_root allow (str t) h = ground arith
at_root allow (float r) h = cc
at_root allow (int z) h = ground arith
at_root allow (dict fs) h = let p = >>-eq-ok _ _ h in (named allow fs p.1, raise_if-eq-ok _ _ p.0)
at_root allow null h = tt
at_root allow _ h = tt

mutual
  unfolding reject_reserved

  sound :
      (allow : Bool) (w v : Value)
      → Occurs w v
      → reject_reserved allow v ≡ ok tt
      → reject_reserved allow w ≡ ok tt
  sound allow w v (here e) h = rw e h
  sound allow w _ (in_list {vs = vs} o) h = sound_items allow w vs o h
  sound allow w _ (in_tuple {vs = vs} o) h = sound_items allow w vs o h
  sound allow w _ (in_set {vs = vs} o) h = sound_items allow w vs o h
  sound allow w _ (in_dict {fs = fs} o) h = sound_fields allow w fs o (>>-eq-ok _ _ h).1

  sound_items :
      (allow : Bool) (w : Value) (vs : Items)
      → OccursItem w vs
      → reject_items allow vs ≡ ok tt
      → reject_reserved allow w ≡ ok tt
  sound_items allow w _ (first {v = v} o) h = sound allow w v o (>>-eq-ok _ _ h).0
  sound_items allow w _ (later {vs = vs} o) h = sound_items allow w vs o (>>-eq-ok _ _ h).1

  sound_fields :
      (allow : Bool) (w : Value) (fs : Fields)
      → OccursField w fs
      → reject_fields allow fs ≡ ok tt
      → reject_reserved allow w ≡ ok tt
  sound_fields allow w _ (as_key e) h = rw e (>>-eq-ok _ _ h).0
  sound_fields allow w _ (as_value {v = v} o) h =
      sound allow w v o (>>-eq-ok _ _ (>>-eq-ok _ _ h).1).0
  sound_fields allow w _ (beyond {fs = fs} o) h =
      sound_fields allow w fs o (>>-eq-ok _ _ (>>-eq-ok _ _ h).1).1

mutual
  unfolding reject_reserved

  complete :
      (allow : Bool) (v : Value)
      → ((w : Value) → Occurs w v → IsPortable allow w)
      → reject_reserved allow v ≡ ok tt
  complete allow (str t) p = ground (arith, p (str t) (here refl))
  complete allow (float r) p = absurd (p (float r) (here refl))
  complete allow (int z) p = ground (arith, p (int z) (here refl))
  complete allow (dict fs) p = ground (
    arith,
    p (dict fs) (here refl),
    complete_fields allow fs (p (dict fs) (here refl)).0 (λ w o. p w (in_dict o)),
  )
  complete allow (list vs) p = complete_items allow vs (λ w o. p w (in_list o))
  complete allow (tuple vs) p = complete_items allow vs (λ w o. p w (in_tuple o))
  complete allow (set vs) p = complete_items allow vs (λ w o. p w (in_set o))
  complete allow _ p = refl

  complete_items :
      (allow : Bool) (vs : Items)
      → ((w : Value) → OccursItem w vs → IsPortable allow w)
      → reject_items allow vs ≡ ok tt
  complete_items allow nil p = refl
  complete_items allow (cons v vs) p = ground (
    arith,
    complete allow v (λ w o. p w (first o)),
    complete_items allow vs (λ w o. p w (later o)),
  )

  complete_fields :
      (allow : Bool) (fs : Fields)
      → AllNamed fs
      → ((w : Value) → OccursField w fs → IsPortable allow w)
      → reject_fields allow fs ≡ ok tt
  complete_fields allow end n p = refl
  complete_fields allow (field (name k) v fs) n p = ground (
    arith,
    p (str k) (as_key refl),
    complete allow v (λ w o. p w (as_value o)),
    complete_fields allow fs n (λ w o. p w (beyond o)),
  )
  complete_fields allow (field (non_string k) v fs) n p = absurd n

-- `_reject_reserved` passes an object exactly when every value that occurs in it, at any depth
-- and the dict keys included, is portable: no float, no integer beyond 2^53 - 1 in absolute value,
-- no string with a surrogate, no dict with a key that is not a string, and, unless `allow_tag` is
-- set, no dict with the reserved tag key.
pub reject_reserved_iff :
    (allow : Bool) (v : Value)
    → (reject_reserved allow v ≡ ok tt) ↔ ((w : Value) → Occurs w v → IsPortable allow w)
reject_reserved_iff allow v = (λ h w o. at_root allow w (sound allow w v o h), complete allow v)
