-- ===== src/Trail/Erased.antt =====
-- What `tombstone` of omega_evidence/interop/aat.py leaves of a record, however often it is called.
use omega_evidence.Base.{
  ℕ, Bool, true, false, not, ◌&&◌, Option, none, some, List, [], ◌∷◌, if◌then◌else◌, ◌≡◌, refl, sym,
  ap, ◌∙◌, inl, inr, ◌⊎◌, Bool-cases, if-true, if-false, untrue, and-both, and-parts, arith,
}
use mathlib.Core.Path.{subst}
use omega_evidence.Base.Text.{Text, codes, ◌===◌, ===_iff, ===→eq, in_list}
use omega_evidence.Base.Maybe.{after, some-injective, guard}
use omega_evidence.Value.{Value, Fields, str, dict, end, field}
use omega_evidence.Ledger.Chain.{get, is_text}
use omega_evidence.Verifier.Forms.{hex, is_lower_hex}
use omega_evidence.Chip.Classes.{put}
use omega_evidence.Preservation.Sealing.{get-put, get-put_other}
use omega_evidence.Trail.Jcs.{Hasher, jcs, no_batch, record_hash}
use omega_evidence.Trail.Tombstone.{
  keep_key, kept, kept_keys, detail_of, is_lifecycle, is_deleted, hex64, signed_detail,
  typed_detail, new_detail, items_of, put_some, or_null, closed, keeps_hash, hash_kept, tombstone,
}

get-end : (k : Text) → get k end ≡ none
unfolding get
get-end k = refl

get-keep_key : (k : Text) (v : Value) (rest : Fields) → get k (keep_key (some v) k rest) ≡ some v
unfolding get in_list
get-keep_key k v rest = ground (arith, ===_iff k k)

get-keep_key_other :
    (k j : Text) (o : Option Value) (rest : Fields)
    → (k === j) ≡ false
    → get k (keep_key o j rest) ≡ get k rest
unfolding get in_list
get-keep_key_other k j none rest f = refl
get-keep_key_other k j (some v) rest f = ground (arith, ===_iff k j, ===_iff j k)

-- A key that is looked for twice is found twice, or not at all.
get-keep_key_same :
    (k : Text) (o : Option Value) (rest : Fields)
    → (get k rest ≡ o) ⊎ (get k rest ≡ none)
    → get k (keep_key o k rest) ≡ o
get-keep_key_same k none rest (inl e) = e
get-keep_key_same k none rest (inr e) = e
get-keep_key_same k (some v) rest e = get-keep_key k v rest

got_or_none :
    (b : Bool) (o : Option Value) {a : Option Value}
    → a ≡ (if b then o else none)
    → (a ≡ o) ⊎ (a ≡ none)
got_or_none true o e = inl e
got_or_none false o e = inr e

get-kept :
    (k : Text) (ks : List Text) (r : Fields)
    → get k (kept ks r) ≡ (if in_list k ks then get k r else none)
unfolding kept in_list
get-kept k [] r = get-end k
get-kept k (j ∷ ks) r = elim (Bool-cases (k === j)) [
  | inl t ↦ rw t (
      subst (λ (i : Text). get k (keep_key (get i r) i (kept ks r)) ≡ get k r) (===→eq k j t)
        (get-keep_key_same k (get k r) (kept ks r)
          (got_or_none (in_list k ks) (get k r) (get-kept k ks r))))
  | inr f ↦ rw f (get-keep_key_other k j (get j r) (kept ks r) f ∙ get-kept k ks r)
]

other_key :
    (j k : Text) (ks : List Text) → in_list j ks ≡ false → in_list k ks ≡ true → (j === k) ≡ false
other_key j k ks out within = elim (Bool-cases (j === k)) [
  | inl t ↦ untrue (sym out ∙ ap (λ x. in_list x ks) (===→eq j k t) ∙ within)
  | inr f ↦ f
]

event-put_some :
    (o : Option Value) (detail : Fields)
    → get (codes "event") (put_some (codes "original_signature") o detail)
      ≡ get (codes "event") detail
unfolding ◌===◌
event-put_some none detail = refl
event-put_some (some v) detail =
    get-put_other (codes "original_signature") (codes "event") v detail refl

-- The event of the detail is not touched.
event-signed_detail :
    (is_re : Bool) (d0 orig detail made : Fields)
    → signed_detail is_re d0 orig detail ≡ some made
    → get (codes "event") made ≡ get (codes "event") detail
unfolding signed_detail ◌===◌
event-signed_detail true d0 end detail made e =
    ap (get (codes "event")) (sym (some-injective e))
    ∙ event-put_some (get (codes "original_signature") d0) detail
event-signed_detail true d0 (field k v fs) detail made e =
    after (items_of (get (codes "deleter_signatures") d0)) e (λ vs is_vs e1.
      ap (get (codes "event")) (sym (some-injective e1))
      ∙ get-put_other (codes "deleter_signatures") (codes "event") _
          (put_some (codes "original_signature") (get (codes "original_signature") d0) detail) refl
      ∙ event-put_some (get (codes "original_signature") d0) detail)
event-signed_detail false d0 end detail made e = ap (get (codes "event")) (sym (some-injective e))
event-signed_detail false d0 (field k v fs) detail made e =
    ap (get (codes "event")) (sym (some-injective e))
    ∙ get-put_other (codes "original_signature") (codes "event") _ detail refl

event-typed_detail :
    (again : Bool) (d0 detail : Fields)
    → get (codes "event") (typed_detail again d0 detail) ≡ get (codes "event") detail
unfolding typed_detail ◌===◌
event-typed_detail true d0 detail =
    get-put_other (codes "original_action_type") (codes "event") _ detail refl
event-typed_detail false d0 detail = refl

keeps_hash-hex64 :
    (r : Fields) {v : Value}
    → keeps_hash r ≡ true
    → get (codes "tombstone_hash") r ≡ some v
    → hex64 (some v) ≡ true
unfolding keeps_hash
keeps_hash-hex64 r t e =
    ap hex64 (sym e)
    ∙ (and-parts (is_lifecycle r && is_deleted r) (hex64 (get (codes "tombstone_hash") r)) t).1

-- What is left of a record.
module _ (h : Hasher) where
  pub record IsErased (r t : Fields) : Type 0 where
    pub keeps : (k : Text) → in_list k kept_keys ≡ true → get k t ≡ get k r
    pub lifecycle : is_lifecycle t ≡ true
    pub deleted : is_deleted t ≡ true
    pub hash : Value
    pub is_hash : hash_kept h r ≡ some hash
    pub holds_hash : get (codes "tombstone_hash") t ≡ some hash

  get-closed :
      (k : Text) (r detail : Fields) (v : Value)
      → in_list k kept_keys ≡ true
      → get k (closed r detail v) ≡ get k r
  unfolding in_list ◌===◌
  get-closed k r detail v within =
      get-put_other (codes "tombstone_hash") k v _
        (other_key (codes "tombstone_hash") k kept_keys refl within)
      ∙ get-put_other (codes "outcome") k _ _ (other_key (codes "outcome") k kept_keys refl within)
      ∙ get-put_other (codes "action_detail") k _ _
          (other_key (codes "action_detail") k kept_keys refl within)
      ∙ get-put_other (codes "action_type") k _ _
          (other_key (codes "action_type") k kept_keys refl within)
      ∙ get-kept k kept_keys r
      ∙ if-true _ _ within

  closed-is_lifecycle : (r detail : Fields) (v : Value) → is_lifecycle (closed r detail v) ≡ true
  unfolding is_lifecycle ◌===◌ is_text
  closed-is_lifecycle r detail v =
      ap (λ o. is_text o (codes "lifecycle"))
        (get-put_other (codes "tombstone_hash") (codes "action_type") v _ refl
          ∙ get-put_other (codes "outcome") (codes "action_type") _ _ refl
          ∙ get-put_other (codes "action_detail") (codes "action_type") _ _ refl
          ∙ get-put (codes "action_type") (str (codes "lifecycle")) (kept kept_keys r))

  closed-is_deleted :
      (r detail : Fields) (v : Value)
      → get (codes "event") detail ≡ some (str (codes "record_deleted"))
      → is_deleted (closed r detail v) ≡ true
  unfolding is_deleted ◌===◌ is_text
  closed-is_deleted r detail v event =
      ap (λ o. is_text (get (codes "event") (detail_of o)) (codes "record_deleted"))
        (get-put_other (codes "tombstone_hash") (codes "action_detail") v _ refl
          ∙ get-put_other (codes "outcome") (codes "action_detail") _ _ refl
          ∙ get-put (codes "action_detail") (dict detail) _)
      ∙ ap (λ o. is_text o (codes "record_deleted")) event

  event-new_detail :
      (reason deleted_at : Text) (type : Value)
      → get (codes "event") (new_detail reason deleted_at type)
        ≡ some (str (codes "record_deleted"))
  unfolding get ◌===◌ in_list
  event-new_detail reason deleted_at type = refl

  get-closed_hash :
      (r detail : Fields) (v : Value) → get (codes "tombstone_hash") (closed r detail v) ≡ some v
  get-closed_hash r detail v = get-put (codes "tombstone_hash") v (
      put (codes "outcome") (str (codes "success")) (
        put (codes "action_detail") (dict detail)
          (put (codes "action_type") (str (codes "lifecycle")) (kept kept_keys r))))

  pub tombstone-IsErased :
      (r t : Fields) (reason deleted_at : Text)
      → tombstone h r reason deleted_at ≡ some t
      → IsErased r t
  unfolding tombstone
  tombstone-IsErased r t reason deleted_at e =
      after (guard (not (is_lifecycle r && not (is_deleted r)))) e (λ u is_u e1.
        after
          (signed_detail (is_lifecycle r && is_deleted r)
            (detail_of (get (codes "action_detail") r)) _ _)
          e1
          (λ detail is_detail e2. after (hash_kept h r) e2 (λ v is_v e3.
            let d0 = detail_of (get (codes "action_detail") r) in
            let typed : Fields = typed_detail (keeps_hash r) d0 detail in
            rw (sym (some-injective e3)) record {
              keeps = λ k within. get-closed k r typed v within;
              lifecycle = closed-is_lifecycle r typed v;
              deleted = closed-is_deleted r typed v (
                  event-typed_detail (keeps_hash r) d0 detail
                  ∙ event-signed_detail _ d0 _ _ detail is_detail
                  ∙ event-new_detail reason deleted_at (or_null (get (codes "action_type") r)));
              hash = v;
              is_hash = is_v;
              holds_hash = get-closed_hash r typed v;
            })))

  module _ (hexed : (bytes : List ℕ) → is_lower_hex (hex (h.sha256 bytes)) ≡ true) where
    hash_kept-hex64 : (r : Fields) (v : Value) → hash_kept h r ≡ some v → hex64 (some v) ≡ true
    unfolding hash_kept record_hash
    hash_kept-hex64 r v e = elim (Bool-cases (keeps_hash r)) [
      | inl t ↦ keeps_hash-hex64 r t (sym (if-true _ _ t) ∙ e)
      | inr f ↦ after (record_hash h false r) (sym (if-false _ _ f) ∙ e) (λ x is_x e1.
          after (jcs h false (dict (no_batch h false r))) is_x
            (λ b is_b e2. rw (sym (some-injective e1), sym (some-injective e2)) (hexed b)))
    ]

    -- Where each SHA-256 has 64 lower-case hexadecimal digits: a tombstone of a tombstone of a
    -- record holds the hash that the first one took, and has the members of the record that a
    -- tombstone keeps, as they were.
    pub tombstone_again :
        (r t u : Fields) (reason deleted_at reason' deleted_at' : Text)
        → tombstone h r reason deleted_at ≡ some t
        → tombstone h t reason' deleted_at' ≡ some u
        → (get (codes "tombstone_hash") u ≡ hash_kept h r)
          × ((k : Text) → in_list k kept_keys ≡ true → get k u ≡ get k r)
    unfolding keeps_hash hash_kept
    tombstone_again r t u reason deleted_at reason' deleted_at' e e' =
        let first : IsErased r t = tombstone-IsErased r t reason deleted_at e in
        let second : IsErased t u = tombstone-IsErased t u reason' deleted_at' e' in
        let again : keeps_hash t ≡ true =
          and-both (and-both first.lifecycle first.deleted)
            (ap hex64 first.holds_hash ∙ hash_kept-hex64 r first.hash first.is_hash) in
        (
          second.holds_hash
              ∙ sym second.is_hash
              ∙ if-true _ _ again
              ∙ first.holds_hash
              ∙ sym first.is_hash,
          λ k within. second.keeps k within ∙ first.keeps k within,
        )
