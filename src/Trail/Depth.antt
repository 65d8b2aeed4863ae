-- ===== src/Trail/Depth.antt =====
-- How deep the objects are that `jcs` of omega_evidence/interop/aat.py serialises.
use Prim.Native.Nat.{max}
use omega_evidence.Base.{ℕ, suc, ◌+◌, ◌≤◌, Bool, some, List, ◌≡◌, arith, leb, leb→le}
use omega_evidence.Base.Text.{Text}
use omega_evidence.Base.Maybe.{guard, after, guard-eq-some, nothing}
use omega_evidence.Value.{
  Value, Items, Fields, name, non_string, list, tuple, dict, nil, cons, end, field,
}
use omega_evidence.Trail.Jcs.{Hasher, jcs_max_depth, enc_value, enc_items, enc_fields, jcs, utf16}

-- How many lists and objects lie around the innermost value.
unfoldable mutual
  pub height : Value → ℕ
  height (list vs) = items_height vs
  height (tuple vs) = items_height vs
  height (dict fs) = fields_height fs
  height _ = 0

  pub items_height : Items → ℕ
  items_height nil = 0
  items_height (cons v vs) = max (suc (height v)) (items_height vs)

  pub fields_height : Fields → ℕ
  fields_height end = 0
  fields_height (field k v fs) = max (suc (height v)) (fields_height fs)

module _ (h : Hasher) (strict : Bool) where
  mutual
    unfolding height enc_value

    value-height :
        (d : ℕ) (v : Value) (t : Text)
        → d ≤ jcs_max_depth
        → enc_value h strict d v ≡ some t
        → d + height v ≤ jcs_max_depth
    value-height d (list vs) t b e =
        after (enc_items h strict (suc d) vs) e (λ ts is_ts _. items-height d vs ts b is_ts)
    value-height d (tuple vs) t b e =
        after (enc_items h strict (suc d) vs) e (λ ts is_ts _. items-height d vs ts b is_ts)
    value-height d (dict fs) t b e =
        after (enc_fields h strict (suc d) fs) e (λ ms is_ms _. fields-height d fs ms b is_ms)
    value-height d _ t b e = omega arith

    items-height :
        (d : ℕ) (vs : Items) (ts : List Text)
        → d ≤ jcs_max_depth
        → enc_items h strict (suc d) vs ≡ some ts
        → d + items_height vs ≤ jcs_max_depth
    items-height d nil ts b e = omega arith
    items-height d (cons v vs) ts b e = after (guard (leb (suc d) jcs_max_depth)) e (λ u is_u e1.
        after (enc_value h strict (suc d) v) e1 (λ t is_t e2.
          after (enc_items h strict (suc d) vs) e2 (λ us is_us _.
            let within = leb→le (suc d) jcs_max_depth (guard-eq-some _ is_u) in
            omega
              (arith, within, value-height (suc d) v t within is_t, items-height d vs us b is_us))))

    fields-height :
        (d : ℕ) (fs : Fields) (ms : List (List ℕ × Text))
        → d ≤ jcs_max_depth
        → enc_fields h strict (suc d) fs ≡ some ms
        → d + fields_height fs ≤ jcs_max_depth
    fields-height d end ms b e = omega arith
    fields-height d (field (name k) v fs) ms b e =
        after (guard (leb (suc d) jcs_max_depth)) e (λ u is_u e1. after (utf16 k) e1 (λ w is_w e2.
          after (enc_value h strict (suc d) v) e2 (λ t is_t e3.
            after (enc_fields h strict (suc d) fs) e3 (λ us is_us _.
              let within = leb→le (suc d) jcs_max_depth (guard-eq-some _ is_u) in
              omega (
                arith,
                within,
                value-height (suc d) v t within is_t,
                fields-height d fs us b is_us,
              )))))
    fields-height d (field (non_string k) v fs) ms b e = absurd (nothing ms e)

  -- What `jcs` serialises, for the export or for a check, is nested 512 levels deep at most: a
  -- deeper object is refused, whatever it holds.
  pub jcs-height :
      (v : Value) (bytes : List ℕ) → jcs h strict v ≡ some bytes → height v ≤ jcs_max_depth
  unfolding jcs
  jcs-height v bytes e =
      after (enc_value h strict 0 v) e
        (λ t is_t _. omega (arith, value-height 0 v t (omega arith) is_t))
