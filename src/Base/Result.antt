-- ===== src/Base/Result.antt =====
-- A value or a raised exception.
use mathlib.Core.Bool.{Bool, true, false}
use mathlib.Core.Path.{◌≡◌, refl}
use mathlib.Core.Logic.{◌≢◌, ◌⊎◌, inl, inr}

pub data Result {ℓ κ} (E : Type ℓ) (A : Type κ) : Type (ℓ ⊔ κ) where
  err : E → Result E A
  ok : A → Result E A

-- What follows a raised exception is not run.
infixl 5 ◌>>=◌
abbrev pub ◌>>=◌ {ℓ κ μ} :
    {E : Type ℓ} {A : Type κ} {B : Type μ} → Result E A → (A → Result E B) → Result E B
err x >>= rest = err x
ok value >>= rest = rest value

infixl 5 ◌>>◌
abbrev pub ◌>>◌ {ℓ μ} : {E : Type ℓ} {B : Type μ} → Result E (Unit {0}) → Result E B → Result E B
check >> rest = check >>= λ _. rest

-- `if b: raise e`
abbrev pub raise_if {ℓ} : {E : Type ℓ} → Bool → E → Result E (Unit {0})
raise_if true e = err e
raise_if false e = ok tt

abbrev pub is_ok {ℓ κ} : {E : Type ℓ} {A : Type κ} → Result E A → Bool
is_ok (ok a) = true
is_ok (err e) = false

module _ {ℓ} {E : Type ℓ} where
  pub raise_if-eq-ok : (b : Bool) (e : E) → raise_if b e ≡ ok tt → b ≡ false
  raise_if-eq-ok true e h = cc
  raise_if-eq-ok false e h = refl

  -- A chain that does not raise: its first call did not, nor did the rest.
  pub >>-eq-ok {μ} :
      {B : Type μ} (check : Result E (Unit {0})) (rest : Result E B) {v : B}
      → (check >> rest) ≡ ok v
      → (check ≡ ok tt) × (rest ≡ ok v)
  >>-eq-ok (err x) rest h = cc
  >>-eq-ok (ok tt) rest h = (refl, h)

  pub >>=-eq-ok {κ μ} :
      {A : Type κ} {B : Type μ} (first : Result E A) (rest : A → Result E B) {v : B}
      → (first >>= rest) ≡ ok v
      → (u : A) × (first ≡ ok u) × (rest u ≡ ok v)
  >>=-eq-ok (err x) rest h = cc
  >>=-eq-ok (ok u) rest h = (u, refl, h)

  pub raised {κ} : {A : Type κ} (x : E) (v : A) → err x ≢ ok v
  raised x v = cc

  pub ok-injective {κ} : {A : Type κ} {u v : A} → ◌≡◌ {A = Result E A} (ok u) (ok v) → u ≡ v
  ok-injective h = cc

  -- The same, for what follows from it.
  pub after {κ μ ν} :
      {A : Type κ} {B : Type μ} {C : Type ν} (first : Result E A) {rest : A → Result E B} {v : B}
      → (first >>= rest) ≡ ok v
      → ((u : A) → first ≡ ok u → rest u ≡ ok v → C)
      → C
  after (err x) {rest = rest} {v = v} h next = absurd (raised x v h)
  after (ok u) h next = next u refl h

pub Result-cases {ℓ κ} :
    {E : Type ℓ} {A : Type κ} (r : Result E A) → ((e : E) × (r ≡ err e)) ⊎ ((a : A) × (r ≡ ok a))
Result-cases (ok a) = inr (a, refl)
Result-cases (err e) = inl (e, refl)
