-- ===== src/Base/Maybe.antt =====
-- Chains of partial results in `do` blocks.
use mathlib.Core.Option.{Option, none, some}
use mathlib.Core.Bool.{Bool, true, false}
use mathlib.Core.Path.{◌≡◌, refl}
use mathlib.Core.Logic.{◌≢◌}

infixl 5 ◌>>=◌
abbrev pub ◌>>=◌ {ℓ κ} : {A : Type ℓ} {B : Type κ} → Option A → (A → Option B) → Option B
none >>= rest = none
some value >>= rest = rest value

infixl 5 ◌>>◌
abbrev pub ◌>>◌ {ℓ} : {B : Type ℓ} → Option (Unit {0}) → Option B → Option B
check >> rest = check >>= λ _. rest

-- `if not b: raise`
abbrev pub guard : Bool → Option (Unit {0})
guard true = some tt
guard false = none

abbrev pub is_some {ℓ} : {A : Type ℓ} → Option A → Bool
is_some none = false
is_some (some a) = true

pub some-injective {ℓ} : {A : Type ℓ} {a b : A} → some a ≡ some b → a ≡ b
some-injective h = cc

pub nothing {ℓ} : {A : Type ℓ} (v : A) → none ≢ some v
nothing v = cc

-- A chain that gives a value: so does its first call, and the rest for what that gives.
pub after {ℓ κ μ} :
    {A : Type ℓ} {B : Type κ} {C : Type μ} (first : Option A) {rest : A → Option B} {v : B}
    → (first >>= rest) ≡ some v
    → ((u : A) → first ≡ some u → rest u ≡ some v → C)
    → C
after none {v = v} h next = absurd (nothing v h)
after (some u) h next = next u refl h

pub guard-eq-some : (b : Bool) {u : Unit {0}} → guard b ≡ some u → b ≡ true
guard-eq-some true h = refl
guard-eq-some false {u = u} h = absurd (nothing u h)
