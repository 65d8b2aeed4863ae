-- ===== src/Base/Text.antt =====
-- Python's str and bytes as lists of numbers: the code points of a str (lone surrogates included),
-- or the bytes of a bytes object. Quoted texts enter by `codes`.
use Prim.Native.Nat.{ℕ}
use Prim.Native.Char.{code}
use Prim.Native.String.{String}
use mathlib.Core.Path.{◌≡◌, refl, ap, sym, ◌∙◌}
use mathlib.Core.Logic.{◌↔◌}
use mathlib.Core.Bool.{Bool, true, false, ◌&&◌, ◌||◌}
use mathlib.Core.List.{List, [], ◌∷◌, ◌++◌}
use native.Mathlib.Omega.{arith}
use omega_evidence.Base.Tests.{◌==◌}

abbrev pub Text : Type 0
Text = List ℕ

abbrev pub codes : String → Text
codes String.[] = []
codes (String.◌∷◌ c s) = code c ∷ codes s

infix 50 ◌===◌
unfoldable pub ◌===◌ : Text → Text → Bool
◌===◌ [] [] = true
◌===◌ (a ∷ s) (b ∷ t) = (a == b) && s === t
◌===◌ [] (b ∷ t) = false
◌===◌ (a ∷ s) [] = false

pub ===→eq : (s t : Text) → (s === t) ≡ true → s ≡ t
unfolding ◌===◌
===→eq [] [] h = refl
===→eq (a ∷ s) (b ∷ t) h = ground (arith, ===→eq s t)
===→eq [] (b ∷ t) h = cc
===→eq (a ∷ s) [] h = cc

pub ===_refl : (s : Text) → (s === s) ≡ true
unfolding ◌===◌
===_refl [] = refl
===_refl (a ∷ s) = ground (arith, ===_refl s)

pub ===_iff : (s t : Text) → ((s === t) ≡ true) ↔ (s ≡ t)
===_iff s t = (===→eq s t, λ e. ap (λ u. s === u) (sym e) ∙ ===_refl s)

-- `s in (a, b, c)`.
unfoldable pub in_list : Text → List Text → Bool
in_list s [] = false
in_list s (t ∷ ts) = (s === t) || in_list s ts

pub in_list-append :
    (s : Text) (ts us : List Text) → in_list s (ts ++ us) ≡ (in_list s ts || in_list s us)
unfolding in_list
in_list-append s [] us = refl
in_list-append s (t ∷ ts) us = ground (arith, in_list-append s ts us)

-- `not s`
abbrev pub is_empty : Text → Bool
is_empty [] = true
is_empty (a ∷ s) = false
