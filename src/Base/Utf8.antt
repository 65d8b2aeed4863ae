-- ===== src/Base/Utf8.antt =====
-- Strict UTF-8, from bytes to code points: `bytes.decode("utf-8")`.
use Prim.Native.Nat.{ℕ, zero, suc, ◌+◌, ◌-◌, ◌*◌, ◌/◌, ◌%◌, ◌<◌}
use mathlib.Core.Path.{◌≡◌, refl}
use mathlib.Core.Bool.{Bool, ◌&&◌, not}
use mathlib.Core.Option.{Option, none, some}
use mathlib.Core.List.{[], ◌∷◌, ◌++◌}
use native.Mathlib.Omega.{arith}
use omega_evidence.Base.Tests.{if◌then◌else◌, ltb, leb}
use omega_evidence.Base.Lists.{length}
use omega_evidence.Base.Text.{Text}

is_tail : ℕ → Bool
is_tail b = leb 128 b && ltb b 192

abbrev first_if : Bool → ℕ → Text → Option (ℕ × Text)
first_if ok c t = if ok then some (c, t) else none

two : ℕ → Text → Option (ℕ × Text)
unfolding is_tail
two a [] = none
two a (b ∷ t) = first_if (is_tail b) ((a - 192) * 64 + (b - 128)) t

-- neither an overlong form nor a surrogate
three : ℕ → Text → Option (ℕ × Text)
unfolding is_tail
three a (b ∷ c ∷ t) =
    let n = (a - 224) * 4096 + (b - 128) * 64 + (c - 128) in
    first_if (is_tail b && is_tail c && leb 0x800 n && not (leb 0xD800 n && leb n 0xDFFF)) n t
three a _ = none

four : ℕ → Text → Option (ℕ × Text)
unfolding is_tail
four a (b ∷ c ∷ d ∷ t) =
    let n = (a - 240) * 262144 + (b - 128) * 4096 + (c - 128) * 64 + (d - 128) in
    first_if (is_tail b && is_tail c && is_tail d && leb 0x10000 n && leb n 0x10FFFF) n t
four a _ = none

-- the first code point, and the bytes behind it
head : ℕ → Text → Option (ℕ × Text)
unfolding two three four
head a t =
    if ltb a 128
    then some (a, t)
    else if leb 194 a && ltb a 224
    then two a t
    else if leb 224 a && ltb a 240
    then three a t
    else if leb 240 a && ltb a 245
    then four a t
    else none

abbrev push : ℕ → Option Text → Option Text
push c none = none
push c (some t) = some (c ∷ t)

loop : ℕ → Text → Option Text
unfolding head
loop zero t = some t
loop (suc f) [] = some []
loop (suc f) (a ∷ t) = elim (head a t) [ none ↦ none | some (c, r) ↦ push c (loop f r) ]

-- Each round reads at least one byte, so the number of bytes is fuel enough.
unfoldable pub decode : Text → Option Text
unfolding loop
decode t = loop (length t) t

abbrev pub IsAscii : Text → Type 0
IsAscii [] = Unit
IsAscii (c ∷ t) = (c < 128) × IsAscii t

pub IsAscii-append : (s t : Text) → IsAscii s → IsAscii t → IsAscii (s ++ t)
IsAscii-append [] t h k = k
IsAscii-append (c ∷ s) t h k = (h.0, IsAscii-append s t h.1 k)

pub decode-ascii : (t : Text) → IsAscii t → decode t ≡ some t
unfolding decode
decode-ascii [] h = refl
decode-ascii (c ∷ t) h = ground (arith, decode-ascii t h.1)

-- `str.encode()`: the bytes, or none for a lone surrogate.
abbrev bytes_of : ℕ → Option Text
bytes_of c =
    if ltb c 0x80
    then some (c ∷ [])
    else if ltb c 0x800
    then some ((192 + c / 64) ∷ (128 + c % 64) ∷ [])
    else if leb 0xD800 c && leb c 0xDFFF
    then none
    else if ltb c 0x10000
    then some ((224 + c / 4096) ∷ (128 + c / 64 % 64) ∷ (128 + c % 64) ∷ [])
    else some
        ((240 + c / 262144) ∷ (128 + c / 4096 % 64) ∷ (128 + c / 64 % 64) ∷ (128 + c % 64) ∷ [])

abbrev append_to : Text → Option Text → Option Text
append_to b none = none
append_to b (some t) = some (b ++ t)

unfoldable pub encode : Text → Option Text
encode [] = some []
encode (c ∷ t) = elim (bytes_of c) [ none ↦ none | some b ↦ append_to b (encode t) ]
