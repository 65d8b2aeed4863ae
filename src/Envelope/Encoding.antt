-- ===== src/Envelope/Encoding.antt =====
-- `pae` of omega_evidence/interop/dsse.py: what is signed determines what it was made of.
use mathlib.Core.List.{append_assoc}
use omega_evidence.Base.{
  ℕ, zero, suc, ◌+◌, ◌-◌, ◌*◌, ◌/◌, ◌%◌, ◌<◌, ◌≤◌, false, Option, none, some, List, [], ◌∷◌, ◌++◌,
  ◌≡◌, ◌≢◌, refl, sym, ap, ◌∙◌, inl, inr, arith, length, ltb, Bool-cases,
}
use omega_evidence.Base.Text.{Text}
use omega_evidence.Base.Maybe.{some-injective, nothing}
use omega_evidence.Base.Utf8.{encode}
use omega_evidence.Json.Print.{digits, print_nat}
use omega_evidence.Json.Scan.{digits_value}
use omega_evidence.Envelope.Dsse.{pae_bytes, pae, pae_of}

AreDigits : Text → Type 0
AreDigits [] = Unit
AreDigits (c ∷ t) = (48 ≤ c) × AreDigits t

digits_value-append :
    (n d : ℕ) (t : Text) → digits_value n (t ++ (d ∷ [])) ≡ digits_value n t * 10 + (d - 48)
unfolding digits_value
digits_value-append n d [] = refl
digits_value-append n d (c ∷ t) = digits_value-append (n * 10 + (c - 48)) d t

AreDigits-append : (d : ℕ) (t : Text) → 48 ≤ d → AreDigits t → AreDigits (t ++ (d ∷ []))
unfolding AreDigits
AreDigits-append d [] h k = (h, tt)
AreDigits-append d (c ∷ t) h k = (k.0, AreDigits-append d t h k.1)

digits-append : (f n : ℕ) (acc : Text) → digits f n acc ≡ digits f n [] ++ acc
unfolding digits
digits-append zero n acc = refl
digits-append (suc f) n acc = elim (Bool-cases (ltb n 10)) [
  | inl small ↦ rw small refl
  | inr big ↦
      rw
        (
          big,
          digits-append f (n / 10) ((48 + n % 10) ∷ acc),
          digits-append f (n / 10) ((48 + n % 10) ∷ []),
          append_assoc (digits f (n / 10) []) ((48 + n % 10) ∷ []) acc,
        )
        refl
]

digits_value-digits : (f n : ℕ) → n < f → digits_value 0 (digits f n []) ≡ n
unfolding digits digits_value
digits_value-digits zero n h = absurd (omega arith)
digits_value-digits (suc f) n h = elim (Bool-cases (ltb n 10)) [
  | inl small ↦ rw small (omega arith)
  | inr big ↦
      rw
        (
          big,
          digits-append f (n / 10) ((48 + n % 10) ∷ []),
          digits_value-append 0 (48 + n % 10) (digits f (n / 10) []),
          digits_value-digits f (n / 10) (less big),
        )
        (omega arith)
]
  where
    less : ltb n 10 ≡ false → n / 10 < f
    less big = ground arith

digits-AreDigits : (f n : ℕ) → AreDigits (digits f n [])
unfolding digits AreDigits
digits-AreDigits zero n = tt
digits-AreDigits (suc f) n = elim (Bool-cases (ltb n 10)) [
  | inl small ↦ rw small (omega arith, tt)
  | inr big ↦
      rw (big, digits-append f (n / 10) ((48 + n % 10) ∷ []))
        (AreDigits-append (48 + n % 10) (digits f (n / 10) []) (omega arith)
          (digits-AreDigits f (n / 10)))
]

heads {ℓ} : {A : Type ℓ} {a b : A} {s t : List A} → a ∷ s ≡ b ∷ t → a ≡ b
heads e = cc

tails {ℓ} : {A : Type ℓ} {a b : A} {s t : List A} → a ∷ s ≡ b ∷ t → s ≡ t
tails e = cc

not_space : (c : ℕ) → 48 ≤ c → c ≢ 32
not_space c h e = omega arith

-- A number ends at the space behind it.
number_ends :
    (s t x y : Text) → AreDigits s → AreDigits t → s ++ (32 ∷ x) ≡ t ++ (32 ∷ y) → (s ≡ t) × (x ≡ y)
unfolding AreDigits
number_ends [] [] x y h k e = (refl, cc)
number_ends (a ∷ s) [] x y h k e = absurd (not_space a h.0 (heads e))
number_ends [] (b ∷ t) x y h k e = absurd (not_space b k.0 (sym (heads e)))
number_ends (a ∷ s) (b ∷ t) x y h k e =
    let (same, others) = number_ends s t x y h.1 k.1 (tails e) in (rw (heads e, same) refl, others)

same_length : (s t x y : List ℕ) → length s ≡ length t → s ++ x ≡ t ++ y → (s ≡ t) × (x ≡ y)
same_length [] [] x y h e = (refl, e)
same_length (a ∷ s) [] x y h e = absurd (omega arith)
same_length [] (b ∷ t) x y h e = absurd (omega arith)
same_length (a ∷ s) (b ∷ t) x y h e =
    let (same, others) = same_length s t x y (omega arith) (tails e) in
    (rw (heads e, same) refl, others)

print_nat-injective : (m n : ℕ) → print_nat m ≡ print_nat n → m ≡ n
unfolding print_nat
print_nat-injective m n e =
    sym (digits_value-digits (suc m) m (omega arith))
    ∙ ap (digits_value 0) e
    ∙ digits_value-digits (suc n) n (omega arith)

print_nat-AreDigits : (n : ℕ) → AreDigits (print_nat n)
unfolding print_nat
print_nat-AreDigits n = digits-AreDigits (suc n) n

-- A length, a space, what is that long, a space, and so on.
framed :
    (s t x y : List ℕ)
    → print_nat (length s) ++ (32 ∷ (s ++ (32 ∷ x)))
      ≡ print_nat (length t) ++ (32 ∷ (t ++ (32 ∷ y)))
    → (s ≡ t) × (x ≡ y)
framed s t x y e =
    let (lengths, others) =
      number_ends (print_nat (length s)) (print_nat (length t)) _ _ (print_nat-AreDigits _)
        (print_nat-AreDigits _) e in
    let (same, rest) =
      same_length s t (32 ∷ x) (32 ∷ y) (print_nat-injective (length s) (length t) lengths)
        others in
    (same, tails rest)

pae_bytes-injective : (s t x y : List ℕ) → pae_bytes s x ≡ pae_bytes t y → (s ≡ t) × (x ≡ y)
unfolding pae_bytes
pae_bytes-injective s t x y e =
    let (types, others) =
      framed s t (print_nat (length x) ++ (32 ∷ x)) (print_nat (length y) ++ (32 ∷ y))
        (tails (tails (tails (tails (tails (tails (tails e))))))) in
    let (lengths, payloads) =
      number_ends (print_nat (length x)) (print_nat (length y)) x y (print_nat-AreDigits (length x))
        (print_nat-AreDigits (length y)) others in
    (types, payloads)

pae_of-injective :
    (s t : Option (List ℕ)) (x y bytes : List ℕ)
    → pae_of s x ≡ some bytes
    → pae_of t y ≡ some bytes
    → (s ≡ t) × (x ≡ y)
pae_of-injective none t x y bytes e f = absurd (nothing bytes e)
pae_of-injective (some a) none x y bytes e f = absurd (nothing bytes f)
pae_of-injective (some a) (some b) x y bytes e f =
    let (types, payloads) =
      pae_bytes-injective a b x y (some-injective e ∙ sym (some-injective f)) in
    (ap some types, payloads)

-- Two encodings that `pae` makes are the same only if their payloads are the same and their
-- payload types have the same bytes: no signature is one over another type or payload.
pub pae_injective :
    (s t : Text) (x y bytes : List ℕ)
    → pae s x ≡ some bytes
    → pae t y ≡ some bytes
    → (encode s ≡ encode t) × (x ≡ y)
unfolding pae
pae_injective s t x y bytes e f = pae_of-injective (encode s) (encode t) x y bytes e f
