-- ===== src/Prelude/Decimal.antt =====
-- Python's `str(n)` of a number that is not negative: its decimal digits, which read back.
use Prim.Native.Nat.{ℕ, zero, suc, ◌+◌, ◌-◌, ◌*◌, ◌/◌, ◌%◌, ◌<◌}
use mathlib.Core.Path.{◌≡◌, refl, ap, sym, ◌∙◌}
use mathlib.Core.Bool.{Bool, true, false, ◌&&◌}
use mathlib.Core.Logic.{inl, inr}
use mathlib.Core.List.{[], ◌∷◌, ◌++◌}
use native.Mathlib.Omega.{arith}
use gutencode_test.Prelude.Tests.{ltb, leb, if◌then◌else◌, Bool-cases}
use gutencode_test.Prelude.Lists.{All}
use gutencode_test.Prelude.Texts.{Text, Free}

digits_of : ℕ → ℕ → Text
digits_of zero n = []
digits_of (suc f) n =
    let high = digits_of f (n / 10) in
    if ltb n 10 then (48 + n) ∷ [] else high ++ ((48 + n % 10) ∷ [])

-- A number has fewer digits than one more than itself, so the fuel is enough.
unfoldable pub str_ℕ : ℕ → Text
unfolding digits_of
str_ℕ n = digits_of (suc n) n

-- The number that digits stand for, after `acc`.
unfoldable pub read_from : ℕ → Text → ℕ
read_from acc [] = acc
read_from acc (c ∷ cs) = read_from (acc * 10 + (c - 48)) cs

read_from-append : (acc : ℕ) (s t : Text) → read_from acc (s ++ t) ≡ read_from (read_from acc s) t
unfolding read_from
read_from-append acc [] t = refl
read_from-append acc (c ∷ cs) t = read_from-append (acc * 10 + (c - 48)) cs t

read_from-digits_of : (f n : ℕ) → n < f → read_from 0 (digits_of f n) ≡ n
unfolding digits_of read_from
read_from-digits_of zero n h = absurd (omega arith)
read_from-digits_of (suc f) n h = elim (Bool-cases (ltb n 10)) [
  | inl small ↦ ground arith
  | inr large ↦ rw large (
      rw (read_from-append 0 (digits_of f (n / 10)) ((48 + n % 10) ∷ []))
        (rw (read_from-digits_of f (n / 10) (ground arith)) (ground arith)))
]

-- The digits of a number read back.
pub read_from-str_ℕ : (n : ℕ) → read_from 0 (str_ℕ n) ≡ n
unfolding str_ℕ
read_from-str_ℕ n = read_from-digits_of (suc n) n (omega arith)

-- A number has a digit.
pub str_ℕ-cons : (n : ℕ) → (c : ℕ) × (cs : Text) × (str_ℕ n ≡ c ∷ cs)
unfolding str_ℕ digits_of
str_ℕ-cons n = elim (Bool-cases (ltb n 10)) [
  | inl small ↦ (48 + n, [], rw small)
  | inr large ↦ rw large (snoc-cons (digits_of n (n / 10)) (48 + n % 10))
]
  where
    snoc-cons : (s : Text) (d : ℕ) → (c : ℕ) × (cs : Text) × (s ++ (d ∷ []) ≡ c ∷ cs)
    snoc-cons [] d = (d, [], refl)
    snoc-cons (c ∷ s) d = (c, s ++ (d ∷ []), refl)

-- Two numbers with the same digits are the same number.
pub str_ℕ-injective : (m n : ℕ) → str_ℕ m ≡ str_ℕ n → m ≡ n
unfolding str_ℕ
str_ℕ-injective m n h =
    sym (read_from-digits_of (suc m) m (omega arith))
    ∙ ap (read_from 0) h
    ∙ read_from-digits_of (suc n) n (omega arith)

abbrev pub is_digit : ℕ → Bool
is_digit c = leb 48 c && leb c 57

abbrev pub Digits : Text → Type 0
Digits s = All (λ c. is_digit c ≡ true) s

Digits-append : (s t : Text) → Digits s → Digits t → Digits (s ++ t)
Digits-append [] t h k = k
Digits-append (c ∷ s) t h k = (h.0, Digits-append s t h.1 k)

digits_of-Digits : (f n : ℕ) → Digits (digits_of f n)
unfolding digits_of
digits_of-Digits zero n = tt
digits_of-Digits (suc f) n = elim (Bool-cases (ltb n 10)) [
  | inl small ↦ rw small (ground arith)
  | inr large ↦ rw large (
      Digits-append (digits_of f (n / 10)) ((48 + n % 10) ∷ []) (digits_of-Digits f (n / 10))
        (ground arith))
]

pub str_ℕ-Digits : (n : ℕ) → Digits (str_ℕ n)
unfolding str_ℕ
str_ℕ-Digits n = digits_of-Digits (suc n) n

-- Digits hold no other character.
pub Digits-Free : (c : ℕ) (s : Text) → is_digit c ≡ false → Digits s → Free c s
Digits-Free c [] h d = tt
Digits-Free c (x ∷ s) h d = (ground arith, Digits-Free c s h d.1)
