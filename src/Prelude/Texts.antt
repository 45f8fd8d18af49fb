-- ===== src/Prelude/Texts.antt =====
-- A Python `str` is a sequence of code points, lone surrogates included: a list of numbers.
use Prim.Native.Nat.{ℕ}
use Prim.Native.Char.{code}
use Prim.Native.String.{String}
use mathlib.Core.Path.{◌≡◌, refl}
use mathlib.Core.Logic.{◌↔◌}
use mathlib.Core.Bool.{Bool, true, false, ◌&&◌}
use mathlib.Core.List.{List, [], ◌∷◌, ◌++◌}
use native.Mathlib.Omega.{arith}
use mathlib.Core.Option.{Option, none, some}
use gutencode_test.Prelude.Tests.{Eq, nat_eq, ltb, if◌then◌else◌}
use gutencode_test.Prelude.Lists.{All}

abbrev pub Text : Type 0
Text = List ℕ

-- The code points of a literal.
unfoldable pub codes : String → Text
codes String.[] = []
codes (String.◌∷◌ c s) = code c ∷ codes s

unfoldable pub text_eq : Text → Text → Bool
text_eq [] [] = true
text_eq (x ∷ xs) (y ∷ ys) = nat_eq x y && text_eq xs ys
text_eq _ _ = false

text_eq_sound : (s t : Text) → text_eq s t ≡ true → s ≡ t
unfolding text_eq
text_eq_sound [] [] h = refl
text_eq_sound [] (y ∷ ys) h = cc
text_eq_sound (x ∷ xs) [] h = cc
text_eq_sound (x ∷ xs) (y ∷ ys) h = ground (arith, text_eq_sound xs ys)

text_eq_refl : (s : Text) → text_eq s s ≡ true
unfolding text_eq
text_eq_refl [] = refl
text_eq_refl (x ∷ xs) = ground (arith, text_eq_refl xs)

pub text_eq_iff : (s t : Text) → (text_eq s t ≡ true) ↔ (s ≡ t)
text_eq_iff s t = (text_eq_sound s t, λ h. rw h (text_eq_refl t))

instance abbrev pub Text-Eq : Eq Text
Text-Eq = record { beq = text_eq; beq_iff = text_eq_iff }

-- No code point of the text is `c`.
abbrev pub Free : ℕ → Text → Type 0
Free c s = All (λ x. nat_eq x c ≡ false) s

-- No free text holds the delimiter, so it does not continue past one.
Free-not_split : (c : ℕ) (xs ys zs : Text) → Free c ys → ys ≡ xs ++ (c ∷ zs) → ⊥
Free-not_split c [] [] zs f h = cc
Free-not_split c [] (y ∷ ys) zs f h = ground arith
Free-not_split c (x ∷ xs) [] zs f h = cc
Free-not_split c (x ∷ xs) (y ∷ ys) zs f h = Free-not_split c xs ys zs f.1 (cc)

-- A text splits in one way at the last delimiter.
pub split_last :
    (c : ℕ) (xs ys xs' ys' : Text)
    → Free c ys
    → Free c ys'
    → xs ++ (c ∷ ys) ≡ xs' ++ (c ∷ ys')
    → (xs ≡ xs') × (ys ≡ ys')
split_last c [] ys [] ys' f f' h = (refl, cc)
split_last c [] ys (x ∷ xs') ys' f f' h = absurd (Free-not_split c xs' ys ys' f (cc))
split_last c (x ∷ xs) ys [] ys' f f' h = absurd (Free-not_split c xs ys' ys f' (cc))
split_last c (x ∷ xs) ys (x' ∷ xs') ys' f f' h =
    let rest = split_last c xs ys xs' ys' f f' (cc) in (cc rest.0, rest.1)

-- A text splits in one way at the first delimiter.
pub split_first :
    (c : ℕ) (xs ys xs' ys' : Text)
    → Free c xs
    → Free c xs'
    → xs ++ (c ∷ ys) ≡ xs' ++ (c ∷ ys')
    → (xs ≡ xs') × (ys ≡ ys')
split_first c [] ys [] ys' f f' h = (refl, cc)
split_first c [] ys (x ∷ xs') ys' f f' h = ground arith
split_first c (x ∷ xs) ys [] ys' f f' h = ground arith
split_first c (x ∷ xs) ys (x' ∷ xs') ys' f f' h =
    let rest = split_first c xs ys xs' ys' f.1 f'.1 (cc) in (cc rest.0, rest.1)

-- A common beginning is cancelled.
pub append-cancel_left : (p s t : Text) → p ++ s ≡ p ++ t → s ≡ t
append-cancel_left [] s t h = h
append-cancel_left (x ∷ p) s t h = append-cancel_left p s t (cc)

-- str.partition at the first `c`: what is before it, and what is after it if there is one.
unfoldable pub partition : ℕ → Text → Text × Option Text
partition c [] = ([], none)
partition c (x ∷ xs) =
    let (before, rest) = partition c xs in if nat_eq x c then ([], some xs) else (x ∷ before, rest)

-- What stands before the first separator has none.
pub partition-append :
    (c : ℕ) (xs ys : Text) → Free c xs → partition c (xs ++ (c ∷ ys)) ≡ (xs, some ys)
unfolding partition
partition-append c [] ys free = let e : nat_eq c c ≡ true = ground arith in rw e
partition-append c (x ∷ xs) ys free = rw (free.0, partition-append c xs ys free.1)

-- Texts in the order of their code points.
unfoldable pub text_lt : Text → Text → Bool
text_lt [] [] = false
text_lt [] (y ∷ ys) = true
text_lt (x ∷ xs) [] = false
text_lt (x ∷ xs) (y ∷ ys) =
    let rest = text_lt xs ys in if ltb x y then true else if ltb y x then false else rest
