-- ===== src/Core/Exec/Keeps.antt =====
-- Invariants of handlers, one rule for each way to build one.
use gutencode_test.Prelude.{Bool, true, false, Option, none, some, ◌≡◌, refl}
use gutencode_test.Core.Problem.{Problem}
use gutencode_test.Core.Exec.{
  Result, ok, err, Exec, pure, raise, lift, gets, atomically, or_raise, require, continue, ◌>>=◌,
}

-- `m` keeps `P`, whether it returns or raises.
pub record Keeps {ℓ κ μ} {S : Type ℓ} {A : Type κ} (P : S → Type μ) (m : Exec S A)
    : Type (ℓ ⊔ μ) where
  pub at : (s : S) → P s → P (m s).1

module _ {ℓ κ μ} {S : Type ℓ} {A : Type κ} {P : S → Type μ} where
  -- What writes nothing keeps everything.
  reads : (m : Exec S A) → ((w : S) → (m w).1 ≡ w) → Keeps P m
  reads m same = record { at = λ w held. rw (same w) held }

  pub Keeps-gets : (read : S → A) → Keeps P (gets read)
  Keeps-gets read = reads (gets read) (λ w. unfold gets in refl)

  pub Keeps-lift : (reply : Result A) → Keeps P (lift reply)
  Keeps-lift reply = reads (lift reply) (λ w. unfold lift in refl)

  pub Keeps-raise : (problem : Problem) → Keeps P (raise {A = A} problem)
  Keeps-raise problem = reads (raise problem) (λ w. unfold raise in refl)

  pub Keeps-pure : (value : A) → Keeps P (pure value)
  Keeps-pure value = reads (pure value) (λ w. unfold pure in refl)

  pub Keeps-or_raise : (o : Option A) (p : Problem) → Keeps P (or_raise o p)
  unfolding or_raise
  Keeps-or_raise none p = record { at = λ s h. h }
  Keeps-or_raise (some a) p = record { at = λ s h. h }

  pub Keeps-atomically : (m : S → A × S) → ((s : S) → P s → P (m s).1) → Keeps P (atomically m)
  unfolding atomically
  Keeps-atomically m k = record { at = k }

module _ {ℓ μ} {S : Type ℓ} {P : S → Type μ} where
  pub Keeps-require : (b : Bool) (p : Problem) → Keeps P (require b p)
  unfolding require
  Keeps-require true p = record { at = λ s h. h }
  Keeps-require false p = record { at = λ s h. h }

module _ {ℓ μ ν} {S : Type ℓ} {B : Type μ} {P : S → Type ν} where
  -- The rest may use that the guard held.
  pub Keeps-guard :
      (b : Bool) (p : Problem) (m : Exec S B)
      → (b ≡ true → Keeps P m)
      → Keeps P (require b p >>= λ _. m)
  unfolding ◌>>=◌
  Keeps-guard true p m k = k refl
  Keeps-guard false p m k = record { at = λ s h. h }

module _ {ℓ κ μ ν} {S : Type ℓ} {A : Type κ} {B : Type μ} {P : S → Type ν} where
  pub Keeps-bind :
      (first : Exec S A) (next : A → Exec S B)
      → Keeps P first
      → ((value : A) → Keeps P (next value))
      → Keeps P (first >>= next)
  unfolding ◌>>=◌
  Keeps-bind first next kept keeps = record {
    at = λ w p. let (reply, w') = first w in onward reply w' (kept.at w p);
  }
    where
      onward : (reply : Result A) (w' : S) → P w' → P (continue reply next w').1
      onward (ok value) w' p = (keeps value).at w' p
      onward (err problem) w' p = p

module _ {ℓ κ μ ν} {S : Type ℓ} {A : Type κ} {B : Type μ} {P : S → Type ν} where
  -- The rest may use what a store operation returned where the predicate held.
  pub Keeps-after :
      (m : S → A × S) (next : A → Exec S B)
      → ((s : S) → P s → P (m s).1 × Keeps P (next (m s).0))
      → Keeps P (atomically m >>= next)
  unfolding ◌>>=◌
  Keeps-after m next k = record { at = λ s p. let (kept, rest) = k s p in rest.at (m s).1 kept }

  -- The rest may use what was found.
  pub Keeps-found :
      (o : Option A) (p : Problem) (f : A → Exec S B)
      → ((a : A) → o ≡ some a → Keeps P (f a))
      → Keeps P (or_raise o p >>= f)
  unfolding ◌>>=◌
  Keeps-found none p f k = record { at = λ s h. h }
  Keeps-found (some a) p f k = k a refl

pub ruleset keeps_rules =
    (Keeps-pure, Keeps-raise, Keeps-lift, Keeps-gets, Keeps-or_raise, Keeps-require, Keeps-bind)
