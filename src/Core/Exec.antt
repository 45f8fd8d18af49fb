-- ===== src/Core/Exec.antt =====
-- A handler reads and writes the store and may raise a problem. What it wrote before it raised
-- stays written, so the state comes back beside the problem too.
pub mod Keeps
pub mod Laws
use gutencode_test.Prelude.{Bool, true, false, Option, none, some}
use gutencode_test.Core.Problem.{Problem}

pub data Result {ℓ} (A : Type ℓ) : Type ℓ where
  ok : A → Result A
  err : Problem → Result A

abbrev pub Exec {ℓ κ} : Type ℓ → Type κ → Type (ℓ ⊔ κ)
Exec S A = S → Result A × S

module _ {ℓ κ} {S : Type ℓ} {A : Type κ} where
  -- A read of the store.
  unfoldable pub gets : (S → A) → Exec S A
  gets read store = (ok (read store), store)

  unfoldable pub raise : Problem → Exec S A
  raise problem store = (err problem, store)

  -- An outcome that a callback has computed.
  unfoldable pub lift : Result A → Exec S A
  lift outcome store = (outcome, store)

  unfoldable pub pure : A → Exec S A
  pure value store = (ok value, store)

  -- A store operation that returns a value and cannot raise.
  unfoldable pub atomically : (S → A × S) → Exec S A
  atomically m s = let (a, s') = m s in (ok a, s')

  -- `if x is None: raise p`
  unfoldable pub or_raise : Option A → Problem → Exec S A
  or_raise none p s = (err p, s)
  or_raise (some a) p s = (ok a, s)

-- `if not cond: raise p`
unfoldable pub require {ℓ} : {S : Type ℓ} → Bool → Problem → Exec S (Unit {0})
require true p s = (ok tt, s)
require false p s = (err p, s)

module _ {ℓ κ μ} {S : Type ℓ} {A : Type κ} {B : Type μ} where
  abbrev continue : (reply : Result A) (next : A → Exec S B) → Exec S B
  continue (err problem) next store = (err problem, store)
  continue (ok value) next store = next value store

  -- To open this is to open the actions above too.
  infixl 5 ◌>>=◌
  unfoldable pub ◌>>=◌ : Exec S A → (A → Exec S B) → Exec S B
  unfolding gets or_raise atomically require pure lift raise
  ◌>>=◌ first next store = let (reply, after) = first store in continue reply next after

  infixl 5 ◌>>◌
  abbrev pub ◌>>◌ : (first : Exec S A) (then_ : Exec S B) → Exec S B
  first >> then_ = first >>= λ ignored. then_
