-- ===== src/Core/Exec/Laws.antt =====
-- Stepping through a handler: what a guard that held leaves, and what a reply shows of the guards.
use gutencode_test.Prelude.{Bool, true, false, ◌≡◌, refl}
use gutencode_test.Core.Problem.{Problem}
use gutencode_test.Core.Exec.{ok, err, Exec, require, ◌>>=◌, ◌>>◌}

module _ {ℓ κ} {S : Type ℓ} {B : Type κ} where
  -- A guard that holds goes on.
  pub require-true :
      (b : Bool) (p : Problem) (m : Exec S B) (s : S) → b ≡ true → (require b p >> m) s ≡ m s
  unfolding ◌>>=◌
  require-true true p m s e = refl
  require-true false p m s e = absurd (cc)

  -- A guard that fails raises, and nothing is written.
  pub require-false :
      (b : Bool) (p : Problem) (m : Exec S B) (s : S)
      → b ≡ false
      → (require b p >> m) s ≡ (err p, s)
  unfolding ◌>>=◌
  require-false true p m s e = absurd (cc)
  require-false false p m s e = refl

  -- A handler that replied got past its guard.
  pub require-ok :
      (b : Bool) (p : Problem) (m : Exec S B) (s : S) {r : B}
      → ((require b p >> m) s).0 ≡ ok r
      → (b ≡ true) × ((m s).0 ≡ ok r)
  unfolding ◌>>=◌
  require-ok true p m s e = (refl, e)
  require-ok false p m s e = absurd (cc)
