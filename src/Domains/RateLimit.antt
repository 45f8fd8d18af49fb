-- ===== src/Domains/RateLimit.antt =====
-- domains/ratelimit.py: the fixed-window limiter. The state is the namespace "ratelimit_windows". The
-- service's authorization comes before the handler; the limit and the window, which the environment
-- sets, come as `Knobs`: a window of at least a second (0 would divide by zero, and a negative one is not
-- modelled), and a limit that is a natural number (a negative one denies every check, as 0 does).
pub mod Limit
use gutencode_test.Prelude.{
  ℕ, suc, ◌+◌, ◌-◌, ◌/◌, Bool, true, false, Option, none, some, List, [], ◌∷◌, ◌++◌, Text, codes,
  Text-Eq, leb, if◌then◌else◌, str_ℕ,
}
use gutencode_test.Core.Problem.{too_many, invalid}
use gutencode_test.Core.Exec.{Exec, pure, atomically, or_raise, require, ◌>>=◌, ◌>>◌}
use gutencode_test.Core.Table.{Table, do_}
use gutencode_test.Parts.WellFormed.{is_well_formed}

pub record Knobs : Type 0 where
  pub limit : ℕ
  pub window_less_one : ℕ

abbrev pub window : Knobs → ℕ
window k = suc k.window_less_one

pub record Decision : Type 0 where
  pub allowed : Bool
  pub remaining : ℕ

abbrev pub Windows : Type 0
Windows = Table Text ℕ

-- count or 0
abbrev pub or_zero : Option ℕ → ℕ
or_zero none = 0
or_zero (some n) = n

-- f"{data.key}:{window_id}"
unfoldable pub slot_of : Text → ℕ → Text
slot_of key window_id = key ++ (b':' ∷ str_ℕ window_id)

-- The consume-or-deny: what is left after it, or none (-1) for a denial.
unfoldable pub consume : ℕ → Option ℕ → Option ℕ × Option ℕ
consume limit count =
    if leb limit (or_zero count)
    then (none, none)
    else (some (or_zero count + 1), some (limit - (or_zero count + 1)))

unfoldable pub check : Knobs → Text → ℕ → Exec Windows Decision
check k key now = do
  require (is_well_formed key) (invalid (codes "invalid body"))
  left ← atomically (do_ (slot_of key (now / window k)) (consume k.limit))
  remaining ← or_raise left (too_many (codes "rate limit exceeded"))
  pure (record { allowed = true; remaining = remaining })
