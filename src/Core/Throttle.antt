-- ===== src/Core/Throttle.antt =====
-- core/store.py: the fixed-window throttle, over the namespace "_throttle".
pub mod Limit
use gutencode_test.Prelude.{
  ℕ, ◌+◌, Bool, true, Option, none, some, Text, Text-Eq, leb, ltb, if◌then◌else◌,
}
use gutencode_test.Core.Table.{Table, do_}

pub record Window : Type 0 where
  pub start : ℕ
  pub count : ℕ

unfoldable pub throttle_fn : ℕ → ℕ → ℕ → Option Window → Option Window × Bool
throttle_fn limit window now none = (some (record { start = now; count = 1 }), true)
throttle_fn limit window now (some cur) =
    if ltb now (cur.start + window)
    then (some (record { start = cur.start; count = cur.count + 1 }), leb (cur.count + 1) limit)
    else (some (record { start = now; count = 1 }), true)

-- True if the call is allowed.
unfoldable pub throttle : Text → ℕ → ℕ → ℕ → Table Text Window → Bool × Table Text Window
unfolding throttle_fn
throttle key limit window now t = do_ key (throttle_fn limit window now) t
