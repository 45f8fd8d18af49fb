-- ===== src/Core/Throttle/Limit.antt =====
-- How many calls a window lets through.
use gutencode_test.Prelude.{
  ℕ, ◌+◌, ◌-◌, ◌<◌, ◌≡◌, refl, ◌∙◌, true, none, some, List, [], ◌∷◌, Text, Text-Eq, leb, ltb, min,
  max, length, if◌then◌else◌, All, arith,
}
use gutencode_test.Core.Table.{Table, get, do_}
use gutencode_test.Core.Table.Laws.{get-do_self}
use gutencode_test.Core.Throttle.{Window, throttle, throttle_fn}

-- How many of the calls at these times are allowed.
unfoldable pub allowed : Text → ℕ → ℕ → List ℕ → Table Text Window → ℕ
allowed key limit window [] t = 0
allowed key limit window (now ∷ later) t =
    let (passed, t') = throttle key limit window now t in
    (if passed then 1 else 0) + allowed key limit window later t'

module _ (key : Text) (limit window : ℕ) where
  -- A call within the window counts up, and passes while the count is within the limit.
  inside :
      (start count now : ℕ) (t : Table Text Window)
      → get key t ≡ some (record { start = start; count = count })
      → now < start + window
      → ((throttle key limit window now t).0 ≡ leb (count + 1) limit)
        × (get key (throttle key limit window now t).1
            ≡ some (record { start = start; count = count + 1 }))
  unfolding throttle
  inside start count now t held within =
      let open_ : ltb now (start + window) ≡ true = ground arith in
      (
        unfold do_ throttle_fn in rw held (rw open_),
        get-do_self key (throttle_fn limit window now) t ∙ rw held (unfold throttle_fn in rw open_),
      )

  opening :
      (now : ℕ) (t : Table Text Window)
      → get key t ≡ none
      → ((throttle key limit window now t).0 ≡ true)
        × (get key (throttle key limit window now t).1 ≡ some (record { start = now; count = 1 }))
  unfolding throttle
  opening now t fresh = (
    unfold do_ throttle_fn in rw fresh,
    get-do_self key (throttle_fn limit window now) t ∙ rw fresh (unfold throttle_fn in refl),
  )

  allowed_inside :
      (times : List ℕ) (start count : ℕ) (t : Table Text Window)
      → get key t ≡ some (record { start = start; count = count })
      → All (λ now. now < start + window) times
      → allowed key limit window times t ≡ min (length times) (limit - count)
  unfolding allowed
  allowed_inside [] start count t held within = omega arith
  allowed_inside (now ∷ later) start count t held within =
      let (reply, next) = inside start count now t held within.0 in
      let rest =
        allowed_inside later start (count + 1) (throttle key limit window now t).1 next within.1 in
      rw (reply, rest) (ground arith)

  -- The first call of a key opens a window and is allowed. Of it and any calls that follow within the
  -- window, whatever the order of their times, exactly as many are allowed as the limit says, or all
  -- of them if they are fewer; a limit of 0 still lets the first through.
  pub throttle_limit :
      (first : ℕ) (times : List ℕ) (t : Table Text Window)
      → get key t ≡ none
      → All (λ now. now < first + window) times
      → allowed key limit window (first ∷ times) t ≡ min (1 + length times) (max 1 limit)
  unfolding allowed
  throttle_limit first times t fresh within =
      let (passed, opened) = opening first t fresh in
      let rest = allowed_inside times first 1 (throttle key limit window first t).1 opened within in
      rw (passed, rest) (ground arith)
