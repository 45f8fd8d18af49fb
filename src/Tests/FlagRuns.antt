-- ===== src/Tests/FlagRuns.antt =====
-- A flag that is created and then raised.
use gutencode_test.Prelude.{
  ◌≡◌, refl, Option, arith, false, List, [], ◌∷◌, Text, Text-Eq, codes, text_eq,
}
use gutencode_test.Core.Exec.{pure, ◌>>=◌}
use gutencode_test.Core.Table.{get, put, do_}
use gutencode_test.Core.Access.{is_admin}
use gutencode_test.Parts.Digest.{digest_hex, join_colon}
use gutencode_test.Parts.Digest.Unary.{unary_hash, unary_text, unary}
use gutencode_test.Parts.WellFormed.{is_well_formed}
use gutencode_test.Domains.FeatureFlags
use gutencode_test.Domains.FeatureFlags.{
  Flag, Call, hex_value, bucket, get_flag, put_rollout, evaluate,
}
use gutencode_test.Domains.FeatureFlags.Ramp.{Request, step, serve, Enabled, ramp_only_admits}

abbrev bob : Text
bob = codes "bob"

abbrev dark : Text
dark = codes "k"

abbrev by_bob : Call
by_bob = record { seam = false; roles = (bob, codes "admin" ∷ []) ∷ []; caller = bob }

abbrev start : List (Call × Request)
start = (by_bob, Request.create dark 50) ∷ (by_bob, Request.set_rollout dark 60) ∷ []

abbrev raise_it : List (Call × Request)
raise_it = (by_bob, Request.set_rollout dark 80) ∷ []

abbrev at_sixty : Flag
at_sixty = record { key = dark; rollout = 60 }

start-at_sixty : get dark (serve start []) ≡ Option.some at_sixty
unfolding serve step FeatureFlags.create FeatureFlags.set_rollout get_flag put_rollout get put do_
    is_admin is_well_formed text_eq codes ◌>>=◌
start-at_sixty = refl

start-enabled : (evaluate unary_hash dark bob (serve start [])).0 ≡ Enabled dark bob
unfolding serve step FeatureFlags.create FeatureFlags.set_rollout get_flag put_rollout get put do_
    is_admin is_well_formed text_eq codes evaluate bucket hex_value digest_hex join_colon unary_hash
    unary_text unary pure ◌>>=◌
start-enabled = refl

ramp_only_admits_example :
    (evaluate unary_hash dark bob (serve raise_it (serve start []))).0 ≡ Enabled dark bob
ramp_only_admits_example =
    ramp_only_admits unary_hash start raise_it dark bob at_sixty start-at_sixty start-enabled
      ((λ here admin. omega arith), tt)
