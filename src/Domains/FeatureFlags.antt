-- ===== src/Domains/FeatureFlags.antt =====
-- domains/feature_flags.py: percentage rollouts by a stable bucket. The state is the namespace
-- "feature_flags_records", keyed by the flag's key; the roles that the admin check reads come with the call.
pub mod Ramp
use gutencode_test.Prelude.{
  ℕ, ◌+◌, ◌*◌, ◌-◌, ◌%◌, Bool, true, false, ◌&&◌, Option, none, some, List, [], ◌∷◌, Text, codes,
  Text-Eq, ltb, leb, take, is_digit, if◌then◌else◌,
}
use gutencode_test.Core.Problem.{not_found, invalid, forbidden, conflict}
use gutencode_test.Core.Exec.{Exec, pure, gets, atomically, or_raise, require, ◌>>=◌, ◌>>◌}
use gutencode_test.Core.Table.{Table, get, put, do_}
use gutencode_test.Core.Access.{is_admin}
use gutencode_test.Parts.Digest.{Hash, digest_hex}
use gutencode_test.Parts.WellFormed.{is_well_formed, require_well_formed}

pub record Flag : Type 0 where
  pub key : Text
  pub rollout : ℕ

abbrev pub Flags : Type 0
Flags = Table Text Flag

-- The authenticated caller, the environment's test seam, and the roles as they are at the call.
pub record Call : Type 0 where
  pub seam : Bool
  pub roles : Table Text (List Text)
  pub caller : Text

abbrev pub require_admin : Call → Exec Flags (Unit {0})
require_admin c =
    require (is_admin c.seam c.roles c.caller)
      (forbidden (codes "this operation requires the admin role"))

-- Field(ge=0, le=100)
abbrev pub is_rollout : ℕ → Bool
is_rollout n = leb n 100

-- The value of a lower-case hex digit.
abbrev pub hex_digit : ℕ → ℕ
hex_digit c = if is_digit c then c - b'0' else c - b'a' + 10

-- int(s, 16)
unfoldable pub hex_value : ℕ → Text → ℕ
hex_value seen [] = seen
hex_value seen (c ∷ cs) = hex_value (seen * 16 + hex_digit c) cs

unfoldable pub bucket : Hash → Text → Text → ℕ
bucket h key subject = hex_value 0 (take 8 (digest_hex h (key ∷ subject ∷ []))) % 100

abbrev pub create_fn : Flag → Option Flag → Option Flag × Bool
create_fn rec none = (some rec, true)
create_fn rec (some cur) = (none, false)

unfoldable pub create : Call → Text → ℕ → Exec Flags Flag
create c key rollout = do
  require_admin c
  require (is_well_formed key && is_rollout rollout) (invalid (codes "invalid body"))
  let rec : Flag = record { key = key; rollout = rollout }
  created ← atomically (do_ key (create_fn rec))
  require created (conflict (codes "flag key taken"))
  pure rec

-- _load, which is the whole of the read.
unfoldable pub get_flag : Text → Exec Flags Flag
get_flag key = do
  require_well_formed key (codes "the flag key")
  found ← gets (λ (t : Flags). get key t)
  or_raise found (not_found (codes "flag"))

unfoldable pub put_rollout : ℕ → Flag → Flags → Flag × Flags
put_rollout rollout flag t =
    let changed = record flag { rollout = rollout } in (changed, put flag.key changed t)

unfoldable pub set_rollout : Call → Text → ℕ → Exec Flags Flag
set_rollout c key rollout = do
  require_admin c
  require (is_rollout rollout) (invalid (codes "invalid body"))
  flag ← get_flag key
  atomically (put_rollout rollout flag)

-- The reply {key, subject, enabled}.
unfoldable pub evaluate : Hash → Text → Text → Exec Flags (Text × Text × Bool)
evaluate h key subject = do
  flag ← get_flag key
  require_well_formed subject (codes "the subject")
  pure (flag.key, subject, ltb (bucket h flag.key subject) flag.rollout)
