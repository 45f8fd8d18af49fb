-- ===== src/Domains/Users.antt =====
-- domains/users.py: profiles. The state is the namespace "users_profiles", keyed by the handle, and the
-- counter "users_user"; the admin check of core/errors.py comes as `admin`. A handler that creates
-- writes at most one row.
pub mod Handles
use gutencode_test.Prelude.{
  ℕ, Bool, true, false, not, ◌&&◌, ◌||◌, Option, none, some, List, [], ◌∷◌, Text, codes, Text-Eq,
  ℕ-Eq, ◌==◌, ltb, length,
}
use gutencode_test.Core.Problem.{not_found, invalid, conflict, forbidden}
use gutencode_test.Core.Exec.{Exec, pure, gets, atomically, or_raise, require, ◌>>=◌, ◌>>◌}
use gutencode_test.Core.Table.{Table, get, put, next_id}
use gutencode_test.Parts.Claim.{claim_once}
use gutencode_test.Parts.WellFormed.{is_well_formed, require_well_formed}

pub data Status : Type 0 where
  active deactivated : Status

pub record User : Type 0 where
  pub id : ℕ
  pub handle : Text
  pub display_name : Text
  pub status : Status

pub record Users : Type 0 where
  pub profiles : Table Text User
  pub last_id : ℕ

abbrev pub is_free : Option User → Bool
is_free none = true
is_free (some user) = false

-- The mint, then the claim of the handle: the new record and the settled one.
unfoldable pub mint_and_claim : Text → Text → Users → (User × User) × Users
mint_and_claim handle display_name u =
    let (uid, last) = next_id u.last_id in
    let rec : User = record {
      id = uid;
      handle = handle;
      display_name = display_name;
      status = active;
    } in
    let (settled, profiles) = claim_once handle rec u.profiles in
    ((rec, settled), record { profiles = profiles; last_id = last })

unfoldable pub create : Text → Text → Text → Exec Users User
create handle display_name caller = do
  require (is_well_formed handle && ltb 0 (length display_name)) (invalid (codes "invalid body"))
  require (handle == caller) (forbidden (codes "you may only create your own handle"))
  taken ← gets (λ (u : Users). get handle u.profiles)
  require (is_free taken) (conflict (codes "handle taken"))
  both ← atomically (mint_and_claim handle display_name)
  require (both.1.id == both.0.id) (conflict (codes "handle taken"))
  pure both.1

unfoldable pub get_user : Text → Exec Users User
get_user handle = do
  require_well_formed handle (codes "the handle")
  found ← gets (λ (u : Users). get handle u.profiles)
  or_raise found (not_found (codes "user"))

-- The put of the terminal value, which is returned too.
unfoldable pub put_deactivated : Text → User → Users → User × Users
put_deactivated handle user u =
    let ended = record user { status = deactivated } in
    (ended, record u { profiles = put handle ended u.profiles })

unfoldable pub deactivate : (Text → Bool) → Text → Text → Exec Users User
deactivate admin handle caller = do
  require (caller == handle || admin caller)
      (forbidden (codes "you may only deactivate your own account"))
  require_well_formed handle (codes "the handle")
  found ← gets (λ (u : Users). get handle u.profiles)
  user ← or_raise found (not_found (codes "user"))
  atomically (put_deactivated handle user)
