-- ===== src/Domains/Teams.antt =====
-- domains/teams.py: teams of an organization. The state is the namespace "teams_records", keyed by the
-- team's id (`str(id)` is one to one), and the counter "teams_team". The namespaces that orgs writes are
-- read only here, so a call brings their readings. An id of a path that is negative names no record, so
-- ids are natural numbers.
pub mod Sorted
pub mod Requests
pub mod Members
use gutencode_test.Prelude.{
  ℕ, Bool, true, false, not, ◌&&◌, Option, none, some, List, [], ◌∷◌, ◌++◌, Text, codes, Text-Eq,
  ℕ-Eq, ◌==◌, elem, keep, text_lt, if◌then◌else◌,
}
use gutencode_test.Core.Problem.{not_found, forbidden, invalid}
use gutencode_test.Core.Exec.{Exec, pure, gets, atomically, or_raise, require, ◌>>=◌, ◌>>◌}
use gutencode_test.Core.Table.{Table, get, put, next_id}
use gutencode_test.Core.OrgRole.{Org, Member, org_role}
use gutencode_test.Parts.WellFormed.{is_well_formed, require_well_formed}

pub record TeamMember : Type 0 where
  pub handle : Text
  pub role : Text

pub record Team : Type 0 where
  pub id : ℕ
  pub org : Text
  pub name : Text
  pub members : List TeamMember

pub record Teams : Type 0 where
  pub records : Table ℕ Team
  pub last_id : ℕ

-- The authenticated caller, and the organizations and memberships as they are at the call.
pub record Call : Type 0 where
  pub caller : Text
  pub orgs : Table Text Org
  pub memberships : Table Text Member

abbrev pub manager_roles : List Text
manager_roles = codes "owner" ∷ codes "admin" ∷ []

abbrev pub is_non_empty : Text → Bool
is_non_empty [] = false
is_non_empty (x ∷ xs) = true

abbrev pub is_manager_role : Option Text → Bool
is_manager_role none = false
is_manager_role (some role) = elem role manager_roles

abbrev pub is_role : Option Text → Bool
is_role none = false
is_role (some role) = true

abbrev pub manages : Call → Text → Bool
manages c org = is_manager_role (org_role c.orgs c.memberships org c.caller)

unfoldable pub load : ℕ → Exec Teams Team
load team_id = do
  found ← gets (λ (b : Teams). get team_id b.records)
  or_raise found (not_found (codes "team"))

abbrev pub require_org_manager : Call → Text → Exec Teams (Unit {0})
require_org_manager c org =
    require (manages c org)
      (forbidden (codes "managing this team requires being an owner or admin of its org"))

-- _team_manager_dep
unfoldable pub manage : Call → ℕ → Exec Teams Team
manage c team_id = do team ← load team_id; require_org_manager c team.org; pure team

-- _team_member_dep, which is the whole of the read.
unfoldable pub get_team : Call → ℕ → Exec Teams Team
get_team c team_id = do
  team ← load team_id
  require (is_role (org_role c.orgs c.memberships team.org c.caller)) (not_found (codes "team"))
  pure team

-- sorted(members, key=handle): a stable insertion sort.
unfoldable pub insert_member : TeamMember → List TeamMember → List TeamMember
insert_member m [] = m ∷ []
insert_member m (n ∷ ns) =
    let further = insert_member m ns in
    if text_lt n.handle m.handle then n ∷ further else m ∷ n ∷ ns

unfoldable pub sort_members : List TeamMember → List TeamMember
sort_members [] = []
sort_members (m ∷ ms) = insert_member m (sort_members ms)

abbrev pub without : Text → List TeamMember → List TeamMember
without handle members = keep (λ m. not (m.handle == handle)) members

-- The new list of an addition: the handle's row is replaced.
unfoldable pub upsert : Text → Text → List TeamMember → List TeamMember
upsert handle role members =
    let added : TeamMember = record { handle = handle; role = role } in
    sort_members (without handle members ++ (added ∷ []))

unfoldable pub insert : Text → Text → Teams → Team × Teams
insert org name b =
    let (tid, last) = next_id b.last_id in
    let team : Team = record { id = tid; org = org; name = name; members = [] } in
    (team, record { records = put tid team b.records; last_id = last })

-- The whole team in one put, under its own id.
unfoldable pub put_members : Team → List TeamMember → Teams → Team × Teams
put_members team members b =
    let changed = record team { members = members } in
    (changed, record b { records = put team.id changed b.records })

unfoldable pub create : Call → Text → Text → Exec Teams Team
create c org name = do
  require (is_well_formed org && is_non_empty name) (invalid (codes "invalid body"))
  require_org_manager c org
  atomically (insert org name)

unfoldable pub add_member : Call → ℕ → Text → Text → Exec Teams Team
add_member c team_id handle role = do
  team ← manage c team_id
  require (is_well_formed handle && is_non_empty role) (invalid (codes "invalid body"))
  atomically (put_members team (upsert handle role team.members))

unfoldable pub remove_member : Call → ℕ → Text → Exec Teams Team
remove_member c team_id handle = do
  team ← manage c team_id
  require_well_formed handle (codes "the member handle")
  atomically (put_members team (sort_members (without handle team.members)))
