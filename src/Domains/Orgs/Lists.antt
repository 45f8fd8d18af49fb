-- ===== src/Domains/Orgs/Lists.antt =====
-- The list routes of domains/orgs/router.py, over the paginate part.
use gutencode_test.Prelude.{ℕ, ◌&&◌, ◌||◌, Option, List, ◌∷◌, Text, codes, Text-Eq, ◌==◌, map, keep}
use gutencode_test.Core.Problem.{not_found}
use gutencode_test.Core.Exec.{Exec, gets, require, ◌>>=◌, ◌>>◌}
use gutencode_test.Core.Table.{values}
use gutencode_test.Core.OrgRole.{Org, Member, is_active, is_pending}
use gutencode_test.Parts.Paginate.Reply.{reply_page}
use gutencode_test.Domains.Orgs.{Orgs, Call, is_some, load, role_in, manager_roles, manage}

-- The organizations that the caller owns or is an active member of.
unfoldable pub list_mine : Call → Text → Text → Exec Orgs (List Org × Option Text)
list_mine c limit cursor = do
  mine ← gets (λ (o : Orgs).
      keep (λ r. r.owner == c.caller || is_some (role_in r.slug c.caller o)) (values o.records))
  reply_page mine cursor limit

abbrev pub roster_rows : Text → List Member → List (Text × Text)
roster_rows slug rows =
    map (λ m. (m.handle, m.role)) (keep (λ (m : Member). m.org == slug && is_active m.status) rows)

-- The owner, who has no row, and the active members: handles with roles.
unfoldable pub list_members :
    Call → Text → Text → Text → Exec Orgs (List (Text × Text) × Option Text)
list_members c slug limit cursor = do
  org ← load slug
  role ← gets (role_in slug c.caller)
  require (is_some role) (not_found (codes "org"))
  rows ← gets (λ (o : Orgs). values o.members)
  reply_page ((org.owner, codes "owner") ∷ roster_rows slug rows) cursor limit

abbrev pub invite_rows : Text → List Member → List (Text × Text × ℕ)
invite_rows slug rows =
    map (λ m. (m.handle, m.role, m.invite_exp))
      (keep (λ (m : Member). m.org == slug && is_pending m.status) rows)

-- Never the secret's hash.
unfoldable pub list_invitations :
    Call → Text → Text → Text → Exec Orgs (List (Text × Text × ℕ) × Option Text)
list_invitations c slug limit cursor = do
  org ← manage manager_roles c slug
  rows ← gets (λ (o : Orgs). values o.members)
  reply_page (invite_rows slug rows) cursor limit
