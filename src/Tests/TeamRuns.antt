-- ===== src/Tests/TeamRuns.antt =====
-- Teams: a run of requests of a manager and a stranger.
use gutencode_test.Prelude.{
  ◌≤◌, ◌≡◌, refl, Option, List, [], ◌∷◌, Text, codes, text_eq, text_lt, length, Text-Eq, ℕ-Eq,
}
use gutencode_test.Core.Table.{Table, get, put, next_id}
use gutencode_test.Core.Exec.{◌>>=◌}
use gutencode_test.Core.OrgRole.{Org, OrgStatus, org_role, role_of, member_role}
use gutencode_test.Parts.WellFormed.{is_well_formed}
use gutencode_test.Parts.WellFormed.Keys.{composite}
use gutencode_test.Domains.Teams
use gutencode_test.Domains.Teams.{
  TeamMember, Team, Call, load, manage, insert, put_members, upsert, insert_member, sort_members,
}
use gutencode_test.Domains.Teams.Sorted.{roles_of}
use gutencode_test.Domains.Teams.Requests.{Request, step, serve}
use gutencode_test.Domains.Teams.Members.{no_teams, effect, Becomes, members_are_a_map}

abbrev ann : Text
ann = codes "ann"

abbrev zoe : Text
zoe = codes "zoe"

abbrev acme : Text
acme = codes "acme"

-- Ann owns the organization, and nobody else is in it.
abbrev acme_orgs : Table Text Org
acme_orgs = (acme, record { id = 1; slug = acme; owner = ann; status = OrgStatus.active }) ∷ []

abbrev call_of : Text → Call
call_of caller = record { caller = caller; orgs = acme_orgs; memberships = [] }

abbrev run : List (Call × Request)
run =
    (call_of ann, Request.create acme (codes "core"))
    ∷ (call_of ann, Request.add_member 1 zoe (codes "lead"))
    ∷ (call_of ann, Request.add_member 1 ann (codes "dev"))
    ∷ (call_of zoe, Request.remove_member 1 ann)
    ∷ (call_of ann, Request.add_member 1 zoe (codes "dev"))
    ∷ []

abbrev core_team : Team
core_team = record {
  id = 1;
  org = acme;
  name = codes "core";
  members =
      record { handle = ann; role = codes "dev" }
      ∷ record { handle = zoe; role = codes "dev" }
      ∷ [];
}

run-core_team : get 1 (serve run no_teams).records ≡ Option.some core_team
unfolding serve step Teams.create Teams.add_member Teams.remove_member load manage insert
    put_members upsert insert_member sort_members get put next_id org_role role_of member_role
    composite is_well_formed text_eq text_lt codes ◌>>=◌
run-core_team = refl

members_are_a_map_example :
    ((h : Text) → length (roles_of h core_team.members) ≤ 1)
    × Becomes 1 core_team
        (λ h.
          effect
            (call_of ann)
            (Request.remove_member 1 zoe)
            1
            core_team
            h
            (roles_of h core_team.members))
        (step (call_of ann) (Request.remove_member 1 zoe) (serve run no_teams))
members_are_a_map_example =
    members_are_a_map run (call_of ann) (Request.remove_member 1 zoe) 1 core_team run-core_team
