-- ===== src/Tests/AccessRuns.antt =====
-- Roles and relations.
use gutencode_test.Prelude.{
  ◌≡◌, ◌≢◌, refl, arith, false, not, ◌&&◌, ◌||◌, List, [], ◌∷◌, Text, Text-Eq, ◌==◌, text_eq, codes,
}
use gutencode_test.Core.Exec.{ok}
use gutencode_test.Core.Table.{get}
use gutencode_test.Core.Access.{is_admin}
use gutencode_test.Parts.WellFormed.{is_well_formed}
use gutencode_test.Domains.Rbac
use gutencode_test.Domains.Rbac.{Rbac, is_some, rel_key, role_perms}
use gutencode_test.Domains.Rbac.Lists
use gutencode_test.Domains.Rbac.Requests.{Request, serve}
use gutencode_test.Domains.Rbac.Effects.{permits}
use gutencode_test.Domains.Rbac.Assigned.{holds, no_escalation, roles_are_a_relation}
use gutencode_test.Domains.Rbac.Tuples.{member, check_is_membership}
use gutencode_test.Domains.Rbac.Refused.{Denied, refused_is_logged}

abbrev alice : Text
alice = codes "alice"

abbrev bob : Text
bob = codes "bob"

abbrev by : Text → Rbac.Call
by caller = record { seam = false; mode = codes "deny"; caller = caller; now = 5 }

-- Bob is the one admin.
abbrev one_admin : Rbac
one_admin = record {
  roles = (bob, codes "admin" ∷ []) ∷ [];
  relations = [];
  decisions = [];
  last_id = 0;
}

alice-stranger : is_admin false one_admin.roles alice ≡ false
unfolding is_admin get text_eq codes
alice-stranger = refl

abbrev attempts : List (Rbac.Call × Request)
attempts =
    (by alice, Request.assign alice (codes "admin"))
    ∷ (by alice, Request.grant alice (codes "owner") (codes "doc"))
    ∷ []

no_escalation_example :
    ((serve attempts one_admin).roles ≡ one_admin.roles)
    × ((serve attempts one_admin).relations ≡ one_admin.relations)
no_escalation_example = no_escalation attempts one_admin (alice-stranger, (alice-stranger, tt))

roles_are_a_relation_example :
    let may =
      permits (by bob) (is_well_formed alice && is_well_formed (codes "viewer")) one_admin in
    let pair = alice == alice && codes "viewer" == codes "viewer" in
    (holds (codes "viewer") alice (Rbac.assign (by bob) alice (codes "viewer") one_admin).1 ≡ (
      holds (codes "viewer") alice one_admin
      || (may && is_some (role_perms (codes "viewer")) && pair)))
    × (holds (codes "viewer") alice (Rbac.revoke_role (by bob) alice (codes "viewer") one_admin).1
        ≡ (holds (codes "viewer") alice one_admin && not (may && pair)))
roles_are_a_relation_example =
    roles_are_a_relation (by bob) alice (codes "viewer") (codes "viewer") alice one_admin

abbrev grants : List (Rbac.Call × Request)
grants =
    (by bob, Request.grant alice (codes "owner") (codes "doc"))
    ∷ (by bob, Request.revoke_relation bob (codes "owner") (codes "doc"))
    ∷ []

check_is_membership_example :
    (Rbac.check (by alice) (codes "owner") (codes "doc") (serve grants one_admin)).0
    ≡ ok (
        member alice
          (codes "owner")
          (codes "doc")
          grants
          one_admin
          (is_some (get (rel_key alice (codes "owner") (codes "doc")) one_admin.relations)))
check_is_membership_example =
    check_is_membership grants one_admin (by alice) (codes "owner") (codes "doc")
      (unfold is_well_formed codes in refl)

deny-ne-off : codes "deny" ≢ codes "off"
unfolding codes
deny-ne-off e = ground arith

refused_is_logged_example :
    Denied (by alice) (codes "assign") one_admin (Rbac.assign (by alice) alice (codes "admin"))
    × Denied
        (by alice)
        (codes "revoke-role")
        one_admin
        (Rbac.revoke_role (by alice) alice (codes "admin"))
    × Denied
        (by alice)
        (codes "grant")
        one_admin
        (Rbac.grant (by alice) alice (codes "owner") (codes "doc"))
    × Denied
        (by alice)
        (codes "revoke-relation")
        one_admin
        (Rbac.revoke_relation (by alice) alice (codes "owner") (codes "doc"))
    × Denied
        (by alice)
        (codes "list-decisions")
        one_admin
        (Lists.list_decisions (by alice) alice [] [])
refused_is_logged_example =
    refused_is_logged (by alice) one_admin alice (codes "admin") (codes "owner") (codes "doc") [] []
      deny-ne-off alice-stranger
