-- ===== src/Domains/Rbac/Lists.antt =====
-- The introspection routes of domains/rbac.py, over the paginate part: a caller lists what is theirs,
-- and an admin anything.
use gutencode_test.Prelude.{
  Bool, not, ◌&&◌, ◌||◌, Option, List, Text, codes, Text-Eq, ◌==◌, keep, if◌then◌else◌,
}
use gutencode_test.Core.Problem.{invalid}
use gutencode_test.Core.Exec.{Exec, pure, gets, require, ◌>>=◌, ◌>>◌}
use gutencode_test.Core.Table.{get, values}
use gutencode_test.Core.Access.{roles_or_empty}
use gutencode_test.Parts.WellFormed.{require_well_formed}
use gutencode_test.Parts.Paginate.Reply.{reply_page}
use gutencode_test.Domains.Rbac.{Relation, Decided, Rbac, Call, is_falsy, require_admin}

unfoldable pub list_roles : Call → Text → Text → Text → Exec Rbac (List Text × Option Text)
list_roles c subject limit cursor = do
  let target = if is_falsy subject then c.caller else subject
  if target == c.caller then pure tt else require_admin c (codes "list-roles")
  require_well_formed target (codes "subject")
  cur ← gets (λ (r : Rbac). get target r.roles)
  reply_page (roles_or_empty cur) cursor limit

abbrev pub matches : Text → Text → Relation → Bool
matches subject object t =
    (is_falsy subject || t.subject == subject) && (is_falsy object || t.object == object)

abbrev pub well_formed_if_given : Text → Text → Exec Rbac (Unit {0})
well_formed_if_given value what = if is_falsy value then pure tt else require_well_formed value what

unfoldable pub list_relations :
    Call → Text → Text → Text → Text → Exec Rbac (List Relation × Option Text)
list_relations c subject object limit cursor = do
  let self_ok = not (is_falsy subject) && subject == c.caller && is_falsy object
  if self_ok then pure tt else require_admin c (codes "list-relations")
  well_formed_if_given subject (codes "subject")
  well_formed_if_given object (codes "object")
  require (not (is_falsy subject) || not (is_falsy object))
      (invalid (codes "a subject or object filter is required"))
  rows ← gets (λ (r : Rbac). values r.relations)
  reply_page (keep (matches subject object) rows) cursor limit

abbrev pub decided_by : Text → Decided → Bool
decided_by subject d = is_falsy subject || d.subject == subject

unfoldable pub list_decisions : Call → Text → Text → Text → Exec Rbac (List Decided × Option Text)
list_decisions c subject limit cursor = do
  require_admin c (codes "list-decisions")
  rows ← gets (λ (r : Rbac). values r.decisions)
  well_formed_if_given subject (codes "subject")
  reply_page (keep (decided_by subject) rows) cursor limit
