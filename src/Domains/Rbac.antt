-- ===== src/Domains/Rbac.antt =====
-- domains/rbac.py: roles over a fixed policy, and relation tuples that match exactly. The state is the
-- namespaces "rbac_roles", "rbac_rel" and "rbac_decisions", and the counter "rbac_decision" (its rows are
-- keyed by the id, str(id) being one to one). `seam` is the test seam of core/errors.py, `mode` the value
-- of APP_RBAC_AUDIT stripped and in lower case; the clock's reading is `now`.
pub mod Lists
pub mod Effects
pub mod Requests
pub mod Refused
pub mod Tuples
pub mod Assigned
use gutencode_test.Prelude.{
  ℕ, Bool, true, false, not, ◌&&◌, ◌||◌, Option, none, some, List, [], ◌∷◌, ◌++◌, Text, codes,
  Text-Eq, ℕ-Eq, ◌==◌, elem, keep, if◌then◌else◌,
}
use gutencode_test.Core.Problem.{invalid, forbidden}
use gutencode_test.Core.Exec.{Exec, pure, raise, gets, atomically, require, ◌>>=◌, ◌>>◌}
use gutencode_test.Core.Table.{Table, get, put, delete, do_, values, next_id}
use gutencode_test.Core.Access.{Roles, roles_or_empty, is_admin}
use gutencode_test.Parts.WellFormed.{is_well_formed, require_well_formed}
use gutencode_test.Parts.Paginate.{Page, paginate}

pub record Relation : Type 0 where
  pub subject : Text
  pub relation : Text
  pub object : Text

pub record Decided : Type 0 where
  pub id : ℕ
  pub subject : Text
  pub kind : Text
  pub action : Text
  pub object : Text
  pub result : Text
  pub reason : Text
  pub ts : ℕ

pub record Rbac : Type 0 where
  pub roles : Roles
  pub relations : Table Text Relation
  pub decisions : Table ℕ Decided
  pub last_id : ℕ

-- _ROLE_PERMS
unfoldable pub role_perms : Text → Option (List Text)
role_perms role =
    if role == codes "admin"
    then some (codes "read" ∷ codes "write" ∷ codes "delete" ∷ [])
    else if role == codes "editor"
    then some (codes "read" ∷ codes "write" ∷ [])
    else if role == codes "viewer"
    then some (codes "read" ∷ [])
    else none

abbrev pub is_some {ℓ} : {A : Type ℓ} → Option A → Bool
is_some none = false
is_some (some a) = true

-- "\x1f".join((subject, relation, object))
unfoldable pub rel_key : Text → Text → Text → Text
rel_key subject relation object = subject ++ (31 ∷ (relation ++ (31 ∷ object)))

abbrev pub is_falsy : Text → Bool
is_falsy [] = true
is_falsy (c ∷ cs) = false

-- An unknown mode is "deny".
unfoldable pub is_audited : Text → Text → Bool
is_audited mode result =
    not (mode == codes "off") && (mode == codes "all" || result == codes "deny")

unfoldable pub log_decision : ℕ → Text → Text → Text → Text → Text → Text → Rbac → Unit {0} × Rbac
log_decision now subject kind action object result reason r =
    let (rid, last) = next_id r.last_id in
    let row : Decided = record {
      id = rid;
      subject = subject;
      kind = kind;
      action = action;
      object = object;
      result = result;
      reason = reason;
      ts = now;
    } in
    (tt, record r { decisions = put rid row r.decisions; last_id = last })

-- The field `caller` is the authenticated subject, `now` the clock's reading.
pub record Call : Type 0 where
  pub seam : Bool
  pub mode : Text
  pub caller : Text
  pub now : ℕ

unfoldable pub audit : Call → Text → Text → Text → Text → Text → Exec Rbac (Unit {0})
audit c kind action object result reason =
    if is_audited c.mode result
    then atomically (log_decision c.now c.caller kind action object result reason)
    else pure tt

unfoldable pub refuse : Call → Text → Exec Rbac (Unit {0})
refuse c kind = do
  audit c kind [] [] (codes "deny") (codes "not-admin")
  raise (forbidden (codes "rbac administration requires the admin role"))

-- _admin_dep and _require_admin: a denied attempt is audited, then refused.
unfoldable pub require_admin : Call → Text → Exec Rbac (Unit {0})
require_admin c kind = do
  admin ← gets (λ (r : Rbac). is_admin c.seam r.roles c.caller)
  if admin then pure tt else refuse c kind

unfoldable pub assign_fn : Text → Option (List Text) → Option (List Text) × Unit {0}
assign_fn role cur =
    if elem role (roles_or_empty cur)
    then (none, tt)
    else (some (roles_or_empty cur ++ (role ∷ [])), tt)

unfoldable pub append_role : Text → Text → Rbac → Unit {0} × Rbac
append_role subject role r =
    let (done, roles) = do_ subject (assign_fn role) r.roles in (done, record r { roles = roles })

unfoldable pub assign_known : Call → Text → Text → Exec Rbac Bool
assign_known c subject role = do
  atomically (append_role subject role)
  audit c (codes "assign") role subject (codes "grant") (codes "ok")
  pure true

unfoldable pub assign_unknown : Call → Text → Text → Exec Rbac Bool
assign_unknown c subject role = do
  audit c (codes "assign") role subject (codes "deny") (codes "unknown-role")
  pure false

unfoldable pub assign : Call → Text → Text → Exec Rbac Bool
assign c subject role = do
  require_admin c (codes "assign")
  require (is_well_formed subject && is_well_formed role) (invalid (codes "invalid body"))
  if is_some (role_perms role) then assign_known c subject role else assign_unknown c subject role

abbrev pub perms_or_empty : Option (List Text) → List Text
perms_or_empty none = []
perms_or_empty (some perms) = perms

-- The union of what the roles grant.
unfoldable pub granted : List Text → List Text
granted [] = []
granted (role ∷ roles) = perms_or_empty (role_perms role) ++ granted roles

unfoldable pub can : Call → Text → Exec Rbac Bool
can c permission = do
  require_well_formed permission (codes "permission")
  cur ← gets (λ (r : Rbac). get c.caller r.roles)
  let allowed = elem permission (granted (roles_or_empty cur))
  audit c (codes "can") permission [] (if allowed then codes "allow" else codes "deny")
      (if allowed then codes "role-union" else codes "deny-by-default")
  pure allowed

unfoldable pub put_relation : Text → Text → Text → Rbac → Unit {0} × Rbac
put_relation subject relation object r =
    let row : Relation = record { subject = subject; relation = relation; object = object } in
    (tt, record r { relations = put (rel_key subject relation object) row r.relations })

unfoldable pub grant : Call → Text → Text → Text → Exec Rbac Bool
grant c subject relation object = do
  require_admin c (codes "grant")
  require (is_well_formed subject && is_well_formed relation && is_well_formed object)
      (invalid (codes "invalid body"))
  atomically (put_relation subject relation object)
  audit c (codes "grant") relation subject (codes "grant") (codes "ok")
  pure true

unfoldable pub check : Call → Text → Text → Exec Rbac Bool
check c relation object = do
  require_well_formed relation (codes "relation")
  require_well_formed object (codes "object")
  row ← gets (λ (r : Rbac). get (rel_key c.caller relation object) r.relations)
  let allowed = is_some row
  audit c (codes "check") relation object (if allowed then codes "allow" else codes "deny")
      (if allowed then codes "tuple-match" else codes "deny-by-default")
  pure allowed

unfoldable pub revoke_fn : Text → Option (List Text) → Option (List Text) × Bool
revoke_fn role cur =
    if elem role (roles_or_empty cur)
    then (some (keep (λ r. not (r == role)) (roles_or_empty cur)), true)
    else (none, false)

unfoldable pub remove_role : Text → Text → Rbac → Bool × Rbac
remove_role subject role r =
    let (removed, roles) = do_ subject (revoke_fn role) r.roles in
    (removed, record r { roles = roles })

unfoldable pub revoke_role : Call → Text → Text → Exec Rbac Bool
revoke_role c subject role = do
  require_admin c (codes "revoke-role")
  require (is_well_formed subject && is_well_formed role) (invalid (codes "invalid body"))
  removed ← atomically (remove_role subject role)
  audit c (codes "revoke-role") role subject (codes "revoke") (codes "ok")
  pure removed

unfoldable pub delete_relation : Text → Rbac → Unit {0} × Rbac
delete_relation key r = (tt, record r { relations = delete key r.relations })

unfoldable pub revoke_relation : Call → Text → Text → Text → Exec Rbac Bool
revoke_relation c subject relation object = do
  require_admin c (codes "revoke-relation")
  require (is_well_formed subject && is_well_formed relation && is_well_formed object)
      (invalid (codes "invalid body"))
  row ← gets (λ (r : Rbac). get (rel_key subject relation object) r.relations)
  atomically (delete_relation (rel_key subject relation object))
  audit c (codes "revoke-relation") relation subject (codes "revoke") (codes "ok")
  pure (is_some row)
