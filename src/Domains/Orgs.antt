-- ===== src/Domains/Orgs.antt =====
-- domains/orgs/router.py: organizations, their members and their invitations. The state is the namespaces
-- "orgs_records", "orgs_members", "orgs_outbox", "orgs_decisions" (keyed by the id, str(id) being one to
-- one) and "_throttle", and the counters "orgs_org" and "orgs_decision". A `Call` holds the authenticated
-- caller, the clock's one reading, APP_ORGS_AUDIT stripped and in lower case, and the environment's
-- numbers. A minted token comes as an argument.
pub mod Members
pub mod Lists
pub mod Requests
pub mod Writes
pub mod Owner
pub mod Invited
pub mod Outsider
use gutencode_test.Prelude.{
  ℕ, Bool, true, false, Option, none, some, List, [], ◌∷◌, ◌++◌, Text, codes, Text-Eq, ℕ-Eq, ◌==◌,
  elem, if◌then◌else◌,
}
use gutencode_test.Core.Problem.{not_found, invalid, conflict, forbidden}
use gutencode_test.Core.Exec.{Exec, pure, raise, gets, atomically, or_raise, require, ◌>>=◌, ◌>>◌}
use gutencode_test.Core.Table.{Table, get, put, do_, next_id}
use gutencode_test.Core.Throttle.{Window, throttle}
use gutencode_test.Core.OrgRole.{
  Org, OrgStatus, active, archived, Member, MemberStatus, removed, org_role,
}
use gutencode_test.Parts.Claim.{claim_once}
use gutencode_test.Parts.WellFormed.{is_well_formed, require_well_formed}
use gutencode_test.Parts.WellFormed.Keys.{composite}

pub record Decided : Type 0 where
  pub id : ℕ
  pub subject : Text
  pub kind : Text
  pub target : Text
  pub org : Text
  pub result : Text
  pub reason : Text
  pub ts : ℕ

-- The kind is "org-invite" in every row.
pub record Delivery : Type 0 where
  pub to : Text
  pub token : Text
  pub org : Text

pub record Orgs : Type 0 where
  pub records : Table Text Org
  pub members : Table Text Member
  pub outbox : Table Text Delivery
  pub decisions : Table ℕ Decided
  pub throttles : Table Text Window
  pub last_org : ℕ
  pub last_decision : ℕ

pub record Call : Type 0 where
  pub caller : Text
  pub now : ℕ
  pub mode : Text
  pub deny_limit : ℕ
  pub deny_window : ℕ
  pub invite_ttl : ℕ

abbrev pub is_none {ℓ} : {A : Type ℓ} → Option A → Bool
is_none none = true
is_none (some a) = false

abbrev pub is_some {ℓ} : {A : Type ℓ} → Option A → Bool
is_some none = false
is_some (some a) = true

unfoldable pub log_decision : Call → Text → Text → Text → Text → Text → Orgs → Unit {0} × Orgs
log_decision c kind target org result reason o =
    let (rid, last) = next_id o.last_decision in
    let row : Decided = record {
      id = rid;
      subject = c.caller;
      kind = kind;
      target = target;
      org = org;
      result = result;
      reason = reason;
      ts = c.now;
    } in
    (tt, record o { decisions = put rid row o.decisions; last_decision = last })

-- f"orgs:deny-audit:{org}\x1f{subject}"
unfoldable pub spend : Call → Text → Orgs → Bool × Orgs
spend c org o =
    let (allowed, t) =
      throttle (codes "orgs:deny-audit:" ++ composite org c.caller) c.deny_limit c.deny_window c.now
        o.throttles in
    (allowed, record o { throttles = t })

-- A denial is logged within the budget of its organization and subject.
unfoldable pub audit_denial : Call → Text → Text → Text → Text → Exec Orgs (Unit {0})
audit_denial c kind target org reason = do
  allowed ← atomically (spend c org)
  if allowed then atomically (log_decision c kind target org (codes "deny") reason) else pure tt

-- Every other mode than "off" and "all" is "deny", and "all" logs no more.
unfoldable pub audit : Call → Text → Text → Text → Text → Text → Exec Orgs (Unit {0})
audit c kind target org result reason =
    if c.mode == codes "off"
    then pure tt
    else if result == codes "deny"
    then audit_denial c kind target org reason
    else atomically (log_decision c kind target org result reason)

unfoldable pub load : Text → Exec Orgs Org
load slug = do
  require_well_formed slug (codes "the slug")
  found ← gets (λ (o : Orgs). get slug o.records)
  or_raise found (not_found (codes "org"))

abbrev pub role_in : Text → Text → Orgs → Option Text
role_in slug subject o = org_role o.records o.members slug subject

abbrev pub has_role : Option Text → List Text → Bool
has_role none allowed = false
has_role (some role) allowed = elem role allowed

abbrev pub manager_roles : List Text
manager_roles = codes "owner" ∷ codes "admin" ∷ []

abbrev pub assignable_roles : List Text
assignable_roles = codes "admin" ∷ codes "member" ∷ []

unfoldable pub deny_manager {ℓ} : {A : Type ℓ} → Call → Text → Exec Orgs A
deny_manager c slug = do
  audit c (codes "manage") [] slug (codes "deny") (codes "not-a-manager")
  raise (forbidden (codes "this operation requires an org owner or admin"))

-- _manage_dep: the organization is loaded, and the caller's role in it is one of those allowed.
unfoldable pub manage : List Text → Call → Text → Exec Orgs Org
manage allowed c slug = do
  org ← load slug
  role ← gets (role_in slug c.caller)
  if has_role role allowed then pure org else deny_manager c slug

-- The mint, then the claim of the slug: the new record and the settled one.
unfoldable pub mint_and_claim : Text → Text → Orgs → (Org × Org) × Orgs
mint_and_claim slug owner o =
    let (oid, last) = next_id o.last_org in
    let rec : Org = record { id = oid; slug = slug; owner = owner; status = OrgStatus.active } in
    let (settled, records) = claim_once slug rec o.records in
    ((rec, settled), record o { records = records; last_org = last })

unfoldable pub create : Call → Text → Exec Orgs Org
create c slug = do
  require (is_well_formed slug) (invalid (codes "invalid body"))
  taken ← gets (λ (o : Orgs). get slug o.records)
  require (is_none taken) (conflict (codes "slug taken"))
  both ← atomically (mint_and_claim slug c.caller)
  require (both.1.id == both.0.id) (conflict (codes "slug taken"))
  audit c (codes "create") slug slug (codes "create") (codes "ok")
  pure both.1

unfoldable pub get_org : Call → Text → Exec Orgs Org
get_org c slug = do
  org ← load slug
  role ← gets (role_in slug c.caller)
  require (is_some role) (not_found (codes "org"))
  pure org

-- The swap asserts again, in the lock, that the caller is the owner.
unfoldable pub swap_fn : Text → Text → Option Org → Option Org × Option Org
swap_fn caller new_owner none = (none, none)
swap_fn caller new_owner (some cur) =
    let moved = record cur { owner = new_owner } in
    if cur.owner == caller then (some moved, some moved) else (none, none)

unfoldable pub swap : Text → Text → Text → Orgs → Option Org × Orgs
swap slug caller new_owner o =
    let (moved, records) = do_ slug (swap_fn caller new_owner) o.records in
    (moved, record o { records = records })

unfoldable pub tombstone_fn : Option Member → Option Member × Unit {0}
tombstone_fn none = (none, tt)
tombstone_fn (some cur) = (some (record cur { status = removed }), tt)

unfoldable pub tombstone : Text → Text → Orgs → Unit {0} × Orgs
tombstone slug handle o =
    let (done, members) = do_ (composite slug handle) tombstone_fn o.members in
    (done, record o { members = members })

unfoldable pub admin_fn : Text → Text → Option Member → Option Member × Unit {0}
admin_fn slug caller cur = (
  some (record {
    org = slug;
    handle = caller;
    role = codes "admin";
    status = MemberStatus.active;
    secret_hash = [];
    invite_exp = 0;
  }),
  tt,
)

unfoldable pub make_admin : Text → Text → Orgs → Unit {0} × Orgs
make_admin slug caller o =
    let (done, members) = do_ (composite slug caller) (admin_fn slug caller) o.members in
    (done, record o { members = members })

-- A lost swap raises; after a swap the new owner's row is ended, and the old owner becomes an admin.
unfoldable pub finish_transfer : Call → Text → Text → Option Org → Exec Orgs Org
finish_transfer c slug new_owner swapped = do
  transferred ← or_raise swapped (conflict (codes "ownership changed concurrently"))
  atomically (tombstone slug new_owner)
  if new_owner == c.caller then pure tt else atomically (make_admin slug c.caller)
  audit c (codes "transfer") new_owner slug (codes "transfer") (codes "ok")
  pure transferred

unfoldable pub transfer : Call → Text → Text → Exec Orgs Org
transfer c slug new_owner = do
  org ← manage (codes "owner" ∷ []) c slug
  require (is_well_formed new_owner) (invalid (codes "invalid body"))
  swapped ← atomically (swap slug c.caller new_owner)
  finish_transfer c slug new_owner swapped

unfoldable pub archive_fn : Option Org → Option Org × Option Org
archive_fn none = (none, none)
archive_fn (some cur) = let ended = record cur { status = archived } in (some ended, some ended)

unfoldable pub put_archived : Text → Orgs → Option Org × Orgs
put_archived slug o =
    let (ended, records) = do_ slug archive_fn o.records in (ended, record o { records = records })

unfoldable pub archive : Call → Text → Exec Orgs Org
archive c slug = do
  org ← manage manager_roles c slug
  ended ← atomically (put_archived slug)
  rec ← or_raise ended (not_found (codes "org"))
  audit c (codes "archive") slug slug (codes "archive") (codes "ok")
  pure rec
