-- ===== src/Domains/Orgs/Members.antt =====
-- The membership routes of domains/orgs/router.py: an invitation is pending until the invited caller
-- accepts it with its token.
use gutencode_test.Prelude.{
  ℕ, ◌+◌, Bool, true, false, not, ◌&&◌, Option, none, some, [], ◌∷◌, Text, codes, Text-Eq, ◌==◌,
  elem, leb, if◌then◌else◌,
}
use gutencode_test.Core.Problem.{Problem, not_found, invalid, conflict, forbidden, gone}
use gutencode_test.Core.Exec.{Exec, pure, raise, gets, atomically, require, ◌>>=◌, ◌>>◌}
use gutencode_test.Core.Table.{get, put, delete, do_}
use gutencode_test.Core.OrgRole.{Member, MemberStatus, pending, is_active, is_pending}
use gutencode_test.Parts.Digest.{Hash, digest_hex}
use gutencode_test.Parts.WellFormed.{is_well_formed, require_well_formed}
use gutencode_test.Parts.WellFormed.Keys.{composite}
use gutencode_test.Domains.Orgs.{
  Delivery, Orgs, Call, is_some, audit, load, role_in, manager_roles, assignable_roles, manage,
  tombstone,
}

-- The row of a new or still pending member, with a fresh single-use secret.
unfoldable pub invitation : Text → Text → Text → Text → ℕ → Member
invitation slug handle role secret_hash exp = record {
  org = slug;
  handle = handle;
  role = role;
  status = pending;
  secret_hash = secret_hash;
  invite_exp = exp;
}

-- The status that the upsert settles on.
unfoldable pub upsert_fn :
    Text → Text → Text → Text → ℕ → Option Member → Option Member × MemberStatus
upsert_fn slug handle role secret_hash exp none =
    (some (invitation slug handle role secret_hash exp), pending)
upsert_fn slug handle role secret_hash exp (some cur) =
    if is_active cur.status
    then (some (record cur { role = role }), MemberStatus.active)
    else (some (invitation slug handle role secret_hash exp), pending)

unfoldable pub upsert : Text → Text → Text → Text → ℕ → Orgs → MemberStatus × Orgs
upsert slug handle role secret_hash exp o =
    let (status, members) =
      do_ (composite slug handle) (upsert_fn slug handle role secret_hash exp) o.members in
    (status, record o { members = members })

unfoldable pub deliver_invite : Text → Text → Text → Orgs → Unit {0} × Orgs
deliver_invite slug handle token o =
    let row : Delivery = record { to = handle; token = token; org = slug } in
    (tt, record o { outbox = put (composite slug handle) row o.outbox })

unfoldable pub announce : Call → Text → Text → Text → MemberStatus → Exec Orgs (Unit {0})
announce c slug handle token pending = do
  atomically (deliver_invite slug handle token)
  audit c (codes "invite") handle slug (codes "ok") (codes "pending")
announce c slug handle token MemberStatus.active =
    audit c (codes "add-member") handle slug (codes "grant") (codes "ok")
announce c slug handle token MemberStatus.removed =
    audit c (codes "add-member") handle slug (codes "grant") (codes "ok")

unfoldable pub deny_role {ℓ} : {A : Type ℓ} → Call → Text → Text → Exec Orgs A
deny_role c slug handle = do
  audit c (codes "add-member") handle slug (codes "deny") (codes "role-not-assignable")
  raise (forbidden (codes "role must be 'admin' or 'member' (ownership transfers only)"))

abbrev pub is_some_text : Text → Bool
is_some_text [] = false
is_some_text (c ∷ cs) = true

pub data Outcome : Type 0 where
  missing expired badtoken accepted : Outcome

abbrev pub role_or_empty : Option Member → Text
role_or_empty none = []
role_or_empty (some m) = m.role

unfoldable pub deny_accept {ℓ} : {A : Type ℓ} → Call → Text → Text → Problem → Exec Orgs A
deny_accept c slug reason problem = do
  audit c (codes "accept") c.caller slug (codes "deny") reason
  raise problem

-- The reply's role is read again.
unfoldable pub settle : Call → Text → Outcome → Exec Orgs Text
settle c slug missing =
    deny_accept c slug (codes "no-pending-invite") (not_found (codes "invitation"))
settle c slug expired =
    deny_accept c slug (codes "invite-expired") (gone (codes "invitation expired"))
settle c slug badtoken =
    deny_accept c slug (codes "invalid-token") (forbidden (codes "invalid invitation token"))
settle c slug accepted = do
  audit c (codes "accept") c.caller slug (codes "accept") (codes "ok")
  row ← gets (λ (o : Orgs). get (composite slug c.caller) o.members)
  pure (role_or_empty row)

module _ (h : Hash) where
  unfoldable pub invite : Call → Text → Text → Text → Text → Exec Orgs MemberStatus
  invite c slug handle role token = do
    status ← atomically (upsert slug handle role (digest_hex h (token ∷ [])) (c.now + c.invite_ttl))
    announce c slug handle token status
    pure status

  unfoldable pub add_member : Call → Text → Text → Text → Text → Exec Orgs MemberStatus
  add_member c slug handle role token = do
    org ← manage manager_roles c slug
    require (is_well_formed handle && is_well_formed role) (invalid (codes "invalid body"))
    if elem role assignable_roles then invite c slug handle role token else deny_role c slug handle

  unfoldable pub consume_fn : Text → Text → Text → ℕ → Option Member → Option Member × Outcome
  consume_fn slug caller token now none = (none, missing)
  consume_fn slug caller token now (some cur) =
      let joined : Member = record {
        org = slug;
        handle = caller;
        role = cur.role;
        status = MemberStatus.active;
        secret_hash = [];
        invite_exp = 0;
      } in
      if not (is_pending cur.status)
      then (none, missing)
      else if leb cur.invite_exp now
      then (none, expired)
      else if is_some_text cur.secret_hash && digest_hex h (token ∷ []) == cur.secret_hash
      then (some joined, accepted)
      else (none, badtoken)

  unfoldable pub consume : Text → Text → Text → ℕ → Orgs → Outcome × Orgs
  consume slug caller token now o =
      let (out, members) =
        do_ (composite slug caller) (consume_fn slug caller token now) o.members in
      (out, record o { members = members })

  unfoldable pub accept : Call → Text → Text → Exec Orgs Text
  accept c slug token = do
    require (is_well_formed token) (invalid (codes "invalid body"))
    org ← load slug
    out ← atomically (consume slug c.caller token c.now)
    settle c slug out

unfoldable pub keep_owner {ℓ} : {A : Type ℓ} → Call → Text → Text → Exec Orgs A
keep_owner c slug handle = do
  audit c (codes "remove-member") handle slug (codes "deny") (codes "owner-not-removable")
  raise (forbidden (codes "the owner cannot be removed (transfer ownership first)"))

unfoldable pub remove : Call → Text → Text → Exec Orgs (Unit {0})
remove c slug handle = do
  atomically (tombstone slug handle)
  audit c (codes "remove-member") handle slug (codes "remove") (codes "ok")

unfoldable pub remove_member : Call → Text → Text → Exec Orgs (Unit {0})
remove_member c slug handle = do
  org ← manage manager_roles c slug
  require_well_formed handle (codes "the member handle")
  if handle == org.owner then keep_owner c slug handle else remove c slug handle

unfoldable pub delete_member : Text → Text → Orgs → Unit {0} × Orgs
delete_member slug handle o = (tt, record o { members = delete (composite slug handle) o.members })

unfoldable pub stay_owner {ℓ} : {A : Type ℓ} → Call → Text → Exec Orgs A
stay_owner c slug = do
  audit c (codes "leave") c.caller slug (codes "deny") (codes "owner-cannot-leave")
  raise (conflict (codes "the owner cannot leave (transfer ownership first)"))

unfoldable pub go : Call → Text → Exec Orgs (Unit {0})
go c slug = do
  atomically (delete_member slug c.caller)
  audit c (codes "leave") c.caller slug (codes "leave") (codes "ok")

unfoldable pub leave : Call → Text → Exec Orgs (Unit {0})
leave c slug = do
  org ← load slug
  role ← gets (role_in slug c.caller)
  require (is_some role) (not_found (codes "org"))
  if c.caller == org.owner then stay_owner c slug else go c slug
