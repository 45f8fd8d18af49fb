-- ===== src/Core/OrgRole.antt =====
-- core/errors.py: a subject's role in an organization, read from the namespaces "orgs_records" (by slug)
-- and "orgs_members" (by <slug>\x1f<handle>). A member's record that has no secret_hash or no invite_exp
-- has the empty text or 0 here, as the code's get defaults treat it.
use gutencode_test.Prelude.{
  ℕ, Bool, true, false, Option, none, some, Text, codes, Text-Eq, ◌==◌, if◌then◌else◌,
}
use gutencode_test.Core.Table.{Table, get}
use gutencode_test.Parts.WellFormed.Keys.{composite}

pub data OrgStatus : Type 0 where
  active archived : OrgStatus

pub record Org : Type 0 where
  pub id : ℕ
  pub slug : Text
  pub owner : Text
  pub status : OrgStatus

pub data MemberStatus : Type 0 where
  pending active removed : MemberStatus

pub record Member : Type 0 where
  pub org : Text
  pub handle : Text
  pub role : Text
  pub status : MemberStatus
  pub secret_hash : Text
  pub invite_exp : ℕ

abbrev pub is_active : MemberStatus → Bool
is_active pending = false
is_active MemberStatus.active = true
is_active removed = false

abbrev pub is_pending : MemberStatus → Bool
is_pending pending = true
is_pending MemberStatus.active = false
is_pending removed = false

-- A membership row never confers ownership.
unfoldable pub member_role : Option Member → Option Text
member_role none = none
member_role (some m) =
    if is_active m.status then if m.role == codes "owner" then none else some m.role else none

unfoldable pub role_of : Option Org → Option Text → Text → Option Text
role_of none as_member subject = as_member
role_of (some rec) as_member subject =
    if rec.owner == subject then some (codes "owner") else as_member

unfoldable pub org_role : Table Text Org → Table Text Member → Text → Text → Option Text
unfolding role_of member_role
org_role records members org subject =
    role_of (get org records) (member_role (get (composite org subject) members)) subject
