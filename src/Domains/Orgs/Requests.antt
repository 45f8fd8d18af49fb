-- ===== src/Domains/Orgs/Requests.antt =====
-- The requests of domains/orgs/router.py, served one after the other; and the parts of its handlers that
-- touch neither the organizations nor the members.
use gutencode_test.Prelude.{
  Bool, true, false, List, [], ◌∷◌, Text, Text-Eq, codes, ◌==◌, if◌then◌else◌,
}
use gutencode_test.Core.Problem.{Problem}
use gutencode_test.Core.Exec.{Exec, atomically}
use gutencode_test.Core.Exec.Keeps.{Keeps, Keeps-bind, Keeps-pure, Keeps-atomically, keeps_rules}
use gutencode_test.Core.Table.{Table}
use gutencode_test.Core.OrgRole.{Org, Member}
use gutencode_test.Parts.Digest.{Hash}
use gutencode_test.Parts.Paginate.Reply.{reply_page}
use gutencode_test.Domains.Orgs
use gutencode_test.Domains.Orgs.Members
use gutencode_test.Domains.Orgs.Lists
use gutencode_test.Domains.Orgs.{
  Orgs, Call, log_decision, spend, audit_denial, audit, load, deny_manager, manage,
}
use gutencode_test.Domains.Orgs.Members.{deny_role, deny_accept, keep_owner, stay_owner}

pub data Request : Type 0 where
  create get_org archive leave : Text → Request
  transfer accept remove_member : Text → Text → Request
  add_member : Text → Text → Text → Text → Request
  list_mine : Text → Text → Request
  list_members list_invitations : Text → Text → Text → Request

module _ (h : Hash) where
  unfoldable pub step : Call → Request → Orgs → Orgs
  step c (create slug) o = (Orgs.create c slug o).1
  step c (get_org slug) o = (Orgs.get_org c slug o).1
  step c (archive slug) o = (Orgs.archive c slug o).1
  step c (leave slug) o = (Members.leave c slug o).1
  step c (transfer slug new_owner) o = (Orgs.transfer c slug new_owner o).1
  step c (accept slug token) o = (Members.accept h c slug token o).1
  step c (remove_member slug handle) o = (Members.remove_member c slug handle o).1
  step c (add_member slug handle role token) o = (Members.add_member h c slug handle role token o).1
  step c (list_mine limit cursor) o = (Lists.list_mine c limit cursor o).1
  step c (list_members slug limit cursor) o = (Lists.list_members c slug limit cursor o).1
  step c (list_invitations slug limit cursor) o = (Lists.list_invitations c slug limit cursor o).1

  unfoldable pub serve : List (Call × Request) → Orgs → Orgs
  serve [] o = o
  serve ((c, request) ∷ rest) o = serve rest (step c request o)

module _ {ℓ} {S : Type 0} {A : Type ℓ} {P : S → Type 0} where
  pub Keeps-choice :
      (b : Bool) (x y : Exec S A) → Keeps P x → Keeps P y → Keeps P (if b then x else y)
  Keeps-choice true x y p q = p
  Keeps-choice false x y p q = q

-- A predicate of the organizations and the members.
module _ (P : Table Text Org → Table Text Member → Type 0) where
  abbrev pub On : Orgs → Type 0
  On o = P o.records o.members

  log-On :
      (c : Call) (kind target org result reason : Text)
      → Keeps On (atomically (log_decision c kind target org result reason))
  log-On c kind target org result reason = Keeps-atomically _ (unfold log_decision in λ s p. p)

  spend-On : (c : Call) (org : Text) → Keeps On (atomically (spend c org))
  spend-On c org = Keeps-atomically _ (unfold spend in λ s p. p)

  audit_denial-On :
      (c : Call) (kind target org reason : Text) → Keeps On (audit_denial c kind target org reason)
  unfolding audit_denial
  audit_denial-On c kind target org reason = Keeps-bind _ _ (spend-On c org) λ allowed.
      Keeps-choice allowed _ _ (log-On c kind target org (codes "deny") reason) (Keeps-pure tt)

  pub audit-On :
      (c : Call) (kind target org result reason : Text)
      → Keeps On (audit c kind target org result reason)
  unfolding audit
  audit-On c kind target org result reason =
      Keeps-choice (c.mode == codes "off") _ _ (Keeps-pure tt) (
        Keeps-choice (result == codes "deny") _ _ (audit_denial-On c kind target org reason)
          (log-On c kind target org result reason))

  module _ {ℓ} {A : Type ℓ} where
    deny_manager-On : (c : Call) (slug : Text) → Keeps On (deny_manager {A = A} c slug)
    unfolding deny_manager
    deny_manager-On c slug = search (audit-On, keeps_rules)

    pub deny_role-On : (c : Call) (slug handle : Text) → Keeps On (deny_role {A = A} c slug handle)
    unfolding deny_role
    deny_role-On c slug handle = search (audit-On, keeps_rules)

    pub deny_accept-On :
        (c : Call) (slug reason : Text) (problem : Problem)
        → Keeps On (deny_accept {A = A} c slug reason problem)
    unfolding deny_accept
    deny_accept-On c slug reason problem = search (audit-On, keeps_rules)

    pub keep_owner-On :
        (c : Call) (slug handle : Text) → Keeps On (keep_owner {A = A} c slug handle)
    unfolding keep_owner
    keep_owner-On c slug handle = search (audit-On, keeps_rules)

    pub stay_owner-On : (c : Call) (slug : Text) → Keeps On (stay_owner {A = A} c slug)
    unfolding stay_owner
    stay_owner-On c slug = search (audit-On, keeps_rules)

    reply_page-On :
        (items : List A) (cursor limit : Text) → Keeps On (reply_page items cursor limit)
    unfolding reply_page
    reply_page-On items cursor limit = search keeps_rules

  pub load-On : (slug : Text) → Keeps On (load slug)
  unfolding load
  load-On slug = search keeps_rules

  pub manage-On : (allowed : List Text) (c : Call) (slug : Text) → Keeps On (manage allowed c slug)
  unfolding manage
  manage-On allowed c slug = search (load-On, Keeps-choice, deny_manager-On, keeps_rules)

  pub get_org-On : (c : Call) (slug : Text) → Keeps On (Orgs.get_org c slug)
  unfolding Orgs.get_org
  get_org-On c slug = search (load-On, keeps_rules)

  pub list_mine-On : (c : Call) (limit cursor : Text) → Keeps On (Lists.list_mine c limit cursor)
  unfolding Lists.list_mine
  list_mine-On c limit cursor = search (reply_page-On, keeps_rules)

  pub list_members-On :
      (c : Call) (slug limit cursor : Text) → Keeps On (Lists.list_members c slug limit cursor)
  unfolding Lists.list_members
  list_members-On c slug limit cursor = search (load-On, reply_page-On, keeps_rules)

  pub list_invitations-On :
      (c : Call) (slug limit cursor : Text) → Keeps On (Lists.list_invitations c slug limit cursor)
  unfolding Lists.list_invitations
  list_invitations-On c slug limit cursor = search (manage-On, reply_page-On, keeps_rules)
