-- ===== src/Domains/Rbac/Requests.antt =====
-- The requests of domains/rbac.py, served one after the other, and what the guards and the audit
-- do to the store.
use gutencode_test.Prelude.{
  ◌≡◌, refl, Bool, true, false, List, [], ◌∷◌, Text, codes, Bool-cases, inl, inr, if◌then◌else◌,
}
use gutencode_test.Core.Problem.{forbidden}
use gutencode_test.Core.Exec.{Exec, err, ◌>>=◌, ◌>>◌}
use gutencode_test.Core.Exec.Keeps.{
  Keeps, Keeps-bind, Keeps-gets, Keeps-pure, Keeps-atomically, keeps_rules,
}
use gutencode_test.Core.Access.{is_admin}
use gutencode_test.Parts.Paginate.Reply.{reply_page}
use gutencode_test.Domains.Rbac
use gutencode_test.Domains.Rbac.Lists
use gutencode_test.Domains.Rbac.{Rbac, Call, is_audited, log_decision, audit, refuse, require_admin}

pub data Request : Type 0 where
  assign revoke_role : Text → Text → Request
  grant revoke_relation : Text → Text → Text → Request
  can : Text → Request
  check : Text → Text → Request
  list_roles list_decisions : Text → Text → Text → Request
  list_relations : Text → Text → Text → Text → Request

unfoldable pub step : Call → Request → Rbac → Rbac
step c (assign subject role) r = (Rbac.assign c subject role r).1
step c (revoke_role subject role) r = (Rbac.revoke_role c subject role r).1
step c (grant subject relation object) r = (Rbac.grant c subject relation object r).1
step c (revoke_relation subject relation object) r =
    (Rbac.revoke_relation c subject relation object r).1
step c (can permission) r = (Rbac.can c permission r).1
step c (check relation object) r = (Rbac.check c relation object r).1
step c (list_roles subject limit cursor) r = (Lists.list_roles c subject limit cursor r).1
step c (list_decisions subject limit cursor) r = (Lists.list_decisions c subject limit cursor r).1
step c (list_relations subject object limit cursor) r =
    (Lists.list_relations c subject object limit cursor r).1

unfoldable pub serve : List (Call × Request) → Rbac → Rbac
serve [] r = r
serve ((c, request) ∷ rest) r = serve rest (step c request r)

-- The store holds the same roles and the same relations; the decision log may have grown.
pub record Same (old r : Rbac) : Type 0 where
  pub same_roles : r.roles ≡ old.roles
  pub same_relations : r.relations ≡ old.relations

pub Same-refl : (r : Rbac) → Same r r
Same-refl r = record { same_roles = refl; same_relations = refl }

module _ (old : Rbac) where
  pub audit-Same :
      (c : Call) (kind action object result reason : Text)
      → Keeps (Same old) (audit c kind action object result reason)
  unfolding audit
  audit-Same c kind action object result reason = elim (Bool-cases (is_audited c.mode result)) [
    | inl logged ↦ rw logged (
        Keeps-atomically _ (
          unfold log_decision in
          λ s same. record { same_roles = same.same_roles; same_relations = same.same_relations }))
    | inr silent ↦ rw silent (Keeps-pure _)
  ]

  pub refuse-Same : (c : Call) (kind : Text) → Keeps (Same old) (refuse c kind)
  unfolding refuse
  refuse-Same c kind = search (audit-Same, keeps_rules)

  choice-Same :
      (b : Bool) (x y : Exec Rbac (Unit {0}))
      → Keeps (Same old) x
      → Keeps (Same old) y
      → Keeps (Same old) (if b then x else y)
  choice-Same true x y h k = h
  choice-Same false x y h k = k

  pub require_admin-Same : (c : Call) (kind : Text) → Keeps (Same old) (require_admin c kind)
  unfolding require_admin
  require_admin-Same c kind =
      Keeps-bind _ _ (Keeps-gets _)
        λ admin. choice-Same admin _ _ (Keeps-pure tt) (refuse-Same c kind)

  reply_page-Same {ℓ} :
      {A : Type ℓ} (items : List A) (cursor limit : Text)
      → Keeps (Same old) (reply_page {S = Rbac} items cursor limit)
  unfolding reply_page
  reply_page-Same items cursor limit = search keeps_rules

  pub can-Same : (c : Call) (permission : Text) → Keeps (Same old) (Rbac.can c permission)
  unfolding Rbac.can
  can-Same c permission = search (audit-Same, keeps_rules)

  pub check-Same :
      (c : Call) (relation object : Text) → Keeps (Same old) (Rbac.check c relation object)
  unfolding Rbac.check
  check-Same c relation object = search (audit-Same, keeps_rules)

  pub list_roles-Same :
      (c : Call) (subject limit cursor : Text)
      → Keeps (Same old) (Lists.list_roles c subject limit cursor)
  unfolding Lists.list_roles
  list_roles-Same c subject limit cursor =
      search (choice-Same, require_admin-Same, reply_page-Same, keeps_rules)

  pub list_relations-Same :
      (c : Call) (subject object limit cursor : Text)
      → Keeps (Same old) (Lists.list_relations c subject object limit cursor)
  unfolding Lists.list_relations
  list_relations-Same c subject object limit cursor =
      search (choice-Same, require_admin-Same, reply_page-Same, keeps_rules) depth 12

  pub list_decisions-Same :
      (c : Call) (subject limit cursor : Text)
      → Keeps (Same old) (Lists.list_decisions c subject limit cursor)
  unfolding Lists.list_decisions
  list_decisions-Same c subject limit cursor =
      search (choice-Same, require_admin-Same, reply_page-Same, keeps_rules)

module _ {ℓ} {A : Type ℓ} where
  -- An admin goes on, and what follows finds the store as it was.
  pub require_admin-true :
      (c : Call) (kind : Text) (next : Exec Rbac A) (r : Rbac)
      → is_admin c.seam r.roles c.caller ≡ true
      → (require_admin c kind >> next) r ≡ next r
  unfolding require_admin ◌>>=◌
  require_admin-true c kind next r e = rw e

  -- Anyone else is refused, and nothing follows.
  pub require_admin-false :
      (c : Call) (kind : Text) (next : Exec Rbac A) (r : Rbac)
      → is_admin c.seam r.roles c.caller ≡ false
      → (require_admin c kind >> next) r ≡ (
        err (forbidden (codes "rbac administration requires the admin role")),
        (refuse c kind r).1,
      )
  unfolding require_admin refuse audit ◌>>=◌
  require_admin-false c kind next r e = elim (Bool-cases (is_audited c.mode (codes "deny"))) [
    | inl logged ↦ rw (e, logged)
    | inr silent ↦ rw (e, silent)
  ]
