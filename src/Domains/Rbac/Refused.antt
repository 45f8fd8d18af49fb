-- ===== src/Domains/Rbac/Refused.antt =====
-- Every refused administration leaves a trace.
use gutencode_test.Prelude.{
  ℕ, ◌+◌, ◌≡◌, ◌≢◌, ap, ◌∙◌, true, false, [], Text, Text-Eq, ℕ-Eq, codes, ==_false, ==_refl, arith,
}
use gutencode_test.Core.Problem.{forbidden}
use gutencode_test.Core.Exec.{err, Exec, ◌>>=◌, ◌>>◌}
use gutencode_test.Core.Table.{put, next_id}
use gutencode_test.Core.Access.{is_admin}
use gutencode_test.Domains.Rbac
use gutencode_test.Domains.Rbac.Lists
use gutencode_test.Domains.Rbac.{
  Decided, Rbac, Call, is_audited, log_decision, audit, refuse, require_admin,
}
use gutencode_test.Domains.Rbac.Requests.{require_admin-false}

abbrev pub denial : Call → Text → ℕ → Decided
denial c kind id = record {
  id = id;
  subject = c.caller;
  kind = kind;
  action = [];
  object = [];
  result = codes "deny";
  reason = codes "not-admin";
  ts = c.now;
}

-- The store with one more decision.
abbrev pub with_denial : Call → Text → Rbac → Rbac
with_denial c kind r = record r {
  decisions = put (r.last_id + 1) (denial c kind (r.last_id + 1)) r.decisions;
  last_id = r.last_id + 1;
}

refuse-state :
    (c : Call) (kind : Text) (r : Rbac)
    → c.mode ≢ codes "off"
    → (refuse c kind r).1 ≡ with_denial c kind r
unfolding refuse audit ◌>>=◌ log_decision next_id
refuse-state c kind r on =
    let audited : is_audited c.mode (codes "deny") ≡ true =
      unfold is_audited in
      rw (==_false c.mode (codes "off") on) (ground (arith, ==_refl (codes "deny"))) in
    rw audited

abbrev pub Denied {ℓ} : {A : Type ℓ} → Call → Text → Rbac → Exec Rbac A → Type ℓ
Denied c kind r m =
    m r
    ≡ (err (forbidden (codes "rbac administration requires the admin role")), with_denial c kind r)

denied {ℓ} :
    {A : Type ℓ} (c : Call) (kind : Text) (next : Exec Rbac A) (r : Rbac)
    → c.mode ≢ codes "off"
    → is_admin c.seam r.roles c.caller ≡ false
    → Denied c kind r (require_admin c kind >> next)
denied c kind next r on stranger =
    require_admin-false c kind next r stranger
    ∙ ap (λ s. (err (forbidden (codes "rbac administration requires the admin role")), s))
        (refuse-state c kind r on)

-- Unless the audit is off, each of the five routes for admins only, called with any body by a caller
-- who is no admin, replies 403 and changes nothing but the decision log, which gets one record under the
-- next id: who was refused, at which route, when, and that it was a denial.
pub refused_is_logged :
    (c : Call) (r : Rbac) (subject role relation object limit cursor : Text)
    → c.mode ≢ codes "off"
    → is_admin c.seam r.roles c.caller ≡ false
    → Denied c (codes "assign") r (Rbac.assign c subject role)
      × Denied c (codes "revoke-role") r (Rbac.revoke_role c subject role)
      × Denied c (codes "grant") r (Rbac.grant c subject relation object)
      × Denied c (codes "revoke-relation") r (Rbac.revoke_relation c subject relation object)
      × Denied c (codes "list-decisions") r (Lists.list_decisions c subject limit cursor)
unfolding Rbac.assign Rbac.revoke_role Rbac.grant Rbac.revoke_relation Lists.list_decisions
refused_is_logged c r subject role relation object limit cursor on stranger = (
  denied c _ _ r on stranger,
  denied c _ _ r on stranger,
  denied c _ _ r on stranger,
  denied c _ _ r on stranger,
  denied c _ _ r on stranger,
)
