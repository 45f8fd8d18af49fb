-- ===== src/Domains/Rbac/Effects.antt =====
-- What each mutation of domains/rbac.py does to the roles and the relations: its write if the caller is
-- an admin and the body is valid, and nothing otherwise.
use gutencode_test.Prelude.{
  Text-Eq, Bool, true, false, ◌&&◌, Text, Bool-cases, inl, inr, if◌then◌else◌,
}
use gutencode_test.Core.Problem.{Problem}
use gutencode_test.Core.Table.{get}
use gutencode_test.Core.Exec.{Exec, pure, require, gets, atomically, ◌>>=◌, ◌>>◌}
use gutencode_test.Core.Exec.Keeps.{Keeps-bind, Keeps-pure}
use gutencode_test.Core.Exec.Laws.{require-true, require-false}
use gutencode_test.Core.Access.{is_admin}
use gutencode_test.Parts.WellFormed.{is_well_formed}
use gutencode_test.Domains.Rbac
use gutencode_test.Domains.Rbac.{
  Rbac, Call, audit, require_admin, refuse, role_perms, is_some, append_role, remove_role,
  put_relation, delete_relation, rel_key, assign_known, assign_unknown,
}
use gutencode_test.Domains.Rbac.Requests.{
  Same, Same-refl, audit-Same, refuse-Same, require_admin-true, require_admin-false,
}

-- The caller's request is carried out: they are an admin, and the body is valid.
abbrev pub permits : Call → Bool → Rbac → Bool
permits c valid r = is_admin c.seam r.roles c.caller && valid

guarded {ℓ} :
    {A : Type ℓ} (c : Call) (kind : Text) (valid : Bool) (p : Problem) (rest : Exec Rbac A)
    (op : Rbac → Rbac) (r : Rbac)
    → Same (op r) (rest r).1
    → Same
        (if permits c valid r then op r else r)
        ((require_admin c kind >> (require valid p >> rest)) r).1
guarded c kind valid p rest op r did = elim (Bool-cases (is_admin c.seam r.roles c.caller)) [
  | inr stranger ↦
      rw (require_admin-false c kind (require valid p >> rest) r stranger, stranger)
        ((refuse-Same r c kind).at r (Same-refl r))
  | inl admin ↦
      rw (require_admin-true c kind (require valid p >> rest) r admin, admin)
        (elim (Bool-cases valid) [
          | inl good ↦ rw (require-true valid p rest r good) (rw good did)
          | inr bad ↦ rw (require-false valid p rest r bad) (rw bad (Same-refl r))
        ])
]

-- After a write, the audit and the reply keep what it left.
audited {ℓ} :
    {A : Type ℓ} (c : Call) (kind action object result reason : Text) (value : A) (r : Rbac)
    → Same r ((audit c kind action object result reason >> pure value) r).1
audited c kind action object result reason value r =
    (Keeps-bind _ _ (audit-Same r c kind action object result reason) (λ _. Keeps-pure value)).at r
      (Same-refl r)

abbrev pub both_valid : Text → Text → Bool
both_valid subject role = is_well_formed subject && is_well_formed role

abbrev pub all_valid : Text → Text → Text → Bool
all_valid subject relation object =
    is_well_formed subject && is_well_formed relation && is_well_formed object

pub grant_lem :
    (c : Call) (subject relation object : Text) (r : Rbac)
    → Same
        (if permits c (all_valid subject relation object) r
          then (put_relation subject relation object r).1
          else r)
        (Rbac.grant c subject relation object r).1
unfolding Rbac.grant
grant_lem c subject relation object r =
    guarded c _ _ _ _ (λ s. (put_relation subject relation object s).1) r
      (unfold ◌>>=◌ atomically in
        audited c _ _ _ _ _ true (put_relation subject relation object r).1)

pub revoke_relation_lem :
    (c : Call) (subject relation object : Text) (r : Rbac)
    → Same
        (if permits c (all_valid subject relation object) r
          then (delete_relation (rel_key subject relation object) r).1
          else r)
        (Rbac.revoke_relation c subject relation object r).1
unfolding Rbac.revoke_relation
revoke_relation_lem c subject relation object r =
    let key = rel_key subject relation object in
    guarded c _ _ _ _ (λ s. (delete_relation key s).1) r
      (unfold ◌>>=◌ atomically gets in
        audited c _ _ _ _ _ (is_some (get key r.relations)) (delete_relation key r).1)

pub revoke_role_lem :
    (c : Call) (subject role : Text) (r : Rbac)
    → Same
        (if permits c (both_valid subject role) r then (remove_role subject role r).1 else r)
        (Rbac.revoke_role c subject role r).1
unfolding Rbac.revoke_role
revoke_role_lem c subject role r =
    guarded c _ _ _ _ (λ s. (remove_role subject role s).1) r
      (unfold ◌>>=◌ atomically in
        audited c _ _ _ _ _ (remove_role subject role r).0 (remove_role subject role r).1)

-- An unknown role is never granted.
abbrev pub assign_effect : Text → Text → Rbac → Rbac
assign_effect subject role r =
    if is_some (role_perms role) then (append_role subject role r).1 else r

assign_rest :
    (c : Call) (subject role : Text) (known : Bool) (r : Rbac)
    → Same
        (if known then (append_role subject role r).1 else r)
        ((if known then assign_known c subject role else assign_unknown c subject role) r).1
unfolding assign_known assign_unknown
assign_rest c subject role true r =
    unfold ◌>>=◌ atomically in audited c _ _ _ _ _ true (append_role subject role r).1
assign_rest c subject role false r = audited c _ _ _ _ _ false r

pub assign_lem :
    (c : Call) (subject role : Text) (r : Rbac)
    → Same
        (if permits c (both_valid subject role) r then assign_effect subject role r else r)
        (Rbac.assign c subject role r).1
unfolding Rbac.assign
assign_lem c subject role r =
    guarded c _ _ _ _ (assign_effect subject role) r
      (assign_rest c subject role (is_some (role_perms role)) r)
