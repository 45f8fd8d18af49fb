-- ===== src/Domains/Rbac/Assigned.antt =====
-- Who may change the roles, and what an assignment and a revocation come to.
use gutencode_test.Prelude.{
  ◌≡◌, refl, ap, ◌∙◌, Bool, true, false, not, ◌&&◌, ◌||◌, Option, none, some, List, [], ◌∷◌, ◌++◌,
  Text, Text-Eq, Bool-cases, inl, inr, if◌then◌else◌, All, elem, keep, ◌==◌, ==_true, ==_refl,
  arith,
}
use gutencode_test.Core.Access.{is_admin, Roles, roles_or_empty}
use gutencode_test.Core.Table.{get}
use gutencode_test.Core.Table.Laws.{get-do_ne, get-do_self}
use gutencode_test.Parts.WellFormed.{is_well_formed}
use gutencode_test.Domains.Rbac
use gutencode_test.Domains.Rbac.{
  Rbac, Call, is_some, role_perms, append_role, remove_role, put_relation, delete_relation,
  assign_fn, revoke_fn,
}
use gutencode_test.Domains.Rbac.Requests.{
  Request, assign, revoke_role, grant, revoke_relation, can, check, list_roles, list_decisions,
  list_relations, step, serve, Same, Same-refl, can-Same, check-Same, list_roles-Same,
  list_relations-Same, list_decisions-Same,
}
use gutencode_test.Domains.Rbac.Effects.{
  permits, both_valid, all_valid, assign_lem, revoke_role_lem, grant_lem, revoke_relation_lem,
}

blocked :
    (c : Call) (valid : Bool) (r did after : Rbac)
    → is_admin c.seam r.roles c.caller ≡ false
    → Same (if permits c valid r then did else r) after
    → Same r after
blocked c valid r did after e same = rw e at same

-- A request of a caller who is no admin changes no role and no relation.
step-Same :
    (c : Call) (request : Request) (r : Rbac)
    → is_admin c.seam r.roles c.caller ≡ false
    → Same r (step c request r)
unfolding step
step-Same c (assign subject role) r e =
    blocked c (both_valid subject role) r _ _ e (assign_lem c subject role r)
step-Same c (revoke_role subject role) r e =
    blocked c (both_valid subject role) r _ _ e (revoke_role_lem c subject role r)
step-Same c (grant subject relation object) r e =
    blocked c (all_valid subject relation object) r _ _ e (grant_lem c subject relation object r)
step-Same c (revoke_relation subject relation object) r e =
    blocked c (all_valid subject relation object) r _ _ e
      (revoke_relation_lem c subject relation object r)
step-Same c (can permission) r e = (can-Same r c permission).at r (Same-refl r)
step-Same c (check relation object) r e = (check-Same r c relation object).at r (Same-refl r)
step-Same c (list_roles subject limit cursor) r e =
    (list_roles-Same r c subject limit cursor).at r (Same-refl r)
step-Same c (list_decisions subject limit cursor) r e =
    (list_decisions-Same r c subject limit cursor).at r (Same-refl r)
step-Same c (list_relations subject object limit cursor) r e =
    (list_relations-Same r c subject object limit cursor).at r (Same-refl r)

abbrev NoAdmin : Roles → Call × Request → Type 0
NoAdmin roles call = is_admin call.0.seam roles call.0.caller ≡ false

-- In any history whose callers all lack the admin role at its start, nobody gains or loses a role or a
-- relation: no caller can raise their own rights, or another's, not even by many requests together.
pub no_escalation :
    (history : List (Call × Request)) (r : Rbac)
    → All (λ call. is_admin call.0.seam r.roles call.0.caller ≡ false) history
    → ((serve history r).roles ≡ r.roles) × ((serve history r).relations ≡ r.relations)
unfolding serve
no_escalation [] r none_ = (refl, refl)
no_escalation ((c, request) ∷ rest) r none_ =
    let same = step-Same c request r none_.0 in
    let later = no_escalation rest (step c request r) (rw same.same_roles none_.1) in
    (later.0 ∙ same.same_roles, later.1 ∙ same.same_relations)

abbrev pub holds : Text → Text → Rbac → Bool
holds role subject r = elem role (roles_or_empty (get subject r.roles))

elem-snoc : (q role : Text) (xs : List Text) → elem q (xs ++ (role ∷ [])) ≡ (elem q xs || role == q)
elem-snoc q role [] = ground arith
elem-snoc q role (x ∷ xs) = ground (arith, elem-snoc q role xs)

elem-keep_others :
    (q role : Text) (xs : List Text)
    → elem q (keep (λ r. not (r == role)) xs) ≡ (if q == role then false else elem q xs)
elem-keep_others q role [] = ground arith
elem-keep_others q role (x ∷ xs) = ground (
  arith,
  elem-keep_others q role xs,
  Text-Eq.beq_iff x role,
  Text-Eq.beq_iff x q,
  Text-Eq.beq_iff q role,
)

assign_fn-elem :
    (q role : Text) (cur : Option (List Text))
    → elem q (roles_or_empty (elim (assign_fn role cur).0 [ none ↦ cur | some v ↦ some v ]))
      ≡ (elem q (roles_or_empty cur) || role == q)
unfolding assign_fn
assign_fn-elem q role cur = elim (Bool-cases (elem role (roles_or_empty cur))) [
  | inl held ↦ rw held (elim (Bool-cases (role == q)) [
    | inl same ↦
        let there : elem q (roles_or_empty cur) ≡ true = rw (← ==_true role q same) held in rw there
    | inr apart ↦ rw apart (ground arith)
  ])
  | inr fresh ↦ rw fresh (elem-snoc q role (roles_or_empty cur))
]

revoke_fn-elem :
    (q role : Text) (cur : Option (List Text))
    → elem q (roles_or_empty (elim (revoke_fn role cur).0 [ none ↦ cur | some v ↦ some v ]))
      ≡ (if q == role then false else elem q (roles_or_empty cur))
unfolding revoke_fn
revoke_fn-elem q role cur = elim (Bool-cases (elem role (roles_or_empty cur))) [
  | inl held ↦ rw held (elem-keep_others q role (roles_or_empty cur))
  | inr gone ↦ rw gone (elim (Bool-cases (q == role)) [
    | inl same ↦
        let e = ==_true q role same in
        let absent : elem q (roles_or_empty cur) ≡ false = rw e gone in rw (same, absent)
    | inr apart ↦ rw apart
  ])
]

append_role-holds :
    (q j subject role : Text) (r : Rbac)
    → holds q j (append_role subject role r).1 ≡ (holds q j r || (subject == j && role == q))
unfolding append_role
append_role-holds q j subject role r = elim (Bool-cases (subject == j)) [
  | inl same ↦
      rw (==_true subject j same, ==_refl j)
        (ap (λ o. elem q (roles_or_empty o)) (get-do_self j (assign_fn role) r.roles)
          ∙ assign_fn-elem q role (get j r.roles))
  | inr apart ↦
      rw
        (
          get-do_ne j subject (assign_fn role) r.roles (λ p. cc (ap (λ x. x == j) p, ==_refl j)),
          apart,
        )
        (ground arith)
]

remove_role-holds :
    (q j subject role : Text) (r : Rbac)
    → holds q j (remove_role subject role r).1
      ≡ (if subject == j && q == role then false else holds q j r)
unfolding remove_role
remove_role-holds q j subject role r = elim (Bool-cases (subject == j)) [
  | inl same ↦
      rw (==_true subject j same, ==_refl j)
        (ap (λ o. elem q (roles_or_empty o)) (get-do_self j (revoke_fn role) r.roles)
          ∙ revoke_fn-elem q role (get j r.roles))
  | inr apart ↦
      rw
        (
          get-do_ne j subject (revoke_fn role) r.roles (λ p. cc (ap (λ x. x == j) p, ==_refl j)),
          apart,
        )
        (ground arith)
]

holds-Same : (q j : Text) (r r' : Rbac) → Same r r' → holds q j r' ≡ holds q j r
holds-Same q j r r' same = ap (λ roles. elem q (roles_or_empty (get j roles))) same.same_roles

-- The stored lists are a relation between subjects and roles. For every caller and body, an assignment
-- adds exactly the pair (subject, role) to it, if the caller is an admin, both names are well-formed
-- and the policy knows the role, and a revocation takes exactly that pair away, if the caller is an
-- admin and both names are well-formed; otherwise, and of every other pair, nothing changes.
pub roles_are_a_relation :
    (c : Call) (subject role q j : Text) (r : Rbac)
    → let may = permits c (is_well_formed subject && is_well_formed role) r in
      let pair = subject == j && role == q in
      (holds q j (Rbac.assign c subject role r).1
        ≡ (holds q j r || (may && is_some (role_perms role) && pair)))
      × (holds q j (Rbac.revoke_role c subject role r).1 ≡ (holds q j r && not (may && pair)))
roles_are_a_relation c subject role q j r =
    let add = append_role-holds q j subject role r in
    let remove = remove_role-holds q j subject role r in
    (
      holds-Same q j _ _ (assign_lem c subject role r) ∙ ground (arith, add),
      holds-Same q j _ _ (revoke_role_lem c subject role r)
          ∙ ground (arith, remove, Text-Eq.beq_iff q role, Text-Eq.beq_iff role q),
    )
