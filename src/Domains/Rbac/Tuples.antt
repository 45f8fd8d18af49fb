-- ===== src/Domains/Rbac/Tuples.antt =====
-- The relation tuples of domains/rbac.py: under their joined keys they are a set of triples, and a
-- decision is membership in it.
use mathlib.Core.List.{append_assoc}
use gutencode_test.Prelude.{
  ◌≡◌, refl, sym, ap, ◌∙◌, Bool, true, not, ◌&&◌, ◌||◌, List, [], ◌∷◌, ◌++◌, Text, Text-Eq, codes,
  Bool-cases, split_last, inl, inr, if◌then◌else◌, ◌==◌, ==_true, ==_false, ==_refl, arith,
}
use gutencode_test.Core.Table.{get}
use gutencode_test.Core.Table.Laws.{get-put, get-delete}
use gutencode_test.Core.Exec.{ok, ◌>>=◌}
use gutencode_test.Parts.WellFormed.{is_well_formed}
use gutencode_test.Parts.WellFormed.Keys.{is_well_formed-Free}
use gutencode_test.Domains.Rbac
use gutencode_test.Domains.Rbac.{
  Relation, Rbac, Call, is_some, is_audited, rel_key, audit, put_relation, delete_relation,
  append_role, remove_role, role_perms,
}
use gutencode_test.Domains.Rbac.Requests.{
  Request, assign, revoke_role, grant, revoke_relation, can, check, list_roles, list_decisions,
  list_relations, step, serve, Same, Same-refl, can-Same, check-Same, list_roles-Same,
  list_relations-Same, list_decisions-Same,
}
use gutencode_test.Domains.Rbac.Effects.{
  permits, both_valid, all_valid, assign_effect, assign_lem, revoke_role_lem, grant_lem,
  revoke_relation_lem,
}

rel_key-split : (s p o : Text) → rel_key s p o ≡ (s ++ (31 ∷ p)) ++ (31 ∷ o)
unfolding rel_key
rel_key-split s p o = sym (append_assoc s (31 ∷ p) (31 ∷ o))

-- A key belongs to one triple, if the later two names of each are well-formed.
rel_key-injective :
    (s p o s' p' o' : Text)
    → (is_well_formed p && is_well_formed o) ≡ true
    → (is_well_formed p' && is_well_formed o') ≡ true
    → rel_key s p o ≡ rel_key s' p' o'
    → (s ≡ s') × (p ≡ p') × (o ≡ o')
rel_key-injective s p o s' p' o' good good' e =
    let free = λ (x : Text). λ (w : is_well_formed x ≡ true). is_well_formed-Free 31 x refl w in
    let outer =
      split_last 31 (s ++ (31 ∷ p)) o (s' ++ (31 ∷ p')) o' (free o (ground arith))
        (free o' (ground arith)) (sym (rel_key-split s p o) ∙ e ∙ rel_key-split s' p' o') in
    let inner = split_last 31 s p s' p' (free p (ground arith)) (free p' (ground arith)) outer.0 in
    (inner.0, inner.1, outer.1)

abbrev pub same_triple : Text → Text → Text → Text → Text → Text → Bool
same_triple s p o s' p' o' = s == s' && p == p' && o == o'

rel_key-eq :
    (s p o s' p' o' : Text)
    → (is_well_formed p && is_well_formed o) ≡ true
    → (is_well_formed p' && is_well_formed o') ≡ true
    → (rel_key s p o == rel_key s' p' o') ≡ same_triple s p o s' p' o'
rel_key-eq s p o s' p' o' good good' = elim (Bool-cases (same_triple s p o s' p' o')) [
  | inl same ↦
      let a = ==_true s s' (ground arith) in
      let b = ==_true p p' (ground arith) in
      let c = ==_true o o' (ground arith) in rw same (rw (a, b, c) (==_refl (rel_key s' p' o')))
  | inr apart ↦ rw apart (
      ==_false (rel_key s p o) (rel_key s' p' o') (λ e.
        let parts = rel_key-injective s p o s' p' o' good good' e in
        cc (rw (parts.0, parts.1, parts.2, ==_refl s', ==_refl p', ==_refl o') at apart)))
]

-- The triple is stored.
abbrev pub held : Text → Text → Text → Rbac → Bool
held s p o r = is_some (get (rel_key s p o) r.relations)

held-Same : (s p o : Text) (r r' : Rbac) → Same r r' → held s p o r' ≡ held s p o r
held-Same s p o r r' same = ap (λ t. is_some (get (rel_key s p o) t)) same.same_relations

module _ (s p o : Text) (good : (is_well_formed p && is_well_formed o) ≡ true) where
  grant-held :
      (c : Call) (s' p' o' : Text) (r : Rbac)
      → held s p o (Rbac.grant c s' p' o' r).1
        ≡ (held s p o r || (permits c (all_valid s' p' o') r && same_triple s' p' o' s p o))
  grant-held c s' p' o' r =
      held-Same s p o _ _ (grant_lem c s' p' o' r)
      ∙ elim (Bool-cases (permits c (all_valid s' p' o') r)) [
        | inr no_ ↦ rw no_ (ground arith)
        | inl may ↦ rw may (
            unfold put_relation in
            ap is_some (get-put (rel_key s p o) (rel_key s' p' o') _ r.relations)
            ∙ rw (rel_key-eq s' p' o' s p o (ground arith) good) (ground arith))
      ]

  revoke-held :
      (c : Call) (s' p' o' : Text) (r : Rbac)
      → held s p o (Rbac.revoke_relation c s' p' o' r).1
        ≡ (held s p o r && not (permits c (all_valid s' p' o') r && same_triple s' p' o' s p o))
  revoke-held c s' p' o' r =
      held-Same s p o _ _ (revoke_relation_lem c s' p' o' r)
      ∙ elim (Bool-cases (permits c (all_valid s' p' o') r)) [
        | inr no_ ↦ rw no_ (ground arith)
        | inl may ↦ rw may (
            unfold delete_relation in
            ap is_some (get-delete (rel_key s p o) (rel_key s' p' o') r.relations)
            ∙ rw (rel_key-eq s' p' o' s p o (ground arith) good) (ground arith))
      ]

  -- A request about roles leaves the tuples alone.
  role_write-held :
      (c : Call) (valid : Bool) (did r after : Rbac)
      → did.relations ≡ r.relations
      → Same (if permits c valid r then did else r) after
      → held s p o after ≡ held s p o r
  role_write-held c valid did r after e same = elim (Bool-cases (permits c valid r)) [
    | inl may ↦
        let left : Same did after = rw may at same in
        held-Same s p o did after left ∙ ap (λ t. is_some (get (rel_key s p o) t)) e
    | inr no_ ↦ let left : Same r after = rw no_ at same in held-Same s p o r after left
  ]

assign_effect-relations :
    (subject role : Text) (r : Rbac) → (assign_effect subject role r).relations ≡ r.relations
unfolding append_role
assign_effect-relations subject role r = elim (Bool-cases (is_some (role_perms role))) [
  | inl known ↦ rw known
  | inr unknown ↦ rw unknown
]

-- Whether a triple is in the set after one request: the specification of the tuple store.
unfoldable pub member_after : Text → Text → Text → Call → Request → Rbac → Bool → Bool
member_after s p o c (grant s' p' o') r was =
    was || (permits c (all_valid s' p' o') r && same_triple s' p' o' s p o)
member_after s p o c (revoke_relation s' p' o') r was =
    was && not (permits c (all_valid s' p' o') r && same_triple s' p' o' s p o)
member_after s p o c (assign subject role) r was = was
member_after s p o c (revoke_role subject role) r was = was
member_after s p o c (can permission) r was = was
member_after s p o c (check relation object) r was = was
member_after s p o c (list_roles subject limit cursor) r was = was
member_after s p o c (list_decisions subject limit cursor) r was = was
member_after s p o c (list_relations subject object limit cursor) r was = was

-- And after a history of them. The store decides only who was an admin at each request.
unfoldable pub member : Text → Text → Text → List (Call × Request) → Rbac → Bool → Bool
unfolding member_after
member s p o [] r was = was
member s p o ((c, request) ∷ rest) r was =
    member s p o rest (step c request r) (member_after s p o c request r was)

module _ (s p o : Text) (good : (is_well_formed p && is_well_formed o) ≡ true) where
  step-held :
      (c : Call) (request : Request) (r : Rbac)
      → held s p o (step c request r) ≡ member_after s p o c request r (held s p o r)
  unfolding step member_after
  step-held c (grant s' p' o') r = grant-held s p o good c s' p' o' r
  step-held c (revoke_relation s' p' o') r = revoke-held s p o good c s' p' o' r
  step-held c (assign subject role) r =
      role_write-held s p o good c (both_valid subject role) _ r _
        (assign_effect-relations subject role r) (assign_lem c subject role r)
  step-held c (revoke_role subject role) r =
      role_write-held s p o good c (both_valid subject role) (remove_role subject role r).1 r _
        (unfold remove_role in refl) (revoke_role_lem c subject role r)
  step-held c (can permission) r =
      held-Same s p o _ _ ((can-Same r c permission).at r (Same-refl r))
  step-held c (check relation object) r =
      held-Same s p o _ _ ((check-Same r c relation object).at r (Same-refl r))
  step-held c (list_roles subject limit cursor) r =
      held-Same s p o _ _ ((list_roles-Same r c subject limit cursor).at r (Same-refl r))
  step-held c (list_decisions subject limit cursor) r =
      held-Same s p o _ _ ((list_decisions-Same r c subject limit cursor).at r (Same-refl r))
  step-held c (list_relations subject object limit cursor) r =
      held-Same s p o _ _ ((list_relations-Same r c subject object limit cursor).at r (Same-refl r))

  serve-held :
      (history : List (Call × Request)) (r : Rbac)
      → held s p o (serve history r) ≡ member s p o history r (held s p o r)
  unfolding serve member
  serve-held [] r = refl
  serve-held ((c, request) ∷ rest) r =
      serve-held rest (step c request r)
      ∙ ap (member s p o rest (step c request r)) (step-held c request r)

check-reply :
    (c : Call) (p o : Text) (r : Rbac)
    → (is_well_formed p && is_well_formed o) ≡ true
    → (Rbac.check c p o r).0 ≡ ok (held c.caller p o r)
unfolding Rbac.check audit ◌>>=◌
check-reply c p o r good =
    let a : is_well_formed p ≡ true = ground arith in
    let b : is_well_formed o ≡ true = ground arith in
    let allowed = is_some (get (rel_key c.caller p o) r.relations) in
    elim (Bool-cases (is_audited c.mode (if allowed then codes "allow" else codes "deny"))) [
      | inl logged ↦ rw (a, b, logged)
      | inr silent ↦ rw (a, b, silent)
    ]

-- After any history of requests of any callers, a check of a well-formed relation and object is allowed
-- exactly if the triple (caller, relation, object) is in the set of triples to which each grant, by an
-- admin and with well-formed names, adds its triple, and from which each such revocation takes its
-- triple: the joined keys never let one triple stand for another, and nothing else changes the set.
pub check_is_membership :
    (history : List (Call × Request)) (r : Rbac) (c : Call) (relation object : Text)
    → (is_well_formed relation && is_well_formed object) ≡ true
    → (Rbac.check c relation object (serve history r)).0
      ≡ ok (
          member c.caller relation object history r
            (is_some (get (rel_key c.caller relation object) r.relations)))
check_is_membership history r c relation object good =
    check-reply c relation object (serve history r) good
    ∙ ap ok (serve-held c.caller relation object good history r)
