-- ===== src/Domains/Orgs/Outsider.antt =====
-- An invitation alone grants nothing: without its token, no subject becomes a member.
use gutencode_test.Prelude.{
  ◌≡◌, ◌≢◌, ◌⊎◌, refl, sym, ap, ◌∙◌, Bool, true, false, ◌&&◌, Option, none, some, List, [], ◌∷◌,
  Text, Text-Eq, ◌==◌, ==_true, ==_false, ==_refl, Bool-cases, inl, inr, arith, All, ◌+◌,
}
use gutencode_test.Core.Table.{get, do_}
use gutencode_test.Core.Table.Laws.{do_-at, get-do_ne}
use gutencode_test.Core.OrgRole.{Org, Member, org_role, member_role, role_of}
use gutencode_test.Parts.Digest.{Hash}
use gutencode_test.Parts.WellFormed.{is_well_formed}
use gutencode_test.Parts.WellFormed.Keys.{composite}
use gutencode_test.Domains.Orgs.{Orgs, Call, swap, swap_fn, tombstone, make_admin, role_in}
use gutencode_test.Domains.Orgs.Requests.{
  Request, create, get_org, archive, leave, transfer, accept, remove_member, add_member, list_mine,
  list_members, list_invitations, step, serve, On, get_org-On, list_mine-On, list_members-On,
  list_invitations-On,
}
use gutencode_test.Domains.Orgs.Writes.{
  create-On, archive-On, leave-On, transfer-On, accept-On, remove_member-On, add_member-On,
}
use gutencode_test.Domains.Orgs.Invited.{
  NotOwned, RowOutside, Outside, LearnsNone, create-Outside, archive-Outside, tombstone-Outside,
  leave-Outside, upsert-Outside, consume-Outside, make_admin-Outside,
}

module _ (h : Hash) (knows : Text → Bool) (slug subject : Text)
    (good : is_well_formed slug ≡ true) where
  abbrev Out : Orgs → Type 0
  Out = On (Outside h knows slug subject)

  swap_fn-NotOwned :
      (caller new_owner : Text) (row : Option Org) (v : Org)
      → new_owner ≢ subject
      → (swap_fn caller new_owner row).0 ≡ some v
      → NotOwned h knows subject (some v)
  unfolding swap_fn
  swap_fn-NotOwned caller new_owner none v other e = absurd (cc)
  swap_fn-NotOwned caller new_owner (some cur) v other e = elim (Bool-cases (cur.owner == caller)) [
    | inr stranger ↦ absurd (cc (rw stranger at e))
    | inl mine ↦
        let written : some (record cur { owner = new_owner }) ≡ some v = rw mine at e in
        let moved : record cur { owner = new_owner } ≡ v = cc written in
        (v, refl, λ p. other (ap (λ (r : Org). r.owner) moved ∙ p))
  ]

  swap-Outside :
      (slug' caller new_owner : Text) (o : Orgs)
      → (slug' ≡ slug → new_owner ≢ subject)
      → Out o
      → Out (swap slug' caller new_owner o).1
  unfolding swap
  swap-Outside slug' caller new_owner o other (owned, out) = (
    elim (Bool-cases (slug' == slug)) [
      | inr apart ↦
          rw
            (get-do_ne slug slug' (swap_fn caller new_owner) o.records
              (λ p. cc (ap (λ x. x == slug) p, ==_refl slug, apart)))
            owned
      | inl same ↦
          do_-at (NotOwned h knows subject) slug slug' (swap_fn caller new_owner) o.records
            (λ v e.
              swap_fn-NotOwned caller new_owner (get slug o.records) v
                (other (==_true slug' slug same)) e)
            owned
    ],
    out,
  )

  -- The outsider's own swap is lost.
  swap_fn-outsider :
      (new_owner : Text) (row : Option Org)
      → NotOwned h knows subject row
      → (swap_fn subject new_owner row).1 ≡ none
  unfolding swap_fn
  swap_fn-outsider new_owner none owned = refl
  swap_fn-outsider new_owner (some cur) (rec, held, other) =
      let here : cur ≡ rec = cc held in
      rw (==_false cur.owner subject (λ e. other (ap (λ (r : Org). r.owner) (sym here) ∙ e)))

  swap-outsider : (new_owner : Text) (o : Orgs) → Out o → (swap slug subject new_owner o).0 ≡ none
  unfolding swap do_
  swap-outsider new_owner o (owned, out) = swap_fn-outsider new_owner (get slug o.records) owned

  after_swap :
      (c : Call) (slug' new_owner : Text) (o : Orgs)
      → is_well_formed slug' ≡ true
      → Out o
      → ((swap slug' c.caller new_owner o).0 ≡ none)
        ⊎ (((s : Orgs) → Out s → Out (tombstone slug' new_owner s).1)
            × ((new_owner == c.caller) ≡ false
                → (s : Orgs) → Out s
                → Out (make_admin slug' c.caller s).1))
  after_swap c slug' new_owner o good' out =
      elim (Bool-cases (slug' == slug && c.caller == subject)) [
        | inl both ↦
            let here = ==_true slug' slug (ground arith) in
            let self = ==_true c.caller subject (ground arith) in
            inl (rw (here, self) (swap-outsider new_owner o out))
        | inr apart ↦ inr (
          tombstone-Outside h knows slug subject good slug' new_owner,
          λ other s. make_admin-Outside h knows slug subject good slug' c.caller s good' (λ p q.
              cc (
                ap (λ x. x == slug) p,
                ==_refl slug,
                ap (λ x. x == subject) q,
                ==_refl subject,
                apart,
              )),
        )
      ]

  step-Outside :
      (c : Call) (request : Request) (o : Orgs)
      → LearnsNone h knows slug subject (c, request)
      → Out o
      → Out (step h c request o)
  unfolding step
  step-Outside c (transfer slug' new_owner) o blind out =
      (transfer-On (Outside h knows slug subject) c slug' new_owner λ good' s p. (
        swap-Outside slug' c.caller new_owner s blind p,
        after_swap c slug' new_owner s good' p,
      )).at
        o out
  step-Outside c (create slug') o blind out =
      (create-On (Outside h knows slug subject) c slug'
          (create-Outside h knows slug subject good c slug')).at
        o out
  step-Outside c (get_org slug') o blind out =
      (get_org-On (Outside h knows slug subject) c slug').at o out
  step-Outside c (archive slug') o blind out =
      (archive-On (Outside h knows slug subject) c slug'
          (archive-Outside h knows slug subject good slug')).at
        o out
  step-Outside c (leave slug') o blind out =
      (leave-On (Outside h knows slug subject) c slug'
          (λ good'. leave-Outside h knows slug subject good slug' c.caller)).at
        o out
  step-Outside c (accept slug' token) o blind out =
      (accept-On (Outside h knows slug subject) h c slug' token (λ good' s.
          consume-Outside h knows slug subject good slug' c.caller token c.now s good' blind)).at
        o out
  step-Outside c (remove_member slug' handle) o blind out =
      (remove_member-On (Outside h knows slug subject) c slug' handle
          (λ good'. tombstone-Outside h knows slug subject good slug' handle)).at
        o out
  step-Outside c (add_member slug' handle role token) o blind out =
      (add_member-On (Outside h knows slug subject) h c slug' handle role token
          (λ good' assignable s.
            upsert-Outside h knows slug subject good slug' handle role token (c.now + c.invite_ttl)
              s good' blind)).at
        o out
  step-Outside c (list_mine limit cursor) o blind out =
      (list_mine-On (Outside h knows slug subject) c limit cursor).at o out
  step-Outside c (list_members slug' limit cursor) o blind out =
      (list_members-On (Outside h knows slug subject) c slug' limit cursor).at o out
  step-Outside c (list_invitations slug' limit cursor) o blind out =
      (list_invitations-On (Outside h knows slug subject) c slug' limit cursor).at o out

  serve-Outside :
      (history : List (Call × Request)) (o : Orgs)
      → All (LearnsNone h knows slug subject) history
      → Out o
      → Out (serve h history o)
  unfolding serve
  serve-Outside [] o blind out = out
  serve-Outside ((c, request) ∷ rest) o blind out =
      serve-Outside rest (step h c request o) blind.1 (step-Outside c request o blind.0 out)

  member_role-outside : (row : Option Member) → RowOutside h knows row → member_role row ≡ none
  unfolding member_role
  member_role-outside none out = refl
  member_role-outside (some m) out = rw ((out m refl).0)

  Outside-no_role : (o : Orgs) → Out o → role_in slug subject o ≡ none
  unfolding org_role role_of
  Outside-no_role o ((rec, held, other), out) =
      rw (held, ==_false rec.owner subject other)
        (member_role-outside (get (composite slug subject) o.members) out)

-- A subject who neither owns an organization nor is an active member of it, and who knows none of the
-- tokens of their invitations, those already open included, gets no role in it by any history of
-- requests of any callers in which nobody transfers it to them: to be invited, by however many managers
-- and however often, grants nothing, and neither do the subject's own requests.
pub invitation_grants_nothing :
    (h : Hash) (knows : Text → Bool) (slug subject : Text) (history : List (Call × Request))
    (rec : Org) (o : Orgs)
    → is_well_formed slug ≡ true
    → get slug o.records ≡ some rec
    → rec.owner ≢ subject
    → RowOutside h knows (get (composite slug subject) o.members)
    → All (LearnsNone h knows slug subject) history
    → role_in slug subject (serve h history o) ≡ none
invitation_grants_nothing h knows slug subject history rec o good found other row blind =
    Outside-no_role h knows slug subject good (serve h history o)
      (serve-Outside h knows slug subject good history o blind ((rec, found, other), row))
