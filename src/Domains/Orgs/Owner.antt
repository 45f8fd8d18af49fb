-- ===== src/Domains/Orgs/Owner.antt =====
-- An organization has exactly one owner, whom only they can replace; and archival is final.
use gutencode_test.Prelude.{
  ◌≡◌, ◌≢◌, ◌⊎◌, ◌↔◌, refl, sym, ap, ◌∙◌, false, Option, none, some, List, [], ◌∷◌, Text, Text-Eq,
  codes, ◌==◌, ==_true, ==_false, ==_refl, Bool-cases, inl, inr, All,
}
use gutencode_test.Core.Table.{Table, get}
use gutencode_test.Core.Table.Laws.{do_-at, get-do_ne}
use gutencode_test.Core.OrgRole.{Org, archived, Member, org_role, member_role, role_of, is_active}
use gutencode_test.Parts.Claim.Settled.{get-claim_once_settled}
use gutencode_test.Parts.Digest.{Hash}
use gutencode_test.Parts.WellFormed.Keys.{composite}
use gutencode_test.Domains.Orgs.{
  Orgs, Call, mint_and_claim, swap, swap_fn, tombstone, make_admin, archive_fn, put_archived,
  role_in,
}
use gutencode_test.Domains.Orgs.Members.{upsert, consume, delete_member}
use gutencode_test.Domains.Orgs.Requests.{
  Request, create, get_org, archive, leave, transfer, accept, remove_member, add_member, list_mine,
  list_members, list_invitations, step, serve, On, get_org-On, list_mine-On, list_members-On,
  list_invitations-On,
}
use gutencode_test.Domains.Orgs.Writes.{
  create-On, archive-On, leave-On, transfer-On, accept-On, remove_member-On, add_member-On,
}

-- The same organization, perhaps archived since.
record Continues (old now : Org) : Type 0 where
  same_id : now.id ≡ old.id
  same_slug : now.slug ≡ old.slug
  same_owner : now.owner ≡ old.owner
  status_moves : (now.status ≡ old.status) ⊎ (now.status ≡ archived)

abbrev RowContinues : Org → Option Org → Type 0
RowContinues old row = (now : Org) × (row ≡ some now) × Continues old now

abbrev Lasts : Text → Org → Table Text Org → Table Text Member → Type 0
Lasts slug old records members = RowContinues old (get slug records)

module _ (slug : Text) (old : Org) where
  create-Lasts :
      (c : Call) (slug' : Text) (o : Orgs)
      → On (Lasts slug old) o
      → On (Lasts slug old) (mint_and_claim slug' c.caller o).1
  unfolding mint_and_claim
  create-Lasts c slug' o (now, held, same) =
      (now, get-claim_once_settled slug slug' _ now o.records held, same)

  archive_fn-Continues :
      (row : Option Org) (v : Org)
      → RowContinues old row
      → (archive_fn row).0 ≡ some v
      → RowContinues old (some v)
  unfolding archive_fn
  archive_fn-Continues none v live e = absurd (cc)
  archive_fn-Continues (some cur) v (now, held, same) e =
      let here : cur ≡ now = cc held in
      let ended : record cur { status = archived } ≡ v = cc e in
      (
        v,
        refl,
        rw (← ended) (
            rw here (record {
              same_id = same.same_id;
              same_slug = same.same_slug;
              same_owner = same.same_owner;
              status_moves = inr refl;
            })),
      )

  archive-Lasts :
      (slug' : Text) (o : Orgs)
      → On (Lasts slug old) o
      → On (Lasts slug old) (put_archived slug' o).1
  unfolding put_archived
  archive-Lasts slug' o live =
      do_-at (RowContinues old) slug slug' archive_fn o.records
        (λ v. archive_fn-Continues (get slug o.records) v live) live

  -- The swap is the owner's only.
  swap_fn-stranger :
      (caller new_owner : Text) (row : Option Org)
      → RowContinues old row
      → caller ≢ old.owner
      → (swap_fn caller new_owner row).0 ≡ none
  unfolding swap_fn
  swap_fn-stranger caller new_owner none live h = refl
  swap_fn-stranger caller new_owner (some cur) (now, held, same) h =
      let here : cur ≡ now = cc held in
      rw (
        ==_false cur.owner caller
          (λ e. h (sym e ∙ ap (λ (r : Org). r.owner) here ∙ same.same_owner)))

  swap-Lasts :
      (caller slug' new_owner : Text) (o : Orgs)
      → (slug' ≡ slug → caller ≢ old.owner)
      → On (Lasts slug old) o
      → On (Lasts slug old) (swap slug' caller new_owner o).1
  unfolding swap
  swap-Lasts caller slug' new_owner o h live = elim (Bool-cases (slug' == slug)) [
    | inr apart ↦
        rw
          (get-do_ne slug slug' (swap_fn caller new_owner) o.records
            (λ p. cc (ap (λ x. x == slug) p, ==_refl slug)))
          live
    | inl same ↦
        let here = ==_true slug' slug same in
        do_-at (RowContinues old) slug slug' (swap_fn caller new_owner) o.records
          (λ v e.
            absurd (cc (e, swap_fn-stranger caller new_owner (get slug o.records) live (h here))))
          live
  ]

-- The owner does not give the organization away.
abbrev pub RetainsIt : Text → Text → Call × Request → Type 0
RetainsIt slug owner (c, transfer slug' new_owner) = slug' ≡ slug → c.caller ≢ owner
RetainsIt slug owner (c, create slug') = Unit
RetainsIt slug owner (c, get_org slug') = Unit
RetainsIt slug owner (c, archive slug') = Unit
RetainsIt slug owner (c, leave slug') = Unit
RetainsIt slug owner (c, accept slug' token) = Unit
RetainsIt slug owner (c, remove_member slug' handle) = Unit
RetainsIt slug owner (c, add_member slug' handle role token) = Unit
RetainsIt slug owner (c, list_mine limit cursor) = Unit
RetainsIt slug owner (c, list_members slug' limit cursor) = Unit
RetainsIt slug owner (c, list_invitations slug' limit cursor) = Unit

module _ (h : Hash) (slug : Text) (old : Org) where
  step-Lasts :
      (c : Call) (request : Request) (o : Orgs)
      → RetainsIt slug old.owner (c, request)
      → On (Lasts slug old) o
      → On (Lasts slug old) (step h c request o)
  unfolding step
  step-Lasts c (transfer slug' new_owner) o kept live =
      (transfer-On (Lasts slug old) c slug' new_owner λ good s p. (
        swap-Lasts slug old c.caller slug' new_owner s kept p,
        inr ((unfold tombstone in λ s p. p), λ other. (unfold make_admin in λ s p. p)),
      )).at
        o live
  step-Lasts c (create slug') o kept live =
      (create-On (Lasts slug old) c slug' (create-Lasts slug old c slug')).at o live
  step-Lasts c (get_org slug') o kept live = (get_org-On (Lasts slug old) c slug').at o live
  step-Lasts c (archive slug') o kept live =
      (archive-On (Lasts slug old) c slug' (archive-Lasts slug old slug')).at o live
  step-Lasts c (leave slug') o kept live =
      (leave-On (Lasts slug old) c slug' (λ good. unfold delete_member in λ s p. p)).at o live
  step-Lasts c (accept slug' token) o kept live =
      (accept-On (Lasts slug old) h c slug' token (λ good. unfold consume in λ s p. p)).at o live
  step-Lasts c (remove_member slug' handle) o kept live =
      (remove_member-On (Lasts slug old) c slug' handle (λ good. unfold tombstone in λ s p. p)).at o
        live
  step-Lasts c (add_member slug' handle role token) o kept live =
      (add_member-On (Lasts slug old) h c slug' handle role token
          (λ good assignable. unfold upsert in λ s p. p)).at
        o live
  step-Lasts c (list_mine limit cursor) o kept live =
      (list_mine-On (Lasts slug old) c limit cursor).at o live
  step-Lasts c (list_members slug' limit cursor) o kept live =
      (list_members-On (Lasts slug old) c slug' limit cursor).at o live
  step-Lasts c (list_invitations slug' limit cursor) o kept live =
      (list_invitations-On (Lasts slug old) c slug' limit cursor).at o live

  serve-Lasts :
      (history : List (Call × Request)) (o : Orgs)
      → All (RetainsIt slug old.owner) history
      → On (Lasts slug old) o
      → On (Lasts slug old) (serve h history o)
  unfolding serve
  serve-Lasts [] o kept live = live
  serve-Lasts ((c, request) ∷ rest) o kept live =
      serve-Lasts rest (step h c request o) kept.1 (step-Lasts c request o kept.0 live)

owner_word-ne : (role : Text) → (role == codes "owner") ≡ false → role ≢ codes "owner"
owner_word-ne role apart e = cc (ap (λ r. r == codes "owner") e, ==_refl (codes "owner"))

-- No membership row confers ownership.
member_role-not_owner : (row : Option Member) → member_role row ≢ some (codes "owner")
unfolding member_role
member_role-not_owner none e = cc
member_role-not_owner (some m) e = elim (Bool-cases (is_active m.status)) [
  | inr off ↦ cc (rw off at e)
  | inl on ↦ elim (Bool-cases (m.role == codes "owner")) [
    | inl named ↦ cc (rw (on, named) at e)
    | inr other ↦
        let plain : some m.role ≡ some (codes "owner") = rw (on, other) at e in
        owner_word-ne m.role other (cc plain)
  ]
]

-- The owner of the record is the one subject with the owner's role.
one_owner :
    (records : Table Text Org) (members : Table Text Member) (slug subject : Text) (rec : Org)
    → get slug records ≡ some rec
    → (org_role records members slug subject ≡ some (codes "owner")) ↔ (subject ≡ rec.owner)
unfolding org_role role_of
one_owner records members slug subject rec found = elim (Bool-cases (rec.owner == subject)) [
  | inl same ↦ rw (found, same) ((λ _. sym (==_true rec.owner subject same)), (λ _. refl))
  | inr apart ↦
      rw (found, apart)
        (
          (λ e. absurd (member_role-not_owner (get (composite slug subject) members) e)),
          (λ e. cc (ap (λ s. rec.owner == s) e, ==_refl rec.owner, apart)),
        )
]

-- After any history of requests of any callers, invitations, removals, departures and claims of the slug
-- included, in which the owner makes no transfer of the organization, it is there with its id, its slug
-- and its owner, and with its status as it was or archived; the owner has the role of owner in it, and nobody else has.
pub never_ownerless :
    (h : Hash) (history : List (Call × Request)) (slug : Text) (old : Org) (o : Orgs)
    → get slug o.records ≡ some old
    → All (RetainsIt slug old.owner) history
    → let after = serve h history o in
      ((now : Org) × (get slug after.records ≡ some now)
        × (now.id ≡ old.id)
        × (now.slug ≡ old.slug)
        × (now.owner ≡ old.owner)
        × ((now.status ≡ old.status) ⊎ (now.status ≡ archived)))
      × ((subject : Text)
          → (role_in slug subject after ≡ some (codes "owner")) ↔ (subject ≡ old.owner))
never_ownerless h history slug old o found kept =
    let start : RowContinues old (get slug o.records) = (
      old,
      found,
      record { same_id = refl; same_slug = refl; same_owner = refl; status_moves = inl refl },
    ) in
    let (now, held, same) = serve-Lasts h slug old history o kept start in
    let after = serve h history o in
    (
      (now, held, same.same_id, same.same_slug, same.same_owner, same.status_moves),
      λ subject.
          rw (← same.same_owner) (one_owner after.records after.members slug subject now held),
    )
