-- ===== src/Domains/Orgs/Invited.antt =====
-- What each write of domains/orgs/router.py does to a subject who is not a member: nothing, unless they
-- present the token of their invitation.
use gutencode_test.Prelude.{
  ◌≡◌, ◌≢◌, refl, sym, ap, ◌∙◌, Bool, true, false, not, Option, none, some, [], ◌∷◌, Text, Text-Eq,
  ◌==◌, ==_true, ==_false, ==_refl, Bool-cases, inl, inr, arith, leb, ℕ, split_first,
}
use gutencode_test.Core.Table.{Table, get, do_}
use gutencode_test.Core.Table.Laws.{do_-at, get-do_ne, get-delete}
use gutencode_test.Core.OrgRole.{Org, OrgStatus, Member, removed, is_active, is_pending}
use gutencode_test.Parts.Claim.Settled.{get-claim_once_settled}
use gutencode_test.Parts.Digest.{Hash, digest_hex, join_colon}
use gutencode_test.Parts.WellFormed.{is_well_formed}
use gutencode_test.Parts.WellFormed.Keys.{composite, is_well_formed-Free}
use gutencode_test.Domains.Orgs.{
  Orgs, Call, mint_and_claim, tombstone, tombstone_fn, make_admin, archive_fn, put_archived,
}
use gutencode_test.Domains.Orgs.Members.{
  upsert, upsert_fn, invitation, consume, consume_fn, delete_member,
}
use gutencode_test.Domains.Orgs.Requests.{
  Request, create, get_org, archive, leave, transfer, accept, remove_member, add_member, list_mine,
  list_members, list_invitations, step, On,
}

-- A membership key belongs to one pair, if both slugs are well-formed.
key-injective :
    (slug subject slug' subject' : Text)
    → is_well_formed slug ≡ true
    → is_well_formed slug' ≡ true
    → composite slug' subject' ≡ composite slug subject
    → (slug' ≡ slug) × (subject' ≡ subject)
unfolding composite
key-injective slug subject slug' subject' good good' e =
    split_first 0x1F slug' subject' slug subject (is_well_formed-Free 0x1F slug' refl good')
      (is_well_formed-Free 0x1F slug refl good) e

module _ (h : Hash) (knows : Text → Bool) where
  -- The row is inactive, and if it is pending its secret is none that is known.
  abbrev pub IsOutside : Member → Type 0
  IsOutside m =
      (is_active m.status ≡ false)
      × ((token : Text) → knows token ≡ true → digest_hex h (token ∷ []) ≢ m.secret_hash)

  abbrev pub RowOutside : Option Member → Type 0
  RowOutside row = (m : Member) → row ≡ some m → IsOutside m

  abbrev pub NotOwned : Text → Option Org → Type 0
  NotOwned subject row = (rec : Org) × (row ≡ some rec) × (rec.owner ≢ subject)

  -- The subject is neither the owner nor a member, and could not accept.
  abbrev pub Outside : Text → Text → Table Text Org → Table Text Member → Type 0
  Outside slug subject records members =
      NotOwned subject (get slug records) × RowOutside (get (composite slug subject) members)

  -- An update of a members' row: of another key, or one whose callback keeps the subject outside.
  update-Outside :
      {R : Type 0} (key key' : Text) (fn : Option Member → Option Member × R)
      (members : Table Text Member)
      → RowOutside (get key members)
      → (key' ≡ key → (v : Member) → (fn (get key members)).0 ≡ some v → IsOutside v)
      → RowOutside (get key (do_ key' fn members).1)
  update-Outside key key' fn members out step = elim (Bool-cases (key' == key)) [
    | inr apart ↦
        rw (get-do_ne key key' fn members (λ p. cc (ap (λ x. x == key) p, ==_refl key, apart))) out
    | inl same ↦
        do_-at RowOutside key key' fn members
          (λ v e m found.
            let here : v ≡ m = cc found in rw (← here) (step (==_true key' key same) v e))
          out
  ]

  tombstone_fn-Outside :
      (row : Option Member) (v : Member)
      → RowOutside row
      → (tombstone_fn row).0 ≡ some v
      → IsOutside v
  unfolding tombstone_fn
  tombstone_fn-Outside none v out e = absurd (cc)
  tombstone_fn-Outside (some cur) v out e =
      let ended : record cur { status = removed } ≡ v = cc e in
      rw (← ended) (refl, (out cur refl).1)

  invitation-Outside :
      (slug handle role token : Text) (exp : ℕ)
      → knows token ≡ false
      → IsOutside (invitation slug handle role (digest_hex h (token ∷ [])) exp)
  unfolding invitation digest_hex join_colon
  invitation-Outside slug handle role token exp unknown =
      (refl, λ t known e. cc (ap knows (h.injective t token e), known, unknown))

  upsert_fn-Outside :
      (slug handle role token : Text) (exp : ℕ) (row : Option Member) (v : Member)
      → knows token ≡ false
      → RowOutside row
      → (upsert_fn slug handle role (digest_hex h (token ∷ [])) exp row).0 ≡ some v
      → IsOutside v
  unfolding upsert_fn
  upsert_fn-Outside slug handle role token exp none v unknown out e =
      let made : invitation slug handle role (digest_hex h (token ∷ [])) exp ≡ v = cc e in
      rw (← made) (invitation-Outside slug handle role token exp unknown)
  upsert_fn-Outside slug handle role token exp (some cur) v unknown out e =
      let idle = (out cur refl).0 in
      let again : some (invitation slug handle role (digest_hex h (token ∷ [])) exp) ≡ some v =
        rw idle at e in
      let made : invitation slug handle role (digest_hex h (token ∷ [])) exp ≡ v = cc again in
      rw (← made) (invitation-Outside slug handle role token exp unknown)

  consume_fn-none :
      (slug caller token : Text) (now : ℕ) (row : Option Member)
      → knows token ≡ true
      → RowOutside row
      → (consume_fn h slug caller token now row).0 ≡ none
  unfolding consume_fn
  consume_fn-none slug caller token now none known out = refl
  consume_fn-none slug caller token now (some cur) known out =
      let wrong : (digest_hex h (token ∷ []) == cur.secret_hash) ≡ false =
        ==_false (digest_hex h (token ∷ [])) cur.secret_hash ((out cur refl).1 token known) in
      elim (Bool-cases (not (is_pending cur.status))) [
        | inl idle ↦ rw idle
        | inr open_ ↦ elim (Bool-cases (leb cur.invite_exp now)) [
          | inl over ↦ rw (open_, over)
          | inr live ↦ rw (open_, live, wrong) (ground arith)
        ]
      ]

  -- The subject learns no token: each accept of theirs presents one that they know, no invitation of
  -- theirs is minted with one, and nobody transfers the organization to them.
  abbrev pub LearnsNone : Text → Text → Call × Request → Type 0
  LearnsNone slug subject (c, transfer slug' new_owner) = slug' ≡ slug → new_owner ≢ subject
  LearnsNone slug subject (c, accept slug' token) =
      slug' ≡ slug → c.caller ≡ subject → knows token ≡ true
  LearnsNone slug subject (c, add_member slug' handle role token) =
      slug' ≡ slug → handle ≡ subject → knows token ≡ false
  LearnsNone slug subject (c, create slug') = Unit
  LearnsNone slug subject (c, get_org slug') = Unit
  LearnsNone slug subject (c, archive slug') = Unit
  LearnsNone slug subject (c, leave slug') = Unit
  LearnsNone slug subject (c, remove_member slug' handle) = Unit
  LearnsNone slug subject (c, list_mine limit cursor) = Unit
  LearnsNone slug subject (c, list_members slug' limit cursor) = Unit
  LearnsNone slug subject (c, list_invitations slug' limit cursor) = Unit

  module _ (slug subject : Text) (good : is_well_formed slug ≡ true) where
    abbrev pub key : Text
    key = composite slug subject

    pub create-Outside :
        (c : Call) (slug' : Text) (o : Orgs)
        → On (Outside slug subject) o
        → On (Outside slug subject) (mint_and_claim slug' c.caller o).1
    unfolding mint_and_claim
    create-Outside c slug' o ((rec, held, other), out) =
        ((rec, get-claim_once_settled slug slug' _ rec o.records held, other), out)

    archive_fn-NotOwned :
        (row : Option Org) (v : Org)
        → NotOwned subject row
        → (archive_fn row).0 ≡ some v
        → NotOwned subject (some v)
    unfolding archive_fn
    archive_fn-NotOwned none v owned e = absurd (cc)
    archive_fn-NotOwned (some cur) v (rec, held, other) e =
        let here : cur ≡ rec = cc held in
        let ended : record cur { status = OrgStatus.archived } ≡ v = cc e in
        (
          v,
          refl,
          λ p. other (ap (λ (r : Org). r.owner) (sym here) ∙ ap (λ (r : Org). r.owner) ended ∙ p),
        )

    pub archive-Outside :
        (slug' : Text) (o : Orgs)
        → On (Outside slug subject) o
        → On (Outside slug subject) (put_archived slug' o).1
    unfolding put_archived
    archive-Outside slug' o (owned, out) = (
      do_-at (NotOwned subject) slug slug' archive_fn o.records
          (λ v. archive_fn-NotOwned (get slug o.records) v owned) owned,
      out,
    )

    pub tombstone-Outside :
        (slug' handle : Text) (o : Orgs)
        → On (Outside slug subject) o
        → On (Outside slug subject) (tombstone slug' handle o).1
    unfolding tombstone
    tombstone-Outside slug' handle o (owned, out) = (
      owned,
      update-Outside key (composite slug' handle) tombstone_fn o.members out
          (λ same v. tombstone_fn-Outside (get key o.members) v out),
    )

    pub leave-Outside :
        (slug' caller : Text) (o : Orgs)
        → On (Outside slug subject) o
        → On (Outside slug subject) (delete_member slug' caller o).1
    unfolding delete_member
    leave-Outside slug' caller o (owned, out) = (
      owned,
      λ m found. out m (ground (arith, get-delete key (composite slug' caller) o.members)),
    )

    pub upsert-Outside :
        (slug' handle role token : Text) (exp : ℕ) (o : Orgs)
        → is_well_formed slug' ≡ true
        → (slug' ≡ slug → handle ≡ subject → knows token ≡ false)
        → On (Outside slug subject) o
        → On (Outside slug subject) (upsert slug' handle role (digest_hex h (token ∷ [])) exp o).1
    unfolding upsert
    upsert-Outside slug' handle role token exp o good' unknown (owned, out) = (
      owned,
      update-Outside key (composite slug' handle) _ o.members out (λ same v.
          let parts = key-injective slug subject slug' handle good good' same in
          upsert_fn-Outside slug' handle role token exp (get key o.members) v
            (unknown parts.0 parts.1) out),
    )

    pub consume-Outside :
        (slug' caller token : Text) (now : ℕ) (o : Orgs)
        → is_well_formed slug' ≡ true
        → (slug' ≡ slug → caller ≡ subject → knows token ≡ true)
        → On (Outside slug subject) o
        → On (Outside slug subject) (consume h slug' caller token now o).1
    unfolding consume
    consume-Outside slug' caller token now o good' known (owned, out) = (
      owned,
      update-Outside key (composite slug' caller) _ o.members out (λ same v e.
          let parts = key-injective slug subject slug' caller good good' same in
          absurd (
            cc (
              e,
              consume_fn-none slug' caller token now (get key o.members) (known parts.0 parts.1)
                  out,
            ))),
    )

    pub make_admin-Outside :
        (slug' caller : Text) (o : Orgs)
        → is_well_formed slug' ≡ true
        → (slug' ≡ slug → caller ≢ subject)
        → On (Outside slug subject) o
        → On (Outside slug subject) (make_admin slug' caller o).1
    unfolding make_admin
    make_admin-Outside slug' caller o good' apart (owned, out) = (
      owned,
      update-Outside key (composite slug' caller) _ o.members out (λ same v e.
          let parts = key-injective slug subject slug' caller good good' same in
          absurd (apart parts.0 parts.1)),
    )
