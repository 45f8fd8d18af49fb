-- ===== src/Domains/Orgs/Writes.antt =====
-- A handler of domains/orgs/router.py keeps a predicate of the organizations and the members if its
-- writes do. A write is reached for a well-formed slug only.
use gutencode_test.Prelude.{
  ◌≡◌, ◌⊎◌, true, false, Option, none, List, [], ◌∷◌, Text, Text-Eq, ◌==◌, elem, Bool-cases, inl,
  inr, if◌then◌else◌, ◌+◌,
}
use gutencode_test.Core.Exec.{Exec, pure, atomically, ◌>>=◌}
use gutencode_test.Core.Exec.Keeps.{
  Keeps, Keeps-bind, Keeps-gets, Keeps-require, Keeps-pure, Keeps-atomically, Keeps-or_raise,
  Keeps-after, keeps_rules,
}
use gutencode_test.Core.Table.{Table}
use gutencode_test.Core.OrgRole.{Org, Member, MemberStatus, pending, active, removed}
use gutencode_test.Parts.Digest.{Hash, digest_hex}
use gutencode_test.Parts.WellFormed.{is_well_formed}
use gutencode_test.Domains.Orgs
use gutencode_test.Domains.Orgs.Members
use gutencode_test.Domains.Orgs.{
  Orgs, Call, load, manage, mint_and_claim, swap, finish_transfer, tombstone, make_admin,
  put_archived, assignable_roles, is_none, audit,
}
use gutencode_test.Domains.Orgs.Members.{
  upsert, deliver_invite, announce, invite, consume, settle, Outcome, missing, expired, badtoken,
  accepted, delete_member, remove, go, keep_owner, stay_owner,
}
use gutencode_test.Domains.Orgs.Requests.{
  On, audit-On, deny_role-On, deny_accept-On, keep_owner-On, stay_owner-On, load-On, manage-On,
  Keeps-choice,
}

module _ (P : Table Text Org → Table Text Member → Type 0) where
  abbrev Kept {ℓ} : {A : Type ℓ} → (Orgs → A × Orgs) → Type 0
  Kept m = (o : Orgs) → On P o → On P (m o).1

  load_then :
      {A : Type 0} (slug : Text) (next : Org → Exec Orgs A)
      → (is_well_formed slug ≡ true → (org : Org) → Keeps (On P) (next org))
      → Keeps (On P) (load slug >>= next)
  load_then slug next k = elim (Bool-cases (is_well_formed slug)) [
    | inl good ↦ Keeps-bind (load slug) next (load-On P slug) (k good)
    | inr bad ↦ record { at = λ s p. unfold load ◌>>=◌ in rw bad p }
  ]

  manage_then :
      {A : Type 0} (allowed : List Text) (c : Call) (slug : Text) (next : Org → Exec Orgs A)
      → (is_well_formed slug ≡ true → (org : Org) → Keeps (On P) (next org))
      → Keeps (On P) (manage allowed c slug >>= next)
  manage_then allowed c slug next k = elim (Bool-cases (is_well_formed slug)) [
    | inl good ↦ Keeps-bind (manage allowed c slug) next (manage-On P allowed c slug) (k good)
    | inr bad ↦ record { at = λ s p. unfold manage load ◌>>=◌ in rw bad p }
  ]

  pub create-On :
      (c : Call) (slug : Text)
      → Kept (mint_and_claim slug c.caller)
      → Keeps (On P) (Orgs.create c slug)
  unfolding Orgs.create
  create-On c slug k = Keeps-bind _ _ (Keeps-require _ _) λ valid.
      Keeps-bind _ _ (Keeps-gets _) λ taken. Keeps-bind _ _ (Keeps-require _ _) λ free.
        Keeps-bind _ _ (Keeps-atomically (mint_and_claim slug c.caller) k) λ both.
          Keeps-bind _ _ (Keeps-require _ _)
            λ won. Keeps-bind _ _ (audit-On P c _ _ _ _ _) λ _. Keeps-pure _

  pub archive-On :
      (c : Call) (slug : Text) → Kept (put_archived slug) → Keeps (On P) (Orgs.archive c slug)
  unfolding Orgs.archive
  archive-On c slug k = Keeps-bind _ _ (manage-On P _ c slug) λ org.
      Keeps-bind _ _ (Keeps-atomically (put_archived slug) k) λ ended.
        Keeps-bind _ _ (Keeps-or_raise _ _)
          λ rec. Keeps-bind _ _ (audit-On P c _ _ _ _ _) λ _. Keeps-pure _

  pub leave-On :
      (c : Call) (slug : Text)
      → (is_well_formed slug ≡ true → Kept (delete_member slug c.caller))
      → Keeps (On P) (Members.leave c slug)
  unfolding Members.leave go
  leave-On c slug k = load_then slug _ λ good org.
      let written = Keeps-atomically (delete_member slug c.caller) (k good) in
      Keeps-bind _ _ (Keeps-gets _) λ role. Keeps-bind _ _ (Keeps-require _ _) λ there.
        Keeps-choice (c.caller == org.owner) _ _ (stay_owner-On P c slug)
          (Keeps-bind _ _ written λ _. audit-On P c _ _ _ _ _)

  pub remove_member-On :
      (c : Call) (slug handle : Text)
      → (is_well_formed slug ≡ true → Kept (tombstone slug handle))
      → Keeps (On P) (Members.remove_member c slug handle)
  unfolding Members.remove_member remove
  remove_member-On c slug handle k = manage_then _ c slug _ λ good org.
      let written = Keeps-atomically (tombstone slug handle) (k good) in
      Keeps-bind _ _ (Keeps-require _ _) λ valid.
        Keeps-choice (handle == org.owner) _ _ (keep_owner-On P c slug handle)
          (Keeps-bind _ _ written λ _. audit-On P c _ _ _ _ _)

  announce-On :
      (c : Call) (slug handle token : Text) (status : MemberStatus)
      → Keeps (On P) (announce c slug handle token status)
  unfolding announce
  announce-On c slug handle token pending =
      Keeps-bind _ _ (Keeps-atomically _ (unfold deliver_invite in λ s p. p))
        λ _. audit-On P c _ _ _ _ _
  announce-On c slug handle token active = audit-On P c _ _ _ _ _
  announce-On c slug handle token removed = audit-On P c _ _ _ _ _

  pub add_member-On :
      (h : Hash) (c : Call) (slug handle role token : Text)
      → (is_well_formed slug ≡ true
          → elem role assignable_roles ≡ true
          → Kept (upsert slug handle role (digest_hex h (token ∷ [])) (c.now + c.invite_ttl)))
      → Keeps (On P) (Members.add_member h c slug handle role token)
  unfolding Members.add_member invite
  add_member-On h c slug handle role token k = manage_then _ c slug _ λ good org.
      Keeps-bind _ _ (Keeps-require _ _) λ valid. elim (Bool-cases (elem role assignable_roles)) [
        | inr no_ ↦ rw no_ (deny_role-On P c slug handle)
        | inl assignable ↦ rw assignable (
            Keeps-bind _ _ (Keeps-atomically _ (k good assignable))
              λ status. Keeps-bind _ _ (announce-On c slug handle token status) λ _. Keeps-pure _)
      ]

  settle-On : (c : Call) (slug : Text) (out : Outcome) → Keeps (On P) (settle c slug out)
  unfolding settle
  settle-On c slug missing = deny_accept-On P c slug _ _
  settle-On c slug expired = deny_accept-On P c slug _ _
  settle-On c slug badtoken = deny_accept-On P c slug _ _
  settle-On c slug accepted = search (audit-On P, keeps_rules)

  pub accept-On :
      (h : Hash) (c : Call) (slug token : Text)
      → (is_well_formed slug ≡ true → Kept (consume h slug c.caller token c.now))
      → Keeps (On P) (Members.accept h c slug token)
  unfolding Members.accept
  accept-On h c slug token k = Keeps-bind _ _ (Keeps-require _ _) λ valid.
      load_then slug _
        λ good org. Keeps-bind _ _ (Keeps-atomically _ (k good)) λ out. settle-On c slug out

  finish_transfer-On :
      (c : Call) (slug new_owner : Text) (swapped : Option Org)
      → Kept (tombstone slug new_owner)
      → ((new_owner == c.caller) ≡ false → Kept (make_admin slug c.caller))
      → Keeps (On P) (finish_transfer c slug new_owner swapped)
  unfolding finish_transfer
  finish_transfer-On c slug new_owner swapped ends promotes =
      Keeps-bind _ _ (Keeps-or_raise _ _) λ transferred.
        Keeps-bind _ _ (Keeps-atomically _ ends) λ _.
          Keeps-bind _ _ promoted λ _. Keeps-bind _ _ (audit-On P c _ _ _ _ _) λ _. Keeps-pure _
    where
      promoted :
          Keeps
            (On P)
            (if new_owner == c.caller then pure tt else atomically (make_admin slug c.caller))
      promoted = elim (Bool-cases (new_owner == c.caller)) [
        | inl same ↦ rw same (Keeps-pure tt)
        | inr other ↦ rw other (Keeps-atomically _ (promotes other))
      ]

  lost-On :
      (c : Call) (slug new_owner : Text) → Keeps (On P) (finish_transfer c slug new_owner none)
  unfolding finish_transfer
  lost-On c slug new_owner = record { at = λ s p. unfold ◌>>=◌ in p }

  -- Either the swap is lost, or the two projections keep the predicate too.
  pub transfer-On :
      (c : Call) (slug new_owner : Text)
      → (is_well_formed slug ≡ true
          → (o : Orgs) → On P o
          → On P (swap slug c.caller new_owner o).1
            × (((swap slug c.caller new_owner o).0 ≡ none)
                ⊎ (Kept (tombstone slug new_owner)
                    × ((new_owner == c.caller) ≡ false → Kept (make_admin slug c.caller)))))
      → Keeps (On P) (Orgs.transfer c slug new_owner)
  unfolding Orgs.transfer
  transfer-On c slug new_owner k = manage_then _ c slug _ λ good org.
      Keeps-bind _ _ (Keeps-require _ _) λ valid. Keeps-after _ _ λ o p.
        let (kept, next) = k good o p in
        (
          kept,
          elim next [
            | inl lost ↦ rw lost (lost-On c slug new_owner)
            | inr (ends, promotes) ↦ finish_transfer-On c slug new_owner _ ends promotes
          ],
        )
