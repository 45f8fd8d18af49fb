-- ===== src/Domains/Users/Handles.antt =====
-- A handle has one owner for good, whose account only its owner or an admin ends.
use gutencode_test.Prelude.{
  ◌≡◌, ◌⊎◌, refl, sym, ap, ◌∙◌, Bool, true, ◌||◌, some, List, [], ◌∷◌, Text, Text-Eq, ℕ-Eq, ◌==◌,
  ==_true, ==_refl, Bool-cases, Option-cases, inl, inr,
}
use gutencode_test.Core.Exec.{◌>>=◌}
use gutencode_test.Core.Exec.Keeps.{
  Keeps, Keeps-bind, Keeps-gets, Keeps-require, Keeps-pure, Keeps-atomically, keeps_rules,
}
use gutencode_test.Core.Table.{get}
use gutencode_test.Core.Table.Laws.{get-put_ne, get-put_self}
use gutencode_test.Parts.Claim.Settled.{get-claim_once_settled}
use gutencode_test.Parts.WellFormed.{is_well_formed}
use gutencode_test.Domains.Users
use gutencode_test.Domains.Users.{User, Users, deactivated, mint_and_claim, put_deactivated}

pub data Request : Type 0 where
  create : Text → Text → Request
  get_user : Text → Request
  deactivate : Text → Request

module _ (admin : Text → Bool) where
  unfoldable pub step : Text → Request → Users → Users
  step caller (Request.create handle display_name) u = (Users.create handle display_name caller u).1
  step caller (Request.get_user handle) u = (Users.get_user handle u).1
  step caller (Request.deactivate handle) u = (Users.deactivate admin handle caller u).1

  unfoldable pub serve : List (Text × Request) → Users → Users
  serve [] u = u
  serve ((caller, r) ∷ rest) u = serve rest (step caller r u)

-- The profile of a handle is as it was, or the same one deactivated.
abbrev pub OnlyDeactivates : Text → User → Users → Type 0
OnlyDeactivates handle user u =
    (now : User) × (get handle u.profiles ≡ some now)
    × ((now ≡ user) ⊎ (now ≡ record user { status = deactivated }))

mint_and_claim-OnlyDeactivates :
    (handle : Text) (user : User) (other display_name : Text) (u : Users)
    → OnlyDeactivates handle user u
    → OnlyDeactivates handle user (mint_and_claim other display_name u).1
unfolding mint_and_claim
mint_and_claim-OnlyDeactivates handle user other display_name u (now, held, became) =
    (now, get-claim_once_settled handle other _ now u.profiles held, became)

create-OnlyDeactivates :
    (handle : Text) (user : User) (other display_name caller : Text)
    → Keeps (OnlyDeactivates handle user) (Users.create other display_name caller)
unfolding Users.create
create-OnlyDeactivates handle user other display_name caller =
    Keeps-bind _ _ (Keeps-require _ _) λ good. Keeps-bind _ _ (Keeps-require _ _) λ own.
      Keeps-bind _ _ (Keeps-gets _) λ taken. Keeps-bind _ _ (Keeps-require _ _) λ free.
        Keeps-bind _ _
          (Keeps-atomically _ (mint_and_claim-OnlyDeactivates handle user other display_name))
          λ both. Keeps-bind _ _ (Keeps-require _ _) λ won. Keeps-pure _

get_user-OnlyDeactivates :
    (handle : Text) (user : User) (other : Text)
    → Keeps (OnlyDeactivates handle user) (Users.get_user other)
unfolding Users.get_user
get_user-OnlyDeactivates handle user other = search keeps_rules

-- What a deactivation does: nothing, or the account ends and its caller may end it.
deactivate_lem :
    (admin : Text → Bool) (handle caller : Text) (u : Users)
    → ((Users.deactivate admin handle caller u).1 ≡ u)
      ⊎ ((user : User) × (get handle u.profiles ≡ some user)
          × ((caller == handle || admin caller) ≡ true)
          × ((Users.deactivate admin handle caller u).1 ≡ (put_deactivated handle user u).1))
unfolding Users.deactivate ◌>>=◌
deactivate_lem admin handle caller u = elim (Bool-cases (caller == handle || admin caller)) [
  | inr stranger ↦ inl (rw stranger)
  | inl may ↦ elim (Bool-cases (is_well_formed handle)) [
    | inr bad ↦ inl (rw (may, bad))
    | inl good ↦ elim (Option-cases (get handle u.profiles)) [
      | inl missing ↦ inl (rw (may, good, missing))
      | inr (user, held) ↦ inr (user, held, may, rw (may, good, held))
    ]
  ]
]

deactivated_of : User → User
deactivated_of user = record user { status = deactivated }

put_deactivated-OnlyDeactivates :
    (handle : Text) (user : User) (other : Text) (old : User) (u : Users)
    → get other u.profiles ≡ some old
    → OnlyDeactivates handle user u
    → OnlyDeactivates handle user (put_deactivated other old u).1
unfolding put_deactivated
put_deactivated-OnlyDeactivates handle user other old u was (now, held, became) =
    elim (Bool-cases (other == handle)) [
      | inr apart ↦ (
        now,
        get-put_ne handle other _ u.profiles (λ p. cc (rw (p, ==_refl handle) at apart)) ∙ held,
        became,
      )
      | inl same ↦
          let here = ==_true other handle same in
          let as_now : some old ≡ some now = sym (rw here at was) ∙ held in
          let row : old ≡ now = cc as_now in
          (
            deactivated_of old,
            unfold deactivated_of in
                rw here (get-put_self handle (record old { status = deactivated }) u.profiles),
            inr (ap deactivated_of row ∙ still became),
          )
    ]
  where
    still :
        (now ≡ user) ⊎ (now ≡ record user { status = deactivated })
        → deactivated_of now ≡ record user { status = deactivated }
    still (inl p) = ap deactivated_of p ∙ (unfold deactivated_of in refl)
    still (inr p) = ap deactivated_of p ∙ (unfold deactivated_of in refl)

step-OnlyDeactivates :
    (admin : Text → Bool) (handle : Text) (user : User) (caller : Text) (r : Request) (u : Users)
    → OnlyDeactivates handle user u
    → OnlyDeactivates handle user (step admin caller r u)
unfolding step
step-OnlyDeactivates admin handle user caller (Request.create other display_name) u s =
    (create-OnlyDeactivates handle user other display_name caller).at u s
step-OnlyDeactivates admin handle user caller (Request.get_user other) u s =
    (get_user-OnlyDeactivates handle user other).at u s
step-OnlyDeactivates admin handle user caller (Request.deactivate other) u s =
    elim (deactivate_lem admin other caller u) [
      | inl same ↦ rw same s
      | inr (old, was, may, e) ↦
          rw e (put_deactivated-OnlyDeactivates handle user other old u was s)
    ]

serve-OnlyDeactivates :
    (admin : Text → Bool) (requests : List (Text × Request)) (handle : Text) (user : User)
    (u : Users)
    → OnlyDeactivates handle user u
    → OnlyDeactivates handle user (serve admin requests u)
unfolding serve
serve-OnlyDeactivates admin [] handle user u s = s
serve-OnlyDeactivates admin ((caller, r) ∷ rest) handle user u s =
    serve-OnlyDeactivates admin rest handle user (step admin caller r u)
      (step-OnlyDeactivates admin handle user caller r u s)

-- Once a handle has a profile, it has it for good: after any requests of any callers, creations of the
-- same handle included, the profile is the same one, as it was or deactivated, so its id and its names
-- never change and a deactivated account never becomes active again.
pub profile_only_deactivates :
    (admin : Text → Bool) (requests : List (Text × Request)) (handle : Text) (user : User)
    (u : Users)
    → get handle u.profiles ≡ some user
    → (now : User) × (get handle (serve admin requests u).profiles ≡ some now)
      × ((now ≡ user) ⊎ (now ≡ record user { status = deactivated }))
profile_only_deactivates admin requests handle user u held =
    serve-OnlyDeactivates admin requests handle user u (user, held, inl refl)
