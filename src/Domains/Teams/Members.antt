-- ===== src/Domains/Teams/Members.antt =====
-- The members of a team are a map from handles to roles, which the managers of its organization write.
use gutencode_test.Prelude.{
  ℕ, ◌+◌, ◌≤◌, ◌≡◌, refl, sym, ap, ◌∙◌, Bool, true, ◌&&◌, some, List, [], ◌∷◌, Text, Text-Eq, ℕ-Eq,
  ◌==◌, ==_true, ==_refl, Bool-cases, inl, inr, arith, length, if◌then◌else◌,
}
use gutencode_test.Core.Table.{get, put, next_id}
use gutencode_test.Core.Table.Laws.{AllAt, AllAt-put, get-put_ne, get-put_self}
use gutencode_test.Parts.WellFormed.{is_well_formed}
use gutencode_test.Domains.Teams
use gutencode_test.Domains.Teams.{
  TeamMember, Team, Teams, Call, is_non_empty, manages, insert, put_members, upsert, sort_members,
  without,
}
use gutencode_test.Domains.Teams.Sorted.{roles_of, roles_of-sort, roles_of-without, roles_of-upsert}
use gutencode_test.Domains.Teams.Requests.{
  Request, step, serve, Edited, add_member_lem, remove_member_lem, create_lem, get_team_lem,
}

abbrev pub no_teams : Teams
no_teams = record { records = []; last_id = 0 }

-- A stored team is under its own minted id, and no handle has two rows.
pub record IsSound (last team_id : ℕ) (t : Team) : Type 0 where
  pub keyed : t.id ≡ team_id
  pub minted : team_id ≤ last
  pub single : (h : Text) → length (roles_of h t.members) ≤ 1

abbrev AllSound : Teams → Type 0
AllSound b = AllAt (IsSound b.last_id) b.records

-- A handle's rows after a write of them by a manager of the organization, and after any other call.
abbrev written : Text → List Text → Text → List Text → List Text
written handle rows h old = if handle == h then rows else old

written-single :
    (handle h : Text) (rows old : List Text)
    → length rows ≤ 1
    → length old ≤ 1
    → length (written handle rows h old) ≤ 1
written-single handle h rows old few held = elim (Bool-cases (handle == h)) [
  | inl here ↦ rw here few
  | inr other ↦ rw other held
]

-- The handle's roles in the team after a request, from those before it.
pub effect : Call → Request → ℕ → Team → Text → List Text → List Text
effect c (Request.create org name) team_id t h old = old
effect c (Request.get_team k) team_id t h old = old
effect c (Request.add_member k handle role) team_id t h old =
    if k == team_id && (manages c t.org && (is_well_formed handle && is_non_empty role))
    then written handle (role ∷ []) h old
    else old
effect c (Request.remove_member k handle) team_id t h old =
    if k == team_id && (manages c t.org && is_well_formed handle)
    then written handle [] h old
    else old

-- The team is there, of the same id, organization and name, and with the given roles.
pub Becomes : ℕ → Team → (Text → List Text) → Teams → Type 0
Becomes team_id t roles b =
    (now : Team) × (get team_id b.records ≡ some now)
    × (now.id ≡ t.id)
    × (now.org ≡ t.org)
    × (now.name ≡ t.name)
    × ((h : Text) → roles_of h now.members ≡ roles h)

abbrev with_members : Team → List TeamMember → Team
with_members t members = record t { members = members }

edit-AllSound :
    (c : Call) (k : ℕ) (valid : Bool) (change : List TeamMember → List TeamMember) (handle : Text)
    (rows : List Text) (b b' : Teams)
    → length rows ≤ 1
    → ((h : Text) (ms : List TeamMember)
        → roles_of h (change ms) ≡ written handle rows h (roles_of h ms))
    → AllSound b
    → Edited c k valid change b b'
    → AllSound b'
edit-AllSound c k valid change handle rows b b' few writes s (Edited.refused refuses same) =
    rw same s
edit-AllSound c k valid change handle rows b b' few writes s (Edited.changed t held ours good e) =
    let q = s k t held in
    rw e (
      unfold put_members in
      AllAt-put (IsSound b.last_id) t.id (with_members t (change t.members)) b.records
        (record {
          keyed = refl;
          minted = omega (arith, q.keyed, q.minted);
          single = λ h. rw (writes h t.members) (written-single handle h rows _ few (q.single h));
        })
        s)

edit-Becomes :
    (c : Call) (k : ℕ) (valid : Bool) (change : List TeamMember → List TeamMember) (handle : Text)
    (rows : List Text) (b b' : Teams) (team_id : ℕ) (t : Team)
    → ((h : Text) (ms : List TeamMember)
        → roles_of h (change ms) ≡ written handle rows h (roles_of h ms))
    → AllSound b
    → get team_id b.records ≡ some t
    → Edited c k valid change b b'
    → Becomes team_id t
        (λ h.
          if k == team_id && (manages c t.org && valid)
          then written handle rows h (roles_of h t.members)
          else roles_of h t.members)
        b'
unfolding Becomes
edit-Becomes c k valid change handle rows b b' team_id t writes s held
      (Edited.refused refuses same) =
    (
      t,
      rw same held,
      refl,
      refl,
      refl,
      λ h. elim (Bool-cases (k == team_id)) [
        | inr other ↦ rw other
        | inl here ↦ let may = refuses t (rw (==_true k team_id here) held) in rw (here, may)
      ],
    )
edit-Becomes c k valid change handle rows b b' team_id t writes s held
      (Edited.changed u found ours good e) =
    let u_at = (s k u found).keyed in
    elim (Bool-cases (k == team_id)) [
      | inr other ↦ (
        t,
        rw e (
            unfold put_members in
            (get-put_ne team_id u.id _ b.records
                (λ p. cc (rw (sym u_at ∙ p) at other, ==_refl team_id))
              ∙ held)),
        refl,
        refl,
        refl,
        λ h. rw other,
      )
      | inl here ↦
          let k_at = ==_true k team_id here in
          let both : some u ≡ some t = sym found ∙ rw k_at held in
          let same : u ≡ t = cc both in
          let ours_t : manages c t.org ≡ true = rw same at ours in
          (
            with_members t (change t.members),
            rw e (
                unfold put_members in
                (ap (λ key. get team_id (put key (with_members u (change u.members)) b.records))
                    (u_at ∙ k_at)
                  ∙ get-put_self team_id (with_members u (change u.members)) b.records
                  ∙ ap (λ v. some (with_members v (change v.members))) same)),
            refl,
            refl,
            refl,
            λ h. rw (here, ours_t, good) (writes h t.members),
          )
    ]

step-AllSound : (c : Call) (r : Request) (b : Teams) → AllSound b → AllSound (step c r b)
unfolding step
step-AllSound c (Request.get_team k) b s = rw (get_team_lem c k b) s
step-AllSound c (Request.add_member k handle role) b s =
    edit-AllSound c k _ (upsert handle role) handle (role ∷ []) b _ (omega arith)
      (λ h ms. roles_of-upsert h handle role ms) s (add_member_lem c k handle role b)
step-AllSound c (Request.remove_member k handle) b s =
    edit-AllSound c k _ (λ ms. sort_members (without handle ms)) handle [] b _ (omega arith)
      (λ h ms. roles_of-sort h _ ∙ roles_of-without h handle ms) s (remove_member_lem c k handle b)
step-AllSound c (Request.create org name) b s = elim (create_lem c org name b) [
  | inl same ↦ rw same s
  | inr e ↦ rw e (
      unfold insert next_id in
      AllAt-put (IsSound (b.last_id + 1)) (b.last_id + 1) _ b.records
        (record {
          keyed = refl;
          minted = omega arith;
          single = λ h. unfold roles_of in omega arith;
        })
        (λ k v held.
          let q = s k v held in
          record { keyed = q.keyed; minted = omega (arith, q.minted); single = q.single }))
]

serve-AllSound_from :
    (history : List (Call × Request)) (b : Teams) → AllSound b → AllSound (serve history b)
unfolding serve
serve-AllSound_from [] b s = s
serve-AllSound_from ((c, r) ∷ rest) b s =
    serve-AllSound_from rest (step c r b) (step-AllSound c r b s)

step-Becomes :
    (c : Call) (r : Request) (b : Teams) (team_id : ℕ) (t : Team)
    → AllSound b
    → get team_id b.records ≡ some t
    → Becomes team_id t (λ h. effect c r team_id t h (roles_of h t.members)) (step c r b)
unfolding step effect
step-Becomes c (Request.add_member k handle role) b team_id t s held =
    edit-Becomes c k _ (upsert handle role) handle (role ∷ []) b _ team_id t
      (λ h ms. roles_of-upsert h handle role ms) s held (add_member_lem c k handle role b)
step-Becomes c (Request.remove_member k handle) b team_id t s held =
    edit-Becomes c k _ (λ ms. sort_members (without handle ms)) handle [] b _ team_id t
      (λ h ms. roles_of-sort h _ ∙ roles_of-without h handle ms) s held
      (remove_member_lem c k handle b)
step-Becomes c (Request.get_team k) b team_id t s held =
    unfold Becomes in (t, rw (get_team_lem c k b) held, refl, refl, refl, λ h. refl)
step-Becomes c (Request.create org name) b team_id t s held =
    unfold Becomes in (t, stays, refl, refl, refl, λ h. refl)
  where
    stays : get team_id (Teams.create c org name b).1.records ≡ some t
    stays = elim (create_lem c org name b) [
      | inl same ↦ rw same held
      | inr e ↦ rw e (
          unfold insert next_id in
          (get-put_ne team_id (b.last_id + 1) _ b.records
              (λ p. omega (arith, p, (s team_id t held).minted))
            ∙ held))
    ]

-- After any history of requests, no handle has two rows in a stored team, and any further request, of
-- any caller, leaves the team there with its id, organization and name. It changes the rows of one
-- handle at most: an addition with a well-formed handle and a role, by a manager of the team's
-- organization as it then is, leaves one row of that role, and a removal of a well-formed handle by such
-- a manager leaves none.
pub members_are_a_map :
    (history : List (Call × Request)) (c : Call) (r : Request) (team_id : ℕ) (t : Team)
    → get team_id (serve history no_teams).records ≡ some t
    → ((h : Text) → length (roles_of h t.members) ≤ 1)
      × Becomes team_id t
          (λ h. effect c r team_id t h (roles_of h t.members))
          (step c r (serve history no_teams))
members_are_a_map history c r team_id t held =
    let sound =
      serve-AllSound_from history no_teams (λ k v found. absurd (unfold get in cc found)) in
    ((sound team_id t held).single, step-Becomes c r (serve history no_teams) team_id t sound held)
