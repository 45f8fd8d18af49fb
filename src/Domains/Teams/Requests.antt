-- ===== src/Domains/Teams/Requests.antt =====
-- The requests of domains/teams.py, and what each does to the stored teams.
use gutencode_test.Prelude.{
  ℕ, ◌≡◌, ◌⊎◌, sym, ◌∙◌, arith, Bool, true, false, ◌&&◌, some, List, [], ◌∷◌, Text, ℕ-Eq,
  Bool-cases, Option-cases, inl, inr,
}
use gutencode_test.Core.Problem.{Problem}
use gutencode_test.Core.Exec.{Exec, atomically, require, ◌>>=◌, ◌>>◌}
use gutencode_test.Core.Table.{get}
use gutencode_test.Core.OrgRole.{org_role}
use gutencode_test.Parts.WellFormed.{is_well_formed}
use gutencode_test.Domains.Teams
use gutencode_test.Domains.Teams.{
  TeamMember, Team, Teams, Call, is_non_empty, is_role, manages, load, manage, insert, put_members,
  upsert, sort_members, without,
}

pub data Request : Type 0 where
  create : Text → Text → Request
  get_team : ℕ → Request
  add_member : ℕ → Text → Text → Request
  remove_member : ℕ → Text → Request

unfoldable pub step : Call → Request → Teams → Teams
step c (create org name) b = (Teams.create c org name b).1
step c (get_team team_id) b = (Teams.get_team c team_id b).1
step c (add_member team_id handle role) b = (Teams.add_member c team_id handle role b).1
step c (remove_member team_id handle) b = (Teams.remove_member c team_id handle b).1

unfoldable pub serve : List (Call × Request) → Teams → Teams
serve [] b = b
serve ((c, r) ∷ rest) b = serve rest (step c r b)

-- A change of a team's members behind its guards.
edit : Call → ℕ → Bool → Problem → (List TeamMember → List TeamMember) → Exec Teams Team
edit c team_id valid p change = do
  team ← manage c team_id
  require valid p
  atomically (put_members team (change team.members))

-- What an edit leaves: a managed team with its new members, or everything as it was.
pub data Edited (c : Call) (team_id : ℕ) (valid : Bool) (change : List TeamMember → List TeamMember)
    (b b' : Teams) : Type 0 where
  changed :
      (t : Team)
      → get team_id b.records ≡ some t
      → manages c t.org ≡ true
      → valid ≡ true
      → b' ≡ (put_members t (change t.members) b).1
      → Edited c team_id valid change b b'
  refused :
      ((t : Team) → get team_id b.records ≡ some t → (manages c t.org && valid) ≡ false)
      → b' ≡ b
      → Edited c team_id valid change b b'

edit_lem :
    (c : Call) (team_id : ℕ) (valid : Bool) (p : Problem)
    (change : List TeamMember → List TeamMember) (b : Teams)
    → Edited c team_id valid change b (edit c team_id valid p change b).1
unfolding edit manage load ◌>>=◌
edit_lem c team_id valid p change b = elim (Option-cases (get team_id b.records)) [
  | inl missing ↦ refused (λ t held. absurd (cc (held, missing))) (rw missing)
  | inr (t, held) ↦ elim (Bool-cases (manages c t.org)) [
    | inr other ↦
        refused
          (λ u found.
            let both : some t ≡ some u = sym held ∙ found in
            let same : t ≡ u = cc both in rw (sym same) (rw other))
          (rw (held, other))
    | inl ours ↦ elim (Bool-cases valid) [
      | inl good ↦ changed t held ours good (rw (held, ours, good))
      | inr bad ↦ refused (λ u found. rw bad (ground arith)) (rw (held, ours, bad))
    ]
  ]
]

pub add_member_lem :
    (c : Call) (team_id : ℕ) (handle role : Text) (b : Teams)
    → Edited c team_id
        (is_well_formed handle && is_non_empty role)
        (upsert handle role)
        b
        (Teams.add_member c team_id handle role b).1
unfolding Teams.add_member
add_member_lem c team_id handle role b =
    unfold edit in edit_lem c team_id _ _ (upsert handle role) b

pub remove_member_lem :
    (c : Call) (team_id : ℕ) (handle : Text) (b : Teams)
    → Edited c team_id
        (is_well_formed handle)
        (λ ms. sort_members (without handle ms))
        b
        (Teams.remove_member c team_id handle b).1
unfolding Teams.remove_member
remove_member_lem c team_id handle b =
    unfold edit in edit_lem c team_id _ _ (λ ms. sort_members (without handle ms)) b

pub create_lem :
    (c : Call) (org name : Text) (b : Teams)
    → ((Teams.create c org name b).1 ≡ b) ⊎ ((Teams.create c org name b).1 ≡ (insert org name b).1)
unfolding Teams.create ◌>>=◌
create_lem c org name b = elim (Bool-cases (is_well_formed org && is_non_empty name)) [
  | inr bad ↦ inl (rw bad)
  | inl good ↦ elim (Bool-cases (manages c org)) [
    | inr other ↦ inl (rw (good, other))
    | inl ours ↦ inr (rw (good, ours))
  ]
]

pub get_team_lem : (c : Call) (team_id : ℕ) (b : Teams) → (Teams.get_team c team_id b).1 ≡ b
unfolding Teams.get_team load ◌>>=◌
get_team_lem c team_id b = elim (Option-cases (get team_id b.records)) [
  | inl missing ↦ rw missing
  | inr (t, held) ↦ elim (Bool-cases (is_role (org_role c.orgs c.memberships t.org c.caller))) [
    | inl theirs ↦ rw (held, theirs)
    | inr other ↦ rw (held, other)
  ]
]
