-- ===== src/Domains/Invitations/Once.antt =====
-- An invitation is accepted at most once, and never after it expired.
use gutencode_test.Prelude.{
  ℕ, ◌≤◌, ◌≡◌, ◌≢◌, refl, sym, ap, ◌∙◌, true, false, Option, none, some, List, [], ◌∷◌, Text,
  Text-Eq, ltb, Bool-cases, inl, inr, arith, if◌then◌else◌, All,
}
use gutencode_test.Core.Problem.{Problem}
use gutencode_test.Core.Exec.{ok, err, lift, ◌>>=◌}
use gutencode_test.Core.Exec.Keeps.{Keeps, Keeps-bind, Keeps-atomically, Keeps-require, keeps_rules}
use gutencode_test.Core.Table.{get, do_}
use gutencode_test.Core.Table.Laws.{do_-at, get-do_self, get-put_ne}
use gutencode_test.Parts.WellFormed.{is_well_formed}
use gutencode_test.Domains.Invitations
use gutencode_test.Domains.Invitations.{
  Invitation, Invitations, InviteIn, accepted, is_accepted, consume, insert, expired, used,
}

-- A creation comes with the token that it mints.
pub data Request : Type 0 where
  create : Text → InviteIn → Text → Request
  accept : Text → Request

unfoldable pub step : ℕ → ℕ → Request → Invitations → Invitations
step default_ttl now (Request.create token data_in inviter) t =
    (Invitations.create default_ttl token data_in now inviter t).1
step default_ttl now (Request.accept token) t = (Invitations.accept token now t).1

unfoldable pub serve : ℕ → List (ℕ × Request) → Invitations → Invitations
serve default_ttl [] t = t
serve default_ttl ((now, r) ∷ rest) t = serve default_ttl rest (step default_ttl now r t)

-- The request does not mint this token; a token that is minted at random is new.
abbrev pub MintsNot : Text → Request → Type 0
MintsNot token (Request.create token' data_in inviter) = token' ≢ token
MintsNot token (Request.accept token') = Unit

-- The row of an invitation that was accepted.
abbrev pub Taken : Text → ℕ → Invitations → Type 0
Taken token until t =
    (rec : Invitation) × (get token t ≡ some rec)
    × (is_accepted rec.status ≡ true)
    × (rec.expires_at ≡ until)

-- An accepted invitation is refused, by the expiry before the use.
abbrev pub refusal : ℕ → ℕ → Problem
refusal until now = if ltb until now then expired else used

consume-taken :
    (now : ℕ) (rec : Invitation)
    → is_accepted rec.status ≡ true
    → consume now (some rec) ≡ (none, err (refusal rec.expires_at now))
unfolding consume
consume-taken now rec took = elim (Bool-cases (ltb rec.expires_at now)) [
  | inl late ↦ rw late
  | inr timely ↦ rw (timely, took)
]

consume-Taken :
    (token token' : Text) (until now : ℕ) (t : Invitations)
    → Taken token until t
    → Taken token until (do_ token' (consume now) t).1
consume-Taken token token' until now t (rec, held, took, same) =
    do_-at
      (λ o.
        (r : Invitation) × (o ≡ some r) × (is_accepted r.status ≡ true) × (r.expires_at ≡ until))
      token token' (consume now) t (λ v e. absurd (cc (rw held at e, consume-taken now rec took)))
      (rec, held, took, same)

accept-Keeps :
    (token token' : Text) (until now : ℕ)
    → Keeps (Taken token until) (Invitations.accept token' now)
unfolding Invitations.accept
accept-Keeps token token' until now =
    search (keeps_rules, Keeps-atomically, consume-Taken token token' until now)

create-Keeps :
    (token token' : Text) (until now default_ttl : ℕ) (data_in : InviteIn) (inviter : Text)
    → token' ≢ token
    → Keeps (Taken token until) (Invitations.create default_ttl token' data_in now inviter)
unfolding Invitations.create insert
create-Keeps token token' until now default_ttl data_in inviter fresh =
    Keeps-bind _ _ (Keeps-require _ _) λ good.
      Keeps-atomically _
        λ t. λ (rec, held, took, same). (rec, get-put_ne token token' _ t fresh ∙ held, took, same)

step-Taken :
    (token : Text) (until default_ttl now : ℕ) (r : Request)
    → MintsNot token r
    → (t : Invitations) → Taken token until t
    → Taken token until (step default_ttl now r t)
unfolding step
step-Taken token until default_ttl now (Request.create token' data_in inviter) fresh t taken =
    (create-Keeps token token' until now default_ttl data_in inviter fresh).at t taken
step-Taken token until default_ttl now (Request.accept token') fresh t taken =
    (accept-Keeps token token' until now).at t taken

serve-Taken :
    (token : Text) (until default_ttl : ℕ) (requests : List (ℕ × Request))
    → All (λ r. MintsNot token r.1) requests
    → (t : Invitations) → Taken token until t
    → Taken token until (serve default_ttl requests t)
unfolding serve
serve-Taken token until default_ttl [] fresh t taken = taken
serve-Taken token until default_ttl ((now, r) ∷ rest) fresh t taken =
    serve-Taken token until default_ttl rest fresh.1 (step default_ttl now r t)
      (step-Taken token until default_ttl now r fresh.0 t taken)

-- What an accepted answer says of the row before and after.
consume-ok :
    (now : ℕ) (o : Option Invitation) (rec : Invitation)
    → (consume now o).1 ≡ ok rec
    → (old : Invitation) × (o ≡ some old)
      × (is_accepted old.status ≡ false)
      × (now ≤ old.expires_at)
      × (rec ≡ record old { status = accepted })
      × ((consume now o).0 ≡ some rec)
unfolding consume
consume-ok now none rec e = absurd (cc)
consume-ok now (some old) rec e = elim (Bool-cases (ltb old.expires_at now)) [
  | inl late ↦ absurd (cc (rw late at e))
  | inr timely ↦ elim (Bool-cases (is_accepted old.status)) [
    | inl used_up ↦ absurd (cc (rw (timely, used_up) at e))
    | inr free ↦
        let wrote : ok (record old { status = accepted }) ≡ ok rec = rw (timely, free) at e in
        let same : record old { status = accepted } ≡ rec = cc wrote in
        (old, refl, free, ground arith, sym same, rw (timely, free) (ap some same))
  ]
]

module _ (token : Text) (now : ℕ) (t : Invitations) where
  accept-good :
      is_well_formed token ≡ true
      → Invitations.accept token now t ≡ (let (r, t') = do_ token (consume now) t in (r, t'))
  unfolding Invitations.accept ◌>>=◌ lift
  accept-good good = rw good

  accept-bad :
      (rec : Invitation) → (Invitations.accept token now t).0 ≡ ok rec → is_well_formed token ≡ true
  unfolding Invitations.accept ◌>>=◌
  accept-bad rec e = elim (Bool-cases (is_well_formed token)) [
    | inl good ↦ good
    | inr bad ↦ absurd (cc (rw bad at e))
  ]

  accept_refused :
      (until : ℕ)
      → is_well_formed token ≡ true
      → Taken token until t
      → Invitations.accept token now t ≡ (err (refusal until now), t)
  accept_refused until good (rec, held, took, same) =
      accept-good good ∙ unfold do_ in rw (held, consume-taken now rec took, same)

  accept-Taken :
      (rec : Invitation)
      → is_well_formed token ≡ true
      → (consume now (get token t)).0 ≡ some rec
      → is_accepted rec.status ≡ true
      → Taken token rec.expires_at (Invitations.accept token now t).1
  accept-Taken rec good wrote took =
      let held : get token (do_ token (consume now) t).1 ≡ some rec =
        get-do_self token (consume now) t ∙ rw wrote in
      rw (accept-good good) (rec, held, took, refl)

-- An accepted answer means that the token's invitation was pending and not past its expiry, and the
-- answer is that invitation, accepted. From then on, whatever is created under other tokens and
-- accepted, by whomever, every other acceptance of the token is refused and writes nothing: with a
-- 410 once it has expired, with a 409 before.
pub accept_once :
    (token : Text) (now default_ttl later : ℕ) (requests : List (ℕ × Request)) (t : Invitations)
    (rec : Invitation)
    → (Invitations.accept token now t).0 ≡ ok rec
    → All (λ r. MintsNot token r.1) requests
    → let t' = serve default_ttl requests (Invitations.accept token now t).1 in
      ((old : Invitation) × (get token t ≡ some old)
        × (is_accepted old.status ≡ false)
        × (now ≤ old.expires_at)
        × (rec ≡ record old { status = accepted }))
      × (Invitations.accept token later t' ≡ (err (refusal rec.expires_at later), t'))
accept_once token now default_ttl later requests t rec e fresh =
    let good = accept-bad token now t rec e in
    let took : (consume now (get token t)).1 ≡ ok rec =
      unfold do_ in sym (ap (λ p. p.0) (accept-good token now t good)) ∙ e in
    let (old, held, free, timely, same, wrote) = consume-ok now (get token t) rec took in
    let taken = accept-Taken token now t rec good wrote (rw same refl) in
    (
      (old, held, free, timely, same),
      accept_refused token later (serve default_ttl requests (Invitations.accept token now t).1)
          rec.expires_at good
          (serve-Taken token rec.expires_at default_ttl requests fresh
            (Invitations.accept token now t).1 taken),
    )
