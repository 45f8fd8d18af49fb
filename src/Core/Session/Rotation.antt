-- ===== src/Core/Session/Rotation.antt =====
-- What a rotation does to the old secret, and what presenting it again does to the session.
use gutencode_test.Prelude.{
  ℕ, ◌+◌, ◌-◌, ◌<◌, ◌≡◌, ◌≢◌, refl, sym, ap, ◌∙◌, true, false, Option, none, some, Text, Text-Eq,
  ◌==◌, ==_true, ==_false, ==_refl, Bool-cases, inl, inr, arith, leb, ltb,
}
use gutencode_test.Core.Table.{get, delete, do_}
use gutencode_test.Core.Table.Laws.{get-do_self, get-delete}
use gutencode_test.Parts.Digest.{Hash}
use gutencode_test.Core.Session.{
  Knobs, Session, Sessions, is_empty, split_token, index_remove, resolve_row, session_resolve,
  RotateOut, rotate_fn, end_if_reused, session_rotate,
}

end_if_reused-gone :
    (sid : Text) (out : RotateOut) (s : Sessions)
    → out.reuse ≡ true
    → get sid (end_if_reused sid out s).sessions ≡ none
unfolding end_if_reused index_remove
end_if_reused-gone sid out s reused =
    let gone : get sid (delete sid s.sessions) ≡ none =
      get-delete sid sid s.sessions ∙ rw (==_refl sid) in
    elim (Bool-cases (is_empty out.subject)) [
      | inl anonymous ↦ rw (reused, anonymous) gone
      | inr named ↦ rw (reused, named) gone
    ]

module _ (h : Hash) (k : Knobs) where
  rotate_fn-stale :
      (sid secret another : Text) (later : ℕ) (rec : Session)
      → leb rec.exp later ≡ false
      → (h.sha256 secret == rec.secret_hash) ≡ false
      → (h.sha256 secret == rec.prev_hash) ≡ true
      → is_empty rec.prev_hash ≡ false
      → ltb k.reuse_grace (later - rec.prev_at) ≡ true
      → (rotate_fn h k sid secret another later (some rec)).1
        ≡ record { token = none; reuse = true; subject = rec.subject }
  unfolding rotate_fn
  rotate_fn-stale sid secret another later rec live wrong prev filled past =
      rw (live, wrong, prev, filled, past)

  -- A secret that is not the current one gets no token.
  rotate_fn-wrong :
      (sid secret another : Text) (at : ℕ) (rec : Session)
      → (h.sha256 secret == rec.secret_hash) ≡ false
      → (rotate_fn h k sid secret another at (some rec)).1.token ≡ none
  unfolding rotate_fn
  rotate_fn-wrong sid secret another at rec wrong = elim (Bool-cases (leb rec.exp at)) [
    | inl expired ↦ rw expired
    | inr live ↦ rw (live, wrong)
  ]

  -- The row that a rotation leaves.
  record Rotated (secret new_secret : Text) (now : ℕ) (rec : Session) : Type 0 where
    now_secret : rec.secret_hash ≡ h.sha256 new_secret
    was_secret : rec.prev_hash ≡ h.sha256 secret
    since : rec.prev_at ≡ now
    until : rec.exp ≡ now + k.ttl

  rotate_fn-token :
      (sid secret new_secret : Text) (now : ℕ) (o : Option Session) (token : Text)
      → (rotate_fn h k sid secret new_secret now o).1.token ≡ some token
      → (rec : Session) × ((rotate_fn h k sid secret new_secret now o).0 ≡ some rec)
        × ((rotate_fn h k sid secret new_secret now o).1.reuse ≡ false)
        × Rotated secret new_secret now rec
  unfolding rotate_fn
  rotate_fn-token sid secret new_secret now none token e = absurd (cc)
  rotate_fn-token sid secret new_secret now (some cur) token e =
      elim (Bool-cases (leb cur.exp now)) [
        | inl expired ↦ absurd (cc (rw expired at e))
        | inr live ↦ elim (Bool-cases (h.sha256 secret == cur.secret_hash)) [
          | inr wrong ↦ absurd (cc (rw (live, wrong) at e))
          | inl right ↦
              rw (live, right)
                (
                  _,
                  refl,
                  refl,
                  record {
                    now_secret = refl;
                    was_secret = sym (==_true (h.sha256 secret) cur.secret_hash right);
                    since = refl;
                    until = refl;
                  },
                )
        ]
      ]

  module _ (token sid secret : Text) (s : Sessions)
      (parts : split_token token ≡ some (sid, secret)) where
    rotate_lem :
        (new_secret : Text) (now : ℕ)
        → let (out, rows) = do_ sid (rotate_fn h k sid secret new_secret now) s.sessions in
          session_rotate h k token new_secret now s
          ≡ (out.token, end_if_reused sid out (record s { sessions = rows }))
    unfolding session_rotate
    rotate_lem new_secret now = rw (session_rotate, parts)

    -- After an accepted rotation.
    rotate-Rotated :
        (new_secret : Text) (now : ℕ) (token' : Text)
        → (session_rotate h k token new_secret now s).0 ≡ some token'
        → (rec : Session) × (get sid (session_rotate h k token new_secret now s).1.sessions
            ≡ some rec)
          × Rotated secret new_secret now rec
    rotate-Rotated new_secret now token' e =
        let fn = rotate_fn h k sid secret new_secret now in
        let given : (fn (get sid s.sessions)).1.token ≡ some token' =
          unfold do_ in sym (ap (λ p. p.0) (rotate_lem new_secret now)) ∙ e in
        let (rec, wrote, kept, rotated) =
          rotate_fn-token sid secret new_secret now (get sid s.sessions) token' given in
        let rows = (do_ sid fn s.sessions).1 in
        let state : (session_rotate h k token new_secret now s).1 ≡ record s { sessions = rows } =
          ap (λ p. p.1) (rotate_lem new_secret now) ∙ (unfold end_if_reused do_ in rw kept) in
        (
          rec,
          ap (λ (x : Sessions). get sid x.sessions) state
              ∙ get-do_self sid fn s.sessions
              ∙ rw wrote,
          rotated,
        )

    -- A bearer of a session whose row is gone, or holds another secret's hash, is refused.
    resolve-gone :
        (now : ℕ)
        → k.test_sessions ≡ false
        → get sid s.sessions ≡ none
        → (session_resolve h k token now s).0 ≡ none
    unfolding session_resolve resolve_row
    resolve-gone now real gone = rw (session_resolve, real, parts, resolve_row, gone)

    resolve-wrong :
        (now : ℕ) (rec : Session)
        → k.test_sessions ≡ false
        → get sid s.sessions ≡ some rec
        → (h.sha256 secret == rec.secret_hash) ≡ false
        → (session_resolve h k token now s).0 ≡ none
    unfolding session_resolve resolve_row
    resolve-wrong now rec real held wrong =
        rw (session_resolve, real, parts, resolve_row, held) (rw wrong (ground arith))

    rotate-wrong :
        (another : Text) (at : ℕ) (rec : Session)
        → get sid s.sessions ≡ some rec
        → (h.sha256 secret == rec.secret_hash) ≡ false
        → (session_rotate h k token another at s).0 ≡ none
    rotate-wrong another at rec held wrong =
        ap (λ p. p.0) (rotate_lem another at)
        ∙ unfold do_ in rw held (rotate_fn-wrong sid secret another at rec wrong)

    -- The previous secret past its grace: no token, and the row is deleted.
    rotate-stale :
        (another : Text) (later : ℕ) (rec : Session)
        → get sid s.sessions ≡ some rec
        → leb rec.exp later ≡ false
        → (h.sha256 secret == rec.secret_hash) ≡ false
        → (h.sha256 secret == rec.prev_hash) ≡ true
        → is_empty rec.prev_hash ≡ false
        → ltb k.reuse_grace (later - rec.prev_at) ≡ true
        → ((session_rotate h k token another later s).0 ≡ none)
          × (get sid (session_rotate h k token another later s).1.sessions ≡ none)
    rotate-stale another later rec held live wrong prev filled past =
        let fn = rotate_fn h k sid secret another later in
        let out : (do_ sid fn s.sessions).0
            ≡ record { token = none; reuse = true; subject = rec.subject } =
          unfold do_ in
          rw held (rotate_fn-stale sid secret another later rec live wrong prev filled past) in
        let rows = record s { sessions = (do_ sid fn s.sessions).1 } in
        (
          ap (λ p. p.0) (rotate_lem another later) ∙ ap (λ (o : RotateOut). o.token) out,
          ap (λ p. get sid p.1.sessions) (rotate_lem another later)
              ∙ end_if_reused-gone sid (do_ sid fn s.sessions).0 rows
                  (ap (λ (o : RotateOut). o.reuse) out),
        )

-- In the store that a rotation leaves, the rotated secret authenticates nobody at any reading of the
-- clock, within the grace too, and presenting it there for another rotation yields no token; after the
-- grace and before the expiry that deletes the session, so that in the store it leaves no bearer of the
-- session's id, the rotated one included, authenticates anybody at any reading. The premises: there is
-- no test seam, the rotation gave a token, its new secret differs from the old one, and the old one's
-- digest is not empty.
pub reuse_ends_session :
    (h : Hash) (k : Knobs) (token sid secret new_secret another token' : Text) (now later : ℕ)
    (s : Sessions)
    → k.test_sessions ≡ false
    → split_token token ≡ some (sid, secret)
    → (session_rotate h k token new_secret now s).0 ≡ some token'
    → new_secret ≢ secret
    → is_empty (h.sha256 secret) ≡ false
    → now + k.reuse_grace < later
    → later < now + k.ttl
    → let s' = (session_rotate h k token new_secret now s).1 in
      let s'' = (session_rotate h k token another later s').1 in
      ((at : ℕ)
        → ((session_resolve h k token at s').0 ≡ none)
          × ((session_rotate h k token another at s').0 ≡ none))
      × ((bearer secret' : Text) (at : ℕ)
          → split_token bearer ≡ some (sid, secret')
          → (session_resolve h k bearer at s'').0 ≡ none)
reuse_ends_session h k token sid secret new_secret another token' now later s real parts given
      differ filled past early =
    let s' = (session_rotate h k token new_secret now s).1 in
    let (rec, held, rotated) =
      rotate-Rotated h k token sid secret s parts new_secret now token' given in
    let wrong : (h.sha256 secret == rec.secret_hash) ≡ false =
      ==_false (h.sha256 secret) rec.secret_hash
        (λ p. differ (sym (h.injective secret new_secret (p ∙ rotated.now_secret)))) in
    let prev : (h.sha256 secret == rec.prev_hash) ≡ true =
      rw rotated.was_secret (==_refl (h.sha256 secret)) in
    let (none_given, gone) =
      rotate-stale h k token sid secret s' parts another later rec held
        (rw rotated.until (ground (arith, early))) wrong prev (rw rotated.was_secret filled)
        (rw rotated.since (ground (arith, past))) in
    (
      λ at. (
        resolve-wrong h k token sid secret s' parts at rec real held wrong,
        rotate-wrong h k token sid secret s' parts another at rec held wrong,
      ),
      λ bearer secret' at bearer_parts.
          resolve-gone h k bearer sid secret' (session_rotate h k token another later s').1
            bearer_parts at real gone,
    )
