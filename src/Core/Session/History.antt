-- ===== src/Core/Session/History.antt =====
-- Histories of the session operations, and whom a bearer authenticates after them.
use gutencode_test.Prelude.{
  ℕ, ◌<◌, ◌≡◌, ◌≢◌, true, false, some, List, [], ◌∷◌, Text, Text-Eq, ==_true, Bool-cases,
  Option-cases, inl, inr, arith,
}
use gutencode_test.Core.Table.{get}
use gutencode_test.Parts.Digest.{Hash}
use gutencode_test.Core.Session
use gutencode_test.Core.Session.{
  Knobs, Session, Sessions, split_token, resolve_row, is_live, is_due, is_test_token,
}
use gutencode_test.Core.Session.Index.{IsIndexed}
use gutencode_test.Core.Session.Indexed.{
  session_create-IsIndexed, resolve-IsIndexed, rotate-IsIndexed, revoke-IsIndexed, revoke_all-gone,
  revoke_all-IsIndexed,
}

-- A call of one operation; a creation and a rotation come with what they mint.
pub data Request : Type 0 where
  session_create : Text → Text → Text → Request
  session_resolve : Text → Request
  session_rotate : Text → Text → Request
  session_revoke : Text → Request
  session_revoke_all : Text → Request

abbrev pub no_sessions : Sessions
no_sessions = record { sessions = []; index = [] }

module _ (h : Hash) (k : Knobs) where
  -- What a call leaves in the store.
  unfoldable pub step : ℕ → Request → Sessions → Sessions
  step now (Request.session_create sid secret subject) s =
      (Session.session_create h k sid secret subject now s).1
  step now (Request.session_resolve token) s = (Session.session_resolve h k token now s).1
  step now (Request.session_rotate token new_secret) s =
      (Session.session_rotate h k token new_secret now s).1
  step now (Request.session_revoke token) s = Session.session_revoke token s
  step now (Request.session_revoke_all subject) s = Session.session_revoke_all subject s

  unfoldable pub serve : List (ℕ × Request) → Sessions → Sessions
  serve [] s = s
  serve ((now, r) ∷ rest) s = serve rest (step now r s)

  step-IsIndexed : (now : ℕ) (r : Request) (s : Sessions) → IsIndexed s → IsIndexed (step now r s)
  unfolding step
  step-IsIndexed now (Request.session_create sid secret subject) s =
      session_create-IsIndexed h k sid secret subject now s
  step-IsIndexed now (Request.session_resolve token) s = resolve-IsIndexed h k token now s
  step-IsIndexed now (Request.session_rotate token new_secret) s =
      rotate-IsIndexed h k token new_secret now s
  step-IsIndexed now (Request.session_revoke token) s = revoke-IsIndexed token s
  step-IsIndexed now (Request.session_revoke_all subject) s = revoke_all-IsIndexed subject s

  serve-IsIndexed :
      (requests : List (ℕ × Request)) (s : Sessions) → IsIndexed s → IsIndexed (serve requests s)
  unfolding serve
  serve-IsIndexed [] s indexed = indexed
  serve-IsIndexed ((now, r) ∷ rest) s indexed =
      serve-IsIndexed rest (step now r s) (step-IsIndexed now r s indexed)

  -- What stands behind a bearer that authenticates a subject.
  pub record Authenticates (token : Text) (now : ℕ) (s : Sessions) (subject : Text) : Type 0 where
    pub sid : Text
    pub secret : Text
    pub rec : Session
    pub parts : split_token token ≡ some (sid, secret)
    pub held : get sid s.sessions ≡ some rec
    pub whose : rec.subject ≡ subject
    pub unexpired : now < rec.exp
    pub presented : h.sha256 secret ≡ rec.secret_hash

  resolve_row-live :
      (sid secret : Text) (now : ℕ) (s : Sessions) (subject : Text)
      → (resolve_row h k sid secret now s).0 ≡ some subject
      → (rec : Session) × (get sid s.sessions ≡ some rec)
        × (rec.subject ≡ subject)
        × (is_live h k now secret rec ≡ true)
  unfolding resolve_row
  resolve_row-live sid secret now s subject e = elim (Option-cases (get sid s.sessions)) [
    | inl gone ↦ absurd (cc (rw (resolve_row, gone) at e))
    | inr (rec, held) ↦ elim (Bool-cases (is_live h k now secret rec)) [
      | inr refused ↦ absurd (cc (rw (resolve_row, held, refused) at e))
      | inl live ↦
          let shown : some rec.subject ≡ some subject = rw (resolve_row, held, live) at e in
          (rec, held, cc shown, live)
    ]
  ]

  -- Without the test seam, a bearer authenticates a subject only if it names a stored session of that
  -- subject that has not expired and whose current secret it presents.
  pub resolve-Authenticates :
      (token : Text) (now : ℕ) (s : Sessions) (subject : Text)
      → k.test_sessions ≡ false
      → (Session.session_resolve h k token now s).0 ≡ some subject
      → Authenticates token now s subject
  unfolding Session.session_resolve
  resolve-Authenticates token now s subject real e = elim (Option-cases (split_token token)) [
    | inl malformed ↦ absurd (cc (rw (Session.session_resolve, real, malformed) at e))
    | inr ((sid, secret), parts) ↦
        let (rec, held, whose, live) =
          resolve_row-live sid secret now s subject
            (rw (Session.session_resolve, real, parts) at e) in
        record {
          sid = sid;
          secret = secret;
          rec = rec;
          parts = parts;
          held = held;
          whose = whose;
          unexpired = ground arith;
          presented = ==_true (h.sha256 secret) rec.secret_hash (ground arith);
        }
  ]

-- Without the test seam: after any history of calls, once all of a subject's sessions are revoked (a logout everywhere, a
-- password reset), no bearer authenticates the subject any more, at any later reading.
pub revoke_all_ends :
    (h : Hash) (k : Knobs) (requests : List (ℕ × Request)) (subject token : Text) (now : ℕ)
    → k.test_sessions ≡ false
    → (Session.session_resolve h k token now
        (Session.session_revoke_all subject (serve h k requests no_sessions))).0
      ≢ some subject
revoke_all_ends h k requests subject token now real e =
    let s = serve h k requests no_sessions in
    let indexed =
      serve-IsIndexed h k requests no_sessions (λ sid rec held. absurd (unfold get in cc held)) in
    let a =
      resolve-Authenticates h k token now (Session.session_revoke_all subject s) subject real e in
    (revoke_all-gone subject s indexed a.sid a.rec a.held).0 a.whose
