-- ===== src/Tests/SessionRuns.antt =====
-- Sessions: a login, a refresh, a stolen secret and a logout everywhere.
use gutencode_test.Prelude.{
  ℕ, ◌≡◌, ◌≢◌, refl, false, arith, [], ◌∷◌, Text, Text-Eq, text_eq, none, some, ==_refl,
}
use gutencode_test.Core.Table.{get, do_}
use gutencode_test.Parts.Digest.Unary.{unary_hash, unary_text, unary}
use gutencode_test.Core.Session.{
  Knobs, Session, Sessions, split_token, partition_dot, session_resolve, session_rotate,
  session_revoke_all, rotate_fn, token_of, resolve_row,
}
use gutencode_test.Core.Session.History.{
  Request, serve, no_sessions, Authenticates, resolve-Authenticates, revoke_all_ends,
}
use gutencode_test.Core.Session.Rotation.{reuse_ends_session}

abbrev knobs : Knobs
knobs = record { ttl = 604800; refresh = 86400; reuse_grace = 10; test_sessions = false }

abbrev alice : Text
alice = b'a' ∷ []

abbrev sid : Text
sid = 5 ∷ []

-- Secrets of small code points keep the unary hash short.
abbrev secret : Text
secret = 2 ∷ []

abbrev new_secret : Text
new_secret = 3 ∷ []

abbrev token : Text
token = 5 ∷ b'.' ∷ 2 ∷ []

abbrev row : Session
row = record {
  subject = alice;
  secret_hash = unary_hash.sha256 secret;
  prev_hash = [];
  prev_at = 0;
  exp = 604900;
  created_at = 100;
  gen = 1;
}

abbrev stored : Sessions
stored = record { sessions = (sid, row) ∷ []; index = (alice, sid ∷ []) ∷ [] }

revoke_all_ends_example :
    (session_resolve unary_hash knobs token 120 (
      session_revoke_all alice (
        serve unary_hash knobs
          ((100, Request.session_create sid secret alice)
            ∷ (110, Request.session_rotate token new_secret)
            ∷ [])
          no_sessions))).0
    ≢ some alice
revoke_all_ends_example =
    revoke_all_ends unary_hash knobs
      ((100, Request.session_create sid secret alice)
        ∷ (110, Request.session_rotate token new_secret)
        ∷ [])
      alice token 120 refl

resolved : (session_resolve unary_hash knobs token 120 stored).0 ≡ some alice
unfolding session_resolve split_token partition_dot resolve_row get text_eq
resolved = rw (==_refl (unary_hash.sha256 secret)) refl

resolve-Authenticates_example : Authenticates unary_hash knobs token 120 stored alice
resolve-Authenticates_example =
    resolve-Authenticates unary_hash knobs token 120 stored alice refl resolved

token_parts : split_token token ≡ some (sid, secret)
unfolding split_token partition_dot
token_parts = refl

rotated :
    (session_rotate unary_hash knobs token new_secret 120 stored).0 ≡ some (token_of sid new_secret)
unfolding session_rotate split_token partition_dot rotate_fn do_ get text_eq unary_hash unary_text
    unary token_of
rotated = refl

reuse_ends_session_example :
    let s' = (session_rotate unary_hash knobs token new_secret 120 stored).1 in
    let s'' = (session_rotate unary_hash knobs token alice 140 s').1 in
    ((at : ℕ)
      → ((session_resolve unary_hash knobs token at s').0 ≡ none)
        × ((session_rotate unary_hash knobs token alice at s').0 ≡ none))
    × ((bearer secret' : Text) (at : ℕ)
        → split_token bearer ≡ some (sid, secret')
        → (session_resolve unary_hash knobs bearer at s'').0 ≡ none)
reuse_ends_session_example =
    reuse_ends_session unary_hash knobs token sid secret new_secret alice (token_of sid new_secret)
      120 140 stored refl token_parts rotated (λ e. ground arith)
      (unfold unary_hash unary_text unary in refl) (omega arith) (omega arith)
