-- ===== src/Core/Identity.antt =====
-- core/errors.py: who is calling. A request's Authorization header is the text `header`, empty if there
-- is none; `now` is the clock's reading.
use gutencode_test.Prelude.{
  ℕ, Bool, true, false, ◌&&◌, ◌||◌, Option, none, some, [], ◌∷◌, Text, codes, Text-Eq, ℕ-Eq, ◌==◌,
  leb, take, drop, if◌then◌else◌,
}
use gutencode_test.Core.Problem.{unauthorized, forbidden}
use gutencode_test.Core.Exec.{Exec, pure, gets, atomically, or_raise, require, ◌>>=◌, ◌>>◌}
use gutencode_test.Core.Table.{Table}
use gutencode_test.Core.Session.{Knobs, Sessions, session_resolve, session_revoke}
use gutencode_test.Core.ApiKey.{ApiKey, api_key_resolve}
use gutencode_test.Core.Access.{Roles, is_admin}
use gutencode_test.Parts.Digest.{Hash}

-- The namespaces that identify a caller.
pub record Identity : Type 0 where
  pub sessions : Sessions
  pub keys : Table Text ApiKey
  pub roles : Roles

-- What str.rstrip takes away, of the characters that a header can hold.
abbrev pub is_space : ℕ → Bool
is_space c = (leb 9 c && leb c 13) || (leb 28 c && leb c 32) || c == 133 || c == 160

abbrev pub is_nothing : Text → Bool
is_nothing [] = true
is_nothing (c ∷ cs) = false

unfoldable pub rstrip : Text → Text
rstrip [] = []
rstrip (c ∷ cs) = let rest = rstrip cs in if is_space c && is_nothing rest then [] else c ∷ rest

-- header[7:], if the header starts with "Bearer ".
unfoldable pub bearer : Text → Option Text
bearer header = if take 7 header == codes "Bearer " then some (drop 7 header) else none

abbrev pub or_nothing : Option Text → Text
or_nothing none = []
or_nothing (some token) = token

unfoldable pub revoke_current : Text → Identity → Identity
unfolding bearer
revoke_current header w = record w {
  sessions = session_revoke (or_nothing (bearer header)) w.sessions;
}

module _ (h : Hash) (k : Knobs) where
  -- A resolution may extend its session.
  unfoldable pub resolve_session : Text → ℕ → Identity → Option Text × Identity
  resolve_session token now w =
      let (subject, s) = session_resolve h k token now w.sessions in
      (subject, record w { sessions = s })

  -- A session's subject, or else an API key's owner.
  unfoldable pub or_owner : Text → Option Text → Identity → Option Text
  or_owner token (some subject) w = some subject
  or_owner token none w = api_key_resolve h token w.keys

  unfoldable pub require_identity : ℕ → Text → Exec Identity Text
  unfolding rstrip bearer resolve_session or_owner
  require_identity now header = do
    token ← or_raise (bearer (rstrip header)) (unauthorized (codes "not authenticated"))
    session ← atomically (resolve_session token now)
    subject ← gets (or_owner token session)
    or_raise subject (unauthorized (codes "invalid or expired token"))

  unfoldable pub require_admin : ℕ → Text → Exec Identity Text
  unfolding require_identity
  require_admin now header = do
    subject ← require_identity now header
    admin ← gets (λ (w : Identity). is_admin k.test_sessions w.roles subject)
    require admin (forbidden (codes "this operation requires the admin role"))
    pure subject

-- `want` is the environment's SERVICE_TOKEN; the digests are compared.
unfoldable pub require_service {ℓ} : {S : Type ℓ} → Hash → Text → Text → Exec S Text
require_service h want header = do
  require (h.sha256 (or_nothing (bearer header)) == h.sha256 want)
      (unauthorized (codes "service authorization required"))
  pure (codes "service")
