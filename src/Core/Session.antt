-- ===== src/Core/Session.antt =====
-- core/store.py: the sessions that identify a caller. The state is the namespace "_sessions", keyed by
-- the public id, and the namespace "_session_index" from a subject to its ids. Minted ids and
-- secrets come as arguments, the clock's reading as `now`, and the environment's knobs as `Knobs`.
pub mod Index
pub mod Indexed
pub mod History
pub mod Rotation
use gutencode_test.Prelude.{
  ℕ, ◌+◌, ◌-◌, Bool, true, false, not, ◌&&◌, ◌||◌, Option, none, some, List, [], ◌∷◌, ◌++◌, Text,
  codes, Text-Eq, ℕ-Eq, ◌==◌, leb, ltb, if◌then◌else◌, keep, elem, drop, take,
}
use gutencode_test.Core.Table.{Table, get, put, delete, do_}
use gutencode_test.Parts.Digest.{Hash}

pub record Knobs : Type 0 where
  pub ttl : ℕ
  pub refresh : ℕ
  pub reuse_grace : ℕ
  pub test_sessions : Bool

pub record Session : Type 0 where
  pub subject : Text
  pub secret_hash : Text
  pub prev_hash : Text
  pub prev_at : ℕ
  pub exp : ℕ
  pub created_at : ℕ
  pub gen : ℕ

pub record Sessions : Type 0 where
  pub sessions : Table Text Session
  pub index : Table Text (List Text)

abbrev pub is_empty : Text → Bool
is_empty [] = true
is_empty (_ ∷ _) = false

abbrev pub or_empty : Option (List Text) → List Text
or_empty none = []
or_empty (some ids) = ids

-- str.partition at the first dot: what is before it, and what is after it if there is one.
unfoldable pub partition_dot : Text → Text × Option Text
partition_dot [] = ([], none)
partition_dot (c ∷ cs) =
    let (before, rest) = partition_dot cs in if c == b'.' then ([], some cs) else (c ∷ before, rest)

-- `_split_token`: the id and the secret, neither of them empty.
unfoldable pub split_token : Text → Option (Text × Text)
unfolding partition_dot
split_token token =
    let (sid, rest) = partition_dot token in
    elim rest [
      | none ↦ none
      | some secret ↦ if is_empty sid || is_empty secret then none else some (sid, secret)
    ]

-- f"{sid}.{secret}"
unfoldable pub token_of : Text → Text → Text
token_of sid secret = sid ++ (b'.' ∷ secret)

unfoldable pub add_fn : Text → Option (List Text) → Option (List Text) × Unit {0}
add_fn sid cur =
    (some (if elem sid (or_empty cur) then or_empty cur else or_empty cur ++ (sid ∷ [])), tt)

unfoldable pub remove_fn : Text → Option (List Text) → Option (List Text) × Unit {0}
remove_fn sid cur = (some (keep (λ i. not (i == sid)) (or_empty cur)), tt)

-- The index is emptied, and the ids that it held come back.
unfoldable pub clear_fn : Option (List Text) → Option (List Text) × List Text
clear_fn cur = (some [], or_empty cur)

unfoldable pub index_add : Text → Text → Sessions → Sessions
index_add subject sid s = record s { index = (do_ subject (add_fn sid) s.index).1 }

unfoldable pub index_remove : Text → Text → Sessions → Sessions
index_remove subject sid s = record s { index = (do_ subject (remove_fn sid) s.index).1 }

-- What a rotation's callback tells: the new token, whether a stale secret was presented, the subject.
pub record RotateOut : Type 0 where
  pub token : Option Text
  pub reuse : Bool
  pub subject : Text

abbrev pub nothing : RotateOut
nothing = record { token = none; reuse = false; subject = [] }

-- A stale secret is theft: the session goes.
unfoldable pub end_if_reused : Text → RotateOut → Sessions → Sessions
end_if_reused sid out s =
    let dropped = record s { sessions = delete sid s.sessions } in
    if out.reuse
    then (if is_empty out.subject then dropped else index_remove out.subject sid dropped)
    else s

module _ (h : Hash) (k : Knobs) where
  unfoldable pub new_session : Text → Text → ℕ → Session
  new_session subject secret now = record {
    subject = subject;
    secret_hash = h.sha256 secret;
    prev_hash = [];
    prev_at = 0;
    exp = now + k.ttl;
    created_at = now;
    gen = 1;
  }

  unfoldable pub session_create : Text → Text → Text → ℕ → Sessions → Text × Sessions
  session_create sid secret subject now s = (
    token_of sid secret,
    index_add subject sid
        (record s { sessions = put sid (new_session subject secret now) s.sessions }),
  )

  -- The idle extension's callback.
  unfoldable pub extend_fn : ℕ → Option Session → Option Session × Unit {0}
  extend_fn now none = (none, tt)
  extend_fn now (some cur) =
      if leb cur.exp now then (none, tt) else (some (record cur { exp = now + k.ttl }), tt)

  -- rec["exp"] - ttl + refresh <= now: the extension is due.
  abbrev pub is_due : ℕ → Session → Bool
  is_due now rec = leb (rec.exp + k.refresh) (now + k.ttl)

  -- A live session whose secret is presented.
  abbrev pub is_live : ℕ → Text → Session → Bool
  is_live now secret rec = not (leb rec.exp now) && h.sha256 secret == rec.secret_hash

  unfoldable pub resolve_row : Text → Text → ℕ → Sessions → Option Text × Sessions
  resolve_row sid secret now s = elim (get sid s.sessions) [
    | none ↦ (none, s)
    | some rec ↦
        let extended = record s { sessions = (do_ sid (extend_fn now) s.sessions).1 } in
        if is_live now secret rec
        then (some rec.subject, if is_due now rec then extended else s)
        else (none, s)
  ]

  -- The test seam's token 'test:<subject>'.
  abbrev pub is_test_token : Text → Bool
  is_test_token token = k.test_sessions && take 5 token == codes "test:"

  unfoldable pub session_resolve : Text → ℕ → Sessions → Option Text × Sessions
  session_resolve token now s =
      if is_test_token token
      then (if is_empty (drop 5 token) then none else some (drop 5 token), s)
      else elim (split_token token) [
        | none ↦ (none, s)
        | some (sid, secret) ↦ resolve_row sid secret now s
      ]

  unfoldable pub rotate_fn : Text → Text → Text → ℕ → Option Session → Option Session × RotateOut
  rotate_fn sid secret new_secret now none = (none, nothing)
  rotate_fn sid secret new_secret now (some cur) =
      let presented = h.sha256 secret in
      let nxt = record cur {
        prev_hash = cur.secret_hash;
        prev_at = now;
        secret_hash = h.sha256 new_secret;
        gen = cur.gen + 1;
        exp = now + k.ttl;
      } in
      let stale =
        not (is_empty cur.prev_hash)
        && presented == cur.prev_hash
        && ltb k.reuse_grace (now - cur.prev_at) in
      if leb cur.exp now
      then (none, nothing)
      else if presented == cur.secret_hash
      then (
        some nxt,
        record { token = some (token_of sid new_secret); reuse = false; subject = cur.subject },
      )
      else (none, record { token = none; reuse = stale; subject = cur.subject })

  unfoldable pub session_rotate : Text → Text → ℕ → Sessions → Option Text × Sessions
  session_rotate token new_secret now s = elim (split_token token) [
    | none ↦ (none, s)
    | some (sid, secret) ↦
        let (out, rows) = do_ sid (rotate_fn sid secret new_secret now) s.sessions in
        (out.token, end_if_reused sid out (record s { sessions = rows }))
  ]

unfoldable pub revoke_row : Text → Sessions → Sessions
revoke_row sid s =
    let dropped = record s { sessions = delete sid s.sessions } in
    elim (get sid s.sessions) [
      | none ↦ dropped
      | some rec ↦ if is_empty rec.subject then dropped else index_remove rec.subject sid dropped
    ]

unfoldable pub session_revoke : Text → Sessions → Sessions
session_revoke token s = elim (split_token token) [
  | none ↦ s
  | some (sid, secret) ↦ revoke_row sid s
]

-- for sid in ids: delete_(_SESSION_NS, sid)
unfoldable pub delete_all : List Text → Table Text Session → Table Text Session
delete_all [] t = t
delete_all (sid ∷ rest) t = delete_all rest (delete sid t)

unfoldable pub session_revoke_all : Text → Sessions → Sessions
session_revoke_all subject s =
    let (ids, index) = do_ subject clear_fn s.index in
    record { sessions = delete_all ids s.sessions; index = index }
