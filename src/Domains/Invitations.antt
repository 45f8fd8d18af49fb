-- ===== src/Domains/Invitations.antt =====
-- domains/invitations.py: single-use, expiring invitations. The state is the namespace
-- "invitations_tokens". The minted token comes as an argument, the clock's reading as `now`; a
-- lifetime below 0 is refused like a lifetime of 0.
pub mod Once
use gutencode_test.Prelude.{
  ℕ, ◌+◌, Bool, true, false, ◌&&◌, Option, none, some, List, [], ◌∷◌, Text, codes, Text-Eq, leb,
  ltb, if◌then◌else◌,
}
use gutencode_test.Core.Problem.{Problem, not_found, invalid, conflict, gone}
use gutencode_test.Core.Exec.{Result, ok, err, Exec, pure, lift, atomically, require, ◌>>=◌, ◌>>◌}
use gutencode_test.Core.Table.{Table, put, do_}
use gutencode_test.Parts.WellFormed.{is_well_formed, require_well_formed}

pub data Status : Type 0 where
  pending accepted : Status

abbrev pub is_accepted : Status → Bool
is_accepted pending = false
is_accepted accepted = true

pub record Invitation : Type 0 where
  pub token : Text
  pub email : Text
  pub inviter : Text
  pub status : Status
  pub expires_at : ℕ

pub record InviteIn : Type 0 where
  pub email : Text
  pub ttl : Option ℕ

abbrev pub Invitations : Type 0
Invitations = Table Text Invitation

-- Field(ge=1, le=31536000), where a lifetime is given.
abbrev pub valid_ttl : Option ℕ → Bool
valid_ttl none = true
valid_ttl (some n) = leb 1 n && leb n 31536000

abbrev pub ttl_or : ℕ → Option ℕ → ℕ
ttl_or default none = default
ttl_or default (some n) = n

-- The put of a new record, which is returned too.
unfoldable pub insert : Invitation → Invitations → Invitation × Invitations
insert rec t = (rec, put rec.token rec t)

unfoldable pub create : ℕ → Text → InviteIn → ℕ → Text → Exec Invitations Invitation
create default_ttl token data_in now inviter = do
  require (is_well_formed data_in.email && valid_ttl data_in.ttl) (invalid (codes "invalid body"))
  atomically (
      insert (record {
        token = token;
        email = data_in.email;
        inviter = inviter;
        status = pending;
        expires_at = now + ttl_or default_ttl data_in.ttl;
      }))

abbrev pub expired : Problem
expired = gone (codes "invitation expired")

abbrev pub used : Problem
used = conflict (codes "invitation already accepted")

-- The single-use consume, with the problem that its outcome raises.
unfoldable pub consume : ℕ → Option Invitation → Option Invitation × Result Invitation
consume now none = (none, err (not_found (codes "invitation")))
consume now (some rec) =
    let taken = record rec { status = accepted } in
    if ltb rec.expires_at now
    then (none, err expired)
    else if is_accepted rec.status
    then (none, err used)
    else (some taken, ok taken)

unfoldable pub accept : Text → ℕ → Exec Invitations Invitation
accept token now = do
  require_well_formed token (codes "the token")
  outcome ← atomically (do_ token (consume now))
  lift outcome
