-- ===== src/Domains/AuditLog.antt =====
-- domains/audit_log.py: the append-only log whose events are chained by their hashes. The state is the
-- row "head" of the namespace "audit_log_chain" and the namespace "audit_log_events", keyed by the
-- event's id (`str(id)` is one to one). The clock's reading comes as `now`. The texts of a log that is
-- verified are taken to encode, as those that the append stores do.
pub mod Intact
pub mod Evident
use gutencode_test.Prelude.{
  ℕ, zero, suc, ◌+◌, Bool, true, false, not, ◌&&◌, Option, none, some, List, [], ◌∷◌, ◌++◌, Text,
  codes, Text-Eq, ℕ-Eq, ◌==◌, if◌then◌else◌, str_ℕ,
}
use gutencode_test.Core.Problem.{invalid, unhandled}
use gutencode_test.Core.Exec.{Exec, pure, gets, atomically, require, ◌>>=◌, ◌>>◌}
use gutencode_test.Core.Table.{Table, get, put, values}
use gutencode_test.Parts.Digest.{Hash, digest_hex, encodes}
use gutencode_test.Parts.WellFormed.{is_well_formed}
use gutencode_test.Parts.Paginate.Reply.{reply_page}

pub record EventIn : Type 0 where
  pub actor : Text
  pub action : Text

-- Both fields are a WellFormedStr; a body with another is a 422.
abbrev pub is_valid : EventIn → Bool
is_valid data_in = is_well_formed data_in.actor && is_well_formed data_in.action

-- Both fields can be digested; else the callback raises and the store rolls back.
abbrev pub is_encodable : EventIn → Bool
is_encodable data_in = encodes data_in.actor && encodes data_in.action

pub record Event : Type 0 where
  pub id : ℕ
  pub at : ℕ
  pub actor : Text
  pub action : Text
  pub prev : Text
  pub hash : Text

pub record Head : Type 0 where
  pub id : ℕ
  pub hash : Text

pub record VerifyOut : Type 0 where
  pub valid : Bool
  pub count : ℕ
  pub detail : Text

pub record Log : Type 0 where
  pub head : Option Head
  pub events : Table ℕ Event

abbrev pub genesis : Text
genesis = codes "GENESIS"

-- The id and the hash that the next event builds on.
abbrev pub head_id : Option Head → ℕ
head_id none = 0
head_id (some head) = head.id

abbrev pub head_hash : Option Head → Text
head_hash none = genesis
head_hash (some head) = head.hash

-- What the walk along the chain found: damage, or the hash that it reached.
pub data Walked : Type 0 where
  damaged : Text → Walked
  reached : Text → Walked

module _ (h : Hash) where
  unfoldable pub link : Text → ℕ → ℕ → Text → Text → Text
  link prev event_id at actor action = digest_hex h (
      prev
      ∷ str_ℕ event_id
      ∷ str_ℕ at
      ∷ digest_hex h (actor ∷ [])
      ∷ digest_hex h (action ∷ [])
      ∷ [])

  -- The callback on the head: the new head, and the event.
  unfoldable pub advance : ℕ → EventIn → Option Head → Option Head × Event
  advance now data_in head =
      let event_id = head_id head + 1 in
      let event_hash = link (head_hash head) event_id now data_in.actor data_in.action in
      (
        some (record { id = event_id; hash = event_hash }),
        record {
          id = event_id;
          at = now;
          actor = data_in.actor;
          action = data_in.action;
          prev = head_hash head;
          hash = event_hash;
        },
      )

  -- The append: the head advances, then the event's row is written.
  unfoldable pub write_event : ℕ → EventIn → Log → Event × Log
  write_event now data_in log =
      let (head, event) = advance now data_in log.head in
      (event, record { head = head; events = put event.id event log.events })

  unfoldable pub append : EventIn → ℕ → Exec Log Event
  append data_in now = do
    require (is_valid data_in) (invalid (codes "invalid body"))
    require (is_encodable data_in) unhandled
    atomically (write_event now data_in)

  -- The loop's body: one event against the hash before it.
  unfoldable pub check_event : Table ℕ Event → ℕ → Text → Walked
  check_event events event_id prev = elim (get event_id events) [
    | none ↦ damaged (codes "event " ++ str_ℕ event_id ++ codes " missing (hole in the chain)")
    | some event ↦
        if event.prev == prev && event.hash == link prev event_id event.at event.actor event.action
        then reached event.hash
        else damaged (codes "chain broken at event " ++ str_ℕ event_id)
  ]

  -- for event_id in range(...): `n` events from `event_id` on, until one is damaged.
  unfoldable pub walk : Table ℕ Event → ℕ → ℕ → Text → Walked
  walk events zero event_id prev = reached prev
  walk events (suc n) event_id prev = elim (check_event events event_id prev) [
    | damaged detail ↦ damaged detail
    | reached hash ↦ walk events n (event_id + 1) hash
  ]

  -- The verdict on what the walk found.
  unfoldable pub conclude : Option Head → Walked → VerifyOut
  conclude head (damaged detail) = record { valid = false; count = head_id head; detail = detail }
  conclude head (reached prev) =
      if head_hash head == prev
      then record { valid = true; count = head_id head; detail = codes "chain intact" }
      else record {
        valid = false;
        count = head_id head;
        detail = codes "head does not match the derived chain";
      }

  unfoldable pub verify : Log → VerifyOut
  verify log = conclude log.head (walk log.events (head_id log.head) 1 genesis)

  -- The log after a history of appends.
  unfoldable pub serve : List (EventIn × ℕ) → Log → Log
  serve [] log = log
  serve ((data_in, now) ∷ rest) log = serve rest (append data_in now log).1

abbrev pub empty_log : Log
empty_log = record { head = none; events = [] }

-- The events in the order of their ids, for an admin.
unfoldable pub list_events : Text → Text → Exec Log (List Event × Option Text)
list_events limit cursor = do
  events ← gets (λ (l : Log). values l.events)
  reply_page events cursor limit
