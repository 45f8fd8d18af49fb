-- ===== src/Domains/LlmUsage/Requests.antt =====
-- The requests of domains/llm_usage.py, served one after the other: a settled event stays.
use gutencode_test.Prelude.{
  ℕ, ◌≡◌, Option, none, some, List, [], ◌∷◌, Text, Text-Eq, ℕ-Eq, ◌==◌, ℤ, Bool-cases, inl, inr,
}
use gutencode_test.Core.Exec.{◌>>=◌}
use gutencode_test.Core.Exec.Keeps.{
  Keeps, Keeps-bind, Keeps-gets, Keeps-lift, Keeps-atomically, keeps_rules,
}
use gutencode_test.Core.Table.{get}
use gutencode_test.Parts.Claim.Settled.{get-claim_once_settled}
use gutencode_test.Parts.Digest.{Hash}
use gutencode_test.Parts.Paginate.Reply.{reply_page}
use gutencode_test.Domains.LlmUsage
use gutencode_test.Domains.LlmUsage.{
  Limits, EventIn, Event, PublicEvent, Usage, public, body_hash, slot, claim_event, conclude,
  commit_at, commit, time_or, sent, is_valid, is_safe_time,
}

pub data Request : Type 0 where
  record_event sink : EventIn → Request
  list_events : Text → Text → Request

-- The conclusion writes nothing.
pub conclude-state :
    (owner hash : Text) (settled : Event) (u : Usage) → (conclude owner hash settled u).1 ≡ u
unfolding conclude ◌>>=◌
conclude-state owner hash settled u = elim (Bool-cases (settled.owner == owner)) [
  | inr foreign ↦ rw foreign
  | inl own ↦ elim (Bool-cases (settled.body_hash == hash)) [
    | inr other ↦ rw (own, other)
    | inl same ↦ rw (own, same)
  ]
]

module _ (h : Hash) (limits : Limits) where
  unfoldable pub step : ℕ → Text → Request → Usage → Usage
  step now caller (record_event e) u = (LlmUsage.record_event h limits now caller e u).1
  step now caller (sink e) u = (LlmUsage.sink h limits now caller e u).1
  step now caller (list_events limit cursor) u = (LlmUsage.list_events caller limit cursor u).1

  unfoldable pub serve : List (ℕ × Text × Request) → Usage → Usage
  serve [] u = u
  serve ((now, caller, request) ∷ rest) u = serve rest (step now caller request u)

  -- A settled slot.
  abbrev Settled : Text → Event → Usage → Type 0
  Settled key rec u = get key u.events ≡ some rec

  claim_event-Settled :
      (key : Text) (rec : Event) (owner : Text) (e : EventIn) (at : ℤ) (cost : ℕ) (hash : Text)
      (prior : Option Event) (u : Usage)
      → Settled key rec u
      → Settled key rec (claim_event h owner e at cost hash prior u).1
  unfolding claim_event
  claim_event-Settled key rec owner e at cost hash (some prior) u held = held
  claim_event-Settled key rec owner e at cost hash none u held =
      get-claim_once_settled key (slot h owner e.identifier) _ rec u.events held

  conclude-Settled :
      (key : Text) (rec : Event) (owner hash : Text) (settled : Event)
      → Keeps (Settled key rec) (conclude owner hash settled)
  conclude-Settled key rec owner hash settled = record {
    at = λ s p. rw (conclude-state owner hash settled s) p;
  }

  commit-Settled :
      (key : Text) (rec : Event) (owner : Text) (e : EventIn) (at : ℤ) (at_sent : Text)
      → Keeps (Settled key rec) (commit h limits owner e at at_sent)
  unfolding commit commit_at
  commit-Settled key rec owner e at at_sent = Keeps-bind _ _ (Keeps-lift _) λ cost.
      Keeps-bind _ _ (Keeps-gets _) λ prior.
        Keeps-bind _ _ (Keeps-atomically _ (claim_event-Settled key rec owner e at cost _ prior))
          λ settled. conclude-Settled key rec owner (body_hash h e at_sent cost) settled

  record_event-Settled :
      (key : Text) (rec : Event) (now : ℕ) (owner : Text) (e : EventIn)
      → Keeps (Settled key rec) (LlmUsage.record_event h limits now owner e)
  unfolding LlmUsage.record_event
  record_event-Settled key rec now owner e = search (commit-Settled, keeps_rules)

  sink-Settled :
      (key : Text) (rec : Event) (now : ℕ) (owner : Text) (e : EventIn)
      → Keeps (Settled key rec) (LlmUsage.sink h limits now owner e)
  unfolding LlmUsage.sink
  sink-Settled key rec now owner e = search (commit-Settled, keeps_rules)

  list_events-Settled :
      (key : Text) (rec : Event) (owner limit cursor : Text)
      → Keeps (Settled key rec) (LlmUsage.list_events owner limit cursor)
  unfolding LlmUsage.list_events reply_page
  list_events-Settled key rec owner limit cursor = search keeps_rules

  step-Settled :
      (key : Text) (rec : Event) (now : ℕ) (caller : Text) (request : Request) (u : Usage)
      → Settled key rec u
      → Settled key rec (step now caller request u)
  unfolding step
  step-Settled key rec now caller (record_event e) u held =
      (record_event-Settled key rec now caller e).at u held
  step-Settled key rec now caller (sink e) u held = (sink-Settled key rec now caller e).at u held
  step-Settled key rec now caller (list_events limit cursor) u held =
      (list_events-Settled key rec caller limit cursor).at u held

  pub serve-Settled :
      (history : List (ℕ × Text × Request)) (key : Text) (rec : Event) (u : Usage)
      → get key u.events ≡ some rec
      → get key (serve history u).events ≡ some rec
  unfolding serve
  serve-Settled [] key rec u held = held
  serve-Settled ((now, caller, request) ∷ rest) key rec u held =
      serve-Settled rest key rec (step now caller request u)
        (step-Settled key rec now caller request u held)
