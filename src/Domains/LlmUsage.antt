-- ===== src/Domains/LlmUsage.antt =====
-- domains/llm_usage.py: the meter of language-model calls. The state is the namespace "llm_usage_events",
-- keyed by scoped_key(route, owner, identifier), and the counter "llm_usage_event". The token counts are
-- natural numbers (the body's bounds are checked), times are integers, and the environment's window and
-- ceiling come in `Limits`.
pub mod Requests
pub mod Prices
pub mod Summary
pub mod Asked
pub mod Totals
pub mod Cost
pub mod Once
use gutencode_test.Prelude.{
  ℕ, ◌+◌, ◌-◌, ◌*◌, ◌/◌, ◌^◌, Bool, true, false, ◌&&◌, Option, none, some, List, [], ◌∷◌, ◌++◌,
  Text, codes, Text-Eq, ℕ-Eq, ◌==◌, ltb, leb, all, map, keep, if◌then◌else◌, str_ℕ, sort_by, ℤ, pos,
  negsuc, ◌-ℤ◌, abs,
}
use gutencode_test.Core.Problem.{invalid, conflict}
use gutencode_test.Core.Exec.{
  Result, ok, err, Exec, pure, gets, lift, atomically, require, ◌>>=◌, ◌>>◌,
}
use gutencode_test.Core.Table.{Table, get, put, values, next_id}
use gutencode_test.Parts.Claim.{claim_once}
use gutencode_test.Parts.Digest.{Hash, digest_hex, scoped_key}
use gutencode_test.Parts.WellFormed.{is_well_formed}
use gutencode_test.Parts.Paginate.Reply.{reply_page}
use gutencode_test.Domains.LlmUsage.Prices.{Tokens, derive_cost}

pub record Limits : Type 0 where
  pub replay : ℕ
  pub max_tokens : ℕ

pub record EventIn : Type 0 where
  pub identifier : Text
  pub provider : Text
  pub model : Text
  pub tokens : Tokens
  pub at : Option ℤ

pub record Event : Type 0 where
  pub id : ℕ
  pub owner : Text
  pub identifier : Text
  pub provider : Text
  pub model : Text
  pub tokens : Tokens
  pub at : ℤ
  pub cost_nanodollars : ℕ
  pub body_hash : Text

-- _public: all but the owner and the body's hash.
pub record PublicEvent : Type 0 where
  pub id : ℕ
  pub identifier : Text
  pub provider : Text
  pub model : Text
  pub tokens : Tokens
  pub at : ℤ
  pub cost_nanodollars : ℕ

pub record Usage : Type 0 where
  pub events : Table Text Event
  pub last_id : ℕ

unfoldable pub public : Event → PublicEvent
public rec = record {
  id = rec.id;
  identifier = rec.identifier;
  provider = rec.provider;
  model = rec.model;
  tokens = rec.tokens;
  at = rec.at;
  cost_nanodollars = rec.cost_nanodollars;
}

-- str(n) of an integer.
unfoldable pub str_ℤ : ℤ → Text
str_ℤ (pos n) = str_ℕ n
str_ℤ (negsuc n) = b'-' ∷ str_ℕ (n + 1)

-- `at` as it was sent, or "-" if it was omitted.
unfoldable pub sent : Option ℤ → Text
unfolding str_ℤ
sent none = codes "-"
sent (some at) = str_ℤ at

abbrev pub time_or : ℕ → Option ℤ → ℤ
time_or now none = pos now
time_or now (some at) = at

abbrev pub max_safe : ℕ
max_safe = 2 ^ 53 - 1

-- The body: well-formed names, safe integers.
unfoldable pub is_valid : EventIn → Bool
is_valid e =
    is_well_formed e.identifier
    && is_well_formed e.provider
    && is_well_formed e.model
    && leb e.tokens.input max_safe
    && leb e.tokens.output max_safe
    && leb e.tokens.cache_read max_safe
    && leb e.tokens.cache_write max_safe
    && leb e.tokens.reasoning max_safe

unfoldable pub is_safe_time : Option ℤ → Bool
is_safe_time none = true
is_safe_time (some at) = leb (abs at) max_safe

-- The settled event is the caller's, and has the body as it was sent.
unfoldable pub conclude : Text → Text → Event → Exec Usage PublicEvent
conclude owner hash settled = do
  require (settled.owner == owner) (conflict (codes "identifier is not owned by this caller"))
  require (settled.body_hash == hash) (conflict (codes "identifier reused with a different body"))
  pure (public settled)

module _ (h : Hash) where
  unfoldable pub body_hash : EventIn → Text → ℕ → Text
  body_hash e at_sent cost = digest_hex h (
      codes "provider"
      ∷ e.provider
      ∷ codes "model"
      ∷ e.model
      ∷ codes "in"
      ∷ str_ℕ e.tokens.input
      ∷ codes "out"
      ∷ str_ℕ e.tokens.output
      ∷ codes "cr"
      ∷ str_ℕ e.tokens.cache_read
      ∷ codes "cw"
      ∷ str_ℕ e.tokens.cache_write
      ∷ codes "re"
      ∷ str_ℕ e.tokens.reasoning
      ∷ codes "at"
      ∷ at_sent
      ∷ codes "cost"
      ∷ str_ℕ cost
      ∷ [])

  unfoldable pub slot : Text → Text → Text
  slot owner identifier = scoped_key h (codes "POST /llm_usage/events") owner identifier

  -- A settled identifier never mints; a new one is claimed with its whole record.
  unfoldable pub claim_event : Text → EventIn → ℤ → ℕ → Text → Option Event → Usage → Event × Usage
  claim_event owner e at cost hash (some prior) u = (prior, u)
  claim_event owner e at cost hash none u =
      let (eid, last) = next_id u.last_id in
      let rec : Event = record {
        id = eid;
        owner = owner;
        identifier = e.identifier;
        provider = e.provider;
        model = e.model;
        tokens = e.tokens;
        at = at;
        cost_nanodollars = cost;
        body_hash = hash;
      } in
      let (settled, events) = claim_once (slot owner e.identifier) rec u.events in
      (settled, record { events = events; last_id = last })

  unfoldable pub commit_at : Text → EventIn → ℤ → Text → ℕ → Exec Usage PublicEvent
  commit_at owner e at at_sent cost = do
    let hash = body_hash e at_sent cost
    prior ← gets (λ (u : Usage). get (slot owner e.identifier) u.events)
    settled ← atomically (claim_event owner e at cost hash prior)
    conclude owner hash settled

  -- _commit: the one writer, for the route and for the sink.
  unfoldable pub commit : Limits → Text → EventIn → ℤ → Text → Exec Usage PublicEvent
  commit limits owner e at at_sent = do
    cost ← lift (derive_cost limits.max_tokens e.provider e.model e.tokens)
    commit_at owner e at at_sent cost

  unfoldable pub record_event : Limits → ℕ → Text → EventIn → Exec Usage PublicEvent
  record_event limits now owner e = do
    require (is_valid e && is_safe_time e.at) (invalid (codes "invalid body"))
    require (leb (abs (time_or now e.at -ℤ pos now)) limits.replay)
        (invalid (codes "at is outside the replay window"))
    commit limits owner e (time_or now e.at) (sent e.at)

  -- _record_event, which the core's hook calls: no `at` is sent.
  unfoldable pub sink : Limits → ℕ → Text → EventIn → Exec Usage PublicEvent
  sink limits now owner e = do
    require (is_valid e) (invalid (codes "invalid body"))
    commit limits owner e (pos now) (codes "-")

unfoldable pub list_events : Text → Text → Text → Exec Usage (List PublicEvent × Option Text)
list_events owner limit cursor = do
  rows ← gets (λ (u : Usage). values u.events)
  reply_page
      (sort_by (λ (r : PublicEvent). r.id)
        (map public (keep (λ (r : Event). r.owner == owner) rows)))
      cursor limit
