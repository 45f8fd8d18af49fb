-- ===== src/Domains/LlmUsage/Once.antt =====
-- An event is recorded exactly once: a retry gets the same event and writes nothing.
use gutencode_test.Prelude.{
  ℕ, ◌≡◌, ◌⊎◌, refl, ap, ◌∙◌, Bool, true, ◌&&◌, some, List, Text, Text-Eq, ℕ-Eq, ◌==◌, ℤ, pos, ◌-ℤ◌,
  abs, leb, Bool-cases, Option-cases, inl, inr,
}
use gutencode_test.Core.Problem.{Problem}
use gutencode_test.Core.Exec.{Result, ok, err, ◌>>=◌}
use gutencode_test.Core.Exec.Laws.{require-ok, require-true}
use gutencode_test.Core.Table.{get, do_}
use gutencode_test.Core.Table.Laws.{get-put_self}
use gutencode_test.Parts.Claim.{claim_once}
use gutencode_test.Parts.Digest.{Hash}
use gutencode_test.Domains.LlmUsage
use gutencode_test.Domains.LlmUsage.{
  Limits, EventIn, Event, PublicEvent, Usage, public, body_hash, slot, claim_event, conclude,
  commit_at, commit, time_or, sent, is_valid, is_safe_time,
}
use gutencode_test.Domains.LlmUsage.Prices.{derive_cost}
use gutencode_test.Domains.LlmUsage.Requests.{Request, serve, conclude-state, serve-Settled}

Result-cases : (m : Result ℕ) → ((n : ℕ) × (m ≡ ok n)) ⊎ ((p : Problem) × (m ≡ err p))
Result-cases (ok n) = inl (n, refl)
Result-cases (err p) = inr (p, refl)

conclude-true :
    (owner hash : Text) (settled : Event) (u : Usage)
    → (settled.owner == owner) ≡ true
    → (settled.body_hash == hash) ≡ true
    → conclude owner hash settled u ≡ (ok (public settled), u)
unfolding conclude ◌>>=◌
conclude-true owner hash settled u own same = rw (own, same)

conclude-ok :
    (owner hash : Text) (settled : Event) (u : Usage) (r : PublicEvent)
    → (conclude owner hash settled u).0 ≡ ok r
    → ((settled.owner == owner) ≡ true)
      × ((settled.body_hash == hash) ≡ true)
      × (public settled ≡ r)
unfolding conclude ◌>>=◌
conclude-ok owner hash settled u r good = elim (Bool-cases (settled.owner == owner)) [
  | inr foreign ↦ absurd (cc (rw foreign at good))
  | inl own ↦ elim (Bool-cases (settled.body_hash == hash)) [
    | inr other ↦ absurd (cc (rw (own, other) at good))
    | inl same ↦
        let reply : ◌≡◌ {A = Result PublicEvent} (ok (public settled)) (ok r) =
          rw (own, same) at good in
        (own, same, cc reply)
  ]
]

module _ (h : Hash) (limits : Limits) where
  -- The claim leaves its winner in the slot.
  claim_event-wins :
      (owner : Text) (e : EventIn) (at : ℤ) (cost : ℕ) (hash : Text) (u : Usage)
      → let prior = get (slot h owner e.identifier) u.events in
        let claimed = claim_event h owner e at cost hash prior u in
        get (slot h owner e.identifier) claimed.1.events ≡ some claimed.0
  claim_event-wins owner e at cost hash u =
      elim (Option-cases (get (slot h owner e.identifier) u.events)) [
        | inr (rec, held) ↦ rw held (unfold claim_event in held)
        | inl free ↦ rw free (
            unfold claim_event claim_once do_ in
            rw free (get-put_self (slot h owner e.identifier) _ u.events))
      ]

  -- The slot holds the caller's event for this body.
  abbrev Holds : Text → EventIn → Text → ℕ → PublicEvent → Usage → Type 0
  Holds owner e at_sent cost r u =
      (rec : Event) × (get (slot h owner e.identifier) u.events ≡ some rec)
      × ((rec.owner == owner) ≡ true)
      × ((rec.body_hash == body_hash h e at_sent cost) ≡ true)
      × (public rec ≡ r)

  commit_at-ok :
      (owner : Text) (e : EventIn) (at : ℤ) (at_sent : Text) (cost : ℕ) (u : Usage)
      (r : PublicEvent)
      → (commit_at h owner e at at_sent cost u).0 ≡ ok r
      → Holds owner e at_sent cost r (commit_at h owner e at at_sent cost u).1
  unfolding commit_at ◌>>=◌
  commit_at-ok owner e at at_sent cost u r good =
      let hash = body_hash h e at_sent cost in
      let claimed =
        claim_event h owner e at cost hash (get (slot h owner e.identifier) u.events) u in
      let (own, same, reply) = conclude-ok owner hash claimed.0 claimed.1 r good in
      (
        claimed.0,
        rw (conclude-state owner hash claimed.0 claimed.1)
            (claim_event-wins owner e at cost hash u),
        own,
        same,
        reply,
      )

  -- A retry finds its event.
  commit_at-replays :
      (owner : Text) (e : EventIn) (at : ℤ) (at_sent : Text) (cost : ℕ) (u : Usage)
      (r : PublicEvent)
      → Holds owner e at_sent cost r u
      → commit_at h owner e at at_sent cost u ≡ (ok r, u)
  unfolding commit_at claim_event ◌>>=◌
  commit_at-replays owner e at at_sent cost u r (rec, held, own, same, reply) =
      rw held (
        conclude-true owner (body_hash h e at_sent cost) rec u own same ∙ ap (λ p. (ok p, u)) reply)

  Priced : EventIn → ℕ → Type 0
  Priced e cost = derive_cost limits.max_tokens e.provider e.model e.tokens ≡ ok cost

  commit-priced :
      (owner : Text) (e : EventIn) (at : ℤ) (at_sent : Text) (cost : ℕ) (u : Usage)
      → Priced e cost
      → commit h limits owner e at at_sent u ≡ commit_at h owner e at at_sent cost u
  unfolding commit Priced ◌>>=◌
  commit-priced owner e at at_sent cost u priced = rw priced

  commit-ok :
      (owner : Text) (e : EventIn) (at : ℤ) (at_sent : Text) (u : Usage) (r : PublicEvent)
      → (commit h limits owner e at at_sent u).0 ≡ ok r
      → (cost : ℕ) × Priced e cost
        × Holds owner e at_sent cost r (commit h limits owner e at at_sent u).1
  unfolding Priced
  commit-ok owner e at at_sent u r good =
      elim (Result-cases (derive_cost limits.max_tokens e.provider e.model e.tokens)) [
        | inr (p, refused) ↦ absurd (unfold commit ◌>>=◌ in cc (rw refused at good))
        | inl (cost, priced) ↦
            let same = commit-priced owner e at at_sent cost u priced in
            (cost, priced, rw same (commit_at-ok owner e at at_sent cost u r (rw same at good)))
      ]

  abbrev in_window : ℕ → EventIn → Bool
  in_window now e = leb (abs (time_or now e.at -ℤ pos now)) limits.replay

  abbrev is_acceptable : EventIn → Bool
  is_acceptable e = is_valid e && is_safe_time e.at

  record_event-ok :
      (now : ℕ) (owner : Text) (e : EventIn) (u : Usage) (r : PublicEvent)
      → (LlmUsage.record_event h limits now owner e u).0 ≡ ok r
      → (is_acceptable e ≡ true)
        × (LlmUsage.record_event h limits now owner e u
            ≡ commit h limits owner e (time_or now e.at) (sent e.at) u)
  unfolding LlmUsage.record_event
  record_event-ok now owner e u r good =
      let (valid, rest) = require-ok (is_acceptable e) _ _ u good in
      let (timely, last) = require-ok (in_window now e) _ _ u rest in
      (
        valid,
        require-true (is_acceptable e) _ _ u valid ∙ require-true (in_window now e) _ _ u timely,
      )

  record_event-accepts :
      (now : ℕ) (owner : Text) (e : EventIn) (u : Usage)
      → is_acceptable e ≡ true
      → in_window now e ≡ true
      → LlmUsage.record_event h limits now owner e u
        ≡ commit h limits owner e (time_or now e.at) (sent e.at) u
  unfolding LlmUsage.record_event
  record_event-accepts now owner e u valid timely =
      require-true (is_acceptable e) _ _ u valid ∙ require-true (in_window now e) _ _ u timely

-- Once an event has been recorded, the same request of the same caller, sent again after any requests of
-- any callers and at any time for which it is in the replay window, gets the same event in reply and
-- changes nothing: no retry is counted twice.
pub record_event-replays :
    (h : Hash) (limits : Limits) (now later : ℕ) (owner : Text) (e : EventIn) (u : Usage)
    (history : List (ℕ × Text × Request)) (r : PublicEvent)
    → (LlmUsage.record_event h limits now owner e u).0 ≡ ok r
    → leb (abs (time_or later e.at -ℤ pos later)) limits.replay ≡ true
    → let then_ = serve h limits history (LlmUsage.record_event h limits now owner e u).1 in
      LlmUsage.record_event h limits later owner e then_ ≡ (ok r, then_)
record_event-replays h limits now later owner e u history r good timely =
    let (valid, first) = record_event-ok h limits now owner e u r good in
    let (cost, priced, (rec, held, own, same, reply)) =
      commit-ok h limits owner e (time_or now e.at) (sent e.at) u r (rw first at good) in
    let at_first : get (slot h owner e.identifier)
          (LlmUsage.record_event h limits now owner e u).1.events
        ≡ some rec =
      rw first held in
    let then_ = serve h limits history (LlmUsage.record_event h limits now owner e u).1 in
    record_event-accepts h limits later owner e then_ valid timely
    ∙ commit-priced h limits owner e (time_or later e.at) (sent e.at) cost then_ priced
    ∙ commit_at-replays h limits owner e (time_or later e.at) (sent e.at) cost then_ r (
      rec,
      serve-Settled h limits history (slot h owner e.identifier) rec _ at_first,
      own,
      same,
      reply,
    )
