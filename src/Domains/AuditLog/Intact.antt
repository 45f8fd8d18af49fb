-- ===== src/Domains/AuditLog/Intact.antt =====
-- What the append leaves behind, verify accepts.
use gutencode_test.Prelude.{
  ℕ, zero, suc, ◌+◌, ◌≤◌, ◌<◌, ◌≡◌, refl, sym, ap, ◌∙◌, List, [], ◌∷◌, true, false, ◌⊎◌, arith,
  length, keep, ℕ-Eq, Bool, ◌&&◌, Text-Eq, ==_refl, Bool-cases, inl, inr, codes, Text,
}
use gutencode_test.Core.Exec.{◌>>=◌}
use gutencode_test.Core.Table.{Table, put}
use gutencode_test.Core.Table.Laws.{get-put_self, get-put_ne}
use gutencode_test.Parts.Digest.{Hash}
use gutencode_test.Domains.AuditLog.{
  EventIn, Event, Log, genesis, head_id, head_hash, Walked, damaged, reached, link, advance,
  write_event, append, serve, empty_log, is_valid, is_encodable, check_event, walk, conclude,
  verify,
}

pub Walked-cases :
    (w : Walked) → ((detail : Text) × (w ≡ damaged detail)) ⊎ ((hash : Text) × (w ≡ reached hash))
Walked-cases (damaged detail) = inl (detail, refl)
Walked-cases (reached hash) = inr (hash, refl)

-- The body passes its check, and its fields encode.
abbrev pub is_appended : EventIn → Bool
is_appended data_in = is_valid data_in && is_encodable data_in

module _ (h : Hash) where
  module _ (events : Table ℕ Event) (n event_id : ℕ) (prev : Text) where
    pub walk-step :
        (hash : Text)
        → check_event h events event_id prev ≡ reached hash
        → walk h events (suc n) event_id prev ≡ walk h events n (event_id + 1) hash
    unfolding walk
    walk-step hash e = rw (e, walk)

    pub walk-stop :
        (detail : Text)
        → check_event h events event_id prev ≡ damaged detail
        → walk h events (suc n) event_id prev ≡ damaged detail
    unfolding walk
    walk-stop detail e = rw (e, walk)

  -- A walk of one event more is a walk and a step.
  pub walk-last :
      (events : Table ℕ Event) (n event_id : ℕ) (prev end : Text)
      → walk h events (suc n) event_id prev ≡ reached end
      → (mid : Text) × (walk h events n event_id prev ≡ reached mid)
        × (check_event h events (event_id + n) mid ≡ reached end)
  walk-last events zero event_id prev end e =
      elim (Walked-cases (check_event h events event_id prev)) [
        | inl (detail, w) ↦ absurd (cc (walk-stop events zero event_id prev detail w, e))
        | inr (hash, w) ↦
            let rest : walk h events zero (event_id + 1) hash ≡ reached end =
              sym (walk-step events zero event_id prev hash w) ∙ e in
            let place : event_id + 0 ≡ event_id = omega arith in
            (prev, unfold walk in refl, rw place (w ∙ (unfold walk in rest)))
      ]
  walk-last events (suc m) event_id prev end e =
      elim (Walked-cases (check_event h events event_id prev)) [
        | inl (detail, w) ↦ absurd (cc (walk-stop events (suc m) event_id prev detail w, e))
        | inr (hash, w) ↦
            let (mid, before, step) =
              walk-last events m (event_id + 1) hash end
                (sym (walk-step events (suc m) event_id prev hash w) ∙ e) in
            let place : event_id + suc m ≡ event_id + 1 + m = omega arith in
            (mid, walk-step events m event_id prev hash w ∙ before, rw place step)
      ]

  walk-next :
      (events : Table ℕ Event) (n event_id : ℕ) (prev mid end : Text)
      → walk h events n event_id prev ≡ reached mid
      → check_event h events (event_id + n) mid ≡ reached end
      → walk h events (suc n) event_id prev ≡ reached end
  walk-next events zero event_id prev mid end e step =
      let same : reached prev ≡ reached mid = unfold walk in e in
      let here : prev ≡ mid = cc same in
      let place : event_id ≡ event_id + 0 = omega arith in
      walk-step events zero event_id prev end (rw (here, place) step) ∙ (unfold walk in refl)
  walk-next events (suc n) event_id prev mid end e step =
      elim (Walked-cases (check_event h events event_id prev)) [
        | inl (detail, w) ↦ absurd (cc (walk-stop events n event_id prev detail w, e))
        | inr (hash, w) ↦
            let place : event_id + 1 + n ≡ event_id + suc n = omega arith in
            walk-step events (suc n) event_id prev hash w
            ∙ walk-next events n (event_id + 1) hash mid end
                (sym (walk-step events n event_id prev hash w) ∙ e) (rw place step)
      ]

  check_event-put :
      (events : Table ℕ Event) (event_id k : ℕ) (event : Event) (prev : Text)
      → event_id < k
      → check_event h (put k event events) event_id prev ≡ check_event h events event_id prev
  unfolding check_event
  check_event-put events event_id k event prev before =
      rw (check_event, get-put_ne event_id k event events (λ e. omega arith))

  -- A row past the walk's end does not matter.
  walk-put :
      (events : Table ℕ Event) (n event_id k : ℕ) (event : Event) (prev : Text)
      → event_id + n ≤ k
      → walk h (put k event events) n event_id prev ≡ walk h events n event_id prev
  walk-put events zero event_id k event prev past = unfold walk in refl
  walk-put events (suc n) event_id k event prev past =
      let same = check_event-put events event_id k event prev (omega arith) in
      elim (Walked-cases (check_event h events event_id prev)) [
        | inl (detail, w) ↦
            walk-stop (put k event events) n event_id prev detail (same ∙ w)
            ∙ sym (walk-stop events n event_id prev detail w)
        | inr (hash, w) ↦
            walk-step (put k event events) n event_id prev hash (same ∙ w)
            ∙ walk-put events n (event_id + 1) k event hash (omega arith)
            ∙ sym (walk-step events n event_id prev hash w)
      ]

  check_event-new :
      (now : ℕ) (data_in : EventIn) (log : Log)
      → check_event h
          (write_event h now data_in log).1.events
          (head_id log.head + 1)
          (head_hash log.head)
        ≡ reached (head_hash (write_event h now data_in log).1.head)
  unfolding write_event advance check_event
  check_event-new now data_in log = rw (
    check_event,
    get-put_self (head_id log.head + 1) (write_event h now data_in log).0 log.events,
    ==_refl (head_hash log.head),
    ==_refl (link h (head_hash log.head) (head_id log.head + 1) now data_in.actor data_in.action),
  )

  -- The walk over the whole chain reaches the head's hash.
  abbrev IsChain : Log → Type 0
  IsChain log = walk h log.events (head_id log.head) 1 genesis ≡ reached (head_hash log.head)

  write_event-IsChain :
      (now : ℕ) (data_in : EventIn) (log : Log)
      → IsChain log
      → IsChain (write_event h now data_in log).1
  write_event-IsChain now data_in log chain =
      let event = (write_event h now data_in log).0 in
      let events = (write_event h now data_in log).1.events in
      let n = head_id log.head in
      let place : 1 + n ≡ n + 1 = omega arith in
      let onward : walk h events (suc n) 1 genesis ≡ reached event.hash =
        walk-next events n 1 genesis (head_hash log.head) event.hash
          (unfold write_event advance in
            walk-put log.events n 1 (n + 1) event genesis (omega arith) ∙ chain)
          (rw place (unfold write_event advance in check_event-new now data_in log)) in
      let count : suc n ≡ n + 1 = omega arith in
      let whole : walk h events (n + 1) 1 genesis ≡ reached event.hash = rw count at onward in
      unfold write_event advance in whole

  append-valid :
      (data_in : EventIn) (now : ℕ) (log : Log)
      → is_appended data_in ≡ true
      → (append h data_in now log).1 ≡ (write_event h now data_in log).1
  unfolding append ◌>>=◌
  append-valid data_in now log good =
      let valid : is_valid data_in ≡ true = ground arith in
      let encoded : is_encodable data_in ≡ true = ground arith in rw (valid, encoded)

  serve-valid :
      (data_in : EventIn) (now : ℕ) (rest : List (EventIn × ℕ)) (log : Log)
      → is_appended data_in ≡ true
      → serve h ((data_in, now) ∷ rest) log ≡ serve h rest (write_event h now data_in log).1
  unfolding serve
  serve-valid data_in now rest log good = ap (serve h rest) (append-valid data_in now log good)

  append-invalid :
      (data_in : EventIn) (now : ℕ) (log : Log)
      → is_appended data_in ≡ false
      → (append h data_in now log).1 ≡ log
  unfolding append ◌>>=◌
  append-invalid data_in now log bad = elim (Bool-cases (is_valid data_in)) [
    | inr malformed ↦ rw malformed
    | inl valid ↦ let stuck : is_encodable data_in ≡ false = ground arith in rw (valid, stuck)
  ]

  serve-invalid :
      (data_in : EventIn) (now : ℕ) (rest : List (EventIn × ℕ)) (log : Log)
      → is_appended data_in ≡ false
      → serve h ((data_in, now) ∷ rest) log ≡ serve h rest log
  unfolding serve
  serve-invalid data_in now rest log bad = ap (serve h rest) (append-invalid data_in now log bad)

  head_id-write_event :
      (data_in : EventIn) (now : ℕ) (log : Log)
      → head_id (write_event h now data_in log).1.head ≡ head_id log.head + 1
  unfolding write_event advance
  head_id-write_event data_in now log = refl

  serve-IsChain :
      (requests : List (EventIn × ℕ)) (log : Log)
      → IsChain log
      → IsChain (serve h requests log)
        × (head_id (serve h requests log).head
            ≡ head_id log.head + length (keep (λ r. is_appended r.0) requests))
  serve-IsChain [] log chain = unfold serve in (chain, omega arith)
  serve-IsChain ((data_in, now) ∷ rest) log chain = elim (Bool-cases (is_appended data_in)) [
    | inl good ↦
        let written = write_event-IsChain now data_in log chain in
        let (chain', count) = serve-IsChain rest (write_event h now data_in log).1 written in
        rw (serve-valid data_in now rest log good, good)
          (chain', omega (arith, count, head_id-write_event data_in now log))
    | inr bad ↦ rw (serve-invalid data_in now rest log bad, bad) (serve-IsChain rest log chain)
  ]

-- Whatever appends are served, refused and failing ones included, the log then verifies: the verdict is
-- "chain intact", and its count is the number of the appends whose fields were well formed and hold no
-- lone surrogate.
pub verify-serve :
    (h : Hash) (requests : List (EventIn × ℕ))
    → verify h (serve h requests empty_log) ≡ record {
      valid = true;
      count = length (keep (λ r. is_appended r.0) requests);
      detail = codes "chain intact";
    }
unfolding verify conclude
verify-serve h requests =
    let (chain, count) = serve-IsChain h requests empty_log (unfold walk in refl) in
    let total : head_id (serve h requests empty_log).head
        ≡ length (keep (λ r. is_appended r.0) requests) =
      omega (arith, count) in
    rw (chain, ==_refl (head_hash (serve h requests empty_log).head), total)
