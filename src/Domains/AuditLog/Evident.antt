-- ===== src/Domains/AuditLog/Evident.antt =====
-- An edited log does not verify under the same head; what the events' own `id` fields say, it ignores.
use gutencode_test.Prelude.{
  ℕ, zero, suc, ◌+◌, ◌≤◌, ◌≡◌, refl, sym, ap, ◌∙◌, none, some, [], ◌∷◌, ◌++◌, true, arith, ℕ-Eq,
  Text-Eq, Text, ◌==◌, ==_true, Bool-cases, Option-cases, inl, inr, codes, Free, split_last, str_ℕ,
  str_ℕ-injective, str_ℕ-Digits, Digits-Free, map, ◌&&◌, leb, if◌then◌else◌,
}
use mathlib.Core.List.{append_assoc}
use gutencode_test.Core.Table.{Table, get}
use gutencode_test.Parts.Digest.{Hash, join_colon, digest_hex}
use gutencode_test.Parts.Digest.Scoped.{sha256-Free}
use gutencode_test.Domains.AuditLog.{
  Event, Log, genesis, head_id, head_hash, damaged, reached, link, check_event, walk, conclude,
  verify,
}
use gutencode_test.Domains.AuditLog.Intact.{Walked-cases, walk-last, walk-step, walk-stop}

-- The parts of a record that the hashes cover.
pub record SameEvidence (e e' : Event) : Type 0 where
  pub same_at : e.at ≡ e'.at
  pub same_actor : e.actor ≡ e'.actor
  pub same_action : e.action ≡ e'.action
  pub same_prev : e.prev ≡ e'.prev
  pub same_hash : e.hash ≡ e'.hash

-- One joined part off the end.
split_part :
    (xs ys xs' ys' : Text)
    → Free b':' ys
    → Free b':' ys'
    → xs ++ (b':' ∷ ys) ≡ xs' ++ (b':' ∷ ys')
    → (xs ≡ xs') × (ys ≡ ys')
split_part = split_last b':'

-- The parts of a join, the last one split off.
regroup : (a b : Text) (rest : Text) → a ++ (b':' ∷ (b ++ rest)) ≡ (a ++ (b':' ∷ b)) ++ rest
regroup a b rest = sym (append_assoc a (b':' ∷ b) rest)

module _ (h : Hash) where
  link_text : Text → ℕ → ℕ → Text → Text → Text
  link_text prev event_id at actor action =
      (((prev ++ (b':' ∷ str_ℕ event_id)) ++ (b':' ∷ str_ℕ at)) ++ (b':' ∷ h.sha256 actor))
      ++ (b':' ∷ h.sha256 action)

  link_lem :
      (prev : Text) (event_id at : ℕ) (actor action : Text)
      → link h prev event_id at actor action ≡ h.sha256 (link_text prev event_id at actor action)
  unfolding link digest_hex join_colon link_text
  link_lem prev event_id at actor action =
      ap h.sha256
        (regroup prev (str_ℕ event_id) _ ∙ regroup _ (str_ℕ at) _ ∙ regroup _ (h.sha256 actor) _)

  -- The links of two records are equal only if all that they cover is.
  link-injective :
      (prev prev' : Text) (event_id event_id' at at' : ℕ) (actor actor' action action' : Text)
      → link h prev event_id at actor action ≡ link h prev' event_id' at' actor' action'
      → (prev ≡ prev') × (at ≡ at') × (actor ≡ actor') × (action ≡ action')
  unfolding link_text
  link-injective prev prev' event_id event_id' at at' actor actor' action action' e =
      let hex_free = λ (s : Text). sha256-Free h b':' s refl in
      let digits_free = λ (n : ℕ). Digits-Free b':' (str_ℕ n) refl (str_ℕ-Digits n) in
      let joined = h.injective _ _ (
        sym (link_lem prev event_id at actor action)
        ∙ e
        ∙ link_lem prev' event_id' at' actor' action') in
      let (rest, actions) = split_part _ _ _ _ (hex_free action) (hex_free action') joined in
      let (rest', actors) = split_part _ _ _ _ (hex_free actor) (hex_free actor') rest in
      let (rest'', ats) = split_part _ _ _ _ (digits_free at) (digits_free at') rest' in
      let (prevs, ids) = split_part _ _ _ _ (digits_free event_id) (digits_free event_id') rest'' in
      (prevs, str_ℕ-injective at at' ats, h.injective _ _ actors, h.injective _ _ actions)

  -- An event that the walk passed.
  record Passed (events : Table ℕ Event) (event_id : ℕ) (prev end : Text) : Type 0 where
    event : Event
    held : get event_id events ≡ some event
    from_prev : event.prev ≡ prev
    to_end : event.hash ≡ end
    linked : end ≡ link h prev event_id event.at event.actor event.action

  check_event-Passed :
      (events : Table ℕ Event) (event_id : ℕ) (prev end : Text)
      → check_event h events event_id prev ≡ reached end
      → Passed events event_id prev end
  unfolding check_event
  check_event-Passed events event_id prev end e = elim (Option-cases (get event_id events)) [
    | inl missing ↦ absurd (cc (rw (check_event, missing) at e))
    | inr (event, held) ↦ passed event held (rw (check_event, held) at e)
  ]
    where
      passed :
          (event : Event)
          → get event_id events ≡ some event
          → (if event.prev == prev
                && event.hash == link h prev event_id event.at event.actor event.action
              then reached event.hash
              else damaged (codes "chain broken at event " ++ str_ℕ event_id))
            ≡ reached end
          → Passed events event_id prev end
      passed event held e =
          let linked = link h prev event_id event.at event.actor event.action in
          elim (Bool-cases (event.prev == prev)) [
            | inr off ↦ absurd (cc (rw off at e))
            | inl on ↦ elim (Bool-cases (event.hash == linked)) [
              | inr off ↦ absurd (cc (rw (on, off) at e))
              | inl good ↦
                  let arrived : reached event.hash ≡ reached end = rw (on, good) at e in
                  let to_end : event.hash ≡ end = cc arrived in
                  record {
                    event = event;
                    held = held;
                    from_prev = ==_true event.prev prev on;
                    to_end = to_end;
                    linked = sym to_end ∙ ==_true event.hash linked good;
                  }
            ]
          ]

  same_events :
      (events events' : Table ℕ Event) (n : ℕ) (end : Text)
      → walk h events n 1 genesis ≡ reached end
      → walk h events' n 1 genesis ≡ reached end
      → (event_id : ℕ) → 1 ≤ event_id
      → event_id ≤ n
      → (e : Event) × (e' : Event) × (get event_id events ≡ some e)
        × (get event_id events' ≡ some e')
        × SameEvidence e e'
  same_events events events' zero end w w' event_id low high = absurd (omega arith)
  same_events events events' (suc n) end w w' event_id low high =
      let (mid, before, step) = walk-last h events n 1 genesis end w in
      let (mid', before', step') = walk-last h events' n 1 genesis end w' in
      let p = check_event-Passed events (1 + n) mid end step in
      let p' = check_event-Passed events' (1 + n) mid' end step' in
      let (prevs, ats, actors, actions) =
        link-injective mid mid' (1 + n) (1 + n) p.event.at p'.event.at p.event.actor p'.event.actor
          p.event.action p'.event.action (sym p.linked ∙ p'.linked) in
      elim (Bool-cases (leb event_id n)) [
        | inl earlier ↦
            same_events events events' n mid before (rw prevs before') event_id low (ground arith)
        | inr last ↦
            let here : event_id ≡ 1 + n = ground arith in
            (
              p.event,
              p'.event,
              rw here p.held,
              rw here p'.held,
              record {
                same_at = ats;
                same_actor = actors;
                same_action = actions;
                same_prev = p.from_prev ∙ prevs ∙ sym p'.from_prev;
                same_hash = p.to_end ∙ sym p'.to_end;
              },
            )
      ]

  valid-walk :
      (log : Log)
      → (verify h log).valid ≡ true
      → walk h log.events (head_id log.head) 1 genesis ≡ reached (head_hash log.head)
  unfolding verify conclude
  valid-walk log good = elim (Walked-cases (walk h log.events (head_id log.head) 1 genesis)) [
    | inl (detail, w) ↦ absurd (cc (rw w at good))
    | inr (end, w) ↦ elim (Bool-cases (head_hash log.head == end)) [
      | inl same ↦ w ∙ ap reached (sym (==_true (head_hash log.head) end same))
      | inr off ↦ absurd (cc (rw (w, off) at good))
    ]
  ]

-- Two logs that verify under the same head hold, at every id up to the head's, events of the same
-- time, actor, action, previous hash and hash.
pub tamper_evident :
    (h : Hash) (log log' : Log)
    → log'.head ≡ log.head
    → (verify h log).valid ≡ true
    → (verify h log').valid ≡ true
    → (event_id : ℕ) → 1 ≤ event_id
    → event_id ≤ head_id log.head
    → (e : Event) × (e' : Event) × (get event_id log.events ≡ some e)
      × (get event_id log'.events ≡ some e')
      × SameEvidence e e'
tamper_evident h log log' heads good good' event_id low high =
    same_events h log.events log'.events (head_id log.head) (head_hash log.head)
      (valid-walk h log good) (rw heads at (valid-walk h log' good')) event_id low high

-- The log with the `id` field of every stored event overwritten.
abbrev pub relabel : ℕ → Log → Log
relabel n log = record log { events = map (λ row. (row.0, record row.1 { id = n })) log.events }

get-relabel :
    (n k : ℕ) (events : Table ℕ Event)
    → get k (map (λ row. (row.0, record row.1 { id = n })) events)
      ≡ elim (get k events) [ none ↦ none | some event ↦ some (record event { id = n }) ]
unfolding get
get-relabel n k [] = refl
get-relabel n k ((j, event) ∷ rest) = elim (Bool-cases (j == k)) [
  | inl here ↦ rw here
  | inr other ↦ rw other (get-relabel n k rest)
]

module _ (h : Hash) (n : ℕ) where
  check_event-relabel :
      (log : Log) (event_id : ℕ) (prev : Text)
      → check_event h (relabel n log).events event_id prev ≡ check_event h log.events event_id prev
  unfolding check_event
  check_event-relabel log event_id prev = elim (Option-cases (get event_id log.events)) [
    | inl missing ↦ rw (check_event, get-relabel n event_id log.events, missing)
    | inr (event, held) ↦ rw (check_event, get-relabel n event_id log.events, held)
  ]

  walk-relabel :
      (log : Log) (m event_id : ℕ) (prev : Text)
      → walk h (relabel n log).events m event_id prev ≡ walk h log.events m event_id prev
  walk-relabel log zero event_id prev = unfold walk in refl
  walk-relabel log (suc m) event_id prev =
      let events' = (relabel n log).events in
      let same = check_event-relabel log event_id prev in
      elim (Walked-cases (check_event h log.events event_id prev)) [
        | inl (detail, w) ↦
            walk-stop h events' m event_id prev detail (same ∙ w)
            ∙ sym (walk-stop h log.events m event_id prev detail w)
        | inr (hash, w) ↦
            walk-step h events' m event_id prev hash (same ∙ w)
            ∙ walk-relabel log m (event_id + 1) hash
            ∙ sym (walk-step h log.events m event_id prev hash w)
      ]

-- The verdict does not depend on the `id` fields that the stored events show: overwriting them all,
-- head and keys untouched, leaves the answer of /verify as it was.
pub verify-relabel : (h : Hash) (n : ℕ) (log : Log) → verify h (relabel n log) ≡ verify h log
unfolding verify
verify-relabel h n log =
    ap (conclude h log.head) (walk-relabel h n log (head_id log.head) 1 genesis)
