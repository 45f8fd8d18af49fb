-- ===== src/Domains/Idempotency/Once.antt =====
-- A payment is made exactly once: a retry gets the same answer and writes nothing.
use gutencode_test.Prelude.{
  ℕ, ◌≡◌, refl, sym, ap, ◌∙◌, true, Option, none, some, List, [], ◌∷◌, Text, Text-Eq, ◌==◌, ==_true,
  ==_false, codes, append-cancel_left, str_ℕ, str_ℕ-injective, Bool-cases, Option-cases, inl, inr,
}
use gutencode_test.Core.Problem.{conflict}
use gutencode_test.Core.Exec.{Result, ok, err, pure, ◌>>=◌}
use gutencode_test.Core.Exec.Laws.{require-ok, require-true, require-false}
use gutencode_test.Core.Exec.Keeps.{
  Keeps, Keeps-bind, Keeps-gets, Keeps-require, Keeps-raise, Keeps-atomically,
}
use gutencode_test.Core.Table.{get}
use gutencode_test.Parts.Claim.Settled.{get-claim_once, get-claim_once_settled}
use gutencode_test.Parts.Digest.{Hash, digest_hex, join_colon}
use gutencode_test.Parts.WellFormed.{is_well_formed}
use gutencode_test.Domains.Idempotency.{
  Slot, PaymentOut, Idempotency, is_amount, out, mint, body_digest, slot_key, settle, conclude,
  pay_once, pay_with, pay,
}

-- A request: the amount, the headers and the caller.
abbrev pub Request : Type 0
Request = ℕ × List Text × Text

pub body_digest-injective :
    (h : Hash) (amount amount' : ℕ)
    → body_digest h amount ≡ body_digest h amount'
    → amount ≡ amount'
unfolding body_digest digest_hex join_colon codes
body_digest-injective h amount amount' e =
    str_ℕ-injective amount amount'
      (append-cancel_left (codes "amount:") (str_ℕ amount) (str_ℕ amount') (h.injective _ _ e))

module _ (h : Hash) where
  unfoldable pub step : Request → Idempotency → Idempotency
  step (amount, headers, caller) s = (pay h amount headers caller s).1

  unfoldable pub serve : List Request → Idempotency → Idempotency
  serve [] s = s
  serve (r ∷ rest) s = serve rest (step r s)

  -- The conclusion writes nothing.
  pub conclude-state :
      (amount : ℕ) (caller : Text) (rec : Slot) (s : Idempotency)
      → (conclude h amount caller rec s).1 ≡ s
  unfolding conclude ◌>>=◌
  conclude-state amount caller rec s = elim (Bool-cases (rec.caller == caller)) [
    | inr foreign ↦ rw foreign
    | inl own ↦ elim (Bool-cases (rec.body_hash == body_digest h amount)) [
      | inr other ↦ rw (own, other)
      | inl same ↦ rw (own, same)
    ]
  ]

  conclude-Keeps :
      {P : Idempotency → Type 0} (amount : ℕ) (caller : Text) (rec : Slot)
      → Keeps P (conclude h amount caller rec)
  conclude-Keeps amount caller rec = record {
    at = λ s p. rw (conclude-state amount caller rec s) p;
  }

  -- What the minting and the claims keep, every request keeps.
  pub pay-Keeps :
      (P : Idempotency → Type 0) (amount : ℕ) (headers : List Text) (caller : Text)
      → ((s : Idempotency) → P s → P (mint amount s).1)
      → ((key : Text) (prior : Option Slot) (s : Idempotency)
          → P s
          → P (settle h amount caller key prior s).1)
      → Keeps P (pay h amount headers caller)
  unfolding pay pay_with pay_once
  pay-Keeps P amount headers caller mints settles =
      Keeps-bind _ _ (Keeps-require _ _) (λ _. rest headers)
    where
      rest : (keys : List Text) → Keeps P (pay_with h keys amount caller)
      rest [] = Keeps-atomically _ mints
      rest (key ∷ other ∷ more) = Keeps-raise _
      rest (key ∷ []) = Keeps-bind _ _ (Keeps-require _ _) λ _.
          Keeps-bind _ _ (Keeps-gets _) λ prior.
            Keeps-bind _ _ (Keeps-atomically _ (settles key prior))
              λ winner. conclude-Keeps amount caller winner

  abbrev Settled : Text → Slot → Idempotency → Type 0
  Settled key rec s = get key s.keys ≡ some rec

  settle-Settled :
      (at : Text) (rec : Slot) (amount : ℕ) (caller key : Text) (prior : Option Slot)
      (s : Idempotency)
      → Settled at rec s
      → Settled at rec (settle h amount caller key prior s).1
  unfolding settle
  settle-Settled at rec amount caller key (some prior) s held = held
  settle-Settled at rec amount caller key none s held =
      get-claim_once_settled at (slot_key h caller key) _ rec s.keys held

  serve-Settled :
      (history : List Request) (at : Text) (rec : Slot) (s : Idempotency)
      → Settled at rec s
      → Settled at rec (serve history s)
  unfolding serve step
  serve-Settled [] at rec s held = held
  serve-Settled ((amount, headers, caller) ∷ rest) at rec s held =
      serve-Settled rest at rec (pay h amount headers caller s).1 (
        (pay-Keeps (Settled at rec) amount headers caller (λ t p. unfold mint in p)
            (λ key prior t p. settle-Settled at rec amount caller key prior t p)).at
          s held)

  -- The claim leaves its winner in the slot.
  settle-wins :
      (amount : ℕ) (caller key : Text) (s : Idempotency)
      → let settled = settle h amount caller key (get (slot_key h caller key) s.keys) s in
        get (slot_key h caller key) settled.1.keys ≡ some settled.0
  settle-wins amount caller key s = elim (Option-cases (get (slot_key h caller key) s.keys)) [
    | inr (rec, held) ↦ rw held (unfold settle in held)
    | inl free ↦ rw free (unfold settle in get-claim_once (slot_key h caller key) _ s.keys)
  ]

  -- The guards of the route, for one key.
  abbrev IsAccepted : ℕ → Text → Type 0
  IsAccepted amount key = (is_amount amount ≡ true) × (is_well_formed key ≡ true)

  settled : ℕ → Text → Text → Idempotency → Slot × Idempotency
  settled amount caller key s = settle h amount caller key (get (slot_key h caller key) s.keys) s

  -- Past the guards the reply is the conclusion from the settled slot.
  pay_lem :
      (amount : ℕ) (caller key : Text) (s : Idempotency)
      → IsAccepted amount key
      → pay h amount (key ∷ []) caller s
        ≡ conclude h amount caller (settled amount caller key s).0 (settled amount caller key s).1
  unfolding pay pay_with pay_once settled
  pay_lem amount caller key s (valid, good) =
      require-true _ _ _ s valid ∙ require-true _ _ _ s good ∙ (unfold ◌>>=◌ in refl)

  pay-ok :
      (amount : ℕ) (caller key : Text) (s : Idempotency) {r : PaymentOut}
      → (pay h amount (key ∷ []) caller s).0 ≡ ok r
      → IsAccepted amount key
  unfolding pay pay_with pay_once
  pay-ok amount caller key s e =
      let (valid, rest) = require-ok _ _ _ s e in (valid, (require-ok _ _ _ s rest).0)

  conclude-ok :
      (amount : ℕ) (caller : Text) (rec : Slot) (s : Idempotency) {r : PaymentOut}
      → (conclude h amount caller rec s).0 ≡ ok r
      → ((rec.caller == caller) ≡ true)
        × ((rec.body_hash == body_digest h amount) ≡ true)
        × (out rec ≡ r)
  unfolding conclude
  conclude-ok amount caller rec s {r} e =
      let (own, rest) = require-ok _ _ _ s e in
      let (same, last) = require-ok _ _ _ s rest in
      let reply : ◌≡◌ {A = Result PaymentOut} (ok (out rec)) (ok r) = unfold pure in last in
      (own, same, cc reply)

  -- The payment of this caller and this body is shown.
  conclude-true :
      (amount : ℕ) (caller : Text) (rec : Slot) (s : Idempotency)
      → (rec.caller == caller) ≡ true
      → (rec.body_hash == body_digest h amount) ≡ true
      → conclude h amount caller rec s ≡ (ok (out rec), s)
  unfolding conclude pure
  conclude-true amount caller rec s own same = require-true _ _ _ s own ∙ require-true _ _ _ s same

  -- Another body is refused.
  conclude-other :
      (amount other : ℕ) (caller : Text) (rec : Slot) (s : Idempotency)
      → (rec.caller == caller) ≡ true
      → (rec.body_hash == body_digest h amount) ≡ true
      → ¬ (amount ≡ other)
      → conclude h other caller rec s
        ≡ (err (conflict (codes "idempotency key reused with a different body")), s)
  unfolding conclude
  conclude-other amount other caller rec s own same differs =
      require-true _ _ _ s own
      ∙ require-false _ _ _ s (
          ==_false _ _ (λ clash.
            differs
              (body_digest-injective h amount other (sym (==_true rec.body_hash _ same) ∙ clash))))

  -- Over a settled slot nothing is written.
  pay-settled :
      (amount : ℕ) (caller key : Text) (rec : Slot) (s : Idempotency)
      → IsAccepted amount key
      → get (slot_key h caller key) s.keys ≡ some rec
      → pay h amount (key ∷ []) caller s ≡ conclude h amount caller rec s
  pay-settled amount caller key rec s accepted held =
      pay_lem amount caller key s accepted ∙ (unfold settled in rw held (unfold settle in refl))

-- Once a payment with a key was answered, then after any requests of any callers the same request gets
-- the same answer and writes nothing, so that nothing is minted again, and the same key with any other
-- amount that passes the body check is a 409 that writes nothing.
pub pay_replay :
    (h : Hash) (amount : ℕ) (caller key : Text) (s : Idempotency) (history : List Request)
    (r : PaymentOut)
    → (pay h amount (key ∷ []) caller s).0 ≡ ok r
    → let then_ = serve h history (pay h amount (key ∷ []) caller s).1 in
      (pay h amount (key ∷ []) caller then_ ≡ (ok r, then_))
      × ((other : ℕ)
          → is_amount other ≡ true
          → ¬ (amount ≡ other)
          → pay h other (key ∷ []) caller then_
            ≡ (err (conflict (codes "idempotency key reused with a different body")), then_))
pay_replay h amount caller key s history r e =
    let (valid, good) = pay-ok h amount caller key s e in
    let winner = (settled h amount caller key s).0 in
    let made = pay_lem h amount caller key s (valid, good) in
    let (own, same, reply) =
      conclude-ok h amount caller winner (settled h amount caller key s).1
        (ap (λ x. x.0) (sym made) ∙ e) in
    let first : get (slot_key h caller key) (pay h amount (key ∷ []) caller s).1.keys
        ≡ some winner =
      rw (made, conclude-state h amount caller winner (settled h amount caller key s).1)
        (unfold settled in settle-wins h amount caller key s) in
    let then_ = serve h history (pay h amount (key ∷ []) caller s).1 in
    let held = serve-Settled h history (slot_key h caller key) winner _ first in
    (
      pay-settled h amount caller key winner then_ (valid, good) held
          ∙ conclude-true h amount caller winner then_ own same
          ∙ ap (λ p. (ok p, then_)) reply,
      λ other in_range differs.
          pay-settled h other caller key winner then_ (in_range, good) held
          ∙ conclude-other h amount other caller winner then_ own same differs,
    )
