-- ===== src/Domains/Idempotency.antt =====
-- domains/idempotency.py: payments that a caller's key makes safe to retry. The state is the namespace
-- "idempotency_keys", keyed by the scoped slot, and the counter "idempotency_payment". The headers named
-- Idempotency-Key come as a list.
pub mod Once
pub mod Private
use gutencode_test.Prelude.{
  ℕ, ◌-◌, ◌^◌, Bool, ◌&&◌, Option, none, some, List, [], ◌∷◌, Text, codes, Text-Eq, ◌==◌, leb,
  str_ℕ,
}
use gutencode_test.Core.Problem.{invalid, conflict}
use gutencode_test.Core.Exec.{Exec, pure, raise, gets, atomically, require, ◌>>=◌, ◌>>◌}
use gutencode_test.Core.Table.{Table, get, next_id}
use gutencode_test.Parts.Claim.{claim_once}
use gutencode_test.Parts.Digest.{Hash, digest_hex, scoped_key}
use gutencode_test.Parts.WellFormed.{require_well_formed}

pub record Slot : Type 0 where
  pub id : ℕ
  pub amount : ℕ
  pub body_hash : Text
  pub caller : Text

pub record PaymentOut : Type 0 where
  pub id : ℕ
  pub amount : ℕ

pub record Idempotency : Type 0 where
  pub keys : Table Text Slot
  pub last_payment : ℕ

abbrev pub route : Text
route = codes "POST /idempotency/payments"

-- SafeInt, Field(ge=1)
abbrev pub is_amount : ℕ → Bool
is_amount n = leb 1 n && leb n (2 ^ 53 - 1)

abbrev pub out : Slot → PaymentOut
out rec = record { id = rec.id; amount = rec.amount }

-- Without a key each request is a new payment.
unfoldable pub mint : ℕ → Idempotency → PaymentOut × Idempotency
mint amount s =
    let (pid, last) = next_id s.last_payment in
    (record { id = pid; amount = amount }, record s { last_payment = last })

module _ (h : Hash) where
  unfoldable pub body_digest : ℕ → Text
  body_digest amount = digest_hex h (codes "amount" ∷ str_ℕ amount ∷ [])

  unfoldable pub slot_key : Text → Text → Text
  slot_key caller key = scoped_key h route caller key

  -- A settled key never mints; a free one is minted for and then claimed.
  unfoldable pub settle : ℕ → Text → Text → Option Slot → Idempotency → Slot × Idempotency
  settle amount caller key (some prior) s = (prior, s)
  settle amount caller key none s =
      let (pid, last) = next_id s.last_payment in
      let rec : Slot = record {
        id = pid;
        amount = amount;
        body_hash = body_digest amount;
        caller = caller;
      } in
      let (winner, keys) = claim_once (slot_key caller key) rec s.keys in
      (winner, record { keys = keys; last_payment = last })

  unfoldable pub conclude : ℕ → Text → Slot → Exec Idempotency PaymentOut
  conclude amount caller prior = do
    require (prior.caller == caller)
        (conflict (codes "idempotency key is not owned by this caller"))
    require (prior.body_hash == body_digest amount)
        (conflict (codes "idempotency key reused with a different body"))
    pure (out prior)

  unfoldable pub pay_once : ℕ → Text → Text → Exec Idempotency PaymentOut
  pay_once amount caller key = do
    require_well_formed key (codes "Idempotency-Key")
    prior ← gets (λ (s : Idempotency). get (slot_key caller key) s.keys)
    winner ← atomically (settle amount caller key prior)
    conclude amount caller winner

  unfoldable pub pay_with : List Text → ℕ → Text → Exec Idempotency PaymentOut
  pay_with [] amount caller = atomically (mint amount)
  pay_with (key ∷ []) amount caller = pay_once amount caller key
  pay_with (key ∷ other ∷ more) amount caller =
      raise (invalid (codes "Idempotency-Key must be a single value"))

  unfoldable pub pay : ℕ → List Text → Text → Exec Idempotency PaymentOut
  pay amount headers caller = do
    require (is_amount amount) (invalid (codes "invalid body"))
    pay_with headers amount caller
