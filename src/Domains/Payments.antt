-- ===== src/Domains/Payments.antt =====
-- domains/payments.py: the payment intents. The state is the namespace "payments_intents".
-- A handler takes its parsed body and the authenticated subject; the headers named Idempotency-Key
-- come as a list.
pub mod Conserved
pub mod Exact
pub mod Lists
pub mod Requests
pub mod Settled
pub mod Replay
pub mod RefundReplay
pub mod Isolated
use gutencode_test.Prelude.{
  ℕ, ◌+◌, ◌-◌, ◌^◌, Bool, true, false, ◌&&◌, Option, none, some, List, [], ◌∷◌, ◌++◌, Text, codes,
  Text-Eq, ◌==◌, ℕ-Eq, leb, if◌then◌else◌, str_ℕ,
}
use gutencode_test.Core.Problem.{Problem, not_found, invalid, conflict}
use gutencode_test.Core.Exec.{
  Result, ok, err, Exec, pure, raise, gets, atomically, or_raise, require, ◌>>=◌, ◌>>◌,
}
use gutencode_test.Core.Table.{Table, get, do_}
use gutencode_test.Parts.Digest.{Hash, digest_hex, scoped_key}
use gutencode_test.Parts.Claim.{claim_once}
use gutencode_test.Parts.Currency.{is_currency}
use gutencode_test.Parts.WellFormed.{is_well_formed, require_well_formed}
use gutencode_test.Parts.WellFormed.Keys.{composite}

pub data Status : Type 0 where
  authorized captured voided : Status

abbrev pub is_authorized : Status → Bool
is_authorized authorized = true
is_authorized _ = false

abbrev pub is_captured : Status → Bool
is_captured captured = true
is_captured _ = false

pub record Refund : Type 0 where
  pub key : Text
  pub amount : ℕ

pub record Intent : Type 0 where
  pub id : Text
  pub caller : Text
  pub status : Status
  pub amount : ℕ
  pub currency : Text
  pub amount_captured : ℕ
  pub amount_voided : ℕ
  pub amount_refunded : ℕ
  pub refunds : List Refund
  pub body_hash : Text

pub record PaymentOut : Type 0 where
  pub id : Text
  pub status : Status
  pub amount : ℕ
  pub currency : Text
  pub amount_captured : ℕ
  pub amount_voided : ℕ
  pub amount_refunded : ℕ

abbrev pub Intents : Type 0
Intents = Table Text Intent

abbrev pub max_amount : ℕ
max_amount = 2 ^ 53 - 1

-- Field(ge=1, le=MAX_AMOUNT)
abbrev pub in_range : ℕ → Bool
in_range n = leb 1 n && leb n max_amount

-- `_out`: the public projection.
abbrev pub out : Intent → PaymentOut
out rec = record {
  id = rec.id;
  status = rec.status;
  amount = rec.amount;
  currency = rec.currency;
  amount_captured = rec.amount_captured;
  amount_voided = rec.amount_voided;
  amount_refunded = rec.amount_refunded;
}

-- The guards on the Idempotency-Key headers, which authorize and refund share.
unfoldable pub single_key : List Text → Exec Intents Text
single_key [] = raise (invalid (codes "Idempotency-Key header is required"))
single_key (key ∷ []) = require_well_formed key (codes "Idempotency-Key") >> pure key
single_key (_ ∷ _ ∷ _) = raise (invalid (codes "Idempotency-Key must be a single value"))

-- What a transition answers: the problem of its outcome code, or the projection of its record.
unfoldable pub answer : Result Intent → Exec Intents PaymentOut
answer (ok rec) = pure (out rec)
answer (err p) = raise p

-- store.do(_NS, f"{subject}\x1f{_id(payment_id)}", fn) and the outcome.
unfoldable pub transition :
    Text → Text → (Option Intent → Option Intent × Result Intent) → Exec Intents PaymentOut
unfolding answer
transition subject payment_id fn = do
  require_well_formed payment_id (codes "the payment id")
  outcome ← atomically (do_ (composite subject payment_id) fn)
  answer outcome

abbrev pub not_authorized : Problem
not_authorized = conflict (codes "payment is not in the authorized state")

unfoldable pub capture_fn : ℕ → Option Intent → Option Intent × Result Intent
capture_fn amount none = (none, err (not_found (codes "payment")))
capture_fn amount (some cur) =
    let nxt = record cur {
      status = captured;
      amount_captured = amount;
      amount_voided = cur.amount - amount;
    } in
    if is_authorized cur.status
    then if leb amount cur.amount
      then (some nxt, ok nxt)
      else (none, err (invalid (codes "capture amount must not exceed the authorized amount")))
    else (none, err not_authorized)

unfoldable pub void_fn : Option Intent → Option Intent × Result Intent
void_fn none = (none, err (not_found (codes "payment")))
void_fn (some cur) =
    let nxt = record cur { status = voided; amount_voided = cur.amount } in
    if is_authorized cur.status then (some nxt, ok nxt) else (none, err not_authorized)

-- The first refund that was settled under the key.
unfoldable pub find_refund : Text → List Refund → Option Refund
find_refund key [] = none
find_refund key (r ∷ rs) = if r.key == key then some r else find_refund key rs

-- sum(r["amount"] for r in refunds)
unfoldable pub refund_sum : List Refund → ℕ
refund_sum [] = 0
refund_sum (r ∷ rs) = r.amount + refund_sum rs

-- A refund key that is settled: the unchanged intent, or a conflict on another amount.
unfoldable pub settled_refund : ℕ → Intent → Refund → Option Intent × Result Intent
settled_refund amount cur r =
    if r.amount == amount
    then (none, ok cur)
    else (none, err (conflict (codes "idempotency key reused with a different refund amount")))

unfoldable pub new_refund : Text → ℕ → Intent → Option Intent × Result Intent
unfolding refund_sum
new_refund key amount cur =
    let nxt = record cur {
      refunds = cur.refunds ++ (record { key = key; amount = amount } ∷ []);
      amount_refunded = cur.amount_refunded + amount;
    } in
    if leb (refund_sum cur.refunds + amount) cur.amount_captured
    then (some nxt, ok nxt)
    else (none, err (invalid (codes "refund amount would exceed the captured amount")))

unfoldable pub refund_fn : Text → ℕ → Option Intent → Option Intent × Result Intent
unfolding find_refund settled_refund new_refund
refund_fn key amount none = (none, err (not_found (codes "payment")))
refund_fn key amount (some cur) =
    if is_captured cur.status
    then elim (find_refund key cur.refunds) [
      | some r ↦ settled_refund amount cur r
      | none ↦ new_refund key amount cur
    ]
    else (none, err (conflict (codes "payment must be captured before it can be refunded")))

-- The bounds of the body's amount field; a body that breaks them is a 422.
abbrev pub valid_body : Bool → Exec Intents (Unit {0})
valid_body valid = require valid (invalid (codes "invalid body"))

unfoldable pub capture : Text → ℕ → Text → Exec Intents PaymentOut
capture payment_id amount subject = do
  valid_body (in_range amount)
  transition subject payment_id (capture_fn amount)

unfoldable pub void_payment : Text → Text → Exec Intents PaymentOut
void_payment payment_id subject = transition subject payment_id void_fn

unfoldable pub refund : Text → ℕ → List Text → Text → Exec Intents PaymentOut
refund payment_id amount keys subject = do
  valid_body (in_range amount)
  key ← single_key keys
  transition subject payment_id (refund_fn key amount)

unfoldable pub get_payment : Text → Text → Exec Intents PaymentOut
get_payment payment_id subject = do
  require_well_formed payment_id (codes "the payment id")
  found ← gets (get (composite subject payment_id))
  rec ← or_raise found (not_found (codes "payment"))
  pure (out rec)

-- The slot is read first, and claimed only if nothing was there; the winner comes back.
unfoldable pub read_or_claim : Text → Intent → Intents → Intent × Intents
read_or_claim slot rec t =
    let claimed = claim_once slot rec t in
    elim (get slot t) [ none ↦ claimed | some prior ↦ (prior, t) ]

module _ (h : Hash) where
  -- `_digest`: the fingerprint of the body.
  unfoldable pub body_digest : ℕ → Text → Text
  unfolding digest_hex
  body_digest amount currency =
      digest_hex h (codes "amount" ∷ str_ℕ amount ∷ codes "currency" ∷ currency ∷ [])

  -- The intent id that is derived from the caller and the key.
  unfoldable pub intent_id : Text → Text → Text
  intent_id subject key = scoped_key h (codes "POST /payments") subject key

  unfoldable pub fresh_intent : ℕ → Text → Text → Text → Intent
  fresh_intent amount currency subject key = record {
    id = intent_id subject key;
    caller = subject;
    status = authorized;
    amount = amount;
    currency = currency;
    amount_captured = 0;
    amount_voided = 0;
    amount_refunded = 0;
    refunds = [];
    body_hash = body_digest amount currency;
  }

-- What the settled intent answers: another caller's or another body's is a conflict.
unfoldable pub answer_prior : Intent → Text → Text → Exec Intents PaymentOut
answer_prior prior subject body_hash = do
  require (prior.caller == subject) (conflict (codes "idempotency key is not owned by this caller"))
  require (prior.body_hash == body_hash)
      (conflict (codes "idempotency key reused with a different body"))
  pure (out prior)

module _ (h : Hash) (upper : Text → Text) where
  unfoldable pub authorize : ℕ → Text → List Text → Text → Exec Intents PaymentOut
  authorize amount currency keys subject = do
    valid_body (in_range amount && is_well_formed currency)
    require (is_currency upper currency) (invalid (codes "currency must be a valid ISO-4217 code"))
    key ← single_key keys
    prior ← atomically (
        read_or_claim (composite subject (intent_id h subject key))
          (fresh_intent h amount currency subject key))
    answer_prior prior subject (body_digest h amount currency)
