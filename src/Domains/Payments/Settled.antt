-- ===== src/Domains/Payments/Settled.antt =====
-- What an authorization, a capture, a void or a refund has fixed, no later request changes.
use gutencode_test.Prelude.{
  All-always, ℕ, ◌≤◌, ◌≡◌, refl, Option, some, List, [], ◌∷◌, ◌++◌, Text, Text-Eq, true, arith,
}
use gutencode_test.Core.Table.{get, do_}
use gutencode_test.Core.Table.Laws.{do_-at}
use gutencode_test.Core.Exec.{Result}
use gutencode_test.Parts.Digest.{Hash}
use gutencode_test.Parts.Claim.Settled.{get-claim_once_settled}
use gutencode_test.Parts.WellFormed.Keys.{composite}
use gutencode_test.Domains.Payments.Requests.{Request, IsKept, serve, serve-Keeps}
use gutencode_test.Domains.Payments.Exact.{read_or_claim-eq-claim_once, refund_fn-writes}
use gutencode_test.Domains.Payments.{
  intent_id, fresh_intent, voided, is_captured, Refund, Intent, Intents, capture_fn, void_fn,
  find_refund, new_refund, refund_fn,
}

-- What no transition touches, and what each final state freezes.
pub record Frozen (i j : Intent) : Type 0 where
  pub same_id : j.id ≡ i.id
  pub same_caller : j.caller ≡ i.caller
  pub same_amount : j.amount ≡ i.amount
  pub same_currency : j.currency ≡ i.currency
  pub same_body : j.body_hash ≡ i.body_hash
  pub captured_stays :
      is_captured i.status ≡ true
      → (is_captured j.status ≡ true)
        × (j.amount_captured ≡ i.amount_captured)
        × (j.amount_voided ≡ i.amount_voided)
  pub voided_stays : i.status ≡ voided → j ≡ i
  pub refunded_grows : i.amount_refunded ≤ j.amount_refunded

-- How an intent may have changed: a settled refund key stays settled too.
pub record Advances (i j : Intent) : Type 0 where
  pub frozen : Frozen i j
  pub open frozen use *
  pub keys_stay :
      (key : Text) (r : Refund)
      → find_refund key i.refunds ≡ some r
      → find_refund key j.refunds ≡ some r

pub Advances-refl : (i : Intent) → Advances i i
Advances-refl i = record { frozen = ground arith; keys_stay = λ key r found. found }

Frozen-trans : (i j k : Intent) → Frozen i j → Frozen j k → Frozen i k
Frozen-trans i j k a b = ground arith

pub Advances-trans : (i j k : Intent) → Advances i j → Advances j k → Advances i k
Advances-trans i j k a b = record {
  frozen = Frozen-trans i j k a.frozen b.frozen;
  keys_stay = λ key r found. b.keys_stay key r (a.keys_stay key r found);
}

find_refund-append :
    (key : Text) (r : Refund) (rs more : List Refund)
    → find_refund key rs ≡ some r
    → find_refund key (rs ++ more) ≡ some r
unfolding find_refund
find_refund-append key r [] more e = cc
find_refund-append key r (x ∷ rs) more e = ground (arith, find_refund-append key r rs more)

capture_fn-Advances :
    (amount : ℕ) (cur nxt : Intent) → (capture_fn amount (some cur)).0 ≡ some nxt → Advances cur nxt
unfolding capture_fn
capture_fn-Advances amount cur nxt e = record {
  frozen = ground arith;
  keys_stay = λ key r found. ground arith;
}

void_fn-Advances : (cur nxt : Intent) → (void_fn (some cur)).0 ≡ some nxt → Advances cur nxt
unfolding void_fn
void_fn-Advances cur nxt e = record {
  frozen = ground arith;
  keys_stay = λ key r found. ground arith;
}

new_refund-Advances :
    (key : Text) (amount : ℕ) (cur nxt : Intent)
    → is_captured cur.status ≡ true
    → (new_refund key amount cur).0 ≡ some nxt
    → Advances cur nxt
unfolding new_refund
new_refund-Advances key amount cur nxt took e = record {
  frozen = ground arith;
  keys_stay = λ k r found. ground (
    arith,
    find_refund-append k r cur.refunds (record { key = key; amount = amount } ∷ []) found,
  );
}

refund_fn-Advances :
    (key : Text) (amount : ℕ) (cur nxt : Intent)
    → (refund_fn key amount (some cur)).0 ≡ some nxt
    → Advances cur nxt
refund_fn-Advances key amount cur nxt e =
    let (took, fresh) = refund_fn-writes key amount cur nxt e in
    new_refund-Advances key amount cur nxt took fresh

-- The slot holds an intent that has advanced from `i`.
abbrev pub Holds : Intent → Option Intent → Type 0
Holds i o = (j : Intent) × (o ≡ some j) × Advances i j

abbrev pub HoldsAt : Intent → Text → Intents → Type 0
HoldsAt i slot t = Holds i (get slot t)

do_-HoldsAt :
    (fn : Option Intent → Option Intent × Result Intent)
    → ((cur nxt : Intent) → (fn (some cur)).0 ≡ some nxt → Advances cur nxt)
    → (i : Intent) (slot k : Text) (t : Intents) → HoldsAt i slot t
    → HoldsAt i slot (do_ k fn t).1
do_-HoldsAt fn steps i slot k t (j, held, adv) =
    do_-at (Holds i) slot k fn t
      (λ v e. (v, refl, Advances-trans i j v adv (steps j v (rw held at e)))) (j, held, adv)

HoldsAt-IsKept : (h : Hash) (i : Intent) (slot subject : Text) → IsKept h (HoldsAt i slot) subject
HoldsAt-IsKept h i slot subject = record {
  by_claim = λ amount currency key valid t held. rw read_or_claim-eq-claim_once (
    held.0,
    get-claim_once_settled slot (composite subject (intent_id h subject key))
        (fresh_intent h amount currency subject key) held.0 t held.1,
    held.2,
  );
  by_capture = λ amount valid id good.
      do_-HoldsAt (capture_fn amount) (capture_fn-Advances amount) i slot (composite subject id);
  by_void = λ id good. do_-HoldsAt void_fn void_fn-Advances i slot (composite subject id);
  by_refund = λ key amount id good.
      do_-HoldsAt (refund_fn key amount) (refund_fn-Advances key amount) i slot
        (composite subject id);
}

-- Whatever requests are served, by whomever, an intent that is in the store stays at its slot and
-- only advances: its id, caller, amount, currency and body fingerprint never change, a capture
-- stays captured with its captured and released amounts, a voided intent stays as it is, the
-- refunded amount never shrinks, and a settled refund key stays settled.
pub serve-Advances :
    (h : Hash) (upper : Text → Text) (requests : List (Text × Request)) (slot : Text) (i : Intent)
    (t : Intents)
    → get slot t ≡ some i
    → (j : Intent) × (get slot (serve h upper requests t) ≡ some j) × Advances i j
serve-Advances h upper requests slot i t held =
    serve-Keeps h upper (HoldsAt i slot) requests
      (All-always (λ r. HoldsAt-IsKept h i slot r.0) requests) t (i, held, Advances-refl i)
