-- ===== src/Domains/Payments/Conserved.antt =====
-- Money is conserved in every stored intent, whatever requests are served.
use mathlib.Core.Path.{subst}
use gutencode_test.Domains.Payments.Requests.{Request, IsKept, serve, serve-Keeps}
use gutencode_test.Domains.Payments.Exact.{read_or_claim-eq-claim_once, refund_fn-writes}
use gutencode_test.Prelude.{
  All-always, ℕ, ◌+◌, ◌≤◌, ◌≡◌, refl, Option, none, some, List, [], ◌∷◌, ◌++◌, Text, Text-Eq, true,
  arith,
}
use gutencode_test.Core.Exec.{Result}
use gutencode_test.Core.Table.{get, do_}
use gutencode_test.Core.Table.Laws.{AllRows, AllRows-nil, AllRows-do_}
use gutencode_test.Parts.Digest.{Hash}
use gutencode_test.Parts.Claim.{claim_fn, claim_once}
use gutencode_test.Parts.WellFormed.Keys.{composite}
use gutencode_test.Domains.Payments.{
  is_captured, Status, authorized, captured, voided, Refund, Intent, Intents, max_amount,
  capture_fn, void_fn, refund_fn, in_range, read_or_claim, intent_id, fresh_intent, refund_sum,
  new_refund,
}

-- What each state says of the amounts: nothing has moved, the captured and the released part make
-- up the authorization, or all of it was released. Refunds add up and stay within the capture.
abbrev pub Balanced : Intent → Status → Type 0
Balanced i authorized = (i.amount_captured ≡ 0) × (i.amount_voided ≡ 0)
Balanced i captured = i.amount_captured + i.amount_voided ≡ i.amount
Balanced i voided = (i.amount_captured ≡ 0) × (i.amount_voided ≡ i.amount)

pub record IsConserved (i : Intent) : Type 0 where
  pub bounded : (1 ≤ i.amount) × (i.amount ≤ max_amount)
  pub balanced : Balanced i i.status
  pub summed : i.amount_refunded ≡ refund_sum i.refunds
  pub covered : i.amount_refunded ≤ i.amount_captured

refund_sum-append :
    (rs : List Refund) (r : Refund) → refund_sum (rs ++ (r ∷ [])) ≡ refund_sum rs + r.amount
unfolding refund_sum
refund_sum-append [] r = omega arith
refund_sum-append (x ∷ rs) r = omega (arith, refund_sum-append rs r)

capture_fn-IsConserved :
    (amount : ℕ) (cur : Intent) {nxt : Intent}
    → 1 ≤ amount
    → IsConserved cur
    → (capture_fn amount (some cur)).0 ≡ some nxt
    → IsConserved nxt
unfolding capture_fn
capture_fn-IsConserved amount cur pos c e = ground arith

void_fn-IsConserved :
    (cur : Intent) {nxt : Intent}
    → IsConserved cur
    → (void_fn (some cur)).0 ≡ some nxt
    → IsConserved nxt
unfolding void_fn
void_fn-IsConserved cur c e = ground arith

new_refund-IsConserved :
    (key : Text) (amount : ℕ) (cur : Intent) {nxt : Intent}
    → is_captured cur.status ≡ true
    → IsConserved cur
    → (new_refund key amount cur).0 ≡ some nxt
    → IsConserved nxt
unfolding new_refund
new_refund-IsConserved key amount cur s c e =
    ground (arith, refund_sum-append cur.refunds (record { key = key; amount = amount }))

refund_fn-IsConserved :
    (key : Text) (amount : ℕ) (cur : Intent) {nxt : Intent}
    → IsConserved cur
    → (refund_fn key amount (some cur)).0 ≡ some nxt
    → IsConserved nxt
refund_fn-IsConserved key amount cur {nxt} c e =
    let (took, fresh) = refund_fn-writes key amount cur nxt e in
    new_refund-IsConserved key amount cur took c fresh

abbrev pub AllConserved : Intents → Type 0
AllConserved = AllRows IsConserved

-- The callback of a transition writes nothing over a missing row, and a conserved row over a
-- conserved one.
record IsSafe (fn : Option Intent → Option Intent × Result Intent) : Type 0 where
  at_missing : (fn none).0 ≡ none
  at_row : (cur nxt : Intent) → IsConserved cur → (fn (some cur)).0 ≡ some nxt → IsConserved nxt

do_-AllConserved :
    (fn : Option Intent → Option Intent × Result Intent)
    → IsSafe fn
    → (slot : Text) (t : Intents) → AllConserved t
    → AllConserved (do_ slot fn t).1
do_-AllConserved fn safe slot t h = AllRows-do_ IsConserved slot fn t (row (get slot t) refl) h
  where
    row :
        (o : Option Intent)
        → get slot t ≡ o
        → (v : Intent) → (fn (get slot t)).0 ≡ some v
        → IsConserved v
    row none e v w = cc (safe.at_missing, e, w)
    row (some cur) e v w = safe.at_row cur v (h slot cur e) (rw e at w)

capture_fn-IsSafe : (amount : ℕ) → 1 ≤ amount → IsSafe (capture_fn amount)
capture_fn-IsSafe amount pos = record {
  at_missing = unfold capture_fn in refl;
  at_row = λ cur nxt c e. capture_fn-IsConserved amount cur pos c e;
}

void_fn-IsSafe : IsSafe void_fn
void_fn-IsSafe = record {
  at_missing = unfold void_fn in refl;
  at_row = λ cur nxt c e. void_fn-IsConserved cur c e;
}

refund_fn-IsSafe : (key : Text) (amount : ℕ) → IsSafe (refund_fn key amount)
refund_fn-IsSafe key amount = record {
  at_missing = unfold refund_fn in refl;
  at_row = λ cur nxt c e. refund_fn-IsConserved key amount cur c e;
}

read_or_claim-AllConserved :
    (slot : Text) (rec : Intent)
    → IsConserved rec
    → (t : Intents) → AllConserved t
    → AllConserved (read_or_claim slot rec t).1
read_or_claim-AllConserved slot rec c t h = rw read_or_claim-eq-claim_once (
    unfold claim_once in
    AllRows-do_ IsConserved slot (claim_fn rec) t (λ v. claimed (get slot t) v) h)
  where
    claimed : (o : Option Intent) (v : Intent) → (claim_fn rec o).0 ≡ some v → IsConserved v
    claimed none v e = subst IsConserved (cc) c
    claimed (some cur) v e = absurd (cc)

fresh_intent-IsConserved :
    (h : Hash) (amount : ℕ) (currency subject key : Text)
    → in_range amount ≡ true
    → IsConserved (fresh_intent h amount currency subject key)
unfolding fresh_intent refund_sum
fresh_intent-IsConserved h amount currency subject key valid = ground arith

AllConserved-IsKept : (h : Hash) (subject : Text) → IsKept h AllConserved subject
AllConserved-IsKept h subject = record {
  by_claim = λ amount currency key valid.
      read_or_claim-AllConserved (composite subject (intent_id h subject key))
        (fresh_intent h amount currency subject key)
        (fresh_intent-IsConserved h amount currency subject key valid);
  by_capture = λ amount valid id good.
      do_-AllConserved (capture_fn amount) (capture_fn-IsSafe amount (ground arith))
        (composite subject id);
  by_void = λ id good. do_-AllConserved void_fn void_fn-IsSafe (composite subject id);
  by_refund = λ key amount id good.
      do_-AllConserved (refund_fn key amount) (refund_fn-IsSafe key amount) (composite subject id);
}

-- Whatever requests are served, by whomever, from an empty store, every stored intent conserves
-- its money: while it is authorized nothing has moved; once captured, the captured and the
-- released part add up to the authorized amount; once voided, all of it was released and none
-- captured. The refunds add up to the refunded amount, which never passes what was captured.
pub serve-AllConserved :
    (h : Hash) (upper : Text → Text) (requests : List (Text × Request))
    → AllConserved (serve h upper requests [])
serve-AllConserved h upper requests =
    serve-Keeps h upper AllConserved requests (All-always (λ r. AllConserved-IsKept h r.0) requests)
      [] (AllRows-nil IsConserved)
