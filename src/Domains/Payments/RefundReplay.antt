-- ===== src/Domains/Payments/RefundReplay.antt =====
-- A retried refund answers again and moves no money; its key with another amount is refused.
use gutencode_test.Prelude.{
  ℕ, ◌≡◌, ◌≢◌, refl, sym, ap, ◌∙◌, true, false, Option, some, none, List, [], ◌∷◌, ◌++◌, Text,
  Text-Eq, ℕ-Eq, ◌==◌, ==_refl, ==_false, arith, codes, Option-cases, Bool-cases, inl, inr,
}
use gutencode_test.Core.Problem.{conflict}
use gutencode_test.Core.Exec.{Result, ok, err, pure, raise, ◌>>=◌}
use gutencode_test.Core.Exec.Laws.{require-true, require-ok}
use gutencode_test.Core.Table.{get, do_}
use gutencode_test.Core.Table.Laws.{after, get-do_self}
use gutencode_test.Parts.Digest.{Hash}
use gutencode_test.Parts.WellFormed.{is_well_formed}
use gutencode_test.Parts.WellFormed.Keys.{composite}
use gutencode_test.Domains.Payments.{
  Intent, Intents, PaymentOut, Refund, out, in_range, is_captured, transition, answer, refund,
  refund_fn, find_refund, settled_refund, new_refund,
}
use gutencode_test.Domains.Payments.Exact.{single_key_lem, single_key-ok}
use gutencode_test.Domains.Payments.Requests.{Request, serve}
use gutencode_test.Domains.Payments.Settled.{Advances, serve-Advances}

find_refund-new :
    (key : Text) (amount : ℕ) (rs : List Refund)
    → find_refund key rs ≡ none
    → find_refund key (rs ++ (record { key = key; amount = amount } ∷ []))
      ≡ some (record { key = key; amount = amount })
unfolding find_refund
find_refund-new key amount [] e = rw (==_refl key)
find_refund-new key amount (r ∷ rs) e = ground (arith, find_refund-new key amount rs)

-- A captured intent in whose refunds the key is settled at the amount.
pub record IsRefunded (key : Text) (amount : ℕ) (i : Intent) : Type 0 where
  pub took : is_captured i.status ≡ true
  pub settled : Refund
  pub found : find_refund key i.refunds ≡ some settled
  pub at_amount : settled.amount ≡ amount

module _ (subject id : Text) (fn : Option Intent → Option Intent × Result Intent)
    (t : Intents) where
  transition_lem :
      is_well_formed id ≡ true
      → transition subject id fn t ≡ (let (r, t') = do_ (composite subject id) fn t in answer r t')
  unfolding transition
  transition_lem good = require-true _ _ _ t good ∙ unfold ◌>>=◌ in refl

new_refund-ok :
    (key : Text) (amount : ℕ) (cur i : Intent)
    → is_captured cur.status ≡ true
    → find_refund key cur.refunds ≡ none
    → (new_refund key amount cur).1 ≡ ok i
    → ((new_refund key amount cur).0 ≡ some i) × IsRefunded key amount i
unfolding new_refund
new_refund-ok key amount cur i took fresh e = (
  ground arith,
  record {
    took = ground arith;
    settled = record { key = key; amount = amount };
    found = ground (arith, find_refund-new key amount cur.refunds fresh);
    at_amount = refl;
  },
)

settled_refund-ok :
    (key : Text) (amount : ℕ) (cur i : Intent) (r : Refund)
    → is_captured cur.status ≡ true
    → find_refund key cur.refunds ≡ some r
    → (settled_refund amount cur r).1 ≡ ok i
    → ((settled_refund amount cur r).0 ≡ none) × (cur ≡ i) × IsRefunded key amount i
unfolding settled_refund
settled_refund-ok key amount cur i r took old e = (
  ground arith,
  ground arith,
  record { took = ground arith; settled = r; found = ground arith; at_amount = ground arith },
)

-- What a refund that was answered leaves in its slot.
refund_fn-ok :
    (key : Text) (amount : ℕ) (o : Option Intent) {i : Intent}
    → (refund_fn key amount o).1 ≡ ok i
    → (after o (refund_fn key amount o).0 ≡ some i) × IsRefunded key amount i
refund_fn-ok key amount none e = unfold refund_fn in absurd (cc)
refund_fn-ok key amount (some cur) {i} e = elim (Bool-cases (is_captured cur.status)) [
  | inl took ↦ elim (Option-cases (find_refund key cur.refunds)) [
    | inl fresh ↦
        let step : refund_fn key amount (some cur) ≡ new_refund key amount cur =
          unfold refund_fn in rw (took, fresh) in
        let (wrote, refunded) =
          new_refund-ok key amount cur i took fresh (ap (λ p. p.1) (sym step) ∙ e) in
        (rw (step, wrote) refl, refunded)
    | inr (r, old) ↦
        let step : refund_fn key amount (some cur) ≡ settled_refund amount cur r =
          unfold refund_fn in rw (took, old) in
        let (kept, same, refunded) =
          settled_refund-ok key amount cur i r took old (ap (λ p. p.1) (sym step) ∙ e) in
        (rw (step, kept) (ap some same), refunded)
  ]
  | inr other ↦ absurd (refused other e)
]
  where
    refused : is_captured cur.status ≡ false → (refund_fn key amount (some cur)).1 ≡ ok i → ⊥
    refused other e = unfold refund_fn in ground (arith, other, e)

-- A refund over a settled key: its own amount is answered, and nothing is written.
refund_fn-same :
    (key : Text) (amount : ℕ) (i : Intent)
    → IsRefunded key amount i
    → refund_fn key amount (some i) ≡ (none, ok i)
unfolding refund_fn settled_refund
refund_fn-same key amount i refunded =
    rw (refunded.took, refunded.found, refunded.at_amount, ==_refl amount)

-- Another amount is refused, and nothing is written.
refund_fn-other :
    (key : Text) (amount n : ℕ) (i : Intent)
    → IsRefunded key amount i
    → (amount == n) ≡ false
    → refund_fn key n (some i)
      ≡ (none, err (conflict (codes "idempotency key reused with a different refund amount")))
unfolding refund_fn settled_refund
refund_fn-other key amount n i refunded differ =
    rw (refunded.took, refunded.found, refunded.at_amount, differ)

module _ (id : Text) (amount : ℕ) (key subject : Text) where
  abbrev slot_of : Text
  slot_of = composite subject id

  -- The guards of the route.
  abbrev IsAccepted : ℕ → Type 0
  IsAccepted n = (in_range n ≡ true) × (is_well_formed key ≡ true) × (is_well_formed id ≡ true)

  update : ℕ → Intents → Result PaymentOut × Intents
  update n t = let (r, t') = do_ slot_of (refund_fn key n) t in answer r t'

  refund_lem : (n : ℕ) (t : Intents) → IsAccepted n → refund id n (key ∷ []) subject t ≡ update n t
  unfolding refund update
  refund_lem n t (valid, fine, good) =
      require-true _ _ _ t valid
      ∙ single_key_lem key _ t fine
      ∙ transition_lem subject id (refund_fn key n) t good

  refund_accepted :
      (t : Intents) {p : PaymentOut}
      → (refund id amount (key ∷ []) subject t).0 ≡ ok p
      → IsAccepted amount
  unfolding refund transition
  refund_accepted t e =
      let (valid, rest) = require-ok _ _ _ t e in
      let (fine, rest') = single_key-ok key _ t rest in (valid, fine, (require-ok _ _ _ t rest').0)

  answer-ok :
      (r : Result Intent) (t : Intents) {p : PaymentOut}
      → (answer r t).0 ≡ ok p
      → (i : Intent) × (r ≡ ok i) × (answer r t ≡ (ok (out i), t))
  unfolding answer pure
  answer-ok (ok i) t e = (i, refl, refl)
  answer-ok (err q) t e = unfold ◌>>=◌ in absurd (cc)

  refund-settles :
      (t : Intents) {p : PaymentOut}
      → (refund id amount (key ∷ []) subject t).0 ≡ ok p
      → (i : Intent) × (get slot_of (refund id amount (key ∷ []) subject t).1 ≡ some i)
        × IsRefunded key amount i
  refund-settles t {p} e =
      let whole = refund_lem amount t (refund_accepted t e) in
      let r = (do_ slot_of (refund_fn key amount) t).0 in
      let t' = (do_ slot_of (refund_fn key amount) t).1 in
      let answered : (answer r t').0 ≡ ok p = unfold update in ap (λ x. x.0) (sym whole) ∙ e in
      let (i, done, same) = answer-ok r t' answered in
      let (left, refunded) = refund_fn-ok key amount (get slot_of t) {i = i} (unfold do_ in done) in
      (
        i,
        rw whole
            (unfold update in rw same (rw (get-do_self slot_of (refund_fn key amount) t) left)),
        refunded,
      )

  refund-same :
      (i : Intent) (t : Intents)
      → IsAccepted amount
      → get slot_of t ≡ some i
      → IsRefunded key amount i
      → refund id amount (key ∷ []) subject t ≡ (ok (out i), t)
  refund-same i t accepted held refunded =
      refund_lem amount t accepted
      ∙ unfold update do_ answer pure in rw held (rw (refund_fn-same key amount i refunded))

  refund-other :
      (n : ℕ) (i : Intent) (t : Intents)
      → IsAccepted n
      → get slot_of t ≡ some i
      → IsRefunded key amount i
      → (amount == n) ≡ false
      → refund id n (key ∷ []) subject t
        ≡ (err (conflict (codes "idempotency key reused with a different refund amount")), t)
  refund-other n i t accepted held refunded differ =
      refund_lem n t accepted
      ∙ unfold update do_ answer raise in
        rw held (rw (refund_fn-other key amount n i refunded differ))

  Advances-IsRefunded :
      (i j : Intent) → Advances i j → IsRefunded key amount i → IsRefunded key amount j
  Advances-IsRefunded i j adv refunded = record {
    took = (adv.captured_stays refunded.took).0;
    settled = refunded.settled;
    found = adv.keys_stay key refunded.settled refunded.found;
    at_amount = refunded.at_amount;
  }

-- Once a refund was answered, the same request, whatever requests were served in between, is
-- answered and writes nothing, so no retry moves money twice; and the same key with another amount in range
-- is refused with a 409 and writes nothing.
pub refund_replay :
    (h : Hash) (upper : Text → Text) (id : Text) (amount n : ℕ) (key subject : Text)
    (requests : List (Text × Request)) (t : Intents) {p : PaymentOut}
    → (refund id amount (key ∷ []) subject t).0 ≡ ok p
    → in_range n ≡ true
    → amount ≢ n
    → let t' = serve h upper requests (refund id amount (key ∷ []) subject t).1 in
      ((q : PaymentOut) × (refund id amount (key ∷ []) subject t' ≡ (ok q, t')))
      × (refund id n (key ∷ []) subject t'
          ≡ (err (conflict (codes "idempotency key reused with a different refund amount")), t'))
refund_replay h upper id amount n key subject requests t {p} e valid differ =
    let (i, held, refunded) = refund-settles id amount key subject t e in
    let t1 = (refund id amount (key ∷ []) subject t).1 in
    let (j, kept, adv) = serve-Advances h upper requests (composite subject id) i t1 held in
    let t' = serve h upper requests t1 in
    let refunded' = Advances-IsRefunded id amount key subject i j adv refunded in
    let accepted = refund_accepted id amount key subject t e in
    (
      (out j, refund-same id amount key subject j t' accepted kept refunded'),
      refund-other id amount key subject n j t' (valid, accepted.1, accepted.2) kept refunded'
          (==_false amount n differ),
    )
