-- ===== src/Tests/PaymentsRuns.antt =====
-- Payments: an authorization, a capture and refunds, and strangers beside them.
use gutencode_test.Prelude.{
  ◌≡◌, refl, arith, List, [], ◌∷◌, Text, Text-Eq, text_eq, codes, ==_refl, some,
}
use gutencode_test.Core.Problem.{conflict}
use gutencode_test.Core.Exec.{ok, err, ◌>>=◌}
use gutencode_test.Core.Table.{get, put, do_}
use gutencode_test.Parts.Claim.{claim_once}
use gutencode_test.Parts.Currency.{is_currency, split_spaces, currency_text, currency_codes}
use gutencode_test.Parts.Digest.Unary.{unary_hash}
use gutencode_test.Parts.WellFormed.{is_well_formed}
use gutencode_test.Parts.WellFormed.Keys.{composite}
use gutencode_test.Domains.Payments.{
  Intent, Intents, PaymentOut, captured, authorize, refund, refund_fn, new_refund, find_refund,
  transition, answer, single_key, out, fresh_intent, read_or_claim, answer_prior, body_digest,
}
use gutencode_test.Domains.Payments.Requests.{Request, serve}
use gutencode_test.Domains.Payments.Conserved.{AllConserved, serve-AllConserved}
use gutencode_test.Domains.Payments.Settled.{Advances, serve-Advances}
use gutencode_test.Domains.Payments.Isolated.{serve-isolated}
use gutencode_test.Domains.Payments.Replay.{authorize_replay, authorize_other_body}
use gutencode_test.Domains.Payments.RefundReplay.{refund_replay}

abbrev same_case : Text → Text
same_case s = s

abbrev alice : Text
alice = b'a' ∷ []

abbrev mallory : Text
mallory = b'm' ∷ []

abbrev pay_id : Text
pay_id = b'p' ∷ []

abbrev key : Text
key = b'k' ∷ []

-- Requests of the owner and of a stranger.
abbrev story : List (Text × Request)
story =
    (alice, Request.authorize 10 (codes "USD") (key ∷ []))
    ∷ (alice, Request.capture pay_id 8)
    ∷ (mallory, Request.refund pay_id 3 (key ∷ []))
    ∷ (mallory, Request.void_payment pay_id)
    ∷ []

abbrev strangers : List (Text × Request)
strangers = (mallory, Request.void_payment pay_id) ∷ (mallory, Request.capture pay_id 5) ∷ []

-- A captured payment of 8 of 10.
abbrev paid : Intent
paid = record {
  id = pay_id;
  caller = alice;
  status = captured;
  amount = 10;
  currency = codes "USD";
  amount_captured = 8;
  amount_voided = 2;
  amount_refunded = 0;
  refunds = [];
  body_hash = key;
}

abbrev shop : Intents
shop = (composite alice pay_id, paid) ∷ []

serve-AllConserved_example : AllConserved (serve unary_hash same_case story [])
serve-AllConserved_example = serve-AllConserved unary_hash same_case story

serve-Advances_example :
    (j : Intent) × (get (composite alice pay_id) (serve unary_hash same_case story shop) ≡ some j)
    × Advances paid j
serve-Advances_example =
    serve-Advances unary_hash same_case story (composite alice pay_id) paid shop
      (unfold get composite text_eq in refl)

serve-isolated_example :
    get (composite alice pay_id) (serve unary_hash same_case strangers shop)
    ≡ get (composite alice pay_id) shop
serve-isolated_example =
    serve-isolated unary_hash same_case strangers alice pay_id shop
      ((λ e. ground arith), ((λ e. ground arith), tt)) (unfold is_well_formed in refl)

abbrev refunded : Intent
refunded = record paid { amount_refunded = 3; refunds = record { key = key; amount = 3 } ∷ [] }

refund-given : (refund pay_id 3 (key ∷ []) alice shop).0 ≡ ok (out refunded)
unfolding refund ◌>>=◌ single_key transition is_well_formed do_ composite get refund_fn new_refund
    find_refund answer text_eq
refund-given = refl

refund_replay_example :
    let t' = serve unary_hash same_case strangers (refund pay_id 3 (key ∷ []) alice shop).1 in
    ((q : PaymentOut) × (refund pay_id 3 (key ∷ []) alice t' ≡ (ok q, t')))
    × (refund pay_id 4 (key ∷ []) alice t'
        ≡ (err (conflict (codes "idempotency key reused with a different refund amount")), t'))
refund_replay_example =
    refund_replay unary_hash same_case pay_id 3 4 key alice strangers shop {p = out refunded}
      refund-given refl (λ e. omega (arith, e))

abbrev given_out : PaymentOut
given_out = out (fresh_intent unary_hash 10 (codes "USD") alice key)

authorize-given :
    (authorize unary_hash same_case 10 (codes "USD") (key ∷ []) alice []).0 ≡ ok given_out
unfolding authorize ◌>>=◌ single_key is_well_formed codes is_currency split_spaces currency_text
    currency_codes read_or_claim claim_once get put do_ composite answer_prior fresh_intent text_eq
authorize-given = rw (==_refl (body_digest unary_hash 10 (codes "USD"))) refl

authorize_replay_example :
    let t' =
      serve unary_hash same_case strangers
        (authorize unary_hash same_case 10 (codes "USD") (key ∷ []) alice []).1 in
    (q : PaymentOut) × (authorize unary_hash same_case 10 (codes "USD") (key ∷ []) alice t'
      ≡ (ok q, t'))
    × (q.id ≡ given_out.id)
    × (q.amount ≡ given_out.amount)
    × (q.currency ≡ given_out.currency)
authorize_replay_example =
    authorize_replay unary_hash same_case 10 (codes "USD") key alice strangers [] {p = given_out}
      authorize-given

authorize_other_body_example :
    let t' =
      serve unary_hash same_case strangers
        (authorize unary_hash same_case 10 (codes "USD") (key ∷ []) alice []).1 in
    authorize unary_hash same_case 11 (codes "USD") (key ∷ []) alice t'
    ≡ (err (conflict (codes "idempotency key reused with a different body")), t')
authorize_other_body_example =
    authorize_other_body unary_hash same_case 10 11 (codes "USD") (codes "USD") key alice strangers
      [] {p = given_out} authorize-given
      (unfold is_well_formed codes is_currency split_spaces currency_text currency_codes text_eq in
        (refl, refl, refl))
      (λ e. omega (arith, e.0))
