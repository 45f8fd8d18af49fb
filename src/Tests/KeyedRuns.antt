-- ===== src/Tests/KeyedRuns.antt =====
-- Payments with a key: a caller's and a stranger's.
use gutencode_test.Prelude.{
  ◌≡◌, ◌≢◌, refl, arith, true, List, [], ◌∷◌, Text, Text-Eq, codes, ==_refl, text_eq, ℕ,
}
use gutencode_test.Core.Problem.{conflict}
use gutencode_test.Core.Exec.{ok, err, ◌>>=◌}
use gutencode_test.Core.Table.{get, put, do_, next_id}
use gutencode_test.Parts.Claim.{claim_once}
use gutencode_test.Parts.Digest.Unary.{unary_hash}
use gutencode_test.Parts.WellFormed.{is_well_formed}
use gutencode_test.Domains.Idempotency.{
  PaymentOut, Idempotency, is_amount, body_digest, slot_key, settle, conclude, pay_once, pay_with,
  pay,
}
use gutencode_test.Domains.Idempotency.Once.{Request, serve, pay_replay}
use gutencode_test.Domains.Idempotency.Private.{serve-private}

abbrev alice : Text
alice = b'a' ∷ []

abbrev mallory : Text
mallory = b'm' ∷ []

abbrev key : Text
key = b'k' ∷ []

abbrev ten : ℕ
ten = 10

-- A payment with a key, and what strangers send with the same key.
abbrev paid : PaymentOut
paid = record { id = 1; amount = 10 }

abbrev nothing_paid : Idempotency
nothing_paid = record { keys = []; last_payment = 0 }

abbrev foreign : List Request
foreign = (20, key ∷ [], mallory) ∷ (30, [], mallory) ∷ []

pay-paid : (pay unary_hash 10 (key ∷ []) alice nothing_paid).0 ≡ ok paid
unfolding pay pay_with pay_once settle conclude next_id claim_once get put do_ is_well_formed
    text_eq ◌>>=◌
pay-paid = rw (==_refl (body_digest unary_hash 10)) refl

pay_replay_example :
    let then_ = serve unary_hash foreign (pay unary_hash ten (key ∷ []) alice nothing_paid).1 in
    (pay unary_hash ten (key ∷ []) alice then_ ≡ (ok paid, then_))
    × ((other : ℕ)
        → is_amount other ≡ true
        → ¬ (ten ≡ other)
        → pay unary_hash other (key ∷ []) alice then_
          ≡ (err (conflict (codes "idempotency key reused with a different body")), then_))
pay_replay_example = pay_replay unary_hash ten alice key nothing_paid foreign paid pay-paid

mallory-other : mallory ≢ alice
mallory-other e = ground arith

serve-private_example :
    get (slot_key unary_hash alice key) (serve unary_hash foreign nothing_paid).keys
    ≡ get (slot_key unary_hash alice key) nothing_paid.keys
serve-private_example =
    serve-private unary_hash alice key foreign nothing_paid (mallory-other, (mallory-other, tt))
