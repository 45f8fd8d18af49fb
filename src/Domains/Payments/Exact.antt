-- ===== src/Domains/Payments/Exact.antt =====
-- Authorization and refunds happen exactly once for each key.
use gutencode_test.Prelude.{
  ◌==◌, [], ◌∷◌, false, codes, arith, ℕ, ◌≡◌, sym, ap, ◌∙◌, true, some, Bool-cases, Text, Text-Eq,
  inl, inr, Option-cases,
}
use gutencode_test.Core.Problem.{conflict}
use gutencode_test.Core.Exec.{ok, err, Exec, pure, ◌>>=◌}
use gutencode_test.Core.Exec.Laws.{require-ok}
use gutencode_test.Parts.WellFormed.{is_well_formed}
use gutencode_test.Core.Table.{get}
use gutencode_test.Parts.Claim.{claim_once}
use gutencode_test.Parts.Claim.Settled.{claim_once-settled}
use gutencode_test.Domains.Payments.{
  Intent, Intents, PaymentOut, out, read_or_claim, is_captured, refund_fn, new_refund, find_refund,
  single_key, answer_prior,
}

-- The fast path only saves the write lock: reading first and claiming after is one claim.
pub read_or_claim-eq-claim_once :
    (slot : Text) (rec : Intent) (t : Intents) → read_or_claim slot rec t ≡ claim_once slot rec t
unfolding read_or_claim
read_or_claim-eq-claim_once slot rec t = elim (Option-cases (get slot t)) [
  | inl free ↦ rw (free, read_or_claim)
  | inr (prior, held) ↦ rw (held, read_or_claim) (sym (claim_once-settled slot rec t held))
]

-- A refund writes only when it is new to a captured intent.
pub refund_fn-writes :
    (key : Text) (amount : ℕ) (cur nxt : Intent)
    → (refund_fn key amount (some cur)).0 ≡ some nxt
    → (is_captured cur.status ≡ true) × ((new_refund key amount cur).0 ≡ some nxt)
unfolding refund_fn
refund_fn-writes key amount cur nxt e = elim (Bool-cases (is_captured cur.status)) [
  | inl took ↦ elim (Option-cases (find_refund key cur.refunds)) [
    | inl fresh ↦
        let step : refund_fn key amount (some cur) ≡ new_refund key amount cur = rw (took, fresh) in
        (took, ap (λ p. p.0) (sym step) ∙ e)
    | inr (r, old) ↦ absurd (ground arith)
  ]
  | inr other ↦ absurd (ground arith)
]

module _ (key : Text) {A : Type 0} (f : Text → Exec Intents A) (t : Intents) where
  -- One well-formed key goes on.
  pub single_key_lem : is_well_formed key ≡ true → (single_key (key ∷ []) >>= f) t ≡ f key t
  unfolding single_key ◌>>=◌
  single_key_lem good = rw good

  single_key_bad :
      {r : A} → is_well_formed key ≡ false → ((single_key (key ∷ []) >>= f) t).0 ≡ ok r → ⊥
  unfolding single_key ◌>>=◌
  single_key_bad bad e = ground (arith, bad)

  pub single_key-ok :
      {r : A}
      → ((single_key (key ∷ []) >>= f) t).0 ≡ ok r
      → (is_well_formed key ≡ true) × ((f key t).0 ≡ ok r)
  single_key-ok e = elim (Bool-cases (is_well_formed key)) [
    | inl good ↦ (good, ap (λ x. x.0) (sym (single_key_lem good)) ∙ e)
    | inr bad ↦ absurd (single_key_bad bad e)
  ]

module _ (prior : Intent) (subject body_hash : Text) (t : Intents) where
  pub answer_prior_lem :
      (prior.caller == subject) ≡ true
      → (prior.body_hash == body_hash) ≡ true
      → answer_prior prior subject body_hash t ≡ (ok (out prior), t)
  unfolding answer_prior ◌>>=◌
  answer_prior_lem mine same = rw (mine, same)

  pub answer_prior-other :
      (prior.caller == subject) ≡ true
      → (prior.body_hash == body_hash) ≡ false
      → answer_prior prior subject body_hash t
        ≡ (err (conflict (codes "idempotency key reused with a different body")), t)
  unfolding answer_prior ◌>>=◌
  answer_prior-other mine other = rw (mine, other)

  pub answer_prior-ok :
      {p : PaymentOut}
      → (answer_prior prior subject body_hash t).0 ≡ ok p
      → ((prior.caller == subject) ≡ true)
        × ((prior.body_hash == body_hash) ≡ true)
        × (out prior ≡ p)
  unfolding answer_prior
  answer_prior-ok e =
      let (mine, rest) = require-ok _ _ _ t e in
      let (same, done) = require-ok _ _ _ t rest in (mine, same, unfold pure in cc done)
