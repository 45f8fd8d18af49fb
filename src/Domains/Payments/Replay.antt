-- ===== src/Domains/Payments/Replay.antt =====
-- A retried request answers as the first one did and writes nothing; a reused key is refused.
use gutencode_test.Prelude.{
  ==_true, ==_false, split_first, append-cancel_left, Digits-Free, str_ℕ-Digits, str_ℕ-injective, ℕ,
  ◌≡◌, refl, sym, ap, ◌∙◌, true, ◌&&◌, some, List, [], ◌∷◌, Text, Text-Eq, ◌==◌, codes, str_ℕ,
}
use gutencode_test.Core.Problem.{conflict}
use gutencode_test.Core.Exec.{Result, ok, err, ◌>>=◌}
use gutencode_test.Core.Exec.Laws.{require-true, require-ok}
use gutencode_test.Core.Table.{get}
use gutencode_test.Parts.Claim.{claim_once}
use gutencode_test.Parts.Claim.Settled.{get-claim_once, claim_once-settled}
use gutencode_test.Parts.Digest.{Hash, join_colon}
use gutencode_test.Parts.Currency.{is_currency}
use gutencode_test.Parts.WellFormed.{is_well_formed}
use gutencode_test.Parts.WellFormed.Keys.{composite}
use gutencode_test.Domains.Payments.{
  Intent, Intents, PaymentOut, out, in_range, answer_prior, authorize, intent_id, fresh_intent,
  body_digest,
}
use gutencode_test.Domains.Payments.Exact.{
  read_or_claim-eq-claim_once, single_key_lem, single_key-ok, answer_prior_lem, answer_prior-other,
  answer_prior-ok,
}
use gutencode_test.Domains.Payments.Requests.{Request, serve}
use gutencode_test.Domains.Payments.Settled.{serve-Advances}

module _ (h : Hash) (upper : Text → Text) (amount : ℕ) (currency key subject : Text) where
  abbrev slot_of : Text
  slot_of = composite subject (intent_id h subject key)

  -- The guards of the route.
  abbrev pub IsAccepted : Type 0
  IsAccepted =
      (in_range amount && is_well_formed currency ≡ true)
      × (is_currency upper currency ≡ true)
      × (is_well_formed key ≡ true)

  settle : Intents → Result PaymentOut × Intents
  settle t =
      let (winner, t') = claim_once slot_of (fresh_intent h amount currency subject key) t in
      answer_prior winner subject (body_digest h amount currency) t'

  -- Past the guards the reply is the answer to the settled intent.
  authorize_lem :
      (t : Intents) → IsAccepted → authorize h upper amount currency (key ∷ []) subject t ≡ settle t
  unfolding authorize settle
  authorize_lem t (valid, listed, good) =
      require-true _ _ _ t valid
      ∙ require-true _ _ _ t listed
      ∙ single_key_lem key _ t good
      ∙ unfold ◌>>=◌ in
        ap (λ (c : Intent × Intents). answer_prior c.0 subject (body_digest h amount currency) c.1)
          (read_or_claim-eq-claim_once slot_of (fresh_intent h amount currency subject key) t)

  authorize_accepted :
      (t : Intents) {p : PaymentOut}
      → (authorize h upper amount currency (key ∷ []) subject t).0 ≡ ok p
      → IsAccepted
  unfolding authorize
  authorize_accepted t e =
      let (valid, rest) = require-ok _ _ _ t e in
      let (listed, rest') = require-ok _ _ _ t rest in
      (valid, listed, (single_key-ok key _ t rest').0)

  -- What a reply shows: the slot holds an intent of this subject and this body, and the reply is
  -- its projection.
  authorize-settles :
      (t : Intents) {p : PaymentOut}
      → (authorize h upper amount currency (key ∷ []) subject t).0 ≡ ok p
      → (i : Intent) × (get slot_of (authorize h upper amount currency (key ∷ []) subject t).1
          ≡ some i)
        × ((i.caller == subject) ≡ true)
        × ((i.body_hash == body_digest h amount currency) ≡ true)
        × (out i ≡ p)
  authorize-settles t {p} e =
      let accepted = authorize_accepted t e in
      let rec = fresh_intent h amount currency subject key in
      let settled = authorize_lem t accepted in
      let winner = (claim_once slot_of rec t).0 in
      let t' = (claim_once slot_of rec t).1 in
      let answered : (answer_prior winner subject (body_digest h amount currency) t').0 ≡ ok p =
        unfold settle in ap (λ x. x.0) (sym settled) ∙ e in
      let (mine, same, shown) =
        answer_prior-ok winner subject (body_digest h amount currency) t' answered in
      let whole : authorize h upper amount currency (key ∷ []) subject t ≡ (ok (out winner), t') =
        unfold settle in settled ∙ answer_prior_lem winner subject _ t' mine same in
      (winner, rw whole (get-claim_once slot_of rec t), mine, same, shown)

  -- Over a settled intent of this subject and this body the route shows the intent and writes nothing.
  authorize-settled :
      (i : Intent) (t : Intents)
      → IsAccepted
      → get slot_of t ≡ some i
      → (i.caller == subject) ≡ true
      → (i.body_hash == body_digest h amount currency) ≡ true
      → authorize h upper amount currency (key ∷ []) subject t ≡ (ok (out i), t)
  authorize-settled i t accepted held mine same =
      authorize_lem t accepted
      ∙ unfold settle in
        rw (claim_once-settled slot_of (fresh_intent h amount currency subject key) t held)
          (answer_prior_lem i subject _ t mine same)

  -- Once an authorization was answered, the same request answers with the same id, amount and
  -- currency and writes nothing, whatever requests were served in between, by whomever.
  pub authorize_replay :
      (requests : List (Text × Request)) (t : Intents) {p : PaymentOut}
      → (authorize h upper amount currency (key ∷ []) subject t).0 ≡ ok p
      → let t' =
          serve h upper requests (authorize h upper amount currency (key ∷ []) subject t).1 in
        (q : PaymentOut) × (authorize h upper amount currency (key ∷ []) subject t' ≡ (ok q, t'))
        × (q.id ≡ p.id)
        × (q.amount ≡ p.amount)
        × (q.currency ≡ p.currency)
  authorize_replay requests t {p} e =
      let (i, held, mine, same, shown) = authorize-settles t e in
      let t1 = (authorize h upper amount currency (key ∷ []) subject t).1 in
      let (j, kept, adv) = serve-Advances h upper requests slot_of i t1 held in
      (
        out j,
        authorize-settled j (serve h upper requests t1) (authorize_accepted t e) kept
            (rw adv.same_caller mine) (rw adv.same_body same),
        cc (adv.same_id, shown),
        cc (adv.same_amount, shown),
        cc (adv.same_currency, shown),
      )

-- The fingerprints of two bodies are equal only if the amounts and the currencies are.
pub body_digest-injective :
    (h : Hash) (amount amount' : ℕ) (currency currency' : Text)
    → body_digest h amount currency ≡ body_digest h amount' currency'
    → (amount ≡ amount') × (currency ≡ currency')
unfolding body_digest join_colon codes
body_digest-injective h amount amount' currency currency' e =
    let joined = h.injective _ _ e in
    let digits_free = λ (n : ℕ). Digits-Free b':' (str_ℕ n) refl (str_ℕ-Digits n) in
    let (numbers, rest) =
      split_first b':' (str_ℕ amount) _ (str_ℕ amount') _ (digits_free amount) (digits_free amount')
        (append-cancel_left (codes "amount:") _ _ joined) in
    (str_ℕ-injective amount amount' numbers, append-cancel_left (codes "currency:") _ _ rest)

-- A key that was answered for one body refuses any other that passes the guards, with a 409 and no write, whatever
-- requests were served in between: no key authorizes two amounts or two currencies.
pub authorize_other_body :
    (h : Hash) (upper : Text → Text) (amount amount' : ℕ) (currency currency' key subject : Text)
    (requests : List (Text × Request)) (t : Intents) {p : PaymentOut}
    → (authorize h upper amount currency (key ∷ []) subject t).0 ≡ ok p
    → IsAccepted h upper amount' currency' key subject
    → ¬ ((amount ≡ amount') × (currency ≡ currency'))
    → let t' = serve h upper requests (authorize h upper amount currency (key ∷ []) subject t).1 in
      authorize h upper amount' currency' (key ∷ []) subject t'
      ≡ (err (conflict (codes "idempotency key reused with a different body")), t')
authorize_other_body h upper amount amount' currency currency' key subject requests t {p} e accepted
      differ =
    let slot = composite subject (intent_id h subject key) in
    let (i, held, mine, same, shown) = authorize-settles h upper amount currency key subject t e in
    let t1 = (authorize h upper amount currency (key ∷ []) subject t).1 in
    let (j, kept, adv) = serve-Advances h upper requests slot i t1 held in
    let t' = serve h upper requests t1 in
    authorize_lem h upper amount' currency' key subject t' accepted
    ∙ unfold settle in
      rw (claim_once-settled slot (fresh_intent h amount' currency' subject key) t' kept) (
        answer_prior-other j subject _ t' (rw adv.same_caller mine) (
          ==_false _ _ (λ clash. differ (
            body_digest-injective h amount amount' currency currency'
              (sym (==_true i.body_hash _ same) ∙ sym adv.same_body ∙ clash)))))
