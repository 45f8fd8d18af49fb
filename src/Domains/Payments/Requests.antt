-- ===== src/Domains/Payments/Requests.antt =====
-- The routes of domains/payments.py as requests, and the intents after a history of them.
use gutencode_test.Prelude.{ℕ, ◌≡◌, true, ◌&&◌, Option, List, [], ◌∷◌, Text, Text-Eq, All, arith}
use gutencode_test.Core.Exec.{Result, ok, err, Exec}
use gutencode_test.Core.Exec.Keeps.{Keeps, Keeps-guard, Keeps-atomically, keeps_rules}
use gutencode_test.Core.Table.{do_}
use gutencode_test.Parts.Digest.{Hash}
use gutencode_test.Parts.WellFormed.{is_well_formed}
use gutencode_test.Parts.WellFormed.Keys.{composite}
use gutencode_test.Domains.Payments
use gutencode_test.Domains.Payments.{
  Intents, Intent, PaymentOut, in_range, answer, transition, single_key, answer_prior,
  read_or_claim, intent_id, fresh_intent, capture_fn, void_fn, refund_fn,
}

pub data Request : Type 0 where
  authorize : ℕ → Text → List Text → Request
  capture : Text → ℕ → Request
  void_payment : Text → Request
  refund : Text → ℕ → List Text → Request
  get_payment : Text → Request

module _ (h : Hash) (upper : Text → Text) where
  unfoldable pub handle : Text → Request → Exec Intents PaymentOut
  handle subject (Request.authorize amount currency keys) =
      Payments.authorize h upper amount currency keys subject
  handle subject (Request.capture payment_id amount) = Payments.capture payment_id amount subject
  handle subject (Request.void_payment payment_id) = Payments.void_payment payment_id subject
  handle subject (Request.refund payment_id amount keys) =
      Payments.refund payment_id amount keys subject
  handle subject (Request.get_payment payment_id) = Payments.get_payment payment_id subject

  -- Each request comes with its authenticated subject; a problem ends only its own request.
  unfoldable pub serve : List (Text × Request) → Intents → Intents
  serve [] t = t
  serve ((subject, r) ∷ rest) t = serve rest (handle subject r t).1

-- What keeps a statement about the store under one subject's requests: the claim of a fresh intent,
-- and the three callbacks.
pub record IsKept {ℓ} (h : Hash) (P : Intents → Type ℓ) (subject : Text) : Type ℓ where
  pub by_claim :
      (amount : ℕ) (currency key : Text)
      → in_range amount ≡ true
      → (t : Intents) → P t
      → P
          (read_or_claim
            (composite subject (intent_id h subject key))
            (fresh_intent h amount currency subject key)
            t).1
  pub by_capture :
      (amount : ℕ)
      → in_range amount ≡ true
      → (id : Text) → is_well_formed id ≡ true
      → (t : Intents) → P t
      → P (do_ (composite subject id) (capture_fn amount) t).1
  pub by_void :
      (id : Text)
      → is_well_formed id ≡ true
      → (t : Intents) → P t
      → P (do_ (composite subject id) void_fn t).1
  pub by_refund :
      (key : Text) (amount : ℕ) (id : Text)
      → is_well_formed id ≡ true
      → (t : Intents) → P t
      → P (do_ (composite subject id) (refund_fn key amount) t).1

module _ {ℓ} {P : Intents → Type ℓ} where
  answer-Keeps : (r : Result Intent) → Keeps P (answer r)
  unfolding answer
  answer-Keeps (ok rec) = search keeps_rules
  answer-Keeps (err p) = search keeps_rules

  transition-Keeps :
      (fn : Option Intent → Option Intent × Result Intent) (subject id : Text)
      → (is_well_formed id ≡ true → (t : Intents) → P t → P (do_ (composite subject id) fn t).1)
      → Keeps P (transition subject id fn)
  unfolding transition
  transition-Keeps fn subject id k =
      Keeps-guard (is_well_formed id) _ _
        λ good. search (keeps_rules, Keeps-atomically, answer-Keeps, k good)

  single_key-Keeps : (keys : List Text) → Keeps P (single_key keys)
  unfolding single_key
  single_key-Keeps [] = search keeps_rules
  single_key-Keeps (key ∷ []) = search keeps_rules
  single_key-Keeps (_ ∷ _ ∷ _) = search keeps_rules

  answer_prior-Keeps :
      (prior : Intent) (subject body_hash : Text) → Keeps P (answer_prior prior subject body_hash)
  unfolding answer_prior
  answer_prior-Keeps prior subject body_hash = search keeps_rules

module _ {ℓ} (h : Hash) (upper : Text → Text) {P : Intents → Type ℓ} where
  authorize-Keeps :
      (subject : Text) (kept : IsKept h P subject) (amount : ℕ) (currency : Text) (keys : List Text)
      → Keeps P (Payments.authorize h upper amount currency keys subject)
  unfolding Payments.authorize
  authorize-Keeps subject kept amount currency keys =
      Keeps-guard (in_range amount && is_well_formed currency) _ _ λ valid. search (
        keeps_rules,
        single_key-Keeps,
        answer_prior-Keeps,
        Keeps-atomically,
        λ (key : Text). kept.by_claim amount currency key (ground arith),
      )

  pub handle-Keeps :
      (subject : Text) → IsKept h P subject → (r : Request) → Keeps P (handle h upper subject r)
  unfolding handle Payments.capture Payments.void_payment Payments.refund Payments.get_payment
  handle-Keeps subject kept (Request.authorize amount currency keys) =
      authorize-Keeps subject kept amount currency keys
  handle-Keeps subject kept (Request.capture id amount) =
      Keeps-guard (in_range amount) _ _
        λ valid. transition-Keeps (capture_fn amount) subject id (kept.by_capture amount valid id)
  handle-Keeps subject kept (Request.void_payment id) =
      transition-Keeps void_fn subject id (kept.by_void id)
  handle-Keeps subject kept (Request.refund id amount keys) = search (
    keeps_rules,
    single_key-Keeps,
    λ (key : Text).
        transition-Keeps (refund_fn key amount) subject id (kept.by_refund key amount id),
  )
  handle-Keeps subject kept (Request.get_payment id) = search keeps_rules

module _ {ℓ} (h : Hash) (upper : Text → Text) (P : Intents → Type ℓ) where
  -- What the operations keep, every history keeps.
  pub serve-Keeps :
      (requests : List (Text × Request))
      → All (λ r. IsKept h P r.0) requests
      → (t : Intents) → P t
      → P (serve h upper requests t)
  unfolding serve
  serve-Keeps [] k t p = p
  serve-Keeps ((subject, r) ∷ rest) k t p =
      serve-Keeps rest k.1 (handle h upper subject r t).1
        ((handle-Keeps h upper subject k.0 r).at t p)
