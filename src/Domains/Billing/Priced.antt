-- ===== src/Domains/Billing/Priced.antt =====
-- What every history of requests keeps of a subscription.
use gutencode_test.Prelude.{
  ℕ, ◌+◌, ◌≤◌, ◌≡◌, ◌⊎◌, refl, sym, ap, ◌∙◌, some, List, [], ◌∷◌, Text, Text-Eq, ℕ-Eq, ◌==◌,
  ==_true, ==_refl, Bool-cases, Option-cases, inl, inr, arith,
}
use gutencode_test.Core.Exec.{◌>>=◌}
use gutencode_test.Core.Table.{get, next_id}
use gutencode_test.Core.Table.Laws.{AllAt, AllAt-put, get-put_ne, get-put_self}
use gutencode_test.Domains.Billing
use gutencode_test.Domains.Billing.{
  Subscription, Billing, canceled, is_canceled, price, insert, new_subscription, put_canceled,
}

pub data Request : Type 0 where
  subscribe : Text → Request
  get_subscription : ℕ → Request
  cancel : ℕ → Request

-- Each request comes with its authenticated caller.
unfoldable pub step : Text → Request → Billing → Billing
step caller (Request.subscribe plan) b = (Billing.subscribe plan caller b).1
step caller (Request.get_subscription sub_id) b = (Billing.get_subscription sub_id caller b).1
step caller (Request.cancel sub_id) b = (Billing.cancel sub_id caller b).1

unfoldable pub serve : List (Text × Request) → Billing → Billing
serve [] b = b
serve ((caller, r) ∷ rest) b = serve rest (step caller r b)

-- What a cancellation does: nothing, or its caller's own subscription ends.
cancel_lem :
    (sub_id : ℕ) (caller : Text) (b : Billing)
    → ((Billing.cancel sub_id caller b).1 ≡ b)
      ⊎ ((sub : Subscription) × (get sub_id b.subs ≡ some sub)
          × (sub.owner ≡ caller)
          × ((Billing.cancel sub_id caller b).1 ≡ (put_canceled sub_id sub b).1))
unfolding Billing.cancel ◌>>=◌
cancel_lem sub_id caller b = elim (Option-cases (get sub_id b.subs)) [
  | inl missing ↦ inl (rw missing)
  | inr (sub, held) ↦ elim (Bool-cases (sub.owner == caller)) [
    | inl mine ↦ inr (sub, held, ==_true sub.owner caller mine, rw (held, mine))
    | inr other ↦ inl (rw (held, other))
  ]
]

subscribe_lem :
    (plan caller : Text) (b : Billing)
    → ((Billing.subscribe plan caller b).1 ≡ b)
      ⊎ ((amount : ℕ) × (price plan ≡ some amount)
          × ((Billing.subscribe plan caller b).1
              ≡ (insert (new_subscription caller plan amount) b).1))
unfolding Billing.subscribe ◌>>=◌
subscribe_lem plan caller b = elim (Option-cases (price plan)) [
  | inl unknown ↦ inl (rw unknown)
  | inr (amount, listed) ↦ inr (amount, listed, rw listed)
]

read_lem :
    (sub_id : ℕ) (caller : Text) (b : Billing) → (Billing.get_subscription sub_id caller b).1 ≡ b
unfolding Billing.get_subscription ◌>>=◌
read_lem sub_id caller b = elim (Option-cases (get sub_id b.subs)) [
  | inl missing ↦ rw missing
  | inr (sub, held) ↦ elim (Bool-cases (sub.owner == caller)) [
    | inl mine ↦ rw (held, mine)
    | inr other ↦ rw (held, other)
  ]
]

-- A stored subscription is under its own minted id, at the catalogue's price of its plan.
pub record IsPriced (last sub_id : ℕ) (sub : Subscription) : Type 0 where
  pub keyed : sub.id ≡ sub_id
  pub minted : sub_id ≤ last
  pub priced : price sub.plan ≡ some sub.amount

abbrev pub AllPriced : Billing → Type 0
AllPriced b = AllAt (IsPriced b.last_id) b.subs

step-AllPriced :
    (caller : Text) (r : Request) (b : Billing) → AllPriced b → AllPriced (step caller r b)
unfolding step
step-AllPriced caller (Request.get_subscription sub_id) b p = rw (read_lem sub_id caller b) p
step-AllPriced caller (Request.cancel sub_id) b p = elim (cancel_lem sub_id caller b) [
  | inl same ↦ rw same p
  | inr (sub, held, mine, e) ↦
      let q = p sub_id sub held in
      rw e (
        unfold put_canceled in
        AllAt-put (IsPriced b.last_id) sub_id (record sub { status = canceled }) b.subs
          (record { keyed = q.keyed; minted = q.minted; priced = q.priced }) p)
]
step-AllPriced caller (Request.subscribe plan) b p = elim (subscribe_lem plan caller b) [
  | inl same ↦ rw same p
  | inr (amount, listed, e) ↦ rw e (
      unfold insert next_id in
      AllAt-put (IsPriced (b.last_id + 1)) (b.last_id + 1)
        (new_subscription caller plan amount (b.last_id + 1)) b.subs
        (record { keyed = refl; minted = omega arith; priced = listed })
        (λ k v held.
          let q = p k v held in
          record { keyed = q.keyed; minted = omega (arith, q.minted); priced = q.priced }))
]

serve-AllPriced_from :
    (requests : List (Text × Request)) (b : Billing) → AllPriced b → AllPriced (serve requests b)
unfolding serve
serve-AllPriced_from [] b p = p
serve-AllPriced_from ((caller, r) ∷ rest) b p =
    serve-AllPriced_from rest (step caller r b) (step-AllPriced caller r b p)

abbrev pub no_billing : Billing
no_billing = record { subs = []; last_id = 0 }

-- After any history of requests of any callers, every stored subscription is under its own minted id
-- and its amount is the catalogue's price of its plan.
pub serve-AllPriced : (requests : List (Text × Request)) → AllPriced (serve requests no_billing)
serve-AllPriced requests =
    serve-AllPriced_from requests no_billing (λ k v held. absurd (unfold get in cc held))

-- What may have become of a subscription.
abbrev pub OnlyEnds : ℕ → Subscription → Billing → Type 0
OnlyEnds sub_id sub b =
    (sub_id ≤ b.last_id)
    × (now : Subscription) × (get sub_id b.subs ≡ some now)
    × ((now ≡ sub) ⊎ (now ≡ record sub { status = canceled }))

ended : Subscription → Subscription
ended sub = record sub { status = canceled }

ended-same :
    (sub now : Subscription)
    → (now ≡ sub) ⊎ (now ≡ record sub { status = canceled })
    → ended now ≡ ended sub
ended-same sub now (inl same) = ap ended same
ended-same sub now (inr over) = ap ended over ∙ (unfold ended in refl)

step-OnlyEnds :
    (sub_id : ℕ) (sub : Subscription) (caller : Text) (r : Request) (b : Billing)
    → OnlyEnds sub_id sub b
    → OnlyEnds sub_id sub (step caller r b)
unfolding step
step-OnlyEnds sub_id sub caller (Request.get_subscription k) b s = rw (read_lem k caller b) s
step-OnlyEnds sub_id sub caller (Request.subscribe plan) b (minted, now, held, became) =
    elim (subscribe_lem plan caller b) [
      | inl same ↦ rw same (minted, now, held, became)
      | inr (amount, listed, e) ↦ rw e (
          unfold insert next_id in
          (
            omega (arith, minted),
            now,
            get-put_ne sub_id (b.last_id + 1) _ b.subs (λ p. omega (arith, p, minted)) ∙ held,
            became,
          ))
    ]
step-OnlyEnds sub_id sub caller (Request.cancel k) b (minted, now, held, became) =
    elim (cancel_lem k caller b) [
      | inl same ↦ rw same (minted, now, held, became)
      | inr (old, was, mine, e) ↦ rw e (elim (Bool-cases (k == sub_id)) [
        | inr other ↦
            unfold put_canceled in
            (
              minted,
              now,
              get-put_ne sub_id k _ b.subs (λ p. cc (rw (p, ==_refl sub_id) at other)) ∙ held,
              became,
            )
        | inl same ↦
            let here = ==_true k sub_id same in
            let as_now : some old ≡ some now = sym (rw here at was) ∙ held in
            let row : old ≡ now = cc as_now in
            unfold put_canceled in
            (
              minted,
              record old { status = canceled },
              rw here (get-put_self sub_id (record old { status = canceled }) b.subs),
              inr (unfold ended in (ap ended row ∙ ended-same sub now became)),
            )
      ])
    ]

serve-OnlyEnds_from :
    (sub_id : ℕ) (sub : Subscription) (requests : List (Text × Request)) (b : Billing)
    → OnlyEnds sub_id sub b
    → OnlyEnds sub_id sub (serve requests b)
unfolding serve
serve-OnlyEnds_from sub_id sub [] b s = s
serve-OnlyEnds_from sub_id sub ((caller, r) ∷ rest) b s =
    serve-OnlyEnds_from sub_id sub rest (step caller r b) (step-OnlyEnds sub_id sub caller r b s)

-- A subscription that a history has stored is, after any later requests of any callers, either as it
-- was or the same one canceled: its id, owner, plan and amount never change, and a canceled one never
-- becomes active again.
pub subscription_only_ends :
    (before later : List (Text × Request)) (sub_id : ℕ) (sub : Subscription)
    → get sub_id (serve before no_billing).subs ≡ some sub
    → (now : Subscription) × (get sub_id (serve later (serve before no_billing)).subs ≡ some now)
      × ((now ≡ sub) ⊎ (now ≡ record sub { status = canceled }))
subscription_only_ends before later sub_id sub held =
    let b = serve before no_billing in
    let minted = (serve-AllPriced before sub_id sub held).minted in
    let (still, now, found, became) =
      serve-OnlyEnds_from sub_id sub later b (minted, sub, held, inl refl) in
    (now, found, became)
