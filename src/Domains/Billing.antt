-- ===== src/Domains/Billing.antt =====
-- domains/billing.py: subscriptions at the catalogue's prices. The state is the namespace
-- "billing_subs", keyed by the subscription's id (`str(id)` is one to one), and the counter
-- "billing_sub".
pub mod Priced
use gutencode_test.Prelude.{
  ℕ, Bool, true, false, Option, none, some, List, [], ◌∷◌, Text, codes, Text-Eq, ℕ-Eq, ◌==◌,
  if◌then◌else◌,
}
use gutencode_test.Core.Problem.{not_found, invalid}
use gutencode_test.Core.Exec.{Exec, pure, gets, atomically, or_raise, require, ◌>>=◌, ◌>>◌}
use gutencode_test.Core.Table.{Table, get, put, next_id}

pub data Status : Type 0 where
  active canceled : Status

abbrev pub is_canceled : Status → Bool
is_canceled active = false
is_canceled canceled = true

pub record Subscription : Type 0 where
  pub id : ℕ
  pub owner : Text
  pub plan : Text
  pub status : Status
  pub amount : ℕ

pub record Billing : Type 0 where
  pub subs : Table ℕ Subscription
  pub last_id : ℕ

-- The catalogue, and the price of a plan that is in it.
unfoldable pub plans : Table Text ℕ
unfolding codes
plans = (codes "free", 0) ∷ (codes "pro", 2000) ∷ (codes "enterprise", 10000) ∷ []

unfoldable pub price : Text → Option ℕ
unfolding plans get
price plan = get plan plans

-- The next id, and the whole record in one write.
unfoldable pub insert : (ℕ → Subscription) → Billing → Subscription × Billing
insert make b =
    let (sid, last) = next_id b.last_id in
    let sub = make sid in (sub, record { subs = put sid sub b.subs; last_id = last })

-- The record of a new subscription: the owner is the caller, the amount is the catalogue's.
abbrev pub new_subscription : Text → Text → ℕ → ℕ → Subscription
new_subscription owner plan amount sid = record {
  id = sid;
  owner = owner;
  plan = plan;
  status = active;
  amount = amount;
}

unfoldable pub subscribe : Text → Text → Exec Billing Subscription
subscribe plan owner = do
  amount ← or_raise (price plan) (invalid (codes "unknown plan"))
  atomically (insert (new_subscription owner plan amount))

-- Another owner's subscription is not found.
unfoldable pub get_subscription : ℕ → Text → Exec Billing Subscription
get_subscription sub_id owner = do
  found ← gets (λ (b : Billing). get sub_id b.subs)
  sub ← or_raise found (not_found (codes "subscription"))
  require (sub.owner == owner) (not_found (codes "subscription"))
  pure sub

-- The put of the terminal value, which is returned too.
unfoldable pub put_canceled : ℕ → Subscription → Billing → Subscription × Billing
put_canceled sub_id sub b =
    let ended = record sub { status = canceled } in
    (ended, record b { subs = put sub_id ended b.subs })

unfoldable pub cancel : ℕ → Text → Exec Billing Subscription
cancel sub_id owner = do
  found ← gets (λ (b : Billing). get sub_id b.subs)
  sub ← or_raise found (not_found (codes "subscription"))
  require (sub.owner == owner) (not_found (codes "subscription"))
  atomically (put_canceled sub_id sub)
