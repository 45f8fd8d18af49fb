-- ===== src/Tests/ServiceRuns.antt =====
-- The log, the limiter, the ledger, the invitations, and the shared parts.
use gutencode_test.Prelude.{
  ℕ, ◌≡◌, ◌≤◌, refl, ap, ◌∙◌, ◌⊎◌, true, false, arith, min, List, [], ◌∷◌, Text, Text-Eq, ℕ-Eq,
  text_eq, none, some, length, keep, codes, All, ℤ, pos, negsuc, ◌+ℤ◌, ℤ-Eq, if◌then◌else◌, ◌==◌,
}
use gutencode_test.Core.Exec.{ok, err, ◌>>=◌}
use gutencode_test.Core.Table.{get, put, next_id, do_, values}
use gutencode_test.Parts.Digest.Unary.{unary_hash}
use gutencode_test.Parts.WellFormed.{is_well_formed}
use gutencode_test.Parts.WellFormed.Keys.{composite-injective}
use gutencode_test.Domains.AuditLog
use gutencode_test.Domains.AuditLog.{
  EventIn, Event, VerifyOut, Log, is_valid, verify, empty_log, head_id, append, write_event,
  advance,
}
use gutencode_test.Domains.AuditLog.Intact.{is_appended, verify-serve}
use gutencode_test.Domains.AuditLog.Evident.{SameEvidence, tamper_evident, relabel, verify-relabel}
use gutencode_test.Domains.RateLimit.Limit.{allowed_in, counts_against, limit_holds}
use gutencode_test.Domains.Ledger.{Entry, total, post_transaction, must_balance, sum_moved, balance}
use gutencode_test.Domains.Ledger.Books
use gutencode_test.Domains.Ledger.Books.{no_ledger, post_moves}
use gutencode_test.Domains.Billing.{
  Subscription, active, canceled, subscribe, cancel, insert, price, plans,
}
use gutencode_test.Domains.Billing.Priced
use gutencode_test.Domains.Billing.Priced.{
  AllPriced, no_billing, serve-AllPriced, subscription_only_ends,
}
use gutencode_test.Core.Access.{Roles, is_admin}
use gutencode_test.Domains.Users
use gutencode_test.Domains.Users.{User, Users, deactivated}
use gutencode_test.Domains.Users.Handles
use gutencode_test.Domains.Users.Handles.{profile_only_deactivates}
use gutencode_test.Domains.Invitations.{
  Invitation, Invitations, pending, accepted, is_accepted, consume, accept,
}
use gutencode_test.Domains.Invitations.Once
use gutencode_test.Domains.Invitations.Once.{refusal, accept_once}

abbrev alice : Text
alice = b'a' ∷ []

abbrev bob : Text
bob = b'b' ∷ []

abbrev login : EventIn
login = record { actor = alice; action = bob }

abbrev appends : List (EventIn × ℕ)
appends =
    (login, 100)
    ∷ (record { actor = []; action = bob }, 101)
    ∷ (record { actor = 0xD800 ∷ []; action = bob }, 101)
    ∷ (login, 102)
    ∷ []

abbrev log : Log
log = AuditLog.serve unary_hash appends empty_log

log-valid : (verify unary_hash log).valid ≡ true
log-valid = ap (λ (v : VerifyOut). v.valid) (verify-serve unary_hash appends)

relabelled-valid : (verify unary_hash (relabel 7 log)).valid ≡ true
relabelled-valid = ap (λ (v : VerifyOut). v.valid) (verify-relabel unary_hash 7 log) ∙ log-valid

two_events : 1 ≤ head_id log.head
two_events =
    let count : head_id log.head ≡ 2 =
      unfold AuditLog.serve append ◌>>=◌ write_event advance is_well_formed in refl in
    omega (arith, count)

verify-serve_example : verify unary_hash log ≡ record {
  valid = true;
  count = length (keep (λ r. is_appended r.0) appends);
  detail = codes "chain intact";
}
verify-serve_example = verify-serve unary_hash appends

verify-relabel_example : verify unary_hash (relabel 7 log) ≡ verify unary_hash log
verify-relabel_example = verify-relabel unary_hash 7 log

abbrev checks : List (Text × ℕ)
checks = (alice, 60) ∷ (bob, 61) ∷ (alice, 119) ∷ (alice, 100) ∷ (alice, 120) ∷ []

limit_holds_example :
    allowed_in (record { limit = 2; window_less_one = 59 }) alice 1 checks []
    ≡ min 2
        (length (keep (counts_against (record { limit = 2; window_less_one = 59 }) alice 1) checks))
limit_holds_example =
    limit_holds (record { limit = 2; window_less_one = 59 }) alice 1 checks
      (unfold is_well_formed in refl)

abbrev sale : List Entry
sale =
    record { account_id = pos 1; amount = pos 500 }
    ∷ record { account_id = pos 2; amount = negsuc 499 }
    ∷ []

abbrev account : ℤ
account = pos 1

post_moves_example :
    let l = Books.serve (sale ∷ [] ∷ []) no_ledger in
    let l' = (post_transaction sale l).1 in
    All (λ row. total row.1.entries ≡ pos 0) l.txs
    × ((balance account l').0
        ≡ ok (
            if must_balance sale
            then sum_moved account (values l.txs)
              +ℤ total (keep (λ e. e.account_id == account) sale)
            else sum_moved account (values l.txs)))
post_moves_example = post_moves (sale ∷ [] ∷ []) sale account

abbrev invited : Invitation
invited = record { token = alice; email = bob; inviter = bob; status = pending; expires_at = 200 }

abbrev invitations : Invitations
invitations = (alice, invited) ∷ []

abbrev joined : Invitation
joined = record invited { status = accepted }

abbrev later_requests : List (ℕ × Once.Request)
later_requests =
    (160, Once.Request.accept alice)
    ∷ (170, Once.Request.create bob (record { email = alice; ttl = none }) alice)
    ∷ []

first-accepted : (accept alice 150 invitations).0 ≡ ok joined
unfolding accept ◌>>=◌ is_well_formed do_ get consume text_eq
first-accepted = refl

accept_once_example :
    let t' = Once.serve 600 later_requests (accept alice 150 invitations).1 in
    ((old : Invitation) × (get alice invitations ≡ some old)
      × (is_accepted old.status ≡ false)
      × (150 ≤ old.expires_at)
      × (joined ≡ record old { status = accepted }))
    × (accept alice 180 t' ≡ (err (refusal joined.expires_at 180), t'))
accept_once_example =
    accept_once alice 150 600 180 later_requests invitations joined first-accepted
      (tt, ((λ e. ground arith), tt))

composite-injective_example : (alice ≡ alice) × (bob ≡ bob)
composite-injective_example =
    composite-injective alice bob alice bob (ground arith) (ground arith) refl

tamper_evident_example :
    (e : Event) × (e' : Event) × (get 1 log.events ≡ some e)
    × (get 1 (relabel 7 log).events ≡ some e')
    × SameEvidence e e'
tamper_evident_example =
    tamper_evident unary_hash log (relabel 7 log) refl log-valid relabelled-valid 1 (omega arith)
      two_events

abbrev subscribers : List (Text × Priced.Request)
subscribers = (alice, Priced.Request.subscribe (codes "pro")) ∷ (bob, Priced.Request.cancel 1) ∷ []

abbrev pro : Subscription
pro = record { id = 1; owner = alice; plan = codes "pro"; status = active; amount = 2000 }

serve-AllPriced_example : AllPriced (Priced.serve subscribers no_billing)
serve-AllPriced_example = serve-AllPriced subscribers

pro-stored : get 1 (Priced.serve subscribers no_billing).subs ≡ some pro
unfolding Priced.serve Priced.step subscribe cancel ◌>>=◌ insert next_id put get price plans codes
    text_eq
pro-stored = refl

subscription_only_ends_example :
    (now : Subscription) × (get 1
        (Priced.serve
          ((alice, Priced.Request.cancel 1) ∷ [])
          (Priced.serve subscribers no_billing)).subs
      ≡ some now)
    × ((now ≡ pro) ⊎ (now ≡ record pro { status = canceled }))
subscription_only_ends_example =
    subscription_only_ends subscribers ((alice, Priced.Request.cancel 1) ∷ []) 1 pro pro-stored

abbrev alice_profile : User
alice_profile = record { id = 1; handle = alice; display_name = bob; status = Users.active }

abbrev profiles : Users
profiles = record { profiles = (alice, alice_profile) ∷ []; last_id = 1 }

abbrev roles : Roles
roles = (bob, codes "admin" ∷ []) ∷ []

abbrev attempts : List (Text × Handles.Request)
attempts =
    (alice, Handles.Request.create alice alice) ∷ (bob, Handles.Request.deactivate alice) ∷ []

profile_only_deactivates_example :
    (now : User) × (get alice (Handles.serve (is_admin false roles) attempts profiles).profiles
      ≡ some now)
    × ((now ≡ alice_profile) ⊎ (now ≡ record alice_profile { status = deactivated }))
profile_only_deactivates_example =
    profile_only_deactivates (is_admin false roles) attempts alice alice_profile profiles
      (unfold get text_eq in refl)
