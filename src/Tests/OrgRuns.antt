-- ===== src/Tests/OrgRuns.antt =====
-- An organization of Alice's, and an invitation that Bob has no token for.
use gutencode_test.Prelude.{
  ◌≡◌, ◌≢◌, ◌⊎◌, ◌↔◌, refl, arith, Bool, List, [], ◌∷◌, some, none, Text, Text-Eq, text_eq, codes,
}
use gutencode_test.Core.Table.{get}
use gutencode_test.Core.OrgRole.{Org, OrgStatus, archived}
use gutencode_test.Parts.Digest.Unary.{unary_hash}
use gutencode_test.Parts.WellFormed.{is_well_formed}
use gutencode_test.Parts.WellFormed.Keys.{composite}
use gutencode_test.Domains.Orgs.{Orgs, Call, role_in}
use gutencode_test.Domains.Orgs.Requests.{Request, serve}
use gutencode_test.Domains.Orgs.Owner.{never_ownerless}
use gutencode_test.Domains.Orgs.Invited.{RowOutside}
use gutencode_test.Domains.Orgs.Outsider.{invitation_grants_nothing}

abbrev alice : Text
alice = codes "alice"

abbrev bob : Text
bob = codes "bob"

abbrev acme : Text
acme = codes "acme"

abbrev by : Text → Call
by caller = record {
  caller = caller;
  now = 100;
  mode = codes "deny";
  deny_limit = 50;
  deny_window = 3600;
  invite_ttl = 1000;
}

abbrev org : Org
org = record { id = 1; slug = acme; owner = alice; status = OrgStatus.active }

abbrev orgs : Orgs
orgs = record {
  records = (acme, org) ∷ [];
  members = [];
  outbox = [];
  decisions = [];
  throttles = [];
  last_org = 1;
  last_decision = 0;
}

alice-ne-bob : alice ≢ bob
unfolding codes
alice-ne-bob e = ground arith

bob-ne-alice : bob ≢ alice
unfolding codes
bob-ne-alice e = ground arith

abbrev takeover : List (Call × Request)
takeover =
    (by bob, Request.transfer acme bob)
    ∷ (by bob, Request.create acme)
    ∷ (by alice, Request.archive acme)
    ∷ []

org-found : get acme orgs.records ≡ some org
unfolding get text_eq codes
org-found = refl

never_ownerless_example :
    let after = serve unary_hash takeover orgs in
    ((now : Org) × (get acme after.records ≡ some now)
      × (now.id ≡ org.id)
      × (now.slug ≡ org.slug)
      × (now.owner ≡ org.owner)
      × ((now.status ≡ org.status) ⊎ (now.status ≡ archived)))
    × ((subject : Text)
        → (role_in acme subject after ≡ some (codes "owner")) ↔ (subject ≡ org.owner))
never_ownerless_example =
    never_ownerless unary_hash takeover acme org orgs org-found
      ((λ same. bob-ne-alice), (tt, (tt, tt)))

-- Bob guesses.
abbrev knows : Text → Bool
knows token = text_eq token (codes "guess")

abbrev invited : List (Call × Request)
invited =
    (by alice, Request.add_member acme bob (codes "admin") (codes "token"))
    ∷ (by bob, Request.accept acme (codes "guess"))
    ∷ []

no_row : RowOutside unary_hash knows (get (composite acme bob) orgs.members)
unfolding get
no_row m found = absurd (cc)

invitation_grants_nothing_example : role_in acme bob (serve unary_hash invited orgs) ≡ none
invitation_grants_nothing_example =
    invitation_grants_nothing unary_hash knows acme bob invited org orgs
      (unfold is_well_formed codes in refl) org-found alice-ne-bob no_row
      (
        (λ same self. (unfold text_eq codes in refl)),
        ((λ same self. (unfold text_eq codes in refl)), tt),
      )
