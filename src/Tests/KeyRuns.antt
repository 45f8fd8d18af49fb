-- ===== src/Tests/KeyRuns.antt =====
-- API keys: one that is alive and one that is revoked.
use gutencode_test.Prelude.{
  ◌≡◌, ◌≢◌, refl, arith, true, false, List, [], ◌∷◌, some, none, Text, Text-Eq, text_eq, codes,
  str_ℕ, ==_true, Bool-cases, inl, inr, ◌==◌,
}
use gutencode_test.Core.Exec.{ok}
use gutencode_test.Core.Table.{get}
use gutencode_test.Core.ApiKey.{ApiKey, active, revoked, key_text, api_key_resolve}
use gutencode_test.Parts.Digest.{digest_hex}
use gutencode_test.Parts.Digest.Unary.{unary_hash}
use gutencode_test.Parts.WellFormed.{is_well_formed}
use gutencode_test.Domains.ApiKeys
use gutencode_test.Domains.ApiKeys.{ApiKeys, PublicKey}
use gutencode_test.Domains.ApiKeys.Requests.{Request, serve, IsMinted}
use gutencode_test.Domains.ApiKeys.Issued.{Answers}
use gutencode_test.Domains.ApiKeys.Held.{stays_live}
use gutencode_test.Domains.ApiKeys.Later.{issued_key-Answers}
use gutencode_test.Domains.ApiKeys.Revoked.{key_lifecycle}

abbrev alice : Text
alice = codes "alice"

abbrev bob : Text
bob = codes "bob"

abbrev key : ApiKey
key = record {
  id = 1;
  name = codes "ci";
  owner = alice;
  scopes = codes "read" ∷ [];
  status = active;
  created_at = 7;
  secret_hash = digest_hex unary_hash (codes "s1" ∷ []);
}

abbrev ended : ApiKey
ended = record key { id = 2; status = revoked }

abbrev two_keys : ApiKeys
two_keys = record { keys = (str_ℕ 1, key) ∷ (str_ℕ 2, ended) ∷ []; last_id = 2 }

two_keys-IsMinted : IsMinted two_keys
unfolding get
two_keys-IsMinted k rec found = elim (Bool-cases (str_ℕ 1 == k)) [
  | inl one ↦
      let row : some key ≡ some rec = rw one at found in
      let here : key ≡ rec = cc row in rw (← here) (cc (==_true (str_ℕ 1) k one), omega arith)
  | inr apart ↦ elim (Bool-cases (str_ℕ 2 == k)) [
    | inl two ↦
        let row : some ended ≡ some rec = rw (apart, two) at found in
        let here : ended ≡ rec = cc row in rw (← here) (cc (==_true (str_ℕ 2) k two), omega arith)
    | inr gone ↦ absurd (cc (rw (apart, gone) at found))
  ]
]

-- After the creation Alice revokes key 3; after the rotation Bob tries to rotate and revoke key 1.
abbrev ending : List (Text × Request)
ending = (alice, Request.rotate (codes "x") 1) ∷ (alice, Request.revoke 3) ∷ []

abbrev attempts : List (Text × Request)
attempts = (bob, Request.rotate (codes "x") 1) ∷ (bob, Request.revoke 1) ∷ []

bob-foreign : (bob == alice) ≡ false
unfolding codes text_eq
bob-foreign = refl

issued_key-Answers_example :
    let created =
      ApiKeys.create unary_hash (codes "s2") (codes "cd") (codes "write" ∷ []) alice 9 two_keys in
    let rotated = ApiKeys.rotate unary_hash (codes "s2") 1 alice two_keys in
    ((pk : PublicKey) × (created.0 ≡ ok (pk, key_text 3 (codes "s2"))))
    × Answers unary_hash 3
        (codes "s2")
        (stays_live alice 3 true ending)
        (codes "write" ∷ [])
        alice
        (serve unary_hash ending created.1)
    × ((pk : PublicKey) × (rotated.0 ≡ ok (pk, key_text 1 (codes "s2"))))
    × Answers unary_hash 1
        (codes "s2")
        (stays_live alice 1 true attempts)
        (codes "read" ∷ [])
        alice
        (serve unary_hash attempts rotated.1)
issued_key-Answers_example =
    issued_key-Answers unary_hash (codes "s2") (codes "cd") alice (codes "write" ∷ []) 9 1 key
      two_keys ending attempts (unfold is_well_formed codes in refl) two_keys-IsMinted
      (unfold get text_eq str_ℕ in refl) refl (ground arith, (refl, tt))
      (rw bob-foreign refl, (refl, tt))

-- Alice rotates the revoked key.
abbrev revival : List (Text × Request)
revival = (alice, Request.rotate (codes "x") 2) ∷ []

alice-ne-bob : alice ≢ bob
unfolding codes
alice-ne-bob e = ground arith

key_lifecycle_example :
    (get (str_ℕ 1) (serve unary_hash attempts two_keys).keys ≡ some key)
    × ((secret : Text)
        → ((ApiKeys.verify unary_hash (key_text 2 secret) (serve unary_hash revival two_keys)).0
            ≡ ok (false, []))
          × (api_key_resolve unary_hash (key_text 2 secret) (serve unary_hash revival two_keys).keys
              ≡ none))
key_lifecycle_example =
    key_lifecycle unary_hash attempts revival key ended two_keys two_keys-IsMinted
      (unfold get text_eq str_ℕ in refl) (alice-ne-bob, (alice-ne-bob, tt))
      (unfold get text_eq str_ℕ in refl) refl
