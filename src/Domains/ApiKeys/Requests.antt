-- ===== src/Domains/ApiKeys/Requests.antt =====
-- The requests of domains/api_keys.py, served one after the other, and what each does to the records.
use gutencode_test.Prelude.{
  ℕ, ◌+◌, ◌≤◌, ◌≡◌, ◌⊎◌, refl, sym, ap, ◌∙◌, ◌&&◌, some, List, [], ◌∷◌, Text, Text-Eq, ◌==◌,
  ==_true, str_ℕ, str_ℕ-injective, arith, Bool-cases, Option-cases, inl, inr, all, ltb, length,
}
use gutencode_test.Core.Exec.{Exec, atomically, ◌>>=◌}
use gutencode_test.Core.Exec.Keeps.{Keeps, keeps_rules}
use gutencode_test.Core.Table.{get, put, next_id}
use gutencode_test.Core.Table.Laws.{AllAt, AllAt-put}
use gutencode_test.Core.ApiKey.{ApiKey, revoked}
use gutencode_test.Parts.Digest.{Hash, digest_hex}
use gutencode_test.Parts.WellFormed.{is_well_formed}
use gutencode_test.Parts.Paginate.Reply.{reply_page}
use gutencode_test.Domains.ApiKeys
use gutencode_test.Domains.ApiKeys.{ApiKeys, own, load, put_key, issue, mint_key, revoke_write}

pub data Request : Type 0 where
  create : Text → Text → List Text → ℕ → Request
  get_key : ℕ → Request
  list_keys : Text → Text → Request
  verify : Text → Request
  rotate : Text → ℕ → Request
  revoke : ℕ → Request

module _ (h : Hash) where
  unfoldable pub step : Text → Request → ApiKeys → ApiKeys
  step caller (create secret name scopes now) a =
      (ApiKeys.create h secret name scopes caller now a).1
  step caller (get_key key_id) a = (ApiKeys.get_key key_id caller a).1
  step caller (list_keys limit cursor) a = (ApiKeys.list_keys caller limit cursor a).1
  step caller (verify key) a = (ApiKeys.verify h key a).1
  step caller (rotate secret key_id) a = (ApiKeys.rotate h secret key_id caller a).1
  step caller (revoke key_id) a = (ApiKeys.revoke key_id caller a).1

  unfoldable pub serve : List (Text × Request) → ApiKeys → ApiKeys
  serve [] a = a
  serve ((caller, request) ∷ rest) a = serve rest (step caller request a)

-- Every record stands under its own id, which the counter has minted.
abbrev pub IsMinted : ApiKeys → Type 0
IsMinted a = AllAt (λ k (rec : ApiKey). (k ≡ str_ℕ rec.id) × (rec.id ≤ a.last_id)) a.keys

-- The same key, perhaps with another secret, perhaps revoked.
pub record Succeeds (old new : ApiKey) : Type 0 where
  pub same_id : new.id ≡ old.id
  pub same_owner : new.owner ≡ old.owner
  pub same_scopes : new.scopes ≡ old.scopes
  pub same_birth : new.created_at ≡ old.created_at
  pub stays_revoked : old.status ≡ revoked → new.status ≡ revoked

-- What a request can do.
pub data Change (caller : Text) (a a' : ApiKeys) : Type 0 where
  kept : a' ≡ a → Change caller a a'
  minted :
      (rec : ApiKey)
      → rec.id ≡ a.last_id + 1
      → a' ≡ record { keys = put (str_ℕ rec.id) rec a.keys; last_id = a.last_id + 1 }
      → Change caller a a'
  replaced :
      (old new : ApiKey)
      → get (str_ℕ old.id) a.keys ≡ some old
      → old.owner ≡ caller
      → Succeeds old new
      → a' ≡ record a { keys = put (str_ℕ old.id) new a.keys }
      → Change caller a a'

-- A load finds a record of the caller, or the route ends as it began.
pub load_then {ℓ} :
    {A : Type ℓ} (key_id : ℕ) (caller : Text) (next : ApiKey → Exec ApiKeys A) (a : ApiKeys)
    → (((load key_id caller >>= next) a).1 ≡ a)
      ⊎ ((rec : ApiKey) × (get (str_ℕ key_id) a.keys ≡ some rec)
          × (rec.owner ≡ caller)
          × (((load key_id caller >>= next) a) ≡ next rec a))
unfolding load ◌>>=◌ own
load_then key_id caller next a = elim (Option-cases (get (str_ℕ key_id) a.keys)) [
  | inl missing ↦ inl (rw (missing, own))
  | inr (rec, found) ↦ elim (Bool-cases (rec.owner == caller)) [
    | inr foreign ↦ inl (rw (found, own) (rw foreign))
    | inl mine ↦ inr (rec, found, ==_true rec.owner caller mine, rw (found, own) (rw mine))
  ]
]

pub own_key :
    (key_id : ℕ) (rec : ApiKey) (a : ApiKeys)
    → IsMinted a
    → get (str_ℕ key_id) a.keys ≡ some rec
    → key_id ≡ rec.id
own_key key_id rec a m found = str_ℕ-injective key_id rec.id (m (str_ℕ key_id) rec found).0

create_lem :
    (h : Hash) (secret name : Text) (scopes : List Text) (caller : Text) (now : ℕ) (a : ApiKeys)
    → Change caller a (ApiKeys.create h secret name scopes caller now a).1
unfolding ApiKeys.create mint_key issue put_key next_id ◌>>=◌
create_lem h secret name scopes caller now a =
    elim (Bool-cases (is_well_formed name && all is_well_formed scopes && ltb 0 (length scopes))) [
      | inr bad ↦ rw bad (kept refl)
      | inl good ↦ rw good (minted _ refl refl)
    ]

Succeeds-self : (rec : ApiKey) (hash : Text) → Succeeds rec (record rec { secret_hash = hash })
Succeeds-self rec hash = record {
  same_id = refl;
  same_owner = refl;
  same_scopes = refl;
  same_birth = refl;
  stays_revoked = λ e. e;
}

revoked-Succeeds : (rec : ApiKey) → Succeeds rec (record rec { status = revoked })
revoked-Succeeds rec = record {
  same_id = refl;
  same_owner = refl;
  same_scopes = refl;
  same_birth = refl;
  stays_revoked = λ _. refl;
}

rotate_lem :
    (h : Hash) (secret : Text) (key_id : ℕ) (caller : Text) (a : ApiKeys)
    → IsMinted a
    → Change caller a (ApiKeys.rotate h secret key_id caller a).1
unfolding ApiKeys.rotate
rotate_lem h secret key_id caller a m =
    elim (load_then key_id caller (λ rec. atomically (issue h secret rec)) a) [
      | inl same ↦ kept same
      | inr (rec, found, mine, e) ↦
          let here = own_key key_id rec a m found in
          let hash = digest_hex h (secret ∷ []) in
          replaced rec (record rec { secret_hash = hash }) (rw here at found) mine
            (Succeeds-self rec hash) (ap (λ r. r.1) e ∙ (unfold atomically issue put_key in refl))
    ]

revoke_lem :
    (key_id : ℕ) (caller : Text) (a : ApiKeys)
    → IsMinted a
    → Change caller a (ApiKeys.revoke key_id caller a).1
unfolding ApiKeys.revoke
revoke_lem key_id caller a m =
    elim (load_then key_id caller (λ rec. atomically (revoke_write key_id rec)) a) [
      | inl same ↦ kept same
      | inr (rec, found, mine, e) ↦
          let here = own_key key_id rec a m found in
          replaced rec (record rec { status = revoked }) (rw here at found) mine
            (revoked-Succeeds rec)
            (ap (λ r. r.1) e
              ∙ (unfold atomically revoke_write in
                  ap
                    (λ k. record a {
                      keys = put (str_ℕ k) (record rec { status = revoked }) a.keys;
                    })
                    here))
    ]

load-Reads : (key_id : ℕ) (caller : Text) (a : ApiKeys) → Keeps (λ s. s ≡ a) (load key_id caller)
unfolding load
load-Reads key_id caller a = search keeps_rules

pub get_key-Reads :
    (key_id : ℕ) (caller : Text) (a : ApiKeys) → Keeps (λ s. s ≡ a) (ApiKeys.get_key key_id caller)
unfolding ApiKeys.get_key
get_key-Reads key_id caller a = search (load-Reads, keeps_rules)

pub list_keys-Reads :
    (caller limit cursor : Text) (a : ApiKeys)
    → Keeps (λ s. s ≡ a) (ApiKeys.list_keys caller limit cursor)
unfolding ApiKeys.list_keys reply_page
list_keys-Reads caller limit cursor a = search keeps_rules

pub verify-Reads : (h : Hash) (key : Text) (a : ApiKeys) → Keeps (λ s. s ≡ a) (ApiKeys.verify h key)
unfolding ApiKeys.verify
verify-Reads h key a = search keeps_rules

pub step-Change :
    (h : Hash) (caller : Text) (request : Request) (a : ApiKeys)
    → IsMinted a
    → Change caller a (step h caller request a)
unfolding step
step-Change h caller (create secret name scopes now) a m =
    create_lem h secret name scopes caller now a
step-Change h caller (get_key key_id) a m = kept ((get_key-Reads key_id caller a).at a refl)
step-Change h caller (list_keys limit cursor) a m =
    kept ((list_keys-Reads caller limit cursor a).at a refl)
step-Change h caller (verify key) a m = kept ((verify-Reads h key a).at a refl)
step-Change h caller (rotate secret key_id) a m = rotate_lem h secret key_id caller a m
step-Change h caller (revoke key_id) a m = revoke_lem key_id caller a m

pub Change-IsMinted :
    {caller : Text} {a a' : ApiKeys} → Change caller a a' → IsMinted a → IsMinted a'
Change-IsMinted {caller} {a} {a'} (kept e) m = rw e m
Change-IsMinted {caller} {a} {a'} (minted rec fresh e) m = rw e (
    AllAt-put _ (str_ℕ rec.id) rec a.keys (refl, omega (arith, fresh))
      (λ k old found. let was = m k old found in (was.0, omega (arith, was.1))))
Change-IsMinted {caller} {a} {a'} (replaced old new found mine next e) m = rw e (
    let was = m (str_ℕ old.id) old found in
    AllAt-put _ (str_ℕ old.id) new a.keys
      (ap str_ℕ (sym next.same_id), omega (arith, was.1, next.same_id)) m)
