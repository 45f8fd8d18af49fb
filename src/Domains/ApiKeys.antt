-- ===== src/Domains/ApiKeys.antt =====
-- domains/api_keys.py: keys that their owners issue, rotate and revoke. The state is the namespace
-- "api_keys_records", from str(id) to the record (Core.ApiKey), and the counter "api_keys_key". A fresh
-- secret comes as an argument. The record's prefix, ak_<id>, is derived from its id. An id of a path that
-- is negative names no record, so ids are natural numbers here.
pub mod Requests
pub mod Issued
pub mod Held
pub mod Later
pub mod Revoked
use gutencode_test.Prelude.{
  ℕ, Bool, true, false, ◌&&◌, Option, none, some, List, [], ◌∷◌, ◌++◌, Text, codes, Text-Eq, ◌==◌,
  ltb, length, all, map, keep, if◌then◌else◌, str_ℕ, sort_by,
}
use gutencode_test.Core.Problem.{not_found, invalid}
use gutencode_test.Core.Exec.{Exec, pure, gets, atomically, or_raise, require, ◌>>=◌, ◌>>◌}
use gutencode_test.Core.Table.{Table, get, put, values, next_id}
use gutencode_test.Core.ApiKey.{
  ApiKey, KeyStatus, active, revoked, is_active, split_key, key_text, record_of,
}
use gutencode_test.Parts.Digest.{Hash, digest_hex}
use gutencode_test.Parts.WellFormed.{is_well_formed}
use gutencode_test.Parts.Paginate.Reply.{reply_page}

pub record ApiKeys : Type 0 where
  pub keys : Table Text ApiKey
  pub last_id : ℕ

-- _public: neither the owner nor the hash.
pub record PublicKey : Type 0 where
  pub id : ℕ
  pub name : Text
  pub scopes : List Text
  pub prefix : Text
  pub status : KeyStatus
  pub created_at : ℕ

unfoldable pub public : ApiKey → PublicKey
public rec = record {
  id = rec.id;
  name = rec.name;
  scopes = rec.scopes;
  prefix = codes "ak_" ++ str_ℕ rec.id;
  status = rec.status;
  created_at = rec.created_at;
}

-- A cross-owner id reads as a missing one.
unfoldable pub own : Text → Option ApiKey → Option ApiKey
own owner none = none
own owner (some rec) = if rec.owner == owner then some rec else none

unfoldable pub load : ℕ → Text → Exec ApiKeys ApiKey
load key_id owner = do
  found ← gets (λ (a : ApiKeys). get (str_ℕ key_id) a.keys)
  or_raise (own owner found) (not_found (codes "api key"))

unfoldable pub get_key : ℕ → Text → Exec ApiKeys PublicKey
get_key key_id owner = do rec ← load key_id owner; pure (public rec)

unfoldable pub list_keys : Text → Text → Text → Exec ApiKeys (List PublicKey × Option Text)
list_keys owner limit cursor = do
  rows ← gets (λ (a : ApiKeys). sort_by (λ r. r.id) (values a.keys))
  reply_page (map public (keep (λ r. r.owner == owner) rows)) cursor limit

unfoldable pub put_key : ApiKey → ApiKeys → ApiKeys
put_key rec a = record a { keys = put (str_ℕ rec.id) rec a.keys }

unfoldable pub revoke_write : ℕ → ApiKey → ApiKeys → PublicKey × ApiKeys
revoke_write key_id rec a =
    let ended = record rec { status = revoked } in
    (public ended, record a { keys = put (str_ℕ key_id) ended a.keys })

unfoldable pub revoke : ℕ → Text → Exec ApiKeys PublicKey
revoke key_id owner = do rec ← load key_id owner; atomically (revoke_write key_id rec)

module _ (h : Hash) where
  -- _issue: the record with the fresh secret's hash, and the key that is shown once.
  unfoldable pub issue : Text → ApiKey → ApiKeys → (PublicKey × Text) × ApiKeys
  issue secret rec a =
      let fresh = record rec { secret_hash = digest_hex h (secret ∷ []) } in
      ((public fresh, key_text rec.id secret), put_key fresh a)

  unfoldable pub mint_key :
      Text → Text → Text → List Text → ℕ → ApiKeys → (PublicKey × Text) × ApiKeys
  mint_key secret name owner scopes now a =
      let (kid, last) = next_id a.last_id in
      let rec : ApiKey = record {
        id = kid;
        name = name;
        owner = owner;
        scopes = scopes;
        status = active;
        created_at = now;
        secret_hash = [];
      } in
      issue secret rec (record a { last_id = last })

  unfoldable pub create : Text → Text → List Text → Text → ℕ → Exec ApiKeys (PublicKey × Text)
  create secret name scopes owner now = do
    require (is_well_formed name && all is_well_formed scopes && ltb 0 (length scopes))
        (invalid (codes "invalid body"))
    atomically (mint_key secret name owner scopes now)

  unfoldable pub rotate : Text → ℕ → Text → Exec ApiKeys (PublicKey × Text)
  rotate secret key_id owner = do rec ← load key_id owner; atomically (issue secret rec)

  -- The reply {valid, scopes}: the scopes of a valid key only.
  unfoldable pub verdict : Text → Option ApiKey → Bool × List Text
  verdict secret none = (false, [])
  verdict secret (some rec) =
      if is_active rec.status && digest_hex h (secret ∷ []) == rec.secret_hash
      then (true, rec.scopes)
      else (false, [])

  -- Three parts of which the first is "ak"; else the id is empty, and no record is read.
  unfoldable pub verify_parts : Option (Text × Text × Text) → Table Text ApiKey → Bool × List Text
  verify_parts none keys = verdict [] none
  verify_parts (some (first, key_id, secret)) keys =
      if first == codes "ak" then verdict secret (record_of key_id keys) else verdict [] none

  unfoldable pub verify : Text → Exec ApiKeys (Bool × List Text)
  verify key = do
    require (ltb 0 (length key)) (invalid (codes "invalid body"))
    gets (λ (a : ApiKeys). verify_parts (split_key key) a.keys)
