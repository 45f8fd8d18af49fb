-- ===== src/Core/ApiKey.antt =====
-- core/store.py: an API key as a bearer. The namespace "api_keys_records", from str(id) to the record,
-- is the API-key domain's; core reads it to identify the key's owner.
use gutencode_test.Prelude.{
  ℕ, Bool, true, false, ◌&&◌, Option, none, some, List, [], ◌∷◌, ◌++◌, Text, codes, Text-Eq, ◌==◌,
  take, partition, if◌then◌else◌, str_ℕ,
}
use gutencode_test.Core.Table.{Table, get}
use gutencode_test.Parts.Digest.{Hash}

pub data KeyStatus : Type 0 where
  active revoked : KeyStatus

pub record ApiKey : Type 0 where
  pub id : ℕ
  pub name : Text
  pub owner : Text
  pub scopes : List Text
  pub status : KeyStatus
  pub created_at : ℕ
  pub secret_hash : Text

abbrev pub is_active : KeyStatus → Bool
is_active active = true
is_active revoked = false

unfoldable pub split_rest : Text → Text × Option Text → Option (Text × Text × Text)
split_rest first (key_id, none) = none
split_rest first (key_id, some secret) = some (first, key_id, secret)

unfoldable pub split_first_of : Text × Option Text → Option (Text × Text × Text)
unfolding partition split_rest
split_first_of (first, none) = none
split_first_of (first, some rest) = split_rest first (partition b'_' rest)

-- token.split("_", 2), if it has three parts.
unfoldable pub split_key : Text → Option (Text × Text × Text)
unfolding split_first_of partition
split_key token = split_first_of (partition b'_' token)

-- f"ak_{id}_{secret}"
unfoldable pub key_text : ℕ → Text → Text
key_text id secret = codes "ak_" ++ (str_ℕ id ++ (b'_' ∷ secret))

abbrev pub is_empty_text : Text → Bool
is_empty_text [] = true
is_empty_text (c ∷ cs) = false

-- The record of an id that is not empty.
unfoldable pub record_of : Text → Table Text ApiKey → Option ApiKey
record_of [] keys = none
record_of (c ∷ cs) keys = get (c ∷ cs) keys

module _ (h : Hash) where
  unfoldable pub owner_if_match : Text → Option ApiKey → Option Text
  owner_if_match secret none = none
  owner_if_match secret (some rec) =
      if is_active rec.status && h.sha256 secret == rec.secret_hash then some rec.owner else none

  unfoldable pub resolve_parts : Option (Text × Text × Text) → Table Text ApiKey → Option Text
  unfolding owner_if_match record_of
  resolve_parts none keys = none
  resolve_parts (some (first, key_id, secret)) keys = owner_if_match secret (record_of key_id keys)

  unfoldable pub api_key_resolve : Text → Table Text ApiKey → Option Text
  unfolding split_key resolve_parts
  api_key_resolve token keys =
      if take 3 token == codes "ak_" then resolve_parts (split_key token) keys else none
