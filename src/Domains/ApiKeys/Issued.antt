-- ===== src/Domains/ApiKeys/Issued.antt =====
-- What the text of a key comes to, by the record under its id.
use gutencode_test.Prelude.{
  ℕ, ◌≡◌, refl, sym, ap, ◌∙◌, Bool, true, false, ◌&&◌, none, some, List, [], ◌∷◌, ◌++◌, Text, codes,
  Text-Eq, ◌==◌, ==_true, ==_refl, ==_false, str_ℕ, str_ℕ-cons, text_eq, str_ℕ-Digits, Digits-Free,
  partition, partition-append, arith, Bool-cases, inl, inr, if◌then◌else◌, ltb, length,
}
use gutencode_test.Core.Exec.{ok, atomically, ◌>>=◌}
use gutencode_test.Core.Table.{Table, get}
use gutencode_test.Core.ApiKey.{
  ApiKey, is_active, split_key, split_first_of, split_rest, key_text, record_of, api_key_resolve,
  resolve_parts, owner_if_match,
}
use gutencode_test.Parts.Digest.{Hash, digest_hex, join_colon}
use gutencode_test.Domains.ApiKeys
use gutencode_test.Domains.ApiKeys.{
  ApiKeys, PublicKey, own, load, put_key, issue, mint_key, revoke_write, public, verify_parts,
  verdict,
}

partition-key :
    (id : ℕ) (secret : Text)
    → partition b'_' (key_text id secret) ≡ (codes "ak", some (str_ℕ id ++ (b'_' ∷ secret)))
unfolding key_text codes
partition-key id secret =
    partition-append b'_' (codes "ak") (str_ℕ id ++ (b'_' ∷ secret)) (refl, (refl, tt))

-- The secret may hold underscores: only the first two separate.
pub split_key-key_text :
    (id : ℕ) (secret : Text) → split_key (key_text id secret) ≡ some (codes "ak", str_ℕ id, secret)
unfolding split_key split_first_of split_rest
split_key-key_text id secret = rw (
  partition-key id secret,
  partition-append b'_' (str_ℕ id) secret (Digits-Free b'_' (str_ℕ id) refl (str_ℕ-Digits id)),
)

record_of-str :
    (id : ℕ) (keys : Table Text ApiKey) → record_of (str_ℕ id) keys ≡ get (str_ℕ id) keys
record_of-str id keys =
    let (c, cs, e) = str_ℕ-cons id in
    let read : record_of (c ∷ cs) keys ≡ get (c ∷ cs) keys = unfold record_of in refl in
    ap (λ k. record_of k keys) e ∙ read ∙ ap (λ k. get k keys) (sym e)

module _ (h : Hash) where
  -- What a key text of an id comes to depends on the id's record alone.
  pub verify-record :
      (id : ℕ) (secret : Text) (a : ApiKeys)
      → (ApiKeys.verify h (key_text id secret) a).0 ≡ ok (verdict h secret (get (str_ℕ id) a.keys))
  unfolding ApiKeys.verify ◌>>=◌
  verify-record id secret a =
      let there : ltb 0 (length (key_text id secret)) ≡ true =
        unfold key_text codes in ground arith in
      rw (there, split_key-key_text id secret)
        (unfold verify_parts codes text_eq in
          ap (λ o. ok (verdict h secret o)) (record_of-str id a.keys))

  pub resolve-record :
      (id : ℕ) (secret : Text) (keys : Table Text ApiKey)
      → api_key_resolve h (key_text id secret) keys ≡ owner_if_match h secret (get (str_ℕ id) keys)
  unfolding api_key_resolve
  resolve-record id secret keys = rw (split_key-key_text id secret) (
      unfold resolve_parts key_text codes text_eq in
      ap (owner_if_match h secret) (record_of-str id keys))

  digest-eq :
      (other secret : Text)
      → (digest_hex h (other ∷ []) == digest_hex h (secret ∷ [])) ≡ (other == secret)
  unfolding digest_hex join_colon
  digest-eq other secret = elim (Bool-cases (other == secret)) [
    | inl same ↦ rw same (rw (==_true other secret same) (==_refl (h.sha256 secret)))
    | inr apart ↦ rw apart (
        ==_false (h.sha256 other) (h.sha256 secret)
          (λ e. cc (rw (h.injective other secret e, ==_refl secret) at apart)))
  ]

  sha-eq :
      (other secret : Text) → (h.sha256 other == digest_hex h (secret ∷ [])) ≡ (other == secret)
  unfolding digest_hex join_colon
  sha-eq other secret = digest-eq other secret

  -- Of all key texts of the id, this secret's is valid, if the key is active, and no other one is; to
  -- the route that verifies, and to the bearer check.
  abbrev pub Answers : ℕ → Text → Bool → List Text → Text → ApiKeys → Type 0
  Answers id secret is_live scopes owner a =
      (other : Text)
      → ((ApiKeys.verify h (key_text id other) a).0
          ≡ ok (if is_live && other == secret then (true, scopes) else (false, [])))
        × (api_key_resolve h (key_text id other) a.keys
            ≡ (if is_live && other == secret then some owner else none))

  pub record-Answers :
      (rec : ApiKey) (secret : Text) (a : ApiKeys)
      → get (str_ℕ rec.id) a.keys ≡ some rec
      → rec.secret_hash ≡ digest_hex h (secret ∷ [])
      → Answers rec.id secret (is_active rec.status) rec.scopes rec.owner a
  record-Answers rec secret a found hashed other = (
    verify-record rec.id other a ∙ rw found (unfold verdict in rw (hashed, digest-eq other secret)),
    resolve-record rec.id other a.keys
        ∙ rw found (unfold owner_if_match in rw (hashed, sha-eq other secret)),
  )

pub rotate_state :
    (h : Hash) (secret : Text) (key_id : ℕ) (owner : Text) (rec : ApiKey) (a : ApiKeys)
    → get (str_ℕ key_id) a.keys ≡ some rec
    → rec.owner ≡ owner
    → ApiKeys.rotate h secret key_id owner a ≡ atomically (issue h secret rec) a
unfolding ApiKeys.rotate load own ◌>>=◌
rotate_state h secret key_id owner rec a found mine =
    let same : (rec.owner == owner) ≡ true = rw mine (==_refl owner) in rw (found, own) (rw same)
