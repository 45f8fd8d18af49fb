-- ===== src/Domains/ApiKeys/Later.antt =====
-- A key from its creation or its rotation on, through any later requests.
use gutencode_test.Prelude.{
  ℕ, ◌+◌, ◌≡◌, refl, true, false, ◌&&◌, some, List, [], ◌∷◌, Text, Text-Eq, str_ℕ, all, ltb, length,
  All, ℕ-Eq,
}
use gutencode_test.Core.Exec.{ok, atomically, ◌>>=◌}
use gutencode_test.Core.Table.{get, next_id}
use gutencode_test.Core.Table.Laws.{get-put_self}
use gutencode_test.Core.ApiKey.{ApiKey, is_active, key_text}
use gutencode_test.Parts.Digest.{Hash, digest_hex}
use gutencode_test.Parts.WellFormed.{is_well_formed}
use gutencode_test.Domains.ApiKeys
use gutencode_test.Domains.ApiKeys.{
  ApiKeys, PublicKey, own, load, put_key, issue, mint_key, revoke_write, public, verify_parts,
  verdict,
}
use gutencode_test.Domains.ApiKeys.Requests.{
  Request, create, rotate, step, serve, IsMinted, own_key, step-Change, Change-IsMinted,
}
use gutencode_test.Domains.ApiKeys.Issued.{Answers, rotate_state}
use gutencode_test.Domains.ApiKeys.Held.{is_rotation, stays_live, Holds, serve-Holds, Holds-Answers}

create_state :
    (h : Hash) (secret name owner : Text) (scopes : List Text) (now : ℕ) (a : ApiKeys)
    → (is_well_formed name && all is_well_formed scopes && ltb 0 (length scopes)) ≡ true
    → ApiKeys.create h secret name scopes owner now a
      ≡ atomically (mint_key h secret name owner scopes now) a
unfolding ApiKeys.create ◌>>=◌
create_state h secret name owner scopes now a good = rw good

mint_key-Holds :
    (h : Hash) (secret name owner : Text) (scopes : List Text) (now : ℕ) (a : ApiKeys)
    → Holds h
        (a.last_id + 1)
        owner
        (digest_hex h (secret ∷ []))
        scopes
        true
        (mint_key h secret name owner scopes now a).1
unfolding mint_key issue put_key next_id
mint_key-Holds h secret name owner scopes now a = (
  _,
  get-put_self (str_ℕ (a.last_id + 1)) _ a.keys,
  record {
    same_id = refl;
    same_owner = refl;
    same_hash = refl;
    same_scopes = refl;
    same_status = refl;
  },
)

issue-Holds :
    (h : Hash) (secret : Text) (rec : ApiKey) (a : ApiKeys)
    → Holds h rec.id rec.owner
        (digest_hex h (secret ∷ []))
        rec.scopes
        (is_active rec.status)
        (issue h secret rec a).1
unfolding issue put_key
issue-Holds h secret rec a = (
  _,
  get-put_self (str_ℕ rec.id) (record rec { secret_hash = digest_hex h (secret ∷ []) }) a.keys,
  record {
    same_id = refl;
    same_owner = refl;
    same_hash = refl;
    same_scopes = refl;
    same_status = refl;
  },
)

-- The requests hold no rotation of the key by its owner.
abbrev pub IsUnrotated : Text → ℕ → List (Text × Request) → Type 0
IsUnrotated owner id history = All (λ call. is_rotation owner id call ≡ false) history

-- Where every stored record is under its own id and no id is above the counter: a valid creation replies
-- the text ak_<id>_<secret> under the next id, and a rotation by the owner of a stored key replies the
-- same text with the fresh secret. After any later requests of any callers in which the owner does not
-- rotate the key (again), of all texts with that id this one alone is valid, with the key's scopes, and
-- authenticates a bearer as the owner, if the key was active and the owner has not revoked it since;
-- else no text with that id is valid or authenticates a bearer.
pub issued_key-Answers :
    (h : Hash) (secret name owner : Text) (scopes : List Text) (now key_id : ℕ) (rec : ApiKey)
    (a : ApiKeys) (later later' : List (Text × Request))
    → (is_well_formed name && all is_well_formed scopes && ltb 0 (length scopes)) ≡ true
    → IsMinted a
    → get (str_ℕ key_id) a.keys ≡ some rec
    → rec.owner ≡ owner
    → IsUnrotated owner (a.last_id + 1) later
    → IsUnrotated owner key_id later'
    → let created = ApiKeys.create h secret name scopes owner now a in
      let rotated = ApiKeys.rotate h secret key_id owner a in
      ((pk : PublicKey) × (created.0 ≡ ok (pk, key_text (a.last_id + 1) secret)))
      × Answers h
          (a.last_id + 1)
          secret
          (stays_live owner (a.last_id + 1) true later)
          scopes
          owner
          (serve h later created.1)
      × ((pk : PublicKey) × (rotated.0 ≡ ok (pk, key_text key_id secret)))
      × Answers h key_id secret
          (stays_live owner key_id (is_active rec.status) later')
          rec.scopes
          owner
          (serve h later' rotated.1)
issued_key-Answers h secret name owner scopes now key_id rec a later later' good m found mine
      unrotated unrotated' =
    let here = own_key key_id rec a m found in
    let hash = digest_hex h (secret ∷ []) in
    let created = create_state h secret name owner scopes now a good in
    let rotated = rotate_state h secret key_id owner rec a found mine in
    let a1 = (ApiKeys.create h secret name scopes owner now a).1 in
    let a2 = (ApiKeys.rotate h secret key_id owner a).1 in
    let fresh : Holds h (a.last_id + 1) owner hash scopes true a1 =
      rw created (unfold atomically in mint_key-Holds h secret name owner scopes now a) in
    let again : Holds h key_id owner hash rec.scopes (is_active rec.status) a2 =
      rw rotated (unfold atomically in rw here (rw (← mine) (issue-Holds h secret rec a))) in
    let m1 : IsMinted a1 =
      unfold step in Change-IsMinted (step-Change h owner (create secret name scopes now) a m) m in
    let m2 : IsMinted a2 =
      unfold step in Change-IsMinted (step-Change h owner (rotate secret key_id) a m) m in
    (
      (
        (mint_key h secret name owner scopes now a).0.0,
        rw created (unfold atomically mint_key issue next_id in refl),
      ),
      Holds-Answers h (a.last_id + 1) owner secret scopes _ _
          (serve-Holds h (a.last_id + 1) owner hash scopes later true a1 m1 unrotated fresh),
      ((issue h secret rec a).0.0, rw rotated (unfold atomically issue in rw here refl)),
      Holds-Answers h key_id owner secret rec.scopes _ _ (
          serve-Holds h key_id owner hash rec.scopes later' (is_active rec.status) a2 m2 unrotated'
            again),
    )
