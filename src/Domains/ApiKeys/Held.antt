-- ===== src/Domains/ApiKeys/Held.antt =====
-- What later requests leave of a key's record: all but the status, unless its owner rotates it.
use gutencode_test.Prelude.{
  ℕ, ◌+◌, ◌≡◌, refl, sym, ap, ◌∙◌, Bool, true, false, ◌&&◌, some, List, [], ◌∷◌, Text, Text-Eq,
  ◌==◌, ==_true, ==_refl, str_ℕ, arith, Bool-cases, inl, inr, all, ltb, length, not, ◌≢◌, All, ℕ-Eq,
  str_ℕ-injective,
}
use gutencode_test.Core.Exec.{atomically, ◌>>=◌}
use gutencode_test.Core.Table.{get, next_id}
use gutencode_test.Core.Table.Laws.{get-put_self, get-put_ne}
use gutencode_test.Core.ApiKey.{ApiKey, revoked, is_active}
use gutencode_test.Parts.Digest.{Hash, digest_hex}
use gutencode_test.Parts.WellFormed.{is_well_formed}
use gutencode_test.Domains.ApiKeys
use gutencode_test.Domains.ApiKeys.{
  ApiKeys, PublicKey, own, load, put_key, issue, mint_key, revoke_write, public, verify_parts,
  verdict,
}
use gutencode_test.Domains.ApiKeys.Requests.{
  Request, create, get_key, list_keys, verify, rotate, revoke, step, serve, IsMinted, own_key,
  load_then, get_key-Reads, list_keys-Reads, verify-Reads, step-Change, Change-IsMinted,
}
use gutencode_test.Domains.ApiKeys.Issued.{Answers, record-Answers}

-- The request is the owner's rotation, or the owner's revocation, of the key.
abbrev pub is_rotation : Text → ℕ → Text × Request → Bool
is_rotation owner id (caller, create secret name scopes now) = false
is_rotation owner id (caller, get_key key_id) = false
is_rotation owner id (caller, list_keys limit cursor) = false
is_rotation owner id (caller, verify key) = false
is_rotation owner id (caller, rotate secret key_id) = caller == owner && key_id == id
is_rotation owner id (caller, revoke key_id) = false

abbrev pub is_revocation : Text → ℕ → Text × Request → Bool
is_revocation owner id (caller, create secret name scopes now) = false
is_revocation owner id (caller, get_key key_id) = false
is_revocation owner id (caller, list_keys limit cursor) = false
is_revocation owner id (caller, verify key) = false
is_revocation owner id (caller, rotate secret key_id) = false
is_revocation owner id (caller, revoke key_id) = caller == owner && key_id == id

-- Whether the key is active after the requests.
unfoldable pub stays_live : Text → ℕ → Bool → List (Text × Request) → Bool
stays_live owner id live [] = live
stays_live owner id live (call ∷ rest) =
    stays_live owner id (live && not (is_revocation owner id call)) rest

-- What is said of a key's record.
pub record IsKey (id : ℕ) (owner hash : Text) (scopes : List Text) (live : Bool) (rec : ApiKey)
    : Type 0 where
  pub same_id : rec.id ≡ id
  pub same_owner : rec.owner ≡ owner
  pub same_hash : rec.secret_hash ≡ hash
  pub same_scopes : rec.scopes ≡ scopes
  pub same_status : is_active rec.status ≡ live

module _ (h : Hash) (id : ℕ) (owner hash : Text) (scopes : List Text) where
  abbrev pub Holds : Bool → ApiKeys → Type 0
  Holds live a =
      (rec : ApiKey) × (get (str_ℕ id) a.keys ≡ some rec) × IsKey id owner hash scopes live rec

  Holds-same :
      (live : Bool) (a a' : ApiKeys)
      → get (str_ℕ id) a'.keys ≡ get (str_ℕ id) a.keys
      → Holds live a
      → Holds live a'
  Holds-same live a a' same (rec, found, is_key) = (rec, same ∙ found, is_key)

  create-get :
      (live : Bool) (secret name : Text) (asked : List Text) (caller : Text) (now : ℕ) (a : ApiKeys)
      → IsMinted a
      → Holds live a
      → get (str_ℕ id) (ApiKeys.create h secret name asked caller now a).1.keys
        ≡ get (str_ℕ id) a.keys
  unfolding ApiKeys.create mint_key issue put_key next_id ◌>>=◌
  create-get live secret name asked caller now a m (rec, found, is_key) =
      let was = m (str_ℕ id) rec found in
      elim (Bool-cases (is_well_formed name && all is_well_formed asked && ltb 0 (length asked))) [
        | inr bad ↦ rw bad
        | inl good ↦ rw good (
            get-put_ne (str_ℕ id) (str_ℕ (a.last_id + 1)) _ a.keys (λ p.
              absurd (omega (arith, str_ℕ-injective (a.last_id + 1) id p, was.1, is_key.same_id))))
      ]

  other_id : (k : ℕ) → (k == id) ≡ false → str_ℕ k ≢ str_ℕ id
  other_id k apart p = absurd (cc (rw (str_ℕ-injective k id p) at apart, ==_refl id))

  rotate-get :
      (live : Bool) (secret : Text) (k : ℕ) (caller : Text) (a : ApiKeys)
      → IsMinted a
      → Holds live a
      → (caller == owner && k == id) ≡ false
      → get (str_ℕ id) (ApiKeys.rotate h secret k caller a).1.keys ≡ get (str_ℕ id) a.keys
  unfolding ApiKeys.rotate
  rotate-get live secret k caller a m (rec, found, is_key) foreign =
      elim (load_then k caller (λ r. atomically (issue h secret r)) a) [
        | inl same ↦ rw same
        | inr (cur, held, mine, e) ↦ elim (Bool-cases (k == id)) [
          | inr apart ↦
              let here = own_key k cur a m held in
              rw e (
                unfold atomically issue put_key in
                get-put_ne (str_ℕ id) (str_ℕ cur.id) _ a.keys (rw here at (other_id k apart)))
          | inl one ↦
              let both : some cur ≡ some rec = sym held ∙ rw (==_true k id one) found in
              let row : cur ≡ rec = cc both in
              let owned : caller ≡ owner = sym mine ∙ ap (λ r. r.owner) row ∙ is_key.same_owner in
              absurd (cc (rw (owned, ==_refl owner, one) at foreign))
        ]
      ]

  revoke-get :
      (live : Bool) (k : ℕ) (caller : Text) (a : ApiKeys)
      → Holds live a
      → (caller == owner && k == id) ≡ false
      → get (str_ℕ id) (ApiKeys.revoke k caller a).1.keys ≡ get (str_ℕ id) a.keys
  unfolding ApiKeys.revoke
  revoke-get live k caller a (rec, found, is_key) foreign =
      elim (load_then k caller (λ r. atomically (revoke_write k r)) a) [
        | inl same ↦ rw same
        | inr (cur, held, mine, e) ↦ elim (Bool-cases (k == id)) [
          | inr apart ↦ rw e (
              unfold atomically revoke_write in
              get-put_ne (str_ℕ id) (str_ℕ k) _ a.keys (other_id k apart))
          | inl one ↦
              let both : some cur ≡ some rec = sym held ∙ rw (==_true k id one) found in
              let row : cur ≡ rec = cc both in
              let owned : caller ≡ owner = sym mine ∙ ap (λ r. r.owner) row ∙ is_key.same_owner in
              absurd (cc (rw (owned, ==_refl owner, one) at foreign))
        ]
      ]

  -- The owner's revocation.
  revoke-Holds :
      (live : Bool) (a : ApiKeys) → Holds live a → Holds false (ApiKeys.revoke id owner a).1
  unfolding ApiKeys.revoke load own revoke_write ◌>>=◌
  revoke-Holds live a (rec, found, is_key) =
      let mine : (rec.owner == owner) ≡ true = rw is_key.same_owner (==_refl owner) in
      let dead = record rec { status = revoked } in
      rw (found, own)
        (rw mine (
          dead,
          get-put_self (str_ℕ id) dead a.keys,
          record {
            same_id = is_key.same_id;
            same_owner = is_key.same_owner;
            same_hash = is_key.same_hash;
            same_scopes = is_key.same_scopes;
            same_status = refl;
          },
        ))

  keeps : (live : Bool) (a : ApiKeys) → Holds live a → Holds (live && true) a
  keeps true a held = held
  keeps false a held = held

  step-Holds :
      (live : Bool) (call : Text × Request) (a : ApiKeys)
      → IsMinted a
      → is_rotation owner id call ≡ false
      → Holds live a
      → Holds (live && not (is_revocation owner id call)) (step h call.0 call.1 a)
  unfolding step
  step-Holds live (caller, create secret name asked now) a m unrotated held =
      let after = (ApiKeys.create h secret name asked caller now a).1 in
      keeps live after
        (Holds-same live a after (create-get live secret name asked caller now a m held) held)
  step-Holds live (caller, get_key k) a m unrotated held =
      rw ((get_key-Reads k caller a).at a refl) (keeps live a held)
  step-Holds live (caller, list_keys limit cursor) a m unrotated held =
      rw ((list_keys-Reads caller limit cursor a).at a refl) (keeps live a held)
  step-Holds live (caller, verify key) a m unrotated held =
      rw ((verify-Reads h key a).at a refl) (keeps live a held)
  step-Holds live (caller, rotate secret k) a m unrotated held =
      let after = (ApiKeys.rotate h secret k caller a).1 in
      keeps live after
        (Holds-same live a after (rotate-get live secret k caller a m held unrotated) held)
  step-Holds live (caller, revoke k) a m unrotated held =
      let after = (ApiKeys.revoke k caller a).1 in
      elim (Bool-cases (caller == owner && k == id)) [
        | inr foreign ↦ rw foreign (
            keeps live after
              (Holds-same live a after (revoke-get live k caller a held foreign) held))
        | inl ours ↦
            let by_owner : caller ≡ owner = ==_true caller owner (ground arith) in
            let this : k ≡ id = ==_true k id (ground arith) in
            let over : (live && not true) ≡ false = ground arith in
            rw (ours, over) (rw (by_owner, this) (revoke-Holds live a held))
      ]

  pub serve-Holds :
      (history : List (Text × Request)) (live : Bool) (a : ApiKeys)
      → IsMinted a
      → All (λ call. is_rotation owner id call ≡ false) history
      → Holds live a
      → Holds (stays_live owner id live history) (serve h history a)
  unfolding serve stays_live
  serve-Holds [] live a m unrotated held = held
  serve-Holds (call ∷ rest) live a m unrotated held =
      serve-Holds rest (live && not (is_revocation owner id call)) (step h call.0 call.1 a)
        (Change-IsMinted (step-Change h call.0 call.1 a m) m) unrotated.1
        (step-Holds live call a m unrotated.0 held)

pub Holds-Answers :
    (h : Hash) (id : ℕ) (owner secret : Text) (scopes : List Text) (live : Bool) (a : ApiKeys)
    → Holds h id owner (digest_hex h (secret ∷ [])) scopes live a
    → Answers h id secret live scopes owner a
Holds-Answers h id owner secret scopes live a (rec, found, is_key) =
    let here : get (str_ℕ rec.id) a.keys ≡ some rec =
      ap (λ k. get (str_ℕ k) a.keys) is_key.same_id ∙ found in
    said is_key.same_id is_key.same_owner is_key.same_scopes is_key.same_status
      (record-Answers h rec secret a here is_key.same_hash)
  where
    said :
        {id' : ℕ} {owner' : Text} {scopes' : List Text} {live' : Bool}
        → id' ≡ id
        → owner' ≡ owner
        → scopes' ≡ scopes
        → live' ≡ live
        → Answers h id' secret live' scopes' owner' a
        → Answers h id secret live scopes owner a
    said i o c l answers = rw (sym i, sym o, sym c, sym l) answers
