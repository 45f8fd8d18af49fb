-- ===== src/Domains/ApiKeys/Revoked.antt =====
-- What no history of requests changes in a key: its identity, and that it is revoked.
use gutencode_test.Prelude.{
  ◌≡◌, ◌≢◌, refl, sym, ap, ◌∙◌, false, none, some, List, [], ◌∷◌, Text, Text-Eq, ◌==◌, str_ℕ,
  str_ℕ-injective, arith, All, Bool-cases, inl, inr, ==_true, ==_refl,
}
use gutencode_test.Core.Exec.{ok}
use gutencode_test.Core.Table.{get}
use gutencode_test.Core.Table.Laws.{get-put_self, get-put_ne}
use gutencode_test.Core.ApiKey.{
  ApiKey, revoked, is_active, key_text, api_key_resolve, owner_if_match,
}
use gutencode_test.Parts.Digest.{Hash}
use gutencode_test.Domains.ApiKeys
use gutencode_test.Domains.ApiKeys.{ApiKeys, verdict}
use gutencode_test.Domains.ApiKeys.Requests.{
  Request, step, serve, IsMinted, Succeeds, Change, kept, minted, replaced, step-Change,
  Change-IsMinted,
}
use gutencode_test.Domains.ApiKeys.Issued.{verify-record, resolve-record}

-- The key is there, and it is the same one.
abbrev Lives : ApiKey → ApiKeys → Type 0
Lives old a = (now : ApiKey) × (get (str_ℕ old.id) a.keys ≡ some now) × Succeeds old now

Succeeds-trans : {a b c : ApiKey} → Succeeds a b → Succeeds b c → Succeeds a c
Succeeds-trans p q = record {
  same_id = q.same_id ∙ p.same_id;
  same_owner = q.same_owner ∙ p.same_owner;
  same_scopes = q.same_scopes ∙ p.same_scopes;
  same_birth = q.same_birth ∙ p.same_birth;
  stays_revoked = λ e. q.stays_revoked (p.stays_revoked e);
}

Change-Lives :
    {caller : Text} {a a' : ApiKeys} (old : ApiKey)
    → IsMinted a
    → Change caller a a'
    → Lives old a
    → Lives old a'
Change-Lives {caller} {a} {a'} old m (kept e) live = rw e live
Change-Lives {caller} {a} {a'} old m (minted rec fresh e) (now, found, next) =
    let was = m (str_ℕ old.id) now found in
    rw e (
      now,
      get-put_ne (str_ℕ old.id) (str_ℕ rec.id) rec a.keys (λ p.
            absurd (omega (arith, str_ℕ-injective rec.id old.id p, fresh, was.1, next.same_id)))
          ∙ found,
      next,
    )
Change-Lives {caller} {a} {a'} old m (replaced prior new held mine becomes e) (now, found, next) =
    elim (Bool-cases (str_ℕ prior.id == str_ℕ old.id)) [
      | inr apart ↦ rw e (
        now,
        get-put_ne (str_ℕ old.id) (str_ℕ prior.id) new a.keys
              (λ p. cc (ap (λ k. k == str_ℕ old.id) p, ==_refl (str_ℕ old.id)))
            ∙ found,
        next,
      )
      | inl same ↦
          let here = ==_true (str_ℕ prior.id) (str_ℕ old.id) same in
          let as_now : some prior ≡ some now = sym (rw here at held) ∙ found in
          let row : prior ≡ now = cc as_now in
          rw e (
            new,
            rw here (get-put_self (str_ℕ old.id) new a.keys),
            Succeeds-trans next (rw row at becomes),
          )
    ]

serve-Lives :
    (h : Hash) (history : List (Text × Request)) (old : ApiKey) (a : ApiKeys)
    → IsMinted a
    → Lives old a
    → Lives old (serve h history a)
unfolding serve
serve-Lives h [] old a m live = live
serve-Lives h ((caller, request) ∷ rest) old a m live =
    let change = step-Change h caller request a m in
    serve-Lives h rest old (step h caller request a) (Change-IsMinted change m)
      (Change-Lives old m change live)

Succeeds-refl : (rec : ApiKey) → Succeeds rec rec
Succeeds-refl rec = record {
  same_id = refl;
  same_owner = refl;
  same_scopes = refl;
  same_birth = refl;
  stays_revoked = λ e. e;
}

-- Requests of callers other than its owner leave a key as it is.
Change-foreign :
    {caller : Text} {a a' : ApiKeys} (old : ApiKey)
    → IsMinted a
    → Change caller a a'
    → old.owner ≢ caller
    → get (str_ℕ old.id) a.keys ≡ some old
    → get (str_ℕ old.id) a'.keys ≡ some old
Change-foreign {caller} {a} {a'} old m (kept e) foreign found = rw e found
Change-foreign {caller} {a} {a'} old m (minted rec fresh e) foreign found =
    let was = m (str_ℕ old.id) old found in
    rw e (
      get-put_ne (str_ℕ old.id) (str_ℕ rec.id) rec a.keys
        (λ p. absurd (omega (arith, str_ℕ-injective rec.id old.id p, fresh, was.1)))
      ∙ found)
Change-foreign {caller} {a} {a'} old m (replaced prior new held mine becomes e) foreign found =
    rw e (
      get-put_ne (str_ℕ old.id) (str_ℕ prior.id) new a.keys (λ p.
        let as_old : some prior ≡ some old = sym (rw p at held) ∙ found in
        let row : prior ≡ old = cc as_old in foreign (sym (ap (λ r. r.owner) row) ∙ mine))
      ∙ found)

serve-foreign :
    (h : Hash) (history : List (Text × Request)) (old : ApiKey) (a : ApiKeys)
    → IsMinted a
    → All (λ call. old.owner ≢ call.0) history
    → get (str_ℕ old.id) a.keys ≡ some old
    → get (str_ℕ old.id) (serve h history a).keys ≡ some old
unfolding serve
serve-foreign h [] old a m foreign found = found
serve-foreign h ((caller, request) ∷ rest) old a m foreign found =
    let change = step-Change h caller request a m in
    serve-foreign h rest old (step h caller request a) (Change-IsMinted change m) foreign.1
      (Change-foreign old m change foreign.0 found)

-- After any requests of strangers, rotations and revocations of every id included, a key's record is
-- exactly as it was; and a key that its owner has revoked stays dead after any requests of anyone, its
-- owner's rotations included: no text with its id is valid, and none authenticates a bearer.
pub key_lifecycle :
    (h : Hash) (foreign history : List (Text × Request)) (key ended : ApiKey) (a : ApiKeys)
    → IsMinted a
    → get (str_ℕ key.id) a.keys ≡ some key
    → All (λ call. key.owner ≢ call.0) foreign
    → get (str_ℕ ended.id) a.keys ≡ some ended
    → ended.status ≡ revoked
    → (get (str_ℕ key.id) (serve h foreign a).keys ≡ some key)
      × ((secret : Text)
          → ((ApiKeys.verify h (key_text ended.id secret) (serve h history a)).0 ≡ ok (false, []))
            × (api_key_resolve h (key_text ended.id secret) (serve h history a).keys ≡ none))
key_lifecycle h foreign history key ended a m found strangers dead is_revoked =
    let (now, held, next) = serve-Lives h history ended a m (ended, dead, Succeeds-refl ended) in
    let over : is_active now.status ≡ false = rw (next.stays_revoked is_revoked) in
    (
      serve-foreign h foreign key a m strangers found,
      λ secret. (
        verify-record h ended.id secret (serve h history a) ∙ rw held (unfold verdict in rw over),
        resolve-record h ended.id secret (serve h history a).keys
            ∙ rw held (unfold owner_if_match in rw over),
      ),
    )
