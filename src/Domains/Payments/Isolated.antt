-- ===== src/Domains/Payments/Isolated.antt =====
-- Intents belong to their callers.
use gutencode_test.Prelude.{
  ◌≡◌, ◌≢◌, refl, ◌∙◌, true, List, Text, Text-Eq, All, All-map, Free, Option,
}
use gutencode_test.Core.Table.{get, do_}
use gutencode_test.Core.Table.Laws.{get-do_ne}
use gutencode_test.Parts.Claim.{claim_fn, claim_once}
use gutencode_test.Parts.Digest.{Hash}
use gutencode_test.Parts.Digest.Scoped.{scoped_key-Free}
use gutencode_test.Parts.WellFormed.{is_well_formed}
use gutencode_test.Parts.WellFormed.Keys.{composite, composite-injective, is_well_formed-Free}
use gutencode_test.Domains.Payments.{
  Intent, Intents, intent_id, fresh_intent, capture_fn, void_fn, refund_fn,
}
use gutencode_test.Domains.Payments.Requests.{Request, IsKept, serve, serve-Keeps}
use gutencode_test.Domains.Payments.Exact.{read_or_claim-eq-claim_once}

module _ (caller id : Text) (good : is_well_formed id ≡ true) (held : Option Intent) where
  -- The slot of the caller's id reads `held`.
  abbrev Reads : Intents → Type 0
  Reads t = get (composite caller id) t ≡ held

  do_-Reads :
      {R : Type 0} (subject other : Text) (fn : Option Intent → Option Intent × R)
      → subject ≢ caller
      → Free 0x1F other
      → (t : Intents) → Reads t
      → Reads (do_ (composite subject other) fn t).1
  do_-Reads subject other fn stranger free t r =
      get-do_ne (composite caller id) (composite subject other) fn t (λ e.
        stranger
          (composite-injective subject other caller id free (is_well_formed-Free 0x1F id refl good)
            e).0)
      ∙ r

  Reads-IsKept : (h : Hash) (subject : Text) → subject ≢ caller → IsKept h Reads subject
  Reads-IsKept h subject stranger = record {
    by_claim = λ amount currency key valid t r. rw read_or_claim-eq-claim_once (
        unfold claim_once in
        do_-Reads subject (intent_id h subject key)
          (claim_fn (fresh_intent h amount currency subject key)) stranger
          (unfold intent_id in scoped_key-Free h 0x1F _ subject key refl) t r);
    by_capture = λ amount valid other fine.
        do_-Reads subject other (capture_fn amount) stranger
          (is_well_formed-Free 0x1F other refl fine);
    by_void = λ other fine.
        do_-Reads subject other void_fn stranger (is_well_formed-Free 0x1F other refl fine);
    by_refund = λ key amount other fine.
        do_-Reads subject other (refund_fn key amount) stranger
          (is_well_formed-Free 0x1F other refl fine);
  }

-- No requests of other subjects, however many and whatever ids, keys and bodies they name, change
-- what a caller reads at any well-formed payment id of its own.
pub serve-isolated :
    (h : Hash) (upper : Text → Text) (requests : List (Text × Request)) (caller id : Text)
    (t : Intents)
    → All (λ r. r.0 ≢ caller) requests
    → is_well_formed id ≡ true
    → get (composite caller id) (serve h upper requests t) ≡ get (composite caller id) t
serve-isolated h upper requests caller id t strangers good =
    serve-Keeps h upper (Reads caller id good (get (composite caller id) t)) requests
      (All-map (λ r. Reads-IsKept caller id good (get (composite caller id) t) h r.0) requests
        strangers)
      t refl
