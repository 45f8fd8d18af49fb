-- ===== src/Domains/Idempotency/Private.antt =====
-- A key is private to its caller.
use gutencode_test.Prelude.{
  ℕ, ◌≡◌, ◌≢◌, refl, ◌∙◌, Option, none, some, List, [], ◌∷◌, Text, Text-Eq, All,
}
use gutencode_test.Core.Table.{get}
use gutencode_test.Core.Table.Laws.{get-do_ne}
use gutencode_test.Parts.Claim.{claim_once}
use gutencode_test.Parts.Digest.{Hash}
use gutencode_test.Parts.Digest.Scoped.{scoped_key-injective}
use gutencode_test.Domains.Idempotency.{Slot, Idempotency, mint, slot_key, settle, pay}
use gutencode_test.Domains.Idempotency.Once.{Request, step, serve, pay-Keeps}

-- The requests are of other callers.
abbrev pub AllOthers : Text → List Request → Type 0
AllOthers caller history = All (λ r. r.2 ≢ caller) history

module _ (h : Hash) (mine key : Text) where
  abbrev Reads : Option Slot → Idempotency → Type 0
  Reads row s = get (slot_key h mine key) s.keys ≡ row

  settle-Reads :
      (row : Option Slot) (amount : ℕ) (caller other : Text) (prior : Option Slot) (s : Idempotency)
      → caller ≢ mine
      → Reads row s
      → Reads row (settle h amount caller other prior s).1
  unfolding settle
  settle-Reads row amount caller other (some prior) s differ held = held
  settle-Reads row amount caller other none s differ held =
      unfold claim_once slot_key in
      (get-do_ne (slot_key h mine key) (slot_key h caller other) _ s.keys
          (λ clash. differ (scoped_key-injective h _ caller other _ mine key clash).1)
        ∙ held)

  serve-Reads :
      (row : Option Slot) (history : List Request) (s : Idempotency)
      → AllOthers mine history
      → Reads row s
      → Reads row (serve h history s)
  unfolding serve step
  serve-Reads row [] s others held = held
  serve-Reads row ((amount, headers, caller) ∷ rest) s (differ, others) held =
      serve-Reads row rest (pay h amount headers caller s).1 others (
        (pay-Keeps h (Reads row) amount headers caller (λ t p. unfold mint in p)
            (λ other prior t p. settle-Reads row amount caller other prior t differ p)).at
          s held)

-- No requests of other callers, whatever keys they send, settle the slot of a caller's key or change
-- what it holds: they neither replay the caller's payment nor block the key.
pub serve-private :
    (h : Hash) (caller key : Text) (history : List Request) (s : Idempotency)
    → AllOthers caller history
    → get (slot_key h caller key) (serve h history s).keys ≡ get (slot_key h caller key) s.keys
serve-private h caller key history s others =
    serve-Reads h caller key (get (slot_key h caller key) s.keys) history s others refl
