-- ===== src/Parts/Claim/Settled.antt =====
-- A claimed key has one winner and keeps it.
use gutencode_test.Prelude.{◌≡◌, inl, inr, some, arith, Eq, Option-cases}
use gutencode_test.Core.Table.{Table, get, do_}
use gutencode_test.Core.Table.Laws.{get-put, get-put_self}
use gutencode_test.Parts.Claim.{claim_once}

module _ {ℓ κ} {K : Type ℓ} ⦃e : Eq K⦄ {V : Type κ} where
  -- A claim returns what the key reads afterwards.
  pub get-claim_once :
      (key : K) (rec : V) (t : Table K V)
      → get key (claim_once key rec t).1 ≡ some (claim_once key rec t).0
  unfolding claim_once do_
  get-claim_once key rec t = elim (Option-cases (get key t)) [
    | inl free ↦ rw free (get-put_self key rec t)
    | inr (winner, held) ↦ rw held held
  ]

  -- A claim of any key keeps a settled row.
  pub get-claim_once_settled :
      (j key : K) (rec winner : V) (t : Table K V)
      → get j t ≡ some winner
      → get j (claim_once key rec t).1 ≡ some winner
  unfolding claim_once do_
  get-claim_once_settled j key rec winner t h = elim (Option-cases (get key t)) [
    | inl free ↦ rw free (ground (arith, get-put j key rec t, e.beq_iff key j))
    | inr (w, held) ↦ rw held h
  ]

  -- A claim of a settled key returns the winner and writes nothing.
  pub claim_once-settled :
      (key : K) (rec : V) {winner : V} (t : Table K V)
      → get key t ≡ some winner
      → claim_once key rec t ≡ (winner, t)
  unfolding claim_once do_
  claim_once-settled key rec t held = rw held
