-- ===== src/Parts/Claim.antt =====
-- parts/idempotent_claim.py: write the record only if the key is unclaimed, and return the winner.
pub mod Settled
use gutencode_test.Prelude.{Option, none, some, Eq}
use gutencode_test.Core.Table.{Table, do_}

module _ {κ} {V : Type κ} where
  -- The callback: `(None, cur) if cur is not None else (rec, rec)`.
  abbrev pub claim_fn : V → Option V → Option V × V
  claim_fn rec none = (some rec, rec)
  claim_fn rec (some cur) = (none, cur)

module _ {ℓ κ} {K : Type ℓ} ⦃e : Eq K⦄ {V : Type κ} where
  unfoldable pub claim_once : K → V → Table K V → V × Table K V
  claim_once key rec t = do_ key (claim_fn rec) t
