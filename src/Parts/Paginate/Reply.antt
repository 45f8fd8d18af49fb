-- ===== src/Parts/Paginate/Reply.antt =====
-- How every list route of the domains ends: the page of its items, or a 422.
use gutencode_test.Prelude.{Option, List, Text, codes}
use gutencode_test.Core.Problem.{invalid}
use gutencode_test.Core.Exec.{Exec, pure, require, ◌>>◌}
use gutencode_test.Parts.Paginate.{paginate}

unfoldable pub reply_page {ℓ κ} :
    {S : Type ℓ} {A : Type κ} → List A → Text → Text → Exec S (List A × Option Text)
reply_page items cursor limit = do
  let (page, nxt, ok) = paginate items cursor limit
  require ok (invalid (codes "invalid cursor or limit"))
  pure (page, nxt)
