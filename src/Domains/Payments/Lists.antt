-- ===== src/Domains/Payments/Lists.antt =====
-- GET /payments of domains/payments.py: the caller's intents, a page at a time.
use gutencode_test.Prelude.{Option, List, Text, Text-Eq, ◌==◌, map, keep}
use gutencode_test.Core.Exec.{Exec, pure, gets, ◌>>=◌}
use gutencode_test.Core.Table.{values}
use gutencode_test.Parts.Paginate.Reply.{reply_page}
use gutencode_test.Domains.Payments.{Intent, Intents, PaymentOut, out}

unfoldable pub list_payments : Text → Text → Text → Exec Intents (List PaymentOut × Option Text)
list_payments subject limit cursor = do
  rows ← gets (λ (t : Intents). values t)
  (page, nxt) ← reply_page (keep (λ (r : Intent). r.caller == subject) rows) cursor limit
  pure (map out page, nxt)
