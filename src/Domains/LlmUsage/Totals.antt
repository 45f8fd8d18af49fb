-- ===== src/Domains/LlmUsage/Totals.antt =====
-- What the totals of a summary count.
use gutencode_test.Prelude.{ℕ, ◌+◌, List, [], ◌∷◌, Text-Eq, ℕ-Eq}
use gutencode_test.Domains.LlmUsage.{Event}
use gutencode_test.Domains.LlmUsage.Summary.{Group}

unfoldable pub groups_cost : List Group → ℕ
groups_cost [] = 0
groups_cost (g ∷ gs) = g.sums.cost + groups_cost gs

unfoldable pub events_cost : List Event → ℕ
events_cost [] = 0
events_cost (rec ∷ recs) = rec.cost_nanodollars + events_cost recs
