-- ===== src/Domains/LlmUsage/Summary.antt =====
-- GET /llm_usage/summary of domains/llm_usage.py: the caller's totals, derived from the stored events.
use gutencode_test.Prelude.{
  text_lt, ℕ, ◌+◌, Bool, true, false, not, ◌&&◌, ◌||◌, Option, none, some, List, [], ◌∷◌, Text,
  codes, Text-Eq, ℕ-Eq, ◌==◌, all, is_digit, if◌then◌else◌, read_from, ℤ, pos, ltb_ℤ, ◌-ℤ◌, keep,
}
use gutencode_test.Core.Problem.{invalid}
use gutencode_test.Core.Exec.{Result, ok, err, Exec, pure, gets, lift, ◌>>=◌}
use gutencode_test.Core.Table.{values}
use gutencode_test.Domains.LlmUsage.{Event, Usage}
use gutencode_test.Domains.LlmUsage.Prices.{Tokens}

-- _SUM_FIELDS
pub record Sums : Type 0 where
  pub tokens : Tokens
  pub cost : ℕ

pub record Group : Type 0 where
  pub provider : Text
  pub model : Text
  pub sums : Sums

abbrev pub no_sums : Sums
no_sums = record {
  tokens = record { input = 0; output = 0; cache_read = 0; cache_write = 0; reasoning = 0 };
  cost = 0;
}

unfoldable pub add_event : Sums → Event → Sums
add_event g rec = record {
  tokens = record {
    input = g.tokens.input + rec.tokens.input;
    output = g.tokens.output + rec.tokens.output;
    cache_read = g.tokens.cache_read + rec.tokens.cache_read;
    cache_write = g.tokens.cache_write + rec.tokens.cache_write;
    reasoning = g.tokens.reasoning + rec.tokens.reasoning;
  };
  cost = g.cost + rec.cost_nanodollars;
}

-- -?[0-9]+
unfoldable pub digits_or_invalid : Text → (ℕ → ℤ) → Result (Option ℤ)
unfolding read_from
digits_or_invalid [] sign = err (invalid (codes "from/to must be an integer epoch"))
digits_or_invalid (c ∷ cs) sign =
    if all is_digit (c ∷ cs)
    then ok (some (sign (read_from 0 (c ∷ cs))))
    else err (invalid (codes "from/to must be an integer epoch"))

unfoldable pub parse_ts : Text → Result (Option ℤ)
unfolding digits_or_invalid
parse_ts [] = ok none
parse_ts (c ∷ cs) =
    if c == b'-' then digits_or_invalid cs (λ n. pos 0 -ℤ pos n) else digits_or_invalid (c ∷ cs) pos

abbrev pub before : ℤ → Option ℤ → Bool
before at none = false
before at (some from) = ltb_ℤ at from

abbrev pub after : ℤ → Option ℤ → Bool
after at none = false
after at (some to) = ltb_ℤ to at

-- An empty model filters nothing.
abbrev pub fits_model : Text → Text → Bool
fits_model [] m = true
fits_model (c ∷ cs) m = m == c ∷ cs

abbrev pub is_counted : Text → Option ℤ → Option ℤ → Text → Event → Bool
is_counted owner from to model rec =
    rec.owner == owner && not (before rec.at from || after rec.at to) && fits_model model rec.model

-- groups.setdefault((provider, model), ...), then the sums of the group.
unfoldable pub add_to_group : Event → List Group → List Group
unfolding add_event
add_to_group rec [] =
    record { provider = rec.provider; model = rec.model; sums = add_event no_sums rec } ∷ []
add_to_group rec (g ∷ gs) =
    let rest = add_to_group rec gs in
    if g.provider == rec.provider && g.model == rec.model
    then record g { sums = add_event g.sums rec } ∷ gs
    else g ∷ rest

abbrev pub comes_after : Group → Group → Bool
comes_after g k =
    text_lt k.provider g.provider || (k.provider == g.provider && text_lt k.model g.model)

abbrev pub insert_group : Group → List Group → List Group
insert_group g [] = g ∷ []
insert_group g (k ∷ ks) =
    let further = insert_group g ks in if comes_after g k then k ∷ further else g ∷ k ∷ ks

-- sorted(groups)
unfoldable pub sort_groups : List Group → List Group
sort_groups [] = []
sort_groups (g ∷ gs) = insert_group g (sort_groups gs)

unfoldable pub sum_up : List Event → Sums × List Group → Sums × List Group
unfolding add_event add_to_group
sum_up [] acc = acc
sum_up (rec ∷ recs) (total, groups) = sum_up recs (add_event total rec, add_to_group rec groups)

unfoldable pub summary : Text → Text → Text → Text → Exec Usage (Sums × List Group)
unfolding sort_groups text_lt parse_ts
summary owner from_text to_text model = do
  from ← lift (parse_ts from_text)
  to ← lift (parse_ts to_text)
  rows ← gets (λ (u : Usage). values u.events)
  let (total, groups) = sum_up (keep (is_counted owner from to model) rows) (no_sums, [])
  pure (total, sort_groups groups)
