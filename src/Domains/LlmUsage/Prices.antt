-- ===== src/Domains/LlmUsage/Prices.antt =====
-- The price table of domains/llm_usage.py, in nanodollars for 1000 tokens, and the cost that the server
-- derives from it.
use gutencode_test.Prelude.{
  ℕ, ◌+◌, ◌*◌, ◌/◌, ◌&&◌, Option, none, some, List, [], ◌∷◌, ◌++◌, Text, codes, Text-Eq, ℕ-Eq, ◌==◌,
  ltb, if◌then◌else◌,
}
use gutencode_test.Core.Problem.{invalid}
use gutencode_test.Core.Exec.{Result, ok, err}

-- The five dimensions of an event: input_tokens, output_tokens, cache_read_input_tokens,
-- cache_creation_input_tokens and reasoning_tokens.
pub record Tokens : Type 0 where
  pub input : ℕ
  pub output : ℕ
  pub cache_read : ℕ
  pub cache_write : ℕ
  pub reasoning : ℕ

-- A dimension that a model does not price is none.
pub record Rates : Type 0 where
  pub input : Option ℕ
  pub output : Option ℕ
  pub cache_read : Option ℕ
  pub cache_write : Option ℕ
  pub reasoning : Option ℕ

abbrev sonnet : Rates
sonnet = record {
  input = some 3000000;
  output = some 15000000;
  cache_read = some 300000;
  cache_write = some 3750000;
  reasoning = none;
}

abbrev free : Rates
free = record {
  input = some 0;
  output = some 0;
  cache_read = some 0;
  cache_write = some 0;
  reasoning = some 0;
}

abbrev openai_rates : ℕ → ℕ → ℕ → Rates
openai_rates i o r = record {
  input = some i;
  output = some o;
  cache_read = some r;
  cache_write = none;
  reasoning = none;
}

abbrev haiku : Rates
haiku = record {
  input = some 800000;
  output = some 4000000;
  cache_read = some 80000;
  cache_write = some 1000000;
  reasoning = none;
}

-- _PRICES.get((provider, model))
unfoldable pub prices : Text → Text → Option Rates
prices provider model =
    if provider == codes "openai" && model == codes "gpt-4o"
    then some (openai_rates 2500000 10000000 1250000)
    else if provider == codes "openai" && model == codes "gpt-4o-mini"
    then some (openai_rates 150000 600000 75000)
    else if provider == codes "anthropic" && model == codes "claude-3-5-sonnet"
    then some sonnet
    else if provider == codes "anthropic" && model == codes "claude-sonnet-4-6"
    then some sonnet
    else if provider == codes "anthropic" && model == codes "claude-3-5-haiku"
    then some haiku
    else if provider == codes "fake" && model == codes "fake"
    then some free
    else none

-- The dimensions in the order in which they are billed: the field, the dimension, the count, the rate.
abbrev pub Line : Type 0
Line = Text × Text × ℕ × Option ℕ

unfoldable pub lines : Tokens → Rates → List Line
lines t r =
    (codes "input_tokens", codes "input", t.input, r.input)
    ∷ (codes "output_tokens", codes "output", t.output, r.output)
    ∷ (codes "cache_read_input_tokens", codes "cache_read", t.cache_read, r.cache_read)
    ∷ (codes "cache_creation_input_tokens", codes "cache_write", t.cache_write, r.cache_write)
    ∷ (codes "reasoning_tokens", codes "reasoning", t.reasoning, r.reasoning)
    ∷ []

abbrev pub add_line : ℕ → Result ℕ → Result ℕ
add_line amount (ok rest) = ok (amount + rest)
add_line amount (err problem) = err problem

-- The rest of the loop is bound first; an error of an earlier line wins.
unfoldable pub bill_rate : Text → ℕ → Option ℕ → Result ℕ → Result ℕ
bill_rate dim n none rest =
    err (invalid (codes "no price for the " ++ dim ++ codes " dimension of this model"))
bill_rate dim n (some rate) rest = add_line (n * rate / 1000) rest

unfoldable pub bill : ℕ → List Line → Result ℕ
unfolding bill_rate
bill max_tokens [] = ok 0
bill max_tokens ((field, dim, n, rate) ∷ later) =
    let rest = bill max_tokens later in
    if n == 0
    then rest
    else if ltb max_tokens n
    then err (invalid (field ++ codes " exceeds the per-call ceiling"))
    else bill_rate dim n rate rest

unfoldable pub derive_from : ℕ → Tokens → Option Rates → Result ℕ
derive_from max_tokens t none = err (invalid (codes "no price for this provider/model"))
derive_from max_tokens t (some rates) = bill max_tokens (lines t rates)

unfoldable pub derive_cost : ℕ → Text → Text → Tokens → Result ℕ
unfolding derive_from
derive_cost max_tokens provider model t = derive_from max_tokens t (prices provider model)
