-- ===== src/Tests/MeterRuns.antt =====
-- Cursors and pages, the throttle, and the meter of language-model calls.
use gutencode_test.Prelude.{
  ℕ, ◌+◌, ◌-◌, ◌*◌, ◌≤◌, ◌<◌, ◌^◌, ◌≡◌, ◌≢◌, ◌↔◌, refl, arith, List, [], ◌∷◌, some, none, Text,
  Text-Eq, ℕ-Eq, text_eq, codes, min, max, All, ==_refl, str_ℕ, pos, ◌-ℤ◌, read_from,
}
use gutencode_test.Core.Exec.{ok, ◌>>=◌}
use gutencode_test.Core.Table.{get, put, values, next_id, do_}
use gutencode_test.Core.Throttle.Limit.{allowed, throttle_limit}
use gutencode_test.Parts.Claim.{claim_once}
use gutencode_test.Parts.Digest.Unary.{unary_hash}
use gutencode_test.Parts.WellFormed.{is_well_formed}
use gutencode_test.Parts.Paginate.{encode_cursor, decode_cursor, clamp_limit, int}
use gutencode_test.Parts.Paginate.Codec.{decode-encode_cursor}
use gutencode_test.Parts.Paginate.Walk.{walk, walk_reads_all}
use gutencode_test.Domains.LlmUsage.{
  EventIn, Event, PublicEvent, Usage, Limits, record_event, commit, commit_at, conclude,
  claim_event, public, body_hash, sent, is_valid, is_safe_time,
}
use gutencode_test.Domains.LlmUsage.Prices.{
  Tokens, Rates, prices, lines, derive_cost, bill, bill_rate,
}
use gutencode_test.Domains.LlmUsage.Cost.{IsBillable, total_due, derive_cost-IsBilled}
use gutencode_test.Domains.LlmUsage.Requests.{serve}
use gutencode_test.Domains.LlmUsage.Once.{record_event-replays}
use gutencode_test.Domains.LlmUsage.Summary.{Sums, Group, parse_ts, sum_up, summary}

abbrev ten : Text
ten = codes "MTA"

decode-encode_cursor_example :
    (decode_cursor ten ≡ some 10) ↔ ((ten ≡ encode_cursor 10) × (10 ≤ 2 ^ 53 - 1))
decode-encode_cursor_example = decode-encode_cursor ten 10

abbrev items : List ℕ
items = 5 ∷ 6 ∷ 7 ∷ []

two-sized : clamp_limit (codes "2") ≢ 0
unfolding clamp_limit int str_ℕ codes text_eq read_from
two-sized e = omega (arith, e)

walk_reads_all_example : walk 4 items (codes "2") [] ≡ some items
walk_reads_all_example = walk_reads_all items (codes "2") two-sized (omega arith)

throttle_limit_example : allowed (codes "k") 2 60 (100 ∷ 110 ∷ 105 ∷ []) [] ≡ min (1 + 2) (max 1 2)
throttle_limit_example =
    throttle_limit (codes "k") 2 60 100 (110 ∷ 105 ∷ []) [] (unfold get in refl) (omega arith)

abbrev tokens : Tokens
tokens = record { input = 1000; output = 500; cache_read = 0; cache_write = 0; reasoning = 0 }

mini-priced : derive_cost 10000000 (codes "openai") (codes "gpt-4o-mini") tokens ≡ ok 450000
unfolding derive_cost prices bill lines bill_rate codes text_eq
mini-priced = refl

derive_cost-IsBilled_example :
    (rates : Rates) × (prices (codes "openai") (codes "gpt-4o-mini") ≡ some rates)
    × All (IsBillable 10000000) (lines tokens rates)
    × (450000 * 1000 ≤ total_due (lines tokens rates))
    × (total_due (lines tokens rates) < (450000 + 5) * 1000)
derive_cost-IsBilled_example =
    derive_cost-IsBilled 10000000 (codes "openai") (codes "gpt-4o-mini") tokens 450000 mini-priced

abbrev alice : Text
alice = codes "alice"

abbrev limits : Limits
limits = record { replay = 300; max_tokens = 10000000 }

abbrev call : EventIn
call = record {
  identifier = codes "c1";
  provider = codes "openai";
  model = codes "gpt-4o-mini";
  tokens = tokens;
  at = none;
}

abbrev no_usage : Usage
no_usage = record { events = []; last_id = 0 }

abbrev counted : PublicEvent
counted = record {
  id = 1;
  identifier = codes "c1";
  provider = codes "openai";
  model = codes "gpt-4o-mini";
  tokens = tokens;
  at = pos 100;
  cost_nanodollars = 450000;
}

-- A conclusion that passes, whatever the hash.
call-recorded : (record_event unary_hash limits 100 alice call no_usage).0 ≡ ok counted
unfolding record_event commit commit_at conclude claim_event claim_once do_ get put next_id is_valid
    is_safe_time is_well_formed derive_cost prices bill lines bill_rate codes text_eq ◌>>=◌ ◌-ℤ◌
    public
call-recorded = rw (==_refl (body_hash unary_hash call (sent none) 450000)) refl

record_event-replays_example :
    let then_ =
      serve unary_hash limits [] (record_event unary_hash limits 100 alice call no_usage).1 in
    record_event unary_hash limits 107 alice call then_ ≡ (ok counted, then_)
record_event-replays_example =
    record_event-replays unary_hash limits 100 107 alice call no_usage [] counted call-recorded
      (unfold ◌-ℤ◌ in refl)

abbrev event : Event
event = record {
  id = 1;
  owner = alice;
  identifier = codes "c1";
  provider = codes "openai";
  model = codes "gpt-4o-mini";
  tokens = tokens;
  at = pos 100;
  cost_nanodollars = 450000;
  body_hash = [];
}

abbrev metered : Usage
metered = record { events = (codes "slot", event) ∷ []; last_id = 1 }

abbrev one_group : List Group
one_group =
    record {
      provider = codes "openai";
      model = codes "gpt-4o-mini";
      sums = record { tokens = tokens; cost = 450000 };
    }
    ∷ []

abbrev all_tokens : Sums
all_tokens = record { tokens = tokens; cost = 450000 }

summary-given : (summary alice (codes "50") [] [] metered).0 ≡ ok (all_tokens, one_group)
unfolding summary parse_ts values sum_up codes text_eq ◌>>=◌
summary-given = refl
