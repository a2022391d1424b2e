-- ===== src/Pricing/Rounding.antt =====
-- The rounding policy of app/services/pricing.py over any list of priced usages: what the tenant
-- pays for the events one by one, against the cost of the tokens taken together.
use flyrank_backend_capstone.Prelude.{◌+◌, ◌*◌, ◌≤◌, ◌≡◌, List, [], ◌∷◌, arith, sum_by, length}
use flyrank_backend_capstone.Config.{Settings, default_settings}
use flyrank_backend_capstone.Pricing.Defs.{
  TokenUsage, no_tokens, total_tokens, calculate_cost_micro_cents, calculate_cost_cents,
}

abbrev pub add_usage : TokenUsage → TokenUsage → TokenUsage
add_usage u v = record {
  input_tokens = u.input_tokens + v.input_tokens;
  cached_input_tokens = u.cached_input_tokens + v.cached_input_tokens;
  output_tokens = u.output_tokens + v.output_tokens;
  reasoning_tokens = u.reasoning_tokens + v.reasoning_tokens;
}

-- The aggregate token counts of several events.
abbrev pub aggregate : List TokenUsage → TokenUsage
aggregate [] = no_tokens
aggregate (u ∷ us) = add_usage u (aggregate us)

module _ (s : Settings) where
  -- The exact cost distributes over the events.
  micro_cents-add_usage :
      (u v : TokenUsage)
      → calculate_cost_micro_cents s (add_usage u v)
        ≡ calculate_cost_micro_cents s u + calculate_cost_micro_cents s v
  unfolding calculate_cost_micro_cents
  micro_cents-add_usage u v = omega arith

  micro_cents-no_tokens : calculate_cost_micro_cents s no_tokens ≡ 0
  unfolding calculate_cost_micro_cents
  micro_cents-no_tokens = omega arith

  -- What one event loses by the floor.
  cost_cents_bounds :
      (u : TokenUsage)
      → (calculate_cost_cents s u * 10000 ≤ calculate_cost_micro_cents s u)
        × (calculate_cost_micro_cents s u ≤ calculate_cost_cents s u * 10000 + 9999)
  unfolding calculate_cost_cents
  cost_cents_bounds u = omega arith

  paid_bounds :
      (us : List TokenUsage)
      → (sum_by (calculate_cost_cents s) us * 10000 ≤ calculate_cost_micro_cents s (aggregate us))
        × (calculate_cost_micro_cents s (aggregate us)
            ≤ sum_by (calculate_cost_cents s) us * 10000 + length us * 9999)
  paid_bounds [] = omega (arith, micro_cents-no_tokens)
  paid_bounds (u ∷ us) =
      omega (arith, micro_cents-add_usage u (aggregate us), cost_cents_bounds u, paid_bounds us)

  -- Whatever the rates and the events, the sum of the costs in cents of the events is at most the
  -- cost in cents of their aggregate token counts, and in micro-cents it falls short of the exact
  -- aggregate cost by at most 9999 for each event.
  pub sum-cost_cents-le-aggregate :
      (us : List TokenUsage)
      → (sum_by (calculate_cost_cents s) us ≤ calculate_cost_cents s (aggregate us))
        × (calculate_cost_micro_cents s (aggregate us)
            ≤ sum_by (calculate_cost_cents s) us * 10000 + length us * 9999)
  sum-cost_cents-le-aggregate us = omega (arith, paid_bounds us, cost_cents_bounds (aggregate us))

-- At the default rates a usage of at most 2147483647 tokens costs at most 32212254 cents, which
-- is far below the largest value of a 32-bit column.
pub cost_cents-le_of_tokens :
    (u : TokenUsage)
    → total_tokens u ≤ 2147483647
    → calculate_cost_cents default_settings u ≤ 32212254
unfolding total_tokens calculate_cost_cents calculate_cost_micro_cents
cost_cents-le_of_tokens u h = omega arith
