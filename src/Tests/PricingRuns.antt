-- ===== src/Tests/PricingRuns.antt =====
-- Costs of usages.
use flyrank_backend_capstone.Prelude.{◌+◌, ◌*◌, ◌≤◌, ◌≡◌, refl, [], ◌∷◌, sum_by, length}
use flyrank_backend_capstone.Prelude.Int.{pos, negsuc}
use flyrank_backend_capstone.Pricing.{
  TokenUsage, value_error, default_settings, post_init, calculate_cost_micro_cents,
  calculate_cost_cents,
}
use flyrank_backend_capstone.Pricing.Rounding.{aggregate, sum-cost_cents-le-aggregate}

-- The usage of EVIDENCE.md, and one below a cent.
abbrev evidence : TokenUsage
evidence = record {
  input_tokens = 1000;
  cached_input_tokens = 500;
  output_tokens = 200;
  reasoning_tokens = 100;
}

abbrev small : TokenUsage
small = record {
  input_tokens = 333;
  cached_input_tokens = 0;
  output_tokens = 0;
  reasoning_tokens = 0;
}

-- 79,000 micro-cents are 7 cents.
evidence_cost :
    (calculate_cost_micro_cents default_settings evidence ≡ 79000)
    × (calculate_cost_cents default_settings evidence ≡ 7)
unfolding calculate_cost_cents calculate_cost_micro_cents
evidence_cost = (refl, refl)

negative_tokens :
    post_init (pos 1) (negsuc 0) (negsuc 4) (pos 0) ≡ value_error "cached_input_tokens"
unfolding post_init
negative_tokens = refl

sum-cost_cents-le-aggregate_example :
    (sum_by (calculate_cost_cents default_settings) (evidence ∷ small ∷ [])
      ≤ calculate_cost_cents default_settings (aggregate (evidence ∷ small ∷ [])))
    × (calculate_cost_micro_cents default_settings (aggregate (evidence ∷ small ∷ []))
        ≤ sum_by (calculate_cost_cents default_settings) (evidence ∷ small ∷ []) * 10000
          + length (evidence ∷ small ∷ []) * 9999)
sum-cost_cents-le-aggregate_example =
    sum-cost_cents-le-aggregate default_settings (evidence ∷ small ∷ [])
