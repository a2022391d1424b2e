-- ===== src/Pricing/Defs.antt =====
-- `TokenUsage` and `PricingCalculator` of app/services/pricing.py.
use flyrank_backend_capstone.Prelude.{ℕ, ◌+◌, ◌*◌, ◌/◌, String}
use flyrank_backend_capstone.Config.{Settings}
use flyrank_backend_capstone.Prelude.Int.{ℤ, pos_part, is_negative}
use flyrank_backend_capstone.Prelude.{if◌then◌else◌}

abbrev pub micro_cents_per_cent : ℕ
micro_cents_per_cent = 10000

-- A constructed `TokenUsage`: `post_init` has rejected negative fields.
pub record TokenUsage : Type 0 where
  pub input_tokens : ℕ
  pub cached_input_tokens : ℕ
  pub output_tokens : ℕ
  pub reasoning_tokens : ℕ

-- `TokenUsage()`
abbrev pub no_tokens : TokenUsage
no_tokens = record {
  input_tokens = 0;
  cached_input_tokens = 0;
  output_tokens = 0;
  reasoning_tokens = 0;
}

-- The construction, or the field that its `ValueError` names.
pub data Construction : Type 0 where
  constructed : TokenUsage → Construction
  value_error : String → Construction

-- `TokenUsage(…)` with `__post_init__`: the loop over the field names, in their order.
unfoldable pub post_init : ℤ → ℤ → ℤ → ℤ → Construction
post_init input cached output reasoning =
    if is_negative input
    then value_error "input_tokens"
    else if is_negative cached
    then value_error "cached_input_tokens"
    else if is_negative output
    then value_error "output_tokens"
    else if is_negative reasoning
    then value_error "reasoning_tokens"
    else constructed (record {
      input_tokens = pos_part input;
      cached_input_tokens = pos_part cached;
      output_tokens = pos_part output;
      reasoning_tokens = pos_part reasoning;
    })

unfoldable pub total_tokens : TokenUsage → ℕ
total_tokens u = u.input_tokens + u.cached_input_tokens + u.output_tokens + u.reasoning_tokens

unfoldable pub calculate_cost_micro_cents : Settings → TokenUsage → ℕ
calculate_cost_micro_cents s u =
    u.input_tokens * s.rate_input_micro_cents_per_token
    + u.cached_input_tokens * s.rate_cached_input_micro_cents_per_token
    + u.output_tokens * s.rate_output_micro_cents_per_token
    + u.reasoning_tokens * s.rate_reasoning_micro_cents_per_token

-- `//` on numbers that are not negative.
unfoldable pub calculate_cost_cents : Settings → TokenUsage → ℕ
calculate_cost_cents s u = calculate_cost_micro_cents s u / micro_cents_per_cent

unfoldable pub calculate_api_call_cost_cents : ℕ
calculate_api_call_cost_cents = 0
