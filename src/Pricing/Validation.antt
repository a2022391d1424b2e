-- ===== src/Pricing/Validation.antt =====
-- `TokenUsage.__post_init__` of app/services/pricing.py: which constructions are accepted.
use flyrank_backend_capstone.Prelude.{◌≡◌, ◌↔◌, arith}
use flyrank_backend_capstone.Prelude.Int.{ℤ}
use flyrank_backend_capstone.Pricing.Defs.{Construction, constructed, TokenUsage, post_init}
use flyrank_backend_capstone.Prelude.Int.{pos}

-- The four integers of a usage, in the order of the fields.
abbrev pub post_init_of : TokenUsage → Construction
post_init_of u =
    post_init (pos u.input_tokens) (pos u.cached_input_tokens) (pos u.output_tokens)
      (pos u.reasoning_tokens)

-- A construction succeeds exactly when none of its four integers is negative, and the usage that
-- it gives then has those integers as its fields.
pub post_init-eq-constructed :
    (input cached output reasoning : ℤ) (u : TokenUsage)
    → (post_init input cached output reasoning ≡ constructed u) ↔ (
        (input ≡ pos u.input_tokens)
        × (cached ≡ pos u.cached_input_tokens)
        × (output ≡ pos u.output_tokens)
        × (reasoning ≡ pos u.reasoning_tokens))
unfolding post_init
post_init-eq-constructed input cached output reasoning u = (λ h. ground arith, λ h. ground arith)
