-- ===== src/Billing/Costs/Rounding.antt =====
-- The rounding of a cost.
use rooben.Prelude.{ℕ, ◌+◌, ◌*◌, ◌≤◌, ◌≡◌, String, some, arith}
use rooben.Dict.Laws.{get-put_self}
use rooben.Domain.Models.{TokenUsage}
use rooben.Billing.Costs.{
  ModelPricing, Pricing, pricing_key, register, get_pricing, exact_cost, quantize, calculate_cost,
}

quantize-nearest :
    (n : ℕ) → (1_000_000 * quantize n ≤ n + 500_000) × (n ≤ 1_000_000 * quantize n + 500_000)
unfolding quantize
quantize-nearest n = (ground arith, ground arith)

get_pricing-register :
    (provider model : String) (p : ModelPricing) (d : Pricing)
    → get_pricing provider model (register provider model p d) ≡ some p
unfolding get_pricing register
get_pricing-register provider model p d =
    let found = get-put_self d (pricing_key provider model) p in rw (get_pricing, register, found)

-- Once a price is registered for a provider's model, whatever was registered before, the cost of a usage
-- of that model is within half a micro-dollar of the sum of its input, output, cache-read and
-- cache-creation tokens, each at the registered price of its kind.
pub calculate_cost-register :
    (provider model : String) (p : ModelPricing) (d : Pricing) (u : TokenUsage)
    → let exact =
        u.input_tokens * p.input_per_million
        + u.output_tokens * p.output_per_million
        + u.cache_read_tokens * p.cache_read_per_million
        + u.cache_creation_tokens * p.cache_write_per_million in
      (1_000_000 * calculate_cost provider model u (register provider model p d) ≤ exact + 500_000)
      × (exact
          ≤ 1_000_000 * calculate_cost provider model u (register provider model p d) + 500_000)
unfolding calculate_cost exact_cost
calculate_cost-register provider model p d u =
    let near = quantize-nearest (exact_cost p u) in
    rw (calculate_cost, get_pricing-register provider model p d)
      (omega (arith, near.0), omega (arith, near.1))
