-- ===== src/Examples/Billing.antt =====
-- The theorem on costs, at the default prices.
use rooben.Prelude.{◌+◌, ◌*◌, ◌≤◌, ◌≡◌, refl}
use rooben.Domain.Models.{TokenUsage}
use rooben.Billing.Costs.{ModelPricing, register, calculate_cost, new_registry}
use rooben.Billing.Costs.Rounding.{calculate_cost-register}

abbrev usage : TokenUsage
usage = record {
  input_tokens = 1001;
  output_tokens = 7;
  cache_read_tokens = 5;
  cache_creation_tokens = 0;
}

-- A provider that is not known gets the price of the model; a half is rounded to the even number.
calculate_cost-other_provider : calculate_cost "other" "gpt-4o" usage new_registry ≡ 2572
unfolding calculate_cost new_registry
calculate_cost-other_provider = refl

-- A price of 3 and 15 dollars, without a cache.
abbrev dear : ModelPricing
dear = record {
  input_per_million = 3_000_000;
  output_per_million = 15_000_000;
  cache_read_per_million = 0;
  cache_write_per_million = 0;
}

calculate_cost-register_example :
    let exact =
      usage.input_tokens * dear.input_per_million
      + usage.output_tokens * dear.output_per_million
      + usage.cache_read_tokens * dear.cache_read_per_million
      + usage.cache_creation_tokens * dear.cache_write_per_million in
    (1_000_000 * calculate_cost "p" "m" usage (register "p" "m" dear new_registry)
      ≤ exact + 500_000)
    × (exact
        ≤ 1_000_000 * calculate_cost "p" "m" usage (register "p" "m" dear new_registry) + 500_000)
calculate_cost-register_example = calculate_cost-register "p" "m" dear new_registry usage
