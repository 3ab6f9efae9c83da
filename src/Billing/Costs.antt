-- ===== src/Billing/Costs.antt =====
-- src/rooben/billing/costs.py. A price is a number of micro-dollars for a million tokens, and a cost is a
-- number of micro-dollars, so that prices of at most six decimal places are exact.
pub mod Rounding
use rooben.Prelude.{
  ℕ, ◌+◌, ◌*◌, ◌/◌, ◌%◌, ◌==◌, Bool, true, false, cond, ltb, String, Option, none, some, List, [],
  ◌∷◌, concat, ends_with,
}
use rooben.Dict.{Dict, get, put}
use rooben.Domain.Models.{TokenUsage}

pub record ModelPricing : Type 0 where
  pub input_per_million : ℕ
  pub output_per_million : ℕ
  pub cache_read_per_million : ℕ
  pub cache_write_per_million : ℕ

abbrev pub Pricing : Type 0
Pricing = Dict ModelPricing

-- f"{provider}:{model}"
unfoldable pub pricing_key : String → String → String
unfolding concat
pricing_key provider model = concat (provider ∷ ":" ∷ model ∷ [])

-- register
unfoldable pub register : String → String → ModelPricing → Pricing → Pricing
unfolding pricing_key put
register provider model pricing d = put d (pricing_key provider model) pricing

-- The first entry whose key ends so.
unfoldable pub find_suffix : String → Pricing → Option ModelPricing
unfolding ends_with
find_suffix suffix [] = none
find_suffix suffix ((k, v) ∷ d) =
    let later = find_suffix suffix d in cond (ends_with k suffix) (some v) later

-- get_pricing
unfoldable pub get_pricing : String → String → Pricing → Option ModelPricing
unfolding pricing_key get find_suffix concat
get_pricing provider model d = elim (get d (pricing_key provider model)) [
  | some v ↦ some v
  | none ↦ find_suffix (concat (":" ∷ model ∷ [])) d
]

-- The cost of the usage in millionths of a micro-dollar.
unfoldable pub exact_cost : ModelPricing → TokenUsage → ℕ
exact_cost p u =
    u.input_tokens * p.input_per_million
    + (u.output_tokens * p.output_per_million
        + (u.cache_read_tokens * p.cache_read_per_million
            + u.cache_creation_tokens * p.cache_write_per_million))

-- quantize to whole units of a million: to the nearest, and a half to the even one
unfoldable pub quantize : ℕ → ℕ
quantize n =
    let q = n / 1_000_000 in
    let r = n % 1_000_000 in cond (ltb r 500_000) q (cond (r == 500_000) (q + q % 2) (q + 1))

-- calculate_cost
unfoldable pub calculate_cost : String → String → TokenUsage → Pricing → ℕ
unfolding get_pricing exact_cost quantize
calculate_cost provider model usage d = elim (get_pricing provider model d) [
  | none ↦ 0
  | some p ↦ quantize (exact_cost p usage)
]

unfoldable pub price : ℕ → ℕ → ℕ → ℕ → ModelPricing
price input output cache_read cache_write = record {
  input_per_million = input;
  output_per_million = output;
  cache_read_per_million = cache_read;
  cache_write_per_million = cache_write;
}

-- CostRegistry(), with the prices of `_register_defaults`
unfoldable pub new_registry : Pricing
unfolding register price
new_registry = register "ollama" "mistral" (price 0 0 0 0) (
    register "ollama" "llama3.1" (price 0 0 0 0) (
      register "bedrock" "us.anthropic.claude-haiku-3-5-20241022-v1:0" (price 800_000 4_000_000 0 0)
        (register "bedrock" "us.anthropic.claude-sonnet-4-20250514-v1:0"
          (price 3_000_000 15_000_000 0 0)
          (register "openai" "o3" (price 10_000_000 40_000_000 0 0) (
            register "openai" "gpt-4o-mini" (price 150_000 600_000 0 0) (
              register "openai" "gpt-4o" (price 2_500_000 10_000_000 0 0) (
                register "anthropic" "claude-haiku-3-5-20241022"
                  (price 800_000 4_000_000 80_000 1_000_000)
                  (register "anthropic" "claude-opus-4-20250514"
                    (price 15_000_000 75_000_000 1_500_000 18_750_000)
                    (register "anthropic" "claude-sonnet-4-20250514"
                      (price 3_000_000 15_000_000 300_000 3_750_000) [])))))))))
