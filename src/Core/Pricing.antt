-- ===== src/Core/Pricing.antt =====
-- src/core/pricing.ts: the price of tokens, in millionths of a dollar, rounded up. A price and a
-- cost are natural numbers, as the code's `bigint` values here are never negative.
pub mod Bounds
pub mod Usd
use Prim.Native.Char.{Char, code}
use Prim.Native.String
use fuse_agent_control_plane.Base.{
  ℕ, suc, ◌+◌, ◌-◌, ◌*◌, ◌/◌, ℤ, pos, pos_part, ltb_ℤ, leb, eqb, Number, is_safe_integer, to_int,
  Bool, true, false, ◌&&◌, ◌||◌, not, Option, none, some, String, Result, ok, err, ◌>>=◌, ◌>>◌,
  throw_if, if◌then◌else◌,
}

pub data PricingError : Type 0 where
  invalid_price invalid_token_count invalid_provider_cost : PricingError

pub record TokenPrice : Type 0 where
  pub input_usd_per_million : String
  pub output_usd_per_million : String

pub record ActualUsage : Type 0 where
  pub input_tokens : Number
  pub output_tokens : Number

pub record MaximumUsage : Type 0 where
  pub input_tokens : Number
  pub max_output_tokens : Number

abbrev pub scale : ℕ
scale = 1000000

-- A non-empty text of decimal digits, and how many they are.
pub all_digits : String → Bool
all_digits String.[] = true
all_digits (String.◌∷◌ c s) = leb b'0' (code c) && leb (code c) b'9' && all_digits s

abbrev pub is_empty_text : String → Bool
is_empty_text String.[] = true
is_empty_text (String.◌∷◌ c s) = false

pub digit_count : String → ℕ
digit_count String.[] = 0
digit_count (String.◌∷◌ c s) = suc (digit_count s)

-- `value.split(".")`, cut at the first point.
abbrev add_front : Char → String × Option String → String × Option String
add_front c (whole, fraction) = (String.◌∷◌ c whole, fraction)

pub split_point : String → String × Option String
split_point String.[] = ("", none)
split_point (String.◌∷◌ c s) =
    let rest = split_point s in if eqb (code c) b'.' then ("", some s) else add_front c rest

-- `^\d+(\.\d{1,6})?$`, of a text so cut.
abbrev is_fraction : Option String → Bool
is_fraction none = true
is_fraction (some f) = all_digits f && leb 1 (digit_count f) && leb (digit_count f) 6

is_price : String × Option String → Bool
unfolding all_digits digit_count
is_price (whole, fraction) = not (is_empty_text whole) && all_digits whole && is_fraction fraction

-- `BigInt` of decimal digits, after those read already.
pub digits_value : ℕ → String → ℕ
digits_value read String.[] = read
digits_value read (String.◌∷◌ c s) = digits_value (read * 10 + (code c - b'0')) s

-- So many zeros behind the digits read, for `padEnd(6, "0")`.
pad : ℕ → ℕ → ℕ
pad ℕ.zero value = value
pad (suc n) value = pad n (value * 10)

abbrev fraction_value : Option String → ℕ
fraction_value none = 0
fraction_value (some f) = pad (6 - digit_count f) (digits_value 0 f)

unfoldable pub decimal_to_scaled : String → Result PricingError ℕ
unfolding split_point is_price digits_value pad
decimal_to_scaled value =
    let parts = split_point value in
    throw_if (not (is_price parts)) invalid_price
    >> ok (digits_value 0 parts.0 * scale + fraction_value parts.1)

-- The source's quotient, for a denominator other than 0.
unfoldable pub ceil_div : ℕ → ℕ → ℕ
ceil_div numerator denominator = (numerator + denominator - 1) / denominator

unfoldable pub token_cost_micros : Number → String → Result PricingError ℕ
token_cost_micros tokens usd_per_million =
    throw_if (not (is_safe_integer tokens) || ltb_ℤ (to_int tokens) (pos 0)) invalid_token_count
    >> (decimal_to_scaled usd_per_million >>= λ price.
        ok (ceil_div (pos_part (to_int tokens) * price) scale))

unfoldable pub calculate_cost_micros : ActualUsage → TokenPrice → Result PricingError ℕ
calculate_cost_micros usage price = do
  input ← token_cost_micros usage.input_tokens price.input_usd_per_million
  output ← token_cost_micros usage.output_tokens price.output_usd_per_million
  ok (input + output)

unfoldable pub calculate_maximum_cost_micros : MaximumUsage → TokenPrice → Result PricingError ℕ
calculate_maximum_cost_micros usage price =
    calculate_cost_micros
      (record { input_tokens = usage.input_tokens; output_tokens = usage.max_output_tokens }) price
