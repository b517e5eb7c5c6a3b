-- ===== src/Core/Pricing/Usd.antt =====
-- `usdToMicros` of src/core/pricing.ts: a decimal text, which may have an exponent, in millionths.
use Prim.Native.Char.{Char, code}
use fuse_agent_control_plane.Base.{
  ℕ, ◌+◌, ◌-◌, ◌*◌, ◌^◌, leb, eqb, Bool, true, false, ◌&&◌, ◌||◌, not, Option, none, some, String,
  Result, ok, ◌>>◌, throw_if, if◌then◌else◌,
}
use fuse_agent_control_plane.Core.Pricing.{
  PricingError, invalid_provider_cost, all_digits, is_empty_text, digit_count, split_point,
  digits_value, ceil_div,
}

-- The text before the first `e` or `E` and the one after it.
abbrev add_first : Char → String × Option String → String × Option String
add_first c (mantissa, exponent) = (String.◌∷◌ c mantissa, exponent)

split_exponent : String → String × Option String
split_exponent String.[] = ("", none)
split_exponent (String.◌∷◌ c s) =
    let rest = split_exponent s in
    if eqb (code c) b'e' || eqb (code c) b'E' then ("", some s) else add_first c rest

abbrev is_number : String → Bool
is_number s = not (is_empty_text s) && all_digits s

abbrev is_number_option : Option String → Bool
is_number_option none = true
is_number_option (some s) = is_number s

-- Whether the exponent is below zero, and its digits.
signed : String → Bool × String
signed String.[] = (false, "")
signed (String.◌∷◌ c s) =
    if eqb (code c) b'-'
    then (true, s)
    else if eqb (code c) b'+'
    then (false, s)
    else (false, String.◌∷◌ c s)

abbrev exponent_text : Option String → Bool × String
exponent_text none = (false, "0")
exponent_text (some s) = signed s

abbrev fraction_text : Option String → String
fraction_text none = ""
fraction_text (some s) = s

-- The regular expression `^(\d+)(?:\.(\d+))?(?:[eE]([+-]?\d+))?$`, of a text so cut.
matches_cost : String × Option String → Bool × String → Bool
unfolding all_digits
matches_cost (whole, fraction) (negative, exponent) =
    is_number whole && is_number_option fraction && is_number exponent

-- `digits * 10 ** power` for a power that is not negative, else the quotient rounded up. The power
-- is 6, plus the exponent, minus the length of the fraction.
unfoldable pub scale_digits : ℕ → Bool → ℕ → ℕ → ℕ
unfolding ceil_div
scale_digits digits negative exponent places =
    let up = if negative then 6 else 6 + exponent in
    let down = if negative then places + exponent else places in
    if leb down up then digits * 10 ^ (up - down) else ceil_div digits (10 ^ (down - up))

unfoldable pub usd_to_micros : String → Result PricingError ℕ
unfolding split_exponent signed matches_cost scale_digits split_point digit_count digits_value
usd_to_micros value =
    let cut = split_exponent value in
    let mantissa = split_point cut.0 in
    let exponent = exponent_text cut.1 in
    let fraction = fraction_text mantissa.1 in
    throw_if (not (matches_cost mantissa exponent)) invalid_provider_cost
    >> throw_if (not (leb (digits_value 0 exponent.1) 100)) invalid_provider_cost
    >> ok (
        scale_digits (digits_value (digits_value 0 mantissa.0) fraction) exponent.0
          (digits_value 0 exponent.1) (digit_count fraction))
