-- ===== src/Core/Pricing/Bounds.antt =====
-- How costs compare.
use native.Mathlib.Nat.{mul-le-mul_right}
use fuse_agent_control_plane.Base.{
  ℕ, ◌+◌, ◌*◌, ◌≤◌, pos, ltb_ℤ, int, is_safe_integer, true, not, ◌||◌, String, ok, throw_if,
  >>-eq-ok, >>=-eq-ok, ok-injective, ◌≡◌, refl, sym, arith,
}
use fuse_agent_control_plane.Core.Pricing.{
  invalid_token_count, TokenPrice, scale, decimal_to_scaled, ceil_div, token_cost_micros,
  calculate_cost_micros, calculate_maximum_cost_micros,
}

-- The quotient by the scale is rounded up: it is the least that covers the numerator.
ceil_div_least : (a q : ℕ) → (a ≤ ceil_div a scale * scale) × (a ≤ q * scale → ceil_div a scale ≤ q)
unfolding ceil_div
ceil_div_least a q = (omega arith, λ h. omega arith)

-- What a token count costs, where it costs anything.
token_cost_cases :
    (n : ℕ) (usd : String) {c : ℕ}
    → token_cost_micros (int (pos n)) usd ≡ ok c
    → (p : ℕ) × (decimal_to_scaled usd ≡ ok p)
      × (is_safe_integer (int (pos n)) ≡ true)
      × (c ≡ ceil_div (n * p) scale)
unfolding token_cost_micros
token_cost_cases n usd e =
    let (counted, rest) =
      >>-eq-ok
        (throw_if (not (is_safe_integer (int (pos n))) || ltb_ℤ (pos n) (pos 0))
          invalid_token_count)
        _ e in
    let (p, price, last) = >>=-eq-ok (decimal_to_scaled usd) _ rest in
    (p, price, ground (arith, counted), sym (ok-injective last))

fewer_tokens_cost_less :
    (a n : ℕ) (usd : String) {m : ℕ}
    → a ≤ n
    → token_cost_micros (int (pos n)) usd ≡ ok m
    → (c : ℕ) × (token_cost_micros (int (pos a)) usd ≡ ok c) × (c ≤ m)
unfolding token_cost_micros ceil_div
fewer_tokens_cost_less a n usd h e =
    let (p, price, safe, cost) = token_cost_cases n usd e in
    let product = mul-le-mul_right p h in
    (ceil_div (a * p) scale, ground (arith, price, safe), omega (arith, product, cost))

-- If a maximum cost can be computed for a request, a result that uses no more input and output
-- tokens has a cost, and it is within that maximum.
pub cost_within_maximum :
    (input output max_input max_output : ℕ) (price : TokenPrice) {maximum : ℕ}
    → input ≤ max_input
    → output ≤ max_output
    → calculate_maximum_cost_micros
        (record { input_tokens = int (pos max_input); max_output_tokens = int (pos max_output) })
        price
      ≡ ok maximum
    → (cost : ℕ) × (calculate_cost_micros
          (record { input_tokens = int (pos input); output_tokens = int (pos output) })
          price
        ≡ ok cost)
      × (cost ≤ maximum)
unfolding calculate_maximum_cost_micros calculate_cost_micros
cost_within_maximum input output max_input max_output price h k e =
    let (m, e1, rest) =
      >>=-eq-ok (token_cost_micros (int (pos max_input)) price.input_usd_per_million) _ e in
    let (n, e2, last) =
      >>=-eq-ok (token_cost_micros (int (pos max_output)) price.output_usd_per_million) _ rest in
    let (c, f1, below1) = fewer_tokens_cost_less input max_input price.input_usd_per_million h e1 in
    let (d, f2, below2) =
      fewer_tokens_cost_less output max_output price.output_usd_per_million k e2 in
    (c + d, rw (f1, f2) refl, omega (arith, below1, below2, ok-injective last))
