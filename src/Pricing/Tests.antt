-- ===== src/Pricing/Tests.antt =====
-- Runs of the price engine with halves rounded up, against pricing_math.test.ts.
use byos_email.Base.{ℕ, ◌+◌, ◌*◌, ◌/◌, ◌≤◌, ◌≡◌, refl, arith, [], ◌∷◌, map}
use native.Mathlib.Nat.{div-add-mod}
use byos_email.Pricing.{monthly, annual, Rounding, calculate_graduated_pricing, sum_of}
use byos_email.Pricing.Totals.{price_by_seat, base-eq-price_by_seat}
use byos_email.Pricing.Apportion.{monthly_lines-sum}

half_up-upper : (a d : ℕ) → 1 ≤ d → 2 * (d * ((2 * a + d) / (2 * d))) ≤ 2 * a + d
half_up-upper a d h = grind (arith, div-add-mod (2 * a + d) (2 * d))

half_up-lower : (a d : ℕ) → 1 ≤ d → 2 * a ≤ 2 * (d * ((2 * a + d) / (2 * d))) + d
half_up-lower a d h = grind (arith, div-add-mod (2 * a + d) (2 * d))

abbrev half_up : Rounding
half_up = record {
  round_div = λ a d. (2 * a + d) / (2 * d);
  round_div_upper = half_up-upper;
  round_div_lower = half_up-lower;
}

quotes :
    map (λ n. (calculate_graduated_pricing half_up n monthly).base_monthly_total) (1 ∷ 10 ∷ 74 ∷ [])
    ≡ 300 ∷ 3000 ∷ 20218 ∷ []
unfolding calculate_graduated_pricing
quotes = refl

base-eq-price_by_seat_example :
    (calculate_graduated_pricing half_up 60 annual).base_monthly_total ≡ price_by_seat 60
base-eq-price_by_seat_example = base-eq-price_by_seat half_up 60 annual

monthly_lines-sum_example :
    sum_of (λ l. l.monthly_equivalent_cost) (calculate_graduated_pricing half_up 46 annual).lines
    ≡ (calculate_graduated_pricing half_up 46 annual).total_monthly_cost
monthly_lines-sum_example = monthly_lines-sum half_up 46
