-- ===== src/Pricing.antt =====
-- The graduated price engine, apps/control-plane/src/lib/pricing_math.ts (its copy in
-- apps/public-site is the same file). Amounts are whole cents. A cost `Math.round(seats * rate *
-- 100) / 100` is then the product itself; a quotient goes through the section's rounding.
pub mod Totals
pub mod Apportion
mod Tests
use byos_email.Base.{
  ℕ, zero, suc, ◌+◌, ◌-◌, ◌*◌, ◌≤◌, Bool, true, false, Option, none, some, List, [], ◌∷◌, ◌++◌,
  String, leb, ltb, ◌==◌, if◌then◌else◌, min, max,
}

pub data BillingCycle : Type 0 where
  monthly annual : BillingCycle

-- `max_seats` is `none` for Infinity.
pub record TierBracket : Type 0 where
  pub tier : ℕ
  pub name : String
  pub range_label : String
  pub min_seats : ℕ
  pub max_seats : Option ℕ
  pub unit_rate : ℕ
  pub discount_badge : Option String

pub record WaterfallLine : Type 0 where
  pub tier : ℕ
  pub name : String
  pub range_label : String
  pub seats_in_tier : ℕ
  pub unit_rate : ℕ
  pub cost : ℕ
  pub annual_cost : ℕ
  pub monthly_equivalent_cost : ℕ
  pub discount_badge : Option String

pub record ResourceLimits : Type 0 where
  pub max_domains : ℕ
  pub max_aliases : ℕ
  pub extra_domain_price_monthly : ℕ

pub record PricingBreakdown : Type 0 where
  pub seat_count : ℕ
  pub billing_cycle : BillingCycle
  pub lines : List WaterfallLine
  pub base_monthly_total : ℕ
  pub total_monthly_cost : ℕ
  pub total_amount : ℕ
  pub annual_total : ℕ
  pub annual_savings : ℕ
  pub blended_rate : ℕ
  pub resource_limits : ResourceLimits

-- `TIER_BRACKETS`
abbrev pub tier_1 : TierBracket
tier_1 = record {
  tier = 1;
  name = "Tier 1";
  range_label = "Seats 1–10";
  min_seats = 1;
  max_seats = some 10;
  unit_rate = 300;
  discount_badge = none;
}

abbrev pub tier_2 : TierBracket
tier_2 = record {
  tier = 2;
  name = "Tier 2";
  range_label = "Seats 11–25";
  min_seats = 11;
  max_seats = some 25;
  unit_rate = 285;
  discount_badge = some "-5% Volume Discount";
}

abbrev pub tier_3 : TierBracket
tier_3 = record {
  tier = 3;
  name = "Tier 3";
  range_label = "Seats 26–50";
  min_seats = 26;
  max_seats = some 50;
  unit_rate = 271;
  discount_badge = some "-10% Volume Discount";
}

abbrev pub tier_4 : TierBracket
tier_4 = record {
  tier = 4;
  name = "Tier 4";
  range_label = "Seats 51–100";
  min_seats = 51;
  max_seats = some 100;
  unit_rate = 257;
  discount_badge = some "-14% Volume Discount";
}

abbrev pub tier_5 : TierBracket
tier_5 = record {
  tier = 5;
  name = "Tier 5";
  range_label = "Seats 101+";
  min_seats = 101;
  max_seats = none;
  unit_rate = 244;
  discount_badge = some "-19% Volume Discount";
}

abbrev pub tier_brackets : List TierBracket
tier_brackets = tier_1 ∷ tier_2 ∷ tier_3 ∷ tier_4 ∷ tier_5 ∷ []

-- `Math.max(1, Math.floor(seats || 1))` for a whole number of seats
abbrev pub seat_count_of : ℕ → ℕ
seat_count_of seats = max 1 (if seats == 0 then 1 else seats)

unfoldable pub calculate_resource_limits : ℕ → ResourceLimits
calculate_resource_limits seats =
    let count = seat_count_of seats in
    record {
      max_domains = if leb 26 count then 10 else if leb 11 count then 5 else 3;
      max_aliases = count * 10;
      extra_domain_price_monthly = 150;
    }

abbrev pub capacity : TierBracket → ℕ → ℕ
capacity b remaining = elim b.max_seats [ none ↦ remaining | some m ↦ m - b.min_seats + 1 ]

-- `Math.round(x / d)`, where the quotient of doubles may fall on either side of a tie. The
-- contract of a rounding: the result is within one half of the quotient.
pub record Rounding : Type 0 where
  pub round_div : ℕ → ℕ → ℕ
  pub round_div_upper : (a d : ℕ) → 1 ≤ d → 2 * (d * round_div a d) ≤ 2 * a + d
  pub round_div_lower : (a d : ℕ) → 1 ≤ d → 2 * a ≤ 2 * (d * round_div a d) + d

abbrev pub sum_of : (WaterfallLine → ℕ) → List WaterfallLine → ℕ
sum_of f [] = 0
sum_of f (l ∷ ls) = f l + sum_of f ls

-- `lines[lines.length - 1].monthlyEquivalentCost` changed by `total - sum`; the difference may be
-- negative.
pub adjust_monthly : ℕ → ℕ → List WaterfallLine → List WaterfallLine
adjust_monthly total sum [] = []
adjust_monthly total sum (l ∷ []) =
    record l { monthly_equivalent_cost = l.monthly_equivalent_cost + total - sum } ∷ []
adjust_monthly total sum (l ∷ k ∷ ls) = l ∷ adjust_monthly total sum (k ∷ ls)

pub adjust_annual : ℕ → ℕ → List WaterfallLine → List WaterfallLine
adjust_annual total sum [] = []
adjust_annual total sum (l ∷ []) = record l { annual_cost = l.annual_cost + total - sum } ∷ []
adjust_annual total sum (l ∷ k ∷ ls) = l ∷ adjust_annual total sum (k ∷ ls)

-- The two corrections, each made only if the difference is not zero.
unfoldable pub apportion_monthly : ℕ → List WaterfallLine → List WaterfallLine
unfolding adjust_monthly
apportion_monthly total ls =
    let sum = sum_of (λ l. l.monthly_equivalent_cost) ls in
    if total == sum then ls else adjust_monthly total sum ls

unfoldable pub apportion_annual : ℕ → List WaterfallLine → List WaterfallLine
unfolding adjust_annual
apportion_annual total ls =
    let sum = sum_of (λ l. l.annual_cost) ls in
    if total == sum then ls else adjust_annual total sum ls

module _ (r : Rounding) where
  open r use {round_div}

  abbrev pub line_of : TierBracket → ℕ → WaterfallLine
  line_of b seats =
      let cost = seats * b.unit_rate in
      record {
        tier = b.tier;
        name = b.name;
        range_label = b.range_label;
        seats_in_tier = seats;
        unit_rate = b.unit_rate;
        cost = cost;
        annual_cost = cost * 10;
        monthly_equivalent_cost = round_div (cost * 10) 12;
        discount_badge = b.discount_badge;
      }

  -- The loop over the brackets, with the seats that remain.
  pub waterfall : ℕ → List TierBracket → List WaterfallLine
  waterfall remaining [] = []
  waterfall remaining (b ∷ bs) =
      let seats = min remaining (capacity b remaining) in
      let rest = waterfall (remaining - seats) bs in
      if leb remaining 0 then [] else if ltb 0 seats then line_of b seats ∷ rest else rest

  abbrev pub lines_for : ℕ → List WaterfallLine
  lines_for seats = waterfall (seat_count_of seats) tier_brackets

  abbrev pub base_of : ℕ → ℕ
  base_of seats = sum_of (λ l. l.cost) (lines_for seats)

  unfoldable pub calculate_graduated_pricing : ℕ → BillingCycle → PricingBreakdown
  unfolding waterfall apportion_monthly apportion_annual
  calculate_graduated_pricing seats annual =
      let base = base_of seats in
      let annual_total = base * 10 in
      let total_monthly_cost = round_div annual_total 12 in
      record {
        seat_count = seat_count_of seats;
        billing_cycle = annual;
        lines =
            apportion_annual annual_total (apportion_monthly total_monthly_cost (lines_for seats));
        base_monthly_total = base;
        total_monthly_cost = total_monthly_cost;
        total_amount = annual_total;
        annual_total = annual_total;
        annual_savings = base * 2;
        blended_rate = round_div annual_total (12 * seat_count_of seats);
        resource_limits = calculate_resource_limits (seat_count_of seats);
      }
  calculate_graduated_pricing seats monthly =
      let base = base_of seats in
      record {
        seat_count = seat_count_of seats;
        billing_cycle = monthly;
        lines = lines_for seats;
        base_monthly_total = base;
        total_monthly_cost = base;
        total_amount = base;
        annual_total = base * 12;
        annual_savings = 0;
        blended_rate = round_div base (seat_count_of seats);
        resource_limits = calculate_resource_limits (seat_count_of seats);
      }
