-- ===== src/Pricing/Apportion.antt =====
-- The cents that the lines of an annual quote lose or gain by rounding are put on the last line
-- (pricing_math.ts, the apportionment).
use byos_email.Base.{
  ℕ, ◌+◌, ◌-◌, ◌*◌, ◌≤◌, ◌≡◌, refl, ◌∙◌, List, [], ◌∷◌, leb, ltb, ◌==◌, ==_iff, min, arith,
  Bool-cases, inl, inr, length, All,
}
use byos_email.Pricing.{
  annual, TierBracket, WaterfallLine, tier_brackets, seat_count_of, capacity, Rounding, waterfall,
  sum_of, line_of, calculate_graduated_pricing, apportion_monthly, apportion_annual, adjust_monthly,
  adjust_annual,
}

abbrev monthly_of : WaterfallLine → ℕ
monthly_of l = l.monthly_equivalent_cost

-- All lines but the last.
abbrev init_sum : (WaterfallLine → ℕ) → List WaterfallLine → ℕ
init_sum f [] = 0
init_sum f (l ∷ []) = 0
init_sum f (l ∷ k ∷ ls) = f l + init_sum f (k ∷ ls)

adjust_monthly-sum :
    (total sum : ℕ) (l : WaterfallLine) (ls : List WaterfallLine)
    → sum_of monthly_of (adjust_monthly total sum (l ∷ ls))
      ≡ init_sum monthly_of (l ∷ ls)
        + (sum_of monthly_of (l ∷ ls) - init_sum monthly_of (l ∷ ls) + total - sum)
unfolding adjust_monthly
adjust_monthly-sum total sum l [] = omega arith
adjust_monthly-sum total sum l (k ∷ ls) = omega (arith, adjust_monthly-sum total sum k ls)

init_sum-le :
    (f : WaterfallLine → ℕ) (l : WaterfallLine) (ls : List WaterfallLine)
    → init_sum f (l ∷ ls) ≤ sum_of f (l ∷ ls)
init_sum-le f l [] = omega arith
init_sum-le f l (k ∷ ls) = omega (arith, init_sum-le f k ls)

apportion_monthly-sum :
    (total : ℕ) (l : WaterfallLine) (ls : List WaterfallLine)
    → init_sum monthly_of (l ∷ ls) ≤ total
    → sum_of monthly_of (apportion_monthly total (l ∷ ls)) ≡ total
unfolding apportion_monthly
apportion_monthly-sum total l ls h = elim (Bool-cases (total == sum_of monthly_of (l ∷ ls))) [
  | inl e ↦ rw e (ground arith)
  | inr e ↦ rw e (
      omega (
        arith,
        adjust_monthly-sum total (sum_of monthly_of (l ∷ ls)) l ls,
        init_sum-le monthly_of l ls,
      ))
]

-- The correction of the annual costs touches no monthly amount.
adjust_annual-monthly :
    (total sum : ℕ) (ls : List WaterfallLine)
    → sum_of monthly_of (adjust_annual total sum ls) ≡ sum_of monthly_of ls
unfolding adjust_annual
adjust_annual-monthly total sum [] = refl
adjust_annual-monthly total sum (l ∷ []) = refl
adjust_annual-monthly total sum (l ∷ k ∷ ls) =
    omega (arith, adjust_annual-monthly total sum (k ∷ ls))

apportion_annual-monthly :
    (total : ℕ) (ls : List WaterfallLine)
    → sum_of monthly_of (apportion_annual total ls) ≡ sum_of monthly_of ls
unfolding apportion_annual
apportion_annual-monthly total ls =
    ground (arith, adjust_annual-monthly total (sum_of (λ l. l.annual_cost) ls) ls)

abbrev annual_of : WaterfallLine → ℕ
annual_of l = l.annual_cost

-- The correction of the monthly amounts touches no annual cost.
adjust_monthly-annual :
    (total sum : ℕ) (ls : List WaterfallLine)
    → sum_of annual_of (adjust_monthly total sum ls) ≡ sum_of annual_of ls
unfolding adjust_monthly
adjust_monthly-annual total sum [] = refl
adjust_monthly-annual total sum (l ∷ []) = refl
adjust_monthly-annual total sum (l ∷ k ∷ ls) =
    omega (arith, adjust_monthly-annual total sum (k ∷ ls))

apportion_monthly-annual :
    (total : ℕ) (ls : List WaterfallLine)
    → sum_of annual_of (apportion_monthly total ls) ≡ sum_of annual_of ls
unfolding apportion_monthly
apportion_monthly-annual total ls =
    ground (arith, adjust_monthly-annual total (sum_of monthly_of ls) ls)

annual-kept :
    (total t : ℕ) (ls : List WaterfallLine)
    → sum_of annual_of ls ≡ total
    → sum_of annual_of (apportion_annual total (apportion_monthly t ls)) ≡ total
unfolding apportion_annual
annual-kept total t ls h =
    let same : sum_of annual_of (apportion_monthly t ls) ≡ total =
      apportion_monthly-annual t ls ∙ h in
    rw same (rw ((==_iff total total).1 refl) same)

module _ (r : Rounding) where
  open r use {round_div, round_div_upper, round_div_lower}

  -- A line's monthly amount is within half a cent of ten twelfths of its cost, and no line costs
  -- less than a seat of the cheapest bracket.
  abbrev IsPriced : WaterfallLine → Type 0
  IsPriced l = (24 * l.monthly_equivalent_cost ≤ 20 * l.cost + 12) × (244 ≤ l.cost)

  IsPriced-line_of :
      (b : TierBracket) (n : ℕ) → 244 ≤ b.unit_rate → 1 ≤ n → IsPriced (line_of r b n)
  IsPriced-line_of b n h k =
      (omega (arith, round_div_upper (n * b.unit_rate * 10) 12 (omega arith)), grind arith)

  abbrev HasRates : List TierBracket → Type 0
  HasRates bs = All (λ b. 244 ≤ b.unit_rate) bs

  waterfall-IsPriced :
      (n : ℕ) (bs : List TierBracket) → HasRates bs → All IsPriced (waterfall r n bs)
  unfolding waterfall
  waterfall-IsPriced n [] h = tt
  waterfall-IsPriced n (b ∷ bs) (h, hs) =
      let rest = waterfall-IsPriced (n - min n (capacity b n)) bs hs in
      elim (Bool-cases (leb n 0)) [
        | inl e ↦ rw e tt
        | inr e ↦ elim (Bool-cases (ltb 0 (min n (capacity b n)))) [
          | inl p ↦ rw (e, p) (IsPriced-line_of b (min n (capacity b n)) h (ground arith), rest)
          | inr p ↦ rw (e, p) rest
        ]
      ]

  length-waterfall : (n : ℕ) (bs : List TierBracket) → length (waterfall r n bs) ≤ length bs
  unfolding waterfall
  length-waterfall n [] = omega arith
  length-waterfall n (b ∷ bs) = ground (arith, length-waterfall (n - min n (capacity b n)) bs)

  init-bound :
      (l : WaterfallLine) (ls : List WaterfallLine)
      → All IsPriced (l ∷ ls)
      → 24 * init_sum monthly_of (l ∷ ls) + 4880
        ≤ 20 * sum_of (λ x. x.cost) (l ∷ ls) + 12 * length ls
  init-bound l [] (h, hs) = omega arith
  init-bound l (k ∷ ls) (h, hs) = omega (arith, init-bound k ls hs)

  -- On at most five lines the lines before the last never exceed the rounded total.
  init-le-total :
      (l : WaterfallLine) (ls : List WaterfallLine)
      → All IsPriced (l ∷ ls)
      → length (l ∷ ls) ≤ 5
      → init_sum monthly_of (l ∷ ls) ≤ round_div (sum_of (λ x. x.cost) (l ∷ ls) * 10) 12
  init-le-total l ls h n = omega (
    arith,
    init-bound l ls h,
    round_div_lower (sum_of (λ x. x.cost) (l ∷ ls) * 10) 12 (omega arith),
  )

  apportioned :
      (ls : List WaterfallLine)
      → 1 ≤ length ls
      → All IsPriced ls
      → length ls ≤ 5
      → sum_of monthly_of (apportion_monthly (round_div (sum_of (λ x. x.cost) ls * 10) 12) ls)
        ≡ round_div (sum_of (λ x. x.cost) ls * 10) 12
  apportioned [] p h n = absurd (omega arith)
  apportioned (l ∷ ls) p h n = apportion_monthly-sum _ l ls (init-le-total l ls h n)

  waterfall-nonempty : (n : ℕ) → 1 ≤ n → 1 ≤ length (waterfall r n tier_brackets)
  unfolding waterfall
  waterfall-nonempty n h = ground arith

  -- However quotients are rounded to within one half, the monthly amounts on the lines of an annual
  -- quote add up to the monthly amount that the quote states.
  pub monthly_lines-sum :
      (seats : ℕ)
      → sum_of (λ l. l.monthly_equivalent_cost) (calculate_graduated_pricing r seats annual).lines
        ≡ (calculate_graduated_pricing r seats annual).total_monthly_cost
  unfolding calculate_graduated_pricing
  monthly_lines-sum seats =
      let n = seat_count_of seats in
      apportion_annual-monthly _ _
      ∙ apportioned (waterfall r n tier_brackets) (waterfall-nonempty n (ground arith))
          (waterfall-IsPriced n tier_brackets (omega arith)) (length-waterfall n tier_brackets)

  annual_of-sum :
      (n : ℕ) (bs : List TierBracket)
      → sum_of (λ l. l.annual_cost) (waterfall r n bs)
        ≡ sum_of (λ l. l.cost) (waterfall r n bs) * 10
  unfolding waterfall
  annual_of-sum n [] = refl
  annual_of-sum n (b ∷ bs) =
      let seats = min n (capacity b n) in
      elim (Bool-cases (leb n 0)) [
        | inl e ↦ rw e
        | inr e ↦ elim (Bool-cases (ltb 0 seats)) [
          | inl p ↦ rw (e, p) (omega (arith, annual_of-sum (n - seats) bs))
          | inr p ↦ rw (e, p) (annual_of-sum (n - seats) bs)
        ]
      ]

  -- The annual costs on the lines of an annual quote add up to the annual total that it states.
  annual_lines-sum :
      (seats : ℕ)
      → sum_of (λ l. l.annual_cost) (calculate_graduated_pricing r seats annual).lines
        ≡ (calculate_graduated_pricing r seats annual).annual_total
  unfolding calculate_graduated_pricing
  annual_lines-sum seats =
      annual-kept _ _ (waterfall r (seat_count_of seats) tier_brackets)
        (annual_of-sum (seat_count_of seats) tier_brackets)
