-- ===== src/Pricing/Totals.antt =====
-- What an organisation pays, against a price list by seat number (pricing_math.ts).
use byos_email.Base.{
  ℕ, zero, suc, ◌+◌, ◌-◌, ◌*◌, ◌≤◌, ◌≡◌, refl, sym, ◌∙◌, ap, none, List, [], ◌∷◌, ◌⊎◌, inl, inr,
  leb, if◌then◌else◌, min, arith,
}
use native.Mathlib.Nat.{le_of_eq}
use byos_email.Pricing.{
  BillingCycle, monthly, annual, TierBracket, tier_brackets, seat_count_of, capacity, Rounding,
  waterfall, sum_of, calculate_graduated_pricing,
}

-- The monthly rate of the seat with this number, in cents.
abbrev pub seat_rate : ℕ → ℕ
seat_rate i =
    if leb i 10
    then 300
    else if leb i 25
    then 285
    else if leb i 50
    then 271
    else if leb i 100
    then 257
    else 244

-- Seats 1 to n, each at its own rate.
pub price_by_seat : ℕ → ℕ
price_by_seat zero = 0
price_by_seat (suc n) = price_by_seat n + seat_rate (suc n)

closed : ℕ → ℕ
closed n =
    300 * min n 10
    + 285 * (min n 25 - 10)
    + 271 * (min n 50 - 25)
    + 257 * (min n 100 - 50)
    + 244 * (n - 100)

price_by_seat-closed : (n : ℕ) → price_by_seat n ≡ closed n
unfolding price_by_seat closed
price_by_seat-closed zero = refl
price_by_seat-closed (suc n) = ground (arith, price_by_seat-closed n)

module _ (r : Rounding) where
  waterfall-closed : (n : ℕ) → 1 ≤ n → sum_of (λ l. l.cost) (waterfall r n tier_brackets) ≡ closed n
  unfolding waterfall closed
  waterfall-closed n h = ground arith

  seat_count-pos : (n : ℕ) → 1 ≤ seat_count_of n
  seat_count-pos n = ground arith

  -- The monthly total is the sum over the seats 1 to n, each at the rate of the bracket that its
  -- number lies in, for either billing cycle.
  pub base-eq-price_by_seat :
      (seats : ℕ) (cycle : BillingCycle)
      → (calculate_graduated_pricing r seats cycle).base_monthly_total
        ≡ price_by_seat (seat_count_of seats)
  unfolding calculate_graduated_pricing
  base-eq-price_by_seat seats monthly =
      waterfall-closed (seat_count_of seats) (seat_count-pos seats)
      ∙ sym (price_by_seat-closed (seat_count_of seats))
  base-eq-price_by_seat seats annual =
      waterfall-closed (seat_count_of seats) (seat_count-pos seats)
      ∙ sym (price_by_seat-closed (seat_count_of seats))

  price_by_seat_mono : (m k : ℕ) → price_by_seat m ≤ price_by_seat (k + m)
  unfolding price_by_seat
  price_by_seat_mono m zero = le_of_eq (ap price_by_seat (omega arith))
  price_by_seat_mono m (suc k) =
      let step : suc k + m ≡ suc (k + m) = omega arith in
      rw step (ground (arith, price_by_seat_mono m k))

  -- With at least as many seats the monthly total is at least as high.
  base_mono :
      (m n : ℕ) (c d : BillingCycle)
      → 1 ≤ m
      → m ≤ n
      → (calculate_graduated_pricing r m c).base_monthly_total
        ≤ (calculate_graduated_pricing r n d).base_monthly_total
  base_mono m n c d p q =
      let seats_m : seat_count_of m ≡ m = ground arith in
      let seats_n : seat_count_of n ≡ (n - m) + m = ground arith in
      rw (base-eq-price_by_seat m c)
        (rw (base-eq-price_by_seat n d) (rw (seats_m, seats_n) (price_by_seat_mono m (n - m))))

  capacity-open : (b : TierBracket) (n : ℕ) → b.max_seats ≡ none → capacity b n ≡ n
  capacity-open b n e = rw e

  -- An open-ended bracket takes all the seats that reach it.
  abbrev HasOpenEnd : List TierBracket → Type 0
  HasOpenEnd [] = ⊥
  HasOpenEnd (b ∷ bs) = (b.max_seats ≡ none) ⊎ HasOpenEnd bs

  waterfall-zero : (bs : List TierBracket) → waterfall r 0 bs ≡ []
  unfolding waterfall
  waterfall-zero [] = refl
  waterfall-zero (b ∷ bs) = refl

  waterfall-seats :
      (n : ℕ) (bs : List TierBracket)
      → HasOpenEnd bs
      → sum_of (λ l. l.seats_in_tier) (waterfall r n bs) ≡ n
  unfolding waterfall
  waterfall-seats n [] h = absurd h
  waterfall-seats n (b ∷ bs) (inl e) =
      let all_of_them : min n (capacity b n) ≡ n = omega (arith, capacity-open b n e) in
      let none_left : n - n ≡ 0 = omega arith in
      rw all_of_them (rw none_left (rw waterfall-zero (ground arith)))
  waterfall-seats n (b ∷ bs) (inr h) =
      ground (arith, waterfall-seats (n - min n (capacity b n)) bs h)

  -- Every seat is on exactly one line: the seats of the lines add up to the seat count.
  seats-sum :
      (seats : ℕ)
      → sum_of (λ l. l.seats_in_tier) (calculate_graduated_pricing r seats monthly).lines
        ≡ (calculate_graduated_pricing r seats monthly).seat_count
  unfolding calculate_graduated_pricing
  seats-sum seats =
      waterfall-seats (seat_count_of seats) tier_brackets (inr (inr (inr (inr (inl refl)))))

  -- The annual price and the savings shown beside it add up to twelve monthly totals, and the
  -- annual price is ten of them; under the monthly cycle nothing is saved.
  pub annual-savings :
      (seats : ℕ)
      → let p = calculate_graduated_pricing r seats annual in
        let q = calculate_graduated_pricing r seats monthly in
        (p.annual_total + p.annual_savings ≡ 12 * p.base_monthly_total)
        × (p.total_amount ≡ 10 * q.total_amount)
        × (q.annual_total ≡ p.annual_total + p.annual_savings)
        × (q.annual_savings ≡ 0)
  unfolding calculate_graduated_pricing
  annual-savings seats = omega arith
