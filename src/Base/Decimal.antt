-- ===== src/Base/Decimal.antt =====
-- `toString` of a whole number in decimal digits, and `padStart`.
use Prim.Native.Nat.{ℕ, zero, suc, ◌+◌, ◌-◌, ◌*◌, ◌/◌, ◌%◌, ◌^◌, ◌≤◌, ◌<◌}
use mathlib.Core.Path.{◌≡◌, refl}
use mathlib.Core.List.{[], ◌∷◌, ◌++◌}
use native.Mathlib.Nat.{pow-suc}
use native.Mathlib.Omega.{arith}
use byos_email.Base.Tests.{ltb, if◌then◌else◌}
use byos_email.Base.Lists.{length, length-append}
use byos_email.Base.Text.{Text}

-- The fuel is the number of digits that are looked at.
unfoldable pub decimal_from : ℕ → ℕ → Text
decimal_from zero n = []
decimal_from (suc fuel) n =
    let rest = decimal_from fuel (n / 10) in
    if ltb n 10 then (48 + n) ∷ [] else rest ++ (48 + n % 10) ∷ []

-- A number has fewer digits than one more than itself.
unfoldable pub decimal : ℕ → Text
unfolding decimal_from
decimal n = decimal_from (suc n) n

unfoldable pub replicate : ℕ → ℕ → Text
replicate zero c = []
replicate (suc n) c = c ∷ replicate n c

-- `s.padStart(width, c)`
unfoldable pub pad_start : ℕ → ℕ → Text → Text
unfolding replicate
pad_start width c s = replicate (width - length s) c ++ s

power-suc : (k : ℕ) → 10 ^ suc k ≡ 10 * 10 ^ k
power-suc k = simp (pow-suc) (omega arith)

length-decimal_from : (fuel n k : ℕ) → n < 10 ^ k → 1 ≤ k → length (decimal_from fuel n) ≤ k
unfolding decimal_from
length-decimal_from zero n k h p = omega arith
length-decimal_from (suc fuel) n zero h p = absurd (omega arith)
length-decimal_from (suc fuel) n (suc zero) h p = ground arith
length-decimal_from (suc fuel) n (suc (suc k)) h p =
    let power : 10 ^ suc (suc k) ≡ 10 * 10 ^ suc k = power-suc (suc k) in
    ground (
      arith,
      length-decimal_from fuel (n / 10) (suc k) (omega (arith, power)),
      length-append (decimal_from fuel (n / 10)) ((48 + n % 10) ∷ []),
    )

length-replicate : (n c : ℕ) → length (replicate n c) ≡ n
unfolding replicate
length-replicate zero c = refl
length-replicate (suc n) c = omega (arith, length-replicate n c)

-- A text that fits is padded to the width exactly.
pub length-pad_start : (w c : ℕ) (s : Text) → length s ≤ w → length (pad_start w c s) ≡ w
unfolding pad_start
length-pad_start w c s h =
    omega (arith, length-append (replicate (w - length s) c) s, length-replicate (w - length s) c)

-- A number below 10 ^ k has at most k digits.
pub length-decimal : (n k : ℕ) → n < 10 ^ k → 1 ≤ k → length (decimal n) ≤ k
unfolding decimal
length-decimal n k h p = length-decimal_from (suc n) n k h p
