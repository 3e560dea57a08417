-- ===== src/Password/Strength.antt =====
-- What the score of a password means (`evaluatePasswordStrength` of client_crypto.ts).
use byos_email.Base.{
  ℕ, ◌+◌, ◌≤◌, ◌≡◌, ◌↔◌, refl, Bool, true, false, ◌&&◌, ◌||◌, [], ◌∷◌, ◌++◌, arith, any, leb,
  length, length-append,
}
use byos_email.Base.Text.{Text}
use byos_email.Password.{
  is_lower, is_upper, is_digit, is_special, point, criteria_met, grade, evaluate_password_strength,
}

grade-compliant :
    (criteria len : ℕ) → ((leb 4 criteria && leb 10 len) ≡ true) ↔ (3 ≤ (grade criteria len).0)
unfolding grade
grade-compliant criteria len = ground arith

-- A password is compliant exactly where its score is 3 or 4.
compliant_iff_score :
    (p : Text)
    → ((evaluate_password_strength p).is_compliant ≡ true)
      ↔ (3 ≤ (evaluate_password_strength p).score)
unfolding evaluate_password_strength
compliant_iff_score p = grade-compliant (criteria_met p) (length p)

grade_mono : (c d m n : ℕ) → c ≤ d → m ≤ n → (grade c m).0 ≤ (grade d n).0
unfolding grade
grade_mono c d m n h k = ground arith

any-append : (p : ℕ → Bool) (s t : Text) → any p (s ++ t) ≡ (any p s || any p t)
any-append p [] t = refl
any-append p (c ∷ s) t = ground (arith, any-append p s t)

point-or : (a b : Bool) → point a ≤ point (a || b)
point-or true b = omega arith
point-or false b = omega arith

longer : (m n : ℕ) → point (leb 10 m) ≤ point (leb 10 (m + n))
longer m n = ground arith

criteria_mono : (s t : Text) → criteria_met s ≤ criteria_met (s ++ t)
criteria_mono s t =
    rw
      (
        length-append s t,
        any-append is_lower s t,
        any-append is_upper s t,
        any-append is_digit s t,
        any-append is_special s t,
      )
      (omega (
        arith,
        longer (length s) (length t),
        point-or (any is_lower s) (any is_lower t),
        point-or (any is_upper s) (any is_upper t),
        point-or (any is_digit s) (any is_digit t),
        point-or (any is_special s) (any is_special t),
      ))

-- Typing more characters never lowers the score.
score_mono :
    (s t : Text)
    → (evaluate_password_strength s).score ≤ (evaluate_password_strength (s ++ t)).score
unfolding evaluate_password_strength
score_mono s t =
    grade_mono (criteria_met s) (criteria_met (s ++ t)) (length s) (length (s ++ t))
      (criteria_mono s t) (omega (arith, length-append s t))
