-- ===== src/Base/Trim.antt =====
-- Laws of `trim`.
use Prim.Native.Nat.{ℕ}
use mathlib.Core.Path.{◌≡◌, refl}
use mathlib.Core.Logic.{inl, inr}
use mathlib.Core.Bool.{false}
use mathlib.Core.List.{[], ◌∷◌}
use byos_email.Base.Tests.{Bool-cases, if◌then◌else◌}
use byos_email.Base.Text.{Text, is_blank, trim, trim_start, trim_end}

-- A text that starts with a character that is not blank, or is empty.
abbrev pub IsTrimmedStart : Text → Type 0
IsTrimmedStart [] = Unit
IsTrimmedStart (c ∷ s) = is_blank c ≡ false

pub trim_start-IsTrimmedStart : (s : Text) → IsTrimmedStart (trim_start s)
unfolding trim_start
trim_start-IsTrimmedStart [] = tt
trim_start-IsTrimmedStart (c ∷ s) = elim (Bool-cases (is_blank c)) [
  | inl e ↦ rw e (trim_start-IsTrimmedStart s)
  | inr e ↦ rw e e
]

pub trim_start-of-IsTrimmedStart : (s : Text) → IsTrimmedStart s → trim_start s ≡ s
unfolding trim_start
trim_start-of-IsTrimmedStart [] h = refl
trim_start-of-IsTrimmedStart (c ∷ s) h = rw h refl

trim_end_cons : ℕ → Text → Text
trim_end_cons c [] = if is_blank c then [] else c ∷ []
trim_end_cons c (d ∷ r) = c ∷ d ∷ r

trim_end-cons : (c : ℕ) (s : Text) → trim_end (c ∷ s) ≡ trim_end_cons c (trim_end s)
unfolding trim_end trim_end_cons
trim_end-cons c s = refl

trim_end_cons-start : (c : ℕ) (r : Text) → is_blank c ≡ false → IsTrimmedStart (trim_end_cons c r)
unfolding trim_end_cons
trim_end_cons-start c [] h = rw h h
trim_end_cons-start c (d ∷ r) h = h

trim_end_cons-again :
    (c : ℕ) (r : Text) → trim_end r ≡ r → trim_end (trim_end_cons c r) ≡ trim_end_cons c r
unfolding trim_end_cons
trim_end_cons-again c [] e = elim (Bool-cases (is_blank c)) [
  | inl f ↦ rw f e
  | inr f ↦ rw f (unfold trim_end in rw f refl)
]
trim_end_cons-again c (d ∷ r) e = rw (trim_end-cons c (d ∷ r), e) refl

pub trim_end-IsTrimmedStart : (s : Text) → IsTrimmedStart s → IsTrimmedStart (trim_end s)
unfolding trim_end
trim_end-IsTrimmedStart [] h = tt
trim_end-IsTrimmedStart (c ∷ s) h = rw (trim_end-cons c s) (trim_end_cons-start c (trim_end s) h)

pub trim_end_idempotent : (s : Text) → trim_end (trim_end s) ≡ trim_end s
unfolding trim_end
trim_end_idempotent [] = refl
trim_end_idempotent (c ∷ s) =
    rw (trim_end-cons c s) (trim_end_cons-again c (trim_end s) (trim_end_idempotent s))

pub trim-IsTrimmedStart : (s : Text) → IsTrimmedStart (trim s)
unfolding trim
trim-IsTrimmedStart s = trim_end-IsTrimmedStart (trim_start s) (trim_start-IsTrimmedStart s)

-- Trimming twice is trimming once.
pub trim_idempotent : (s : Text) → trim (trim s) ≡ trim s
unfolding trim
trim_idempotent s =
    rw
      (trim_start-of-IsTrimmedStart (trim_end (trim_start s))
        (trim_end-IsTrimmedStart (trim_start s) (trim_start-IsTrimmedStart s)))
      (trim_end_idempotent (trim_start s))
