-- ===== src/Base/Text.antt =====
-- Texts as lists of UTF-16 code units, for the code that walks, trims or lowers them. Case mapping
-- is that of the ASCII range: other code units are their own lower case.
use Prim.Native.Nat.{ℕ, ◌+◌, ◌-◌}
use Prim.Native.Char.{code}
use Prim.Native.String.{String}
use mathlib.Core.Path.{◌≡◌, refl}
use mathlib.Core.Logic.{◌↔◌}
use mathlib.Core.Bool.{Bool, true, false, ◌&&◌, ◌||◌}
use mathlib.Core.List.{List, [], ◌∷◌, map}
use native.Mathlib.Omega.{arith}
use byos_email.Base.Tests.{leb, ◌==◌, if◌then◌else◌}

abbrev pub Text : Type 0
Text = List ℕ

-- The code units of a literal.
abbrev pub codes : String → Text
codes String.[] = []
codes (String.◌∷◌ c s) = code c ∷ codes s

-- `===` on texts.
abbrev pub text_eq : Text → Text → Bool
text_eq [] [] = true
text_eq [] (y ∷ ys) = false
text_eq (x ∷ xs) [] = false
text_eq (x ∷ xs) (y ∷ ys) = x == y && text_eq xs ys

pub text_eq_iff : (s t : Text) → (text_eq s t ≡ true) ↔ (s ≡ t)
text_eq_iff [] [] = ground arith
text_eq_iff [] (y ∷ ys) = ground arith
text_eq_iff (x ∷ xs) [] = ground arith
text_eq_iff (x ∷ xs) (y ∷ ys) = ground (arith, text_eq_iff xs ys)

pub text_eq_refl : (s : Text) → text_eq s s ≡ true
text_eq_refl s = (text_eq_iff s s).1 refl

-- `s === ""`, and the truth value of a text.
abbrev pub is_empty : Text → Bool
is_empty [] = true
is_empty (_ ∷ _) = false

-- The line and the paragraph separator, which end a line as a line feed does.
abbrev pub is_separator_unit : ℕ → Bool
is_separator_unit c = leb 8232 c && leb c 8233

-- The blanks beyond the no-break space.
abbrev pub is_wide_blank : ℕ → Bool
is_wide_blank c =
    c == 5760
    || (leb 8192 c && leb c 8202
        || (is_separator_unit c || (c == 8239 || (c == 8287 || (c == 12288 || c == 65279)))))

-- White space as `trim` and `\s` see it.
abbrev pub is_blank : ℕ → Bool
is_blank c = leb 9 c && leb c 13 || (c == 32 || (c == 160 || is_wide_blank c))

unfoldable pub trim_start : Text → Text
trim_start [] = []
trim_start (c ∷ s) = let rest = trim_start s in if is_blank c then rest else c ∷ s

unfoldable pub trim_end : Text → Text
trim_end [] = []
trim_end (c ∷ s) = elim (trim_end s) [ [] ↦ if is_blank c then [] else c ∷ [] | d ∷ r ↦ c ∷ d ∷ r ]

unfoldable pub trim : Text → Text
unfolding trim_start trim_end
trim s = trim_end (trim_start s)

abbrev pub lower_unit : ℕ → ℕ
lower_unit c = if leb 65 c && leb c 90 then c + 32 else c

abbrev pub upper_unit : ℕ → ℕ
upper_unit c = if leb 97 c && leb c 122 then c - 32 else c

unfoldable pub to_lower_case : Text → Text
to_lower_case s = map lower_unit s

unfoldable pub to_upper_case : Text → Text
to_upper_case s = map upper_unit s

abbrev pub starts_with : Text → Text → Bool
starts_with s [] = true
starts_with [] (p ∷ ps) = false
starts_with (c ∷ s) (p ∷ ps) = c == p && starts_with s ps

-- `s.includes(p)`
abbrev pub includes : Text → Text → Bool
includes [] p = is_empty p
includes (c ∷ s) p = starts_with (c ∷ s) p || includes s p
