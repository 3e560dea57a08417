-- ===== src/Base/Lists.antt =====
-- Lists measured, filtered and indexed by Boolean tests and native numbers.
use Prim.Native.Nat.{ℕ, zero, suc, ◌+◌}
use Prim.Native.String.{String}
use mathlib.Core.Path.{◌≡◌, refl, ap, fun_ext}
use mathlib.Core.Bool.{Bool, true, false, not, ◌&&◌, ◌||◌}
use mathlib.Core.Option
use mathlib.Core.Option.{Option, none, some}
use mathlib.Core.List.{List, [], ◌∷◌, ◌++◌}
use native.Mathlib.Omega.{arith}
use text.Mathlib.Text.{◌==◌ as str_eq}
use text.Mathlib.TextEquality.{eq_iff}
use byos_email.Base.Tests.{if◌then◌else◌}

module _ {ℓ} {A : Type ℓ} where
  abbrev pub length : List A → ℕ
  length [] = 0
  length (x ∷ xs) = suc (length xs)

  abbrev pub get_elem? : List A → ℕ → Option A
  get_elem? [] i = none
  get_elem? (x ∷ xs) zero = some x
  get_elem? (x ∷ xs) (suc i) = get_elem? xs i

  abbrev pub take : ℕ → List A → List A
  take zero xs = []
  take (suc n) [] = []
  take (suc n) (x ∷ xs) = x ∷ take n xs

  abbrev pub drop : ℕ → List A → List A
  drop zero xs = xs
  drop (suc n) [] = []
  drop (suc n) (x ∷ xs) = drop n xs

  -- `xs.filter(p)`
  abbrev pub filter : (A → Bool) → List A → List A
  filter p [] = []
  filter p (x ∷ xs) = let rest = filter p xs in if p x then x ∷ rest else rest

  -- `xs.some(p)`
  abbrev pub any : (A → Bool) → List A → Bool
  any p [] = false
  any p (x ∷ xs) = p x || any p xs

  -- `xs.every(p)`
  abbrev pub all : (A → Bool) → List A → Bool
  all p [] = true
  all p (x ∷ xs) = p x && all p xs

  -- `xs.find(p)`
  abbrev pub find : (A → Bool) → List A → Option A
  find p [] = none
  find p (x ∷ xs) = let rest = find p xs in if p x then some x else rest

  -- How many elements pass a test.
  abbrev pub count_if : (A → Bool) → List A → ℕ
  count_if p [] = 0
  count_if p (x ∷ xs) = let rest = count_if p xs in if p x then suc rest else rest

  -- `xs.findIndex(p)`, with `none` for -1.
  abbrev pub find_index : (A → Bool) → List A → Option ℕ
  find_index p [] = none
  find_index p (x ∷ xs) =
      let rest = Option.map suc (find_index p xs) in if p x then some 0 else rest

  abbrev pub All {κ} : (A → Type κ) → List A → Type κ
  All P [] = Unit
  All P (x ∷ xs) = P x × All P xs

module _ {ℓ} {A : Type ℓ} where
  pub length-append : (xs ys : List A) → length (xs ++ ys) ≡ length xs + length ys
  length-append [] ys = omega arith
  length-append (x ∷ xs) ys = omega (arith, length-append xs ys)

  pub length-filter : (p : A → Bool) (xs : List A) → length (filter p xs) ≡ count_if p xs
  length-filter p [] = refl
  length-filter p (x ∷ xs) = ground (arith, length-filter p xs)

  pub length-take-drop : (n : ℕ) (xs : List A) → length (take n xs) + length (drop n xs) ≡ length xs
  length-take-drop zero xs = omega arith
  length-take-drop (suc n) [] = omega arith
  length-take-drop (suc n) (x ∷ xs) = omega (arith, length-take-drop n xs)

  pub take-append-drop : (n : ℕ) (xs : List A) → take n xs ++ drop n xs ≡ xs
  take-append-drop zero xs = refl
  take-append-drop (suc n) [] = refl
  take-append-drop (suc n) (x ∷ xs) = ap (◌∷◌ x) (take-append-drop n xs)

-- `new Set(ids)`, `has`, `add` and `delete`: a set of ids in insertion order.
abbrev pub has : List String → String → Bool
has [] id = false
has (x ∷ xs) id = str_eq x id || has xs id

abbrev pub set_add : List String → String → List String
set_add xs id = if has xs id then xs else xs ++ id ∷ []

abbrev pub set_delete : List String → String → List String
set_delete [] id = []
set_delete (x ∷ xs) id = let rest = set_delete xs id in if str_eq x id then rest else x ∷ rest

abbrev pub set_of_from : List String → List String → List String
set_of_from acc [] = acc
set_of_from acc (x ∷ xs) = set_of_from (set_add acc x) xs

abbrev pub set_of : List String → List String
set_of xs = set_of_from [] xs

pub has-append : (xs ys : List String) (id : String) → has (xs ++ ys) id ≡ (has xs id || has ys id)
has-append [] ys id = refl
has-append (x ∷ xs) ys id = ground (arith, has-append xs ys id)

pub has-set_add :
    (xs : List String) (a b : String) → has (set_add xs a) b ≡ (str_eq a b || has xs b)
has-set_add xs a b = ground (arith, has-append xs (a ∷ []) b, eq_iff a b, has_eq xs a b)
  where
    has_eq : (l : List String) (c d : String) → c ≡ d → has l c ≡ has l d
    has_eq l c d e = ap (has l) e

pub has-set_delete :
    (xs : List String) (a b : String) → has (set_delete xs a) b ≡ (not (str_eq a b) && has xs b)
has-set_delete [] a b = ground arith
has-set_delete (x ∷ xs) a b =
    ground (arith, has-set_delete xs a b, eq_iff x a, eq_iff x b, eq_iff a b)

has-set_of_from :
    (acc xs : List String) (id : String) → has (set_of_from acc xs) id ≡ (has acc id || has xs id)
has-set_of_from acc [] id = ground arith
has-set_of_from acc (x ∷ xs) id =
    ground (arith, has-set_of_from (set_add acc x) xs id, has-set_add acc x id)

-- Building a set from a list keeps the membership test.
pub has-set_of : (xs : List String) (id : String) → has (set_of xs) id ≡ has xs id
has-set_of xs id = has-set_of_from [] xs id

pub count_if_ext {ℓ} :
    {A : Type ℓ} (p q : A → Bool) (xs : List A)
    → ((x : A) → p x ≡ q x)
    → count_if p xs ≡ count_if q xs
count_if_ext p q xs h = ap (λ r. count_if r xs) (fun_ext h)

pub filter-append {ℓ} :
    {A : Type ℓ} (p : A → Bool) (xs ys : List A) → filter p (xs ++ ys) ≡ filter p xs ++ filter p ys
filter-append p [] ys = refl
filter-append p (x ∷ xs) ys = ground (arith, filter-append p xs ys)
