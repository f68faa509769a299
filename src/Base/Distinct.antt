-- ===== src/Base/Distinct.antt =====
-- Lists of texts without a repetition: as many as fit into a list that holds them all.
use eqrcp.Base.Tests.{◌=ₛ◌, if◌then◌else◌}
use eqrcp.Base.Lists.{length, any, All}
use Prim.Native.Nat.{suc, ◌≤◌}
use Prim.Native.String.{String}
use mathlib.Core.Path.{◌≡◌, refl}
use mathlib.Core.Bool.{Bool, true, false, ◌||◌}
use mathlib.Core.List.{List, [], ◌∷◌, ◌++◌}
use native.Mathlib.Omega.{arith}
use text.Mathlib.TextEquality.{eq_iff}

abbrev pub has : String → List String → Bool
has a xs = any (λ x. a =ₛ x) xs

abbrev pub AllDistinct : List String → Type 0
AllDistinct [] = Unit
AllDistinct (x ∷ xs) = (has x xs ≡ false) × AllDistinct xs

-- The list without the first occurrence.
abbrev pub without : String → List String → List String
without a [] = []
without a (x ∷ xs) = if a =ₛ x then xs else x ∷ without a xs

length-without :
    (a : String) (xs : List String) → has a xs ≡ true → suc (length (without a xs)) ≡ length xs
length-without a [] h = cc
length-without a (x ∷ xs) h = ground (arith, length-without a xs)

has-without :
    (a b : String) (xs : List String)
    → a =ₛ b ≡ false
    → has b xs ≡ true
    → has b (without a xs) ≡ true
has-without a b [] ne h = cc
has-without a b (x ∷ xs) ne h =
    ground (arith, has-without a b xs, eq_iff a b, eq_iff a x, eq_iff b x)

pub has-without_other :
    (a b : String) (xs : List String) → a =ₛ b ≡ false → has b (without a xs) ≡ has b xs
has-without_other a b [] ne = refl
has-without_other a b (x ∷ xs) ne =
    ground (arith, has-without_other a b xs ne, eq_iff a b, eq_iff a x, eq_iff b x)

All-without :
    (a : String) (xs ys : List String)
    → has a xs ≡ false
    → All (λ x. has x ys ≡ true) xs
    → All (λ x. has x (without a ys) ≡ true) xs
All-without a [] ys ne h = tt
All-without a (x ∷ xs) ys ne h =
    (has-without a x ys (ground arith) h.0, All-without a xs ys (ground arith) h.1)

pub length-le_of_distinct :
    (xs ys : List String) → AllDistinct xs → All (λ x. has x ys ≡ true) xs → length xs ≤ length ys
length-le_of_distinct [] ys d h = omega arith
length-le_of_distinct (x ∷ xs) ys (new, d) (there, h) = omega (
  arith,
  length-without x ys there,
  length-le_of_distinct xs (without x ys) d (All-without x xs ys new h),
)

pub has-append : (a : String) (xs ys : List String) → has a (xs ++ ys) ≡ has a xs || has a ys
has-append a [] ys = refl
has-append a (x ∷ xs) ys = ground (arith, has-append a xs ys)
