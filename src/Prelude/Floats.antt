-- ===== src/Prelude/Floats.antt =====
-- Python's floats, as far as the code adds and compares them. A float is a number of steps of 2 ^ -64,
-- above or below zero, which every hundredth from 0.01 on is a whole number of, and so is every sum of
-- such floats. A sum or a product is the exact one, rounded to 53 bits, ties to even.
use Prim.Native.Nat.{ℕ, zero, suc, ◌+◌, ◌-◌, ◌*◌, ◌/◌, ◌%◌, ◌^◌, ◌≤◌, ◌<◌, min}
use mathlib.Core.Path.{◌≡◌, refl}
use mathlib.Core.Bool.{Bool, true, false, ◌&&◌, ◌||◌}
use mathlib.Core.List.{List, [], ◌∷◌}
use native.Mathlib.Omega.{arith}
use pitch_bot.Prelude.Tests.{ltb, leb, ◌==◌, ltb→lt, if◌then◌else◌}

pub data Float : Type 0 where
  above below : ℕ → Float

-- 1.0
abbrev pub float_one : ℕ
float_one = 2 ^ 64

-- how often a number is halved until 53 bits hold it; the first argument bounds the loop
unfoldable pub exponent_of : ℕ → ℕ → ℕ
exponent_of zero n = 0
exponent_of (suc bound) n = elim (ltb n (2 ^ 53)) [
  | true ↦ 0
  | false ↦ suc (exponent_of bound (n / 2))
]

halved : ℕ → ℕ → ℕ
halved zero n = n
halved (suc k) n = halved k (n / 2)

-- A bound that the number does not exceed is enough.
exponent_of-enough : (bound n : ℕ) → n ≤ bound → halved (exponent_of bound n) n < 2 ^ 53
unfolding exponent_of halved
exponent_of-enough zero n h = omega (arith, h)
exponent_of-enough (suc bound) n h =
    by_size (ltb n (2 ^ 53)) refl (λ k. exponent_of-enough bound (n / 2) k)
  where
    by_size :
        (short : Bool)
        → ltb n (2 ^ 53) ≡ short
        → (n / 2 ≤ bound → halved (exponent_of bound (n / 2)) (n / 2) < 2 ^ 53)
        → halved (elim short [ true ↦ 0 | false ↦ suc (exponent_of bound (n / 2)) ]) n < 2 ^ 53
    by_size true e rest = ltb→lt n (2 ^ 53) e
    by_size false e rest = rest (ground (arith, h, e))

-- `n / d` rounded at an exponent
abbrev pub rounded_at : ℕ → ℕ → ℕ → ℕ
rounded_at e n d =
    let step = d * 2 ^ e in
    let q = n / step in
    let r = n % step in
    (if ltb step (2 * r) || ((2 * r == step) && (q % 2 == 1)) then q + 1 else q) * 2 ^ e

-- the float that is nearest to `n / d` steps
unfoldable pub rounded : ℕ → ℕ → ℕ
rounded n d = rounded_at (exponent_of (n / d) (n / d)) n d

-- what Python reads `0.01 * n` as, when it is written out
unfoldable pub hundredths : ℕ → ℕ
hundredths n = rounded (n * float_one) 100

abbrev pub difference : ℕ → ℕ → Float
difference a b = if leb b a then above (a - b) else below (b - a)

abbrev pub exact_sum : Float → Float → Float
exact_sum (above a) (above b) = above (a + b)
exact_sum (above a) (below b) = difference a b
exact_sum (below a) (above b) = difference b a
exact_sum (below a) (below b) = below (a + b)

abbrev pub rounded_float : Float → Float
rounded_float (above n) = above (rounded n 1)
rounded_float (below n) = below (rounded n 1)

-- `x + y`
unfoldable pub float_add : Float → Float → Float
float_add x y = rounded_float (exact_sum x y)

abbrev pub opposite : Float → Float
opposite (above n) = below n
opposite (below n) = above n

-- `abs(x)`
abbrev pub magnitude : Float → ℕ
magnitude (above n) = n
magnitude (below n) = n

-- `x <= y`
abbrev pub at_most : Float → Float → Bool
at_most (above a) (above b) = leb a b
at_most (above a) (below b) = (a == 0) && (b == 0)
at_most (below a) (above b) = true
at_most (below a) (below b) = leb b a

-- what is lost of `larger + smaller` when it is rounded to `t`
abbrev pub lost : Float → Float → Float → Float
lost larger smaller t = float_add (float_add larger (opposite t)) smaller

-- the loop of `sum`, which from Python 3.12 on adds up what the roundings lose
unfoldable pub sum_from : Float → Float → List Float → Float
sum_from s c [] = float_add s c
sum_from s c (x ∷ xs) =
    let t = float_add s x in
    sum_from t (float_add c (if leb (magnitude x) (magnitude s) then lost s x t else lost x s t)) xs

-- `sum(xs)`
unfoldable pub float_sum : List Float → Float
float_sum [] = above 0
float_sum (x ∷ xs) = sum_from x (above 0) xs

-- `min(1.0, max(0.0, x))`
abbrev pub unit_part : Float → ℕ
unit_part (above n) = min float_one n
unit_part (below n) = 0
