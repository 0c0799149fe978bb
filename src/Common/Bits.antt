-- ===== src/Common/Bits.antt =====
-- The bit operations of Rust on `u32`, by the digits of their operands, and their laws for masks of
-- one bit.
use Prim.Native.Nat.{ℕ, zero, suc, ◌+◌, ◌-◌, ◌*◌, ◌/◌, ◌%◌, ◌<◌}
use mathlib.Core.Path.{◌≡◌, refl, ap, ◌∙◌}
use mathlib.Core.Logic.{◌⊎◌, inl, inr}
use native.Mathlib.Omega.{arith}
use mathlib.Core.Bool.{Bool, false, ◌&&◌, ◌||◌, not}
use essenty.Common.Tests.{◌==◌, if◌then◌else◌}

abbrev pub u32_mod : ℕ
u32_mod = 4294967296

-- The digits of the result, lowest first, are made from those of the operands.
bitwise : (ℕ → ℕ → ℕ) → ℕ → ℕ → ℕ → ℕ
bitwise f zero a b = 0
bitwise f (suc width) a b = f (a % 2) (b % 2) + 2 * bitwise f width (a / 2) (b / 2)

abbrev both : ℕ → ℕ → ℕ
both x y = x * y

abbrev either : ℕ → ℕ → ℕ
either x y = x + y - x * y

unfoldable pub xor : ℕ → ℕ → ℕ
unfolding bitwise
xor = bitwise (λ x y. (x + y) % 2) 32

unfoldable pub and : ℕ → ℕ → ℕ
unfolding bitwise
and = bitwise both 32

unfoldable pub or : ℕ → ℕ → ℕ
unfolding bitwise
or = bitwise either 32

abbrev pub complement : ℕ → ℕ
complement a = u32_mod - 1 - a

abbrev pub power : ℕ → ℕ
power zero = 1
power (suc k) = 2 * power k

-- The digit of `a` at the place `k`.
digit : ℕ → ℕ → ℕ
digit zero a = a % 2
digit (suc k) a = digit k (a / 2)

digit-lt : (k a : ℕ) → digit k a < 2
unfolding digit
digit-lt zero a = omega arith
digit-lt (suc k) a = digit-lt k (a / 2)

digit-zero : (k : ℕ) → digit k 0 ≡ 0
unfolding digit
digit-zero zero = refl
digit-zero (suc k) = digit-zero k

half_double : (n : ℕ) → 2 * n / 2 ≡ n
half_double n = omega arith

digit-power : (j k : ℕ) → digit j (power k) ≡ (if j == k then 1 else 0)
unfolding digit
digit-power zero zero = refl
digit-power zero (suc k) = ground arith
digit-power (suc j) zero = ground (arith, digit-zero j)
digit-power (suc j) (suc k) = ap (digit j) (half_double (power k)) ∙ ground (arith, digit-power j k)

digit-bitwise :
    (f : ℕ → ℕ → ℕ)
    → ((x y : ℕ) → x < 2 → y < 2 → f x y < 2)
    → (w k a b : ℕ) → k < w
    → digit k (bitwise f w a b) ≡ f (digit k a) (digit k b)
unfolding bitwise digit
digit-bitwise f h zero k a b l = absurd (omega arith)
digit-bitwise f h (suc w) zero a b l = omega (arith, h (a % 2) (b % 2) (omega arith) (omega arith))
digit-bitwise f h (suc w) (suc k) a b l =
    ap (digit k) (omega (arith, h (a % 2) (b % 2) (omega arith) (omega arith)))
    ∙ digit-bitwise f h w k (a / 2) (b / 2) (omega arith)

bitwise-lt :
    (f : ℕ → ℕ → ℕ)
    → ((x y : ℕ) → x < 2 → y < 2 → f x y < 2)
    → (w a b : ℕ) → bitwise f w a b < power w
unfolding bitwise
bitwise-lt f h zero a b = omega arith
bitwise-lt f h (suc w) a b =
    omega (arith, h (a % 2) (b % 2) (omega arith) (omega arith), bitwise-lt f h w (a / 2) (b / 2))

-- A word is given by its digits.
digits-ext :
    (w a b : ℕ) → a < power w → b < power w → ((k : ℕ) → k < w → digit k a ≡ digit k b) → a ≡ b
unfolding digit
digits-ext zero a b p q h = omega arith
digits-ext (suc w) a b p q h = omega (
  arith,
  h 0 (omega arith),
  digits-ext w (a / 2) (b / 2) (omega arith) (omega arith) (λ k l. h (suc k) (omega arith)),
)

both-zero : (w a : ℕ) → bitwise both w a 0 ≡ 0
unfolding bitwise
both-zero zero a = refl
both-zero (suc w) a = omega (arith, both-zero w (a / 2))

-- A mask of one bit lets through all of itself or nothing.
both-power : (w k a : ℕ) → k < w → bitwise both w a (power k) ≡ digit k a * power k
unfolding bitwise digit
both-power zero k a l = absurd (omega arith)
both-power (suc w) zero a l = omega (arith, both-zero w (a / 2))
both-power (suc w) (suc k) a l = grind (arith, both-power w k (a / 2) (omega arith))

both-lt : (x y : ℕ) → x < 2 → y < 2 → x * y < 2
both-lt zero y p q = omega arith
both-lt (suc zero) y p q = omega arith
both-lt (suc (suc x)) y p q = absurd (omega arith)

either-lt : (x y : ℕ) → x < 2 → y < 2 → x + y - x * y < 2
either-lt zero y p q = omega arith
either-lt (suc zero) y p q = omega arith
either-lt (suc (suc x)) y p q = absurd (omega arith)

and-power : (k a : ℕ) → k < 32 → and a (power k) ≡ digit k a * power k
unfolding and
and-power k a l = both-power 32 k a l

digit-and : (k a b : ℕ) → k < 32 → digit k (and a b) ≡ digit k a * digit k b
unfolding and
digit-and k a b l = digit-bitwise both both-lt 32 k a b l

digit-or : (k a b : ℕ) → k < 32 → digit k (or a b) ≡ either (digit k a) (digit k b)
unfolding or
digit-or k a b l = digit-bitwise either either-lt 32 k a b l

pub and-lt : (a b : ℕ) → and a b < u32_mod
unfolding and
and-lt a b = bitwise-lt both both-lt 32 a b

pub or-lt : (a b : ℕ) → or a b < u32_mod
unfolding or
or-lt a b = bitwise-lt either either-lt 32 a b

complement-half : (w a : ℕ) → a < power (suc w) → (power (suc w) - 1 - a) / 2 ≡ power w - 1 - a / 2
complement-half w a h = omega arith

digit-complement_within :
    (w k a : ℕ) → a < power w → k < w → digit k (power w - 1 - a) ≡ 1 - digit k a
unfolding digit
digit-complement_within zero k a p l = absurd (omega arith)
digit-complement_within (suc w) zero a p l = omega arith
digit-complement_within (suc w) (suc k) a p l =
    ap (digit k) (complement-half w a p)
    ∙ digit-complement_within w k (a / 2) (omega arith) (omega arith)

digit-complement : (k a : ℕ) → a < u32_mod → k < 32 → digit k (complement a) ≡ 1 - digit k a
digit-complement k a p l = digit-complement_within 32 k a p l

-- The bits of a word as truth values.
pub on : ℕ → ℕ → Bool
on k a = digit k a == 1

on-eq_of_digit : (k a b : ℕ) → on k a ≡ on k b → digit k a ≡ digit k b
unfolding on
on-eq_of_digit k a b h = ground (arith, digit-lt k a, digit-lt k b)

pub on-zero : (k : ℕ) → on k 0 ≡ false
unfolding on
on-zero k = ground (arith, digit-zero k)

pub on-power : (j k : ℕ) → on j (power k) ≡ (j == k)
unfolding on
on-power j k = ground (arith, digit-power j k)

bit_values : (x : ℕ) → x < 2 → (x ≡ 0) ⊎ (x ≡ 1)
bit_values zero h = inl refl
bit_values (suc zero) h = inr refl
bit_values (suc (suc x)) h = absurd (omega arith)

both_on : (x y : ℕ) → x < 2 → y < 2 → (x * y == 1) ≡ ((x == 1) && (y == 1))
both_on zero y p q = ground arith
both_on (suc zero) y p q = ground arith
both_on (suc (suc x)) y p q = absurd (omega arith)

either_on : (x y : ℕ) → x < 2 → y < 2 → (x + y - x * y == 1) ≡ ((x == 1) || (y == 1))
either_on zero y p q = ground arith
either_on (suc zero) y p q = ground arith
either_on (suc (suc x)) y p q = absurd (omega arith)

pub on-and : (k a b : ℕ) → k < 32 → on k (and a b) ≡ (on k a && on k b)
unfolding on
on-and k a b l =
    rw (digit-and k a b l) (both_on (digit k a) (digit k b) (digit-lt k a) (digit-lt k b))

pub on-or : (k a b : ℕ) → k < 32 → on k (or a b) ≡ (on k a || on k b)
unfolding on
on-or k a b l =
    rw (digit-or k a b l) (either_on (digit k a) (digit k b) (digit-lt k a) (digit-lt k b))

pub on-complement : (k a : ℕ) → a < u32_mod → k < 32 → on k (complement a) ≡ not (on k a)
unfolding on
on-complement k a p l = ground (arith, digit-complement k a p l, digit-lt k a)

power_pos : (k : ℕ) → 0 < power k
power_pos zero = omega arith
power_pos (suc k) = omega (arith, power_pos k)

scaled_zero : (x y : ℕ) → x < 2 → 0 < y → not (x * y == 0) ≡ (x == 1)
scaled_zero zero y p q = ground arith
scaled_zero (suc zero) y p q = ground arith
scaled_zero (suc (suc x)) y p q = absurd (omega arith)

-- The test of a bit by its mask.
pub mask-on : (k a : ℕ) → k < 32 → not (and a (power k) == 0) ≡ on k a
unfolding on
mask-on k a l =
    rw (and-power k a l) (scaled_zero (digit k a) (power k) (digit-lt k a) (power_pos k))

pub word_ext : (a b : ℕ) → a < u32_mod → b < u32_mod → ((k : ℕ) → k < 32 → on k a ≡ on k b) → a ≡ b
word_ext a b p q h = digits-ext 32 a b p q (λ k l. on-eq_of_digit k a b (h k l))
