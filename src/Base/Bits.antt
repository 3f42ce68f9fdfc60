-- ===== src/Base/Bits.antt =====
-- Single bits of a word: what `|=` and `&` with a power of two do, as arithmetic.
use Prim.Native.Nat.{
  ℕ, zero, suc, ◌+◌, ◌*◌, ◌/◌, ◌%◌, ◌^◌, ◌≤◌, ◌<◌, min, max, bit_and, bit_or, digits, ◌-◌,
  bit_and-bitwise, bit_or-bitwise,
}
use mathlib.Core.Path.{◌≡◌, refl, ap, ◌∙◌}
use mathlib.Core.Logic.{◌≢◌}
use native.Mathlib.Nat.{pow-suc}
use native.Mathlib.Omega.{arith}

-- The value of the native recursion on digits does not depend on its fuel, if that reaches the
-- first argument.
enough_fuel :
    (base : ℕ → ℕ) (op : ℕ → ℕ → ℕ) (f g a b : ℕ)
    → a ≤ f
    → a ≤ g
    → digits base op f a b ≡ digits base op g a b
enough_fuel base op zero zero zero b p q = refl
enough_fuel base op zero zero (suc a) b p q = refl
enough_fuel base op zero (suc g) zero b p q = refl
enough_fuel base op zero (suc g) (suc a) b p q = absurd (omega arith)
enough_fuel base op (suc f) zero zero b p q = refl
enough_fuel base op (suc f) zero (suc a) b p q = absurd (omega arith)
enough_fuel base op (suc f) (suc g) zero b p q = refl
enough_fuel base op (suc f) (suc g) (suc a) b p q =
    ap (λ (t : ℕ). t * 2 + op (suc a % 2) (b % 2))
      (enough_fuel base op f g (suc a / 2) (b / 2) (omega arith) (omega arith))

or_halves : (a b : ℕ) → bit_or a b ≡ bit_or (a / 2) (b / 2) * 2 + max (a % 2) (b % 2)
or_halves zero b = omega (arith, bit_or-bitwise 0 b, bit_or-bitwise 0 (b / 2))
or_halves (suc a) b = omega (
  arith,
  bit_or-bitwise (suc a) b,
  bit_or-bitwise (suc a / 2) (b / 2),
  enough_fuel (λ y. y) max a (suc a / 2) (suc a / 2) (b / 2) (omega arith) (omega arith),
)

and_halves : (a b : ℕ) → bit_and a b ≡ bit_and (a / 2) (b / 2) * 2 + min (a % 2) (b % 2)
and_halves zero b = omega (arith, bit_and-bitwise 0 b, bit_and-bitwise 0 (b / 2))
and_halves (suc a) b = omega (
  arith,
  bit_and-bitwise (suc a) b,
  bit_and-bitwise (suc a / 2) (b / 2),
  enough_fuel (λ y. 0) min a (suc a / 2) (suc a / 2) (b / 2) (omega arith) (omega arith),
)

-- Bit `k` of a number.
abbrev pub bit : ℕ → ℕ → ℕ
bit x zero = x % 2
bit x (suc k) = bit (x / 2) k

half_double : (p : ℕ) → (p * 2) / 2 ≡ p
half_double p = omega arith

or_double : (a p : ℕ) → bit_or a (p * 2) ≡ bit_or (a / 2) p * 2 + a % 2
or_double a p =
    let h : bit_or (a / 2) ((p * 2) / 2) ≡ bit_or (a / 2) p = ap (bit_or (a / 2)) (half_double p) in
    omega (arith, or_halves a (p * 2), h)

and_double : (a p : ℕ) → bit_and a (p * 2) ≡ bit_and (a / 2) p * 2
and_double a p =
    let h : bit_and (a / 2) ((p * 2) / 2) ≡ bit_and (a / 2) p =
      ap (bit_and (a / 2)) (half_double p) in
    omega (arith, and_halves a (p * 2), h)

pub or_new : (k a : ℕ) → a < 2 ^ k → bit_or a (2 ^ k) ≡ a + 2 ^ k
or_new zero zero h = refl
or_new zero (suc a) h = absurd (omega arith)
or_new (suc k) a h = omega (
  arith,
  ap (bit_or a) (pow-suc 2 k),
  or_double a (2 ^ k),
  pow-suc 2 k,
  or_new k (a / 2) (omega (arith, pow-suc 2 k)),
)

and_nothing : (f a : ℕ) → a ≤ f → bit_and a 0 ≡ 0
and_nothing f zero h = omega (arith, and_halves 0 0)
and_nothing zero (suc a) h = absurd (omega arith)
and_nothing (suc f) (suc a) h =
    omega (arith, and_halves (suc a) 0, and_nothing f (suc a / 2) (omega arith))

pub bit-lt : (x k : ℕ) → bit x k < 2
bit-lt x zero = omega arith
bit-lt x (suc k) = bit-lt (x / 2) k

times_pow : (b k : ℕ) → b * 2 ^ k * 2 ≡ b * 2 ^ suc k
times_pow b k = grind (arith, pow-suc 2 k)

pub and_bit : (k x : ℕ) → bit_and x (2 ^ k) ≡ bit x k * 2 ^ k
and_bit zero x = omega (arith, and_halves x 1, and_nothing (x / 2) (x / 2) (omega arith))
and_bit (suc k) x =
    let h : bit_and x (2 ^ suc k) ≡ bit_and x (2 ^ k * 2) = ap (bit_and x) (pow-suc 2 k) in
    omega (arith, h, and_double x (2 ^ k), and_bit k (x / 2), times_pow (bit (x / 2) k) k)

pub bit_high : (k x : ℕ) → x < 2 ^ k → bit x k ≡ 0
bit_high zero x h = omega arith
bit_high (suc k) x h = bit_high k (x / 2) (omega (arith, pow-suc 2 k))

half_sum : (k x : ℕ) → (x + 2 ^ suc k) / 2 ≡ x / 2 + 2 ^ k
half_sum k x = omega (arith, pow-suc 2 k)

pub bit_new : (k x : ℕ) → x < 2 ^ k → bit (x + 2 ^ k) k ≡ 1
bit_new zero x h = omega arith
bit_new (suc k) x h =
    ap (λ t. bit t k) (half_sum k x) ∙ bit_new k (x / 2) (omega (arith, pow-suc 2 k))

pub bit_old : (k j x : ℕ) → x < 2 ^ k → j < k → bit (x + 2 ^ k) j ≡ bit x j
bit_old zero j x h l = absurd (omega arith)
bit_old (suc k) zero x h l = omega (arith, pow-suc 2 k)
bit_old (suc k) (suc j) x h l =
    ap (λ t. bit t j) (half_sum k x)
    ∙ bit_old k j (x / 2) (omega (arith, pow-suc 2 k)) (omega arith)

or_half : (a b : ℕ) → bit_or a b / 2 ≡ bit_or (a / 2) (b / 2)
or_half a b = omega (arith, or_halves a b)

-- What `|=` has set, `&` finds.
and_or : (f a b : ℕ) → a + b ≤ f → bit_and (bit_or a b) b ≡ b
and_or f a zero h = and_nothing (bit_or a 0) (bit_or a 0) (omega arith)
and_or zero a (suc b) h = absurd (omega arith)
and_or (suc f) a (suc b) h =
    let half : bit_and (bit_or a (suc b) / 2) (suc b / 2)
        ≡ bit_and (bit_or (a / 2) (suc b / 2)) (suc b / 2) =
      ap (λ t. bit_and t (suc b / 2)) (or_half a (suc b)) in
    omega (
      arith,
      and_halves (bit_or a (suc b)) (suc b),
      or_halves a (suc b),
      half,
      and_or f (a / 2) (suc b / 2) (omega arith),
    )

pub and_or_self : (a b : ℕ) → bit_and (bit_or a b) b ≡ b
and_or_self a b = and_or (a + b) a b (omega arith)

and_odd : (x c : ℕ) → bit_and x (c * 2 + 1) ≡ bit_and (x / 2) c * 2 + x % 2
and_odd x c =
    let half : bit_and (x / 2) ((c * 2 + 1) / 2) ≡ bit_and (x / 2) c =
      ap (bit_and (x / 2)) (omega arith) in
    omega (arith, and_halves x (c * 2 + 1), half)

eighth_half : (x : ℕ) → x < 256 → x / 2 / 2 / 2 / 2 / 2 / 2 / 2 / 2 ≡ 0
eighth_half x h = omega arith

-- The mask that clears bit 7 of a word of 32 bits, on a byte.
pub and_clear_7 : (x : ℕ) → x < 256 → bit_and x 0xffffff7f ≡ x % 128
and_clear_7 x h = omega (
  arith,
  and_odd x 0x7fffffbf,
  and_odd (x / 2) 0x3fffffdf,
  and_odd (x / 2 / 2) 0x1fffffef,
  and_odd (x / 2 / 2 / 2) 0x0ffffff7,
  and_odd (x / 2 / 2 / 2 / 2) 0x07fffffb,
  and_odd (x / 2 / 2 / 2 / 2 / 2) 0x03fffffd,
  and_odd (x / 2 / 2 / 2 / 2 / 2 / 2) 0x01fffffe,
  and_double (x / 2 / 2 / 2 / 2 / 2 / 2 / 2) 0x00ffffff,
  ap (λ (y : ℕ). bit_and y 0x00ffffff) (eighth_half x h),
)

or_nothing_from : (f a : ℕ) → a ≤ f → bit_or a 0 ≡ a
or_nothing_from f zero h = omega (arith, bit_or-bitwise 0 0)
or_nothing_from zero (suc a) h = absurd (omega arith)
or_nothing_from (suc f) (suc a) h =
    omega (arith, or_double (suc a) 0, or_nothing_from f (suc a / 2) (omega arith))

pub or_nothing : (a : ℕ) → bit_or a 0 ≡ a
or_nothing a = or_nothing_from a a (omega arith)

-- What `|` does to each bit, and the bits of some words.
pub bit-bit_or : (k a b : ℕ) → bit (bit_or a b) k ≡ max (bit a k) (bit b k)
bit-bit_or zero a b = omega (arith, or_halves a b)
bit-bit_or (suc k) a b = ap (λ t. bit t k) (or_half a b) ∙ bit-bit_or k (a / 2) (b / 2)

pub bit_or-lt : (k a b : ℕ) → a < 2 ^ k → b < 2 ^ k → bit_or a b < 2 ^ k
bit_or-lt zero zero zero h g = omega (arith, bit_or-bitwise 0 0)
bit_or-lt zero zero (suc b) h g = absurd (omega arith)
bit_or-lt zero (suc a) b h g = absurd (omega arith)
bit_or-lt (suc k) a b h g = omega (
  arith,
  or_halves a b,
  pow-suc 2 k,
  bit_or-lt k (a / 2) (b / 2) (omega (arith, pow-suc 2 k)) (omega (arith, pow-suc 2 k)),
)

pow_pos : (k : ℕ) → 0 < 2 ^ k
pow_pos zero = omega arith
pow_pos (suc k) = omega (arith, pow-suc 2 k, pow_pos k)

half_ones : (c : ℕ) → (2 ^ suc c - 1) / 2 ≡ 2 ^ c - 1
half_ones c = omega (arith, pow-suc 2 c, pow_pos c)

pub bit-pow : (i j : ℕ) → i ≢ j → bit (2 ^ i) j ≡ 0
bit-pow zero zero h = absurd (h refl)
bit-pow zero (suc j) h = bit_high j (1 / 2) (pow_pos j)
bit-pow (suc i) zero h = omega (arith, pow-suc 2 i)
bit-pow (suc i) (suc j) h =
    ap (λ t. bit t j) (ap (λ (t : ℕ). t / 2) (pow-suc 2 i) ∙ half_double (2 ^ i))
    ∙ bit-pow i j (λ e. h (ap suc e))

pub bit_ones : (c i : ℕ) → i < c → bit (2 ^ c - 1) i ≡ 1
bit_ones zero i h = absurd (omega arith)
bit_ones (suc c) zero h = omega (arith, pow-suc 2 c, pow_pos c)
bit_ones (suc c) (suc i) h = ap (λ t. bit t i) (half_ones c) ∙ bit_ones c i (omega arith)

pub pow_le : (j k : ℕ) → j ≤ k → 2 ^ j ≤ 2 ^ k
pow_le zero k h = pow_pos k
pow_le (suc j) zero h = absurd (omega arith)
pow_le (suc j) (suc k) h = omega (arith, pow-suc 2 j, pow-suc 2 k, pow_le j k (omega arith))
