-- ===== src/Common/Bits.antt =====
-- The binary digits of native numbers, and how `|`, `&` and `~` of C act on each.
use Prim.Native.Nat.{
  ℕ, zero, suc, ◌+◌, ◌-◌, ◌*◌, ◌/◌, ◌%◌, ◌^◌, ◌≤◌, ◌<◌, min, max, bit_and, bit_or, digits,
  bit_and-bitwise, bit_or-bitwise,
}
use mathlib.Core.Path.{◌≡◌, refl, ap, ◌∙◌}
use native.Mathlib.Nat.{two-pow-succ}
use native.Mathlib.Omega.{arith}
use taavi_os.Common.Tests.{◌==◌, if◌then◌else◌}

-- Digit `k` of a number, from the lowest.
abbrev pub digit : ℕ → ℕ → ℕ
digit w zero = w % 2
digit w (suc k) = digit (w / 2) k

pub digit-lt : (w k : ℕ) → digit w k < 2
digit-lt w zero = omega arith
digit-lt w (suc k) = digit-lt (w / 2) k

digit-zero : (k : ℕ) → digit 0 k ≡ 0
digit-zero zero = refl
digit-zero (suc k) = digit-zero k

or_digits :
    (k n a b : ℕ) → a ≤ n → digit (digits (λ y. y) max n a b) k ≡ max (digit a k) (digit b k)
or_digits zero zero zero b h = omega arith
or_digits zero zero (suc a) b h = absurd (omega arith)
or_digits zero (suc n) zero b h = omega arith
or_digits zero (suc n) (suc a) b h = omega arith
or_digits (suc k) zero zero b h = omega (arith, digit-zero k)
or_digits (suc k) zero (suc a) b h = absurd (omega arith)
or_digits (suc k) (suc n) zero b h = omega (arith, digit-zero k)
or_digits (suc k) (suc n) (suc a) b h =
    let upper = digits (λ y. y) max n (suc a / 2) (b / 2) in
    let e : (upper * 2 + max (suc a % 2) (b % 2)) / 2 ≡ upper = omega arith in
    ap (λ x. digit x k) e ∙ or_digits k n (suc a / 2) (b / 2) (omega arith)

and_digits :
    (k n a b : ℕ) → a ≤ n → digit (digits (λ y. 0) min n a b) k ≡ min (digit a k) (digit b k)
and_digits zero zero zero b h = omega arith
and_digits zero zero (suc a) b h = absurd (omega arith)
and_digits zero (suc n) zero b h = omega arith
and_digits zero (suc n) (suc a) b h = omega arith
and_digits (suc k) zero zero b h = omega (arith, digit-zero k)
and_digits (suc k) zero (suc a) b h = absurd (omega arith)
and_digits (suc k) (suc n) zero b h = omega (arith, digit-zero k)
and_digits (suc k) (suc n) (suc a) b h =
    let upper = digits (λ y. 0) min n (suc a / 2) (b / 2) in
    let e : (upper * 2 + min (suc a % 2) (b % 2)) / 2 ≡ upper = omega arith in
    ap (λ x. digit x k) e ∙ and_digits k n (suc a / 2) (b / 2) (omega arith)

pub digit-bit_or : (a b k : ℕ) → digit (bit_or a b) k ≡ max (digit a k) (digit b k)
digit-bit_or a b k = ap (λ x. digit x k) (bit_or-bitwise a b) ∙ or_digits k a a b (omega arith)

pub digit-bit_and : (a b k : ℕ) → digit (bit_and a b) k ≡ min (digit a k) (digit b k)
digit-bit_and a b k = ap (λ x. digit x k) (bit_and-bitwise a b) ∙ and_digits k a a b (omega arith)

half_pow : (k : ℕ) → 2 ^ suc k / 2 ≡ 2 ^ k
half_pow k = omega (arith, two-pow-succ k)

-- `1 << k` has the one digit `k`.
pub digit-pow : (k j : ℕ) → digit (2 ^ k) j ≡ (if k == j then 1 else 0)
digit-pow zero zero = refl
digit-pow zero (suc j) = ground (arith, digit-zero j)
digit-pow (suc k) zero = ground (arith, two-pow-succ k)
digit-pow (suc k) (suc j) = ap (λ x. digit x j) (half_pow k) ∙ digit-pow k j ∙ ground arith

-- `~x` in a word of `n` digits
pub digit-complement : (n x j : ℕ) → j < n → x < 2 ^ n → digit (2 ^ n - 1 - x) j ≡ 1 - digit x j
digit-complement zero x j h lt = absurd (omega arith)
digit-complement (suc n) x zero h lt = omega (arith, two-pow-succ n)
digit-complement (suc n) x (suc j) h lt =
    let e : (2 ^ suc n - 1 - x) / 2 ≡ 2 ^ n - 1 - x / 2 = omega (arith, two-pow-succ n) in
    ap (λ y. digit y j) e
    ∙ digit-complement n (x / 2) j (omega arith) (omega (arith, two-pow-succ n))

-- A number with no digit set is zero.
zero_of_digits : (fuel w : ℕ) → w ≤ fuel → ((k : ℕ) → digit w k ≡ 0) → w ≡ 0
zero_of_digits zero w h d = omega arith
zero_of_digits (suc fuel) w h d =
    omega (arith, d 0, zero_of_digits fuel (w / 2) (omega arith) (λ k. d (suc k)))

masked_digit : (w k j : ℕ) → digit w k ≡ 0 → digit (bit_and w (2 ^ k)) j ≡ 0
masked_digit w k j h = ground (arith, digit-bit_and w (2 ^ k) j, digit-pow k j)

masked_one : (w k : ℕ) → bit_and w (2 ^ k) ≡ 0 → digit w k ≡ 0
masked_one w k h =
    ground (arith, digit-bit_and w (2 ^ k) k, digit-pow k k, digit-zero k, ap (λ x. digit x k) h)

masked_zero : (w k : ℕ) → digit w k ≡ 0 → bit_and w (2 ^ k) ≡ 0
masked_zero w k h =
    zero_of_digits (bit_and w (2 ^ k)) (bit_and w (2 ^ k)) (omega arith) (λ j. masked_digit w k j h)

-- `w & (1 << k)` is 0 exactly when digit `k` of `w` is 0.
pub mask-eq_zero : (w k : ℕ) → (bit_and w (2 ^ k) == 0) ≡ (digit w k == 0)
mask-eq_zero w k = ground (arith, masked_zero w k, masked_one w k)
