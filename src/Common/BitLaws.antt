-- ===== src/Common/BitLaws.antt =====
-- Laws of `|` and `&`, from the digits of both sides.
use Prim.Native.Nat.{ℕ, zero, suc, ◌+◌, ◌-◌, ◌*◌, ◌/◌, ◌^◌, ◌≤◌, ◌<◌, min, bit_and, bit_or}
use mathlib.Core.Path.{◌≡◌, refl, sym, ap, ◌∙◌}
use mathlib.Core.Logic.{inl, inr}
use native.Mathlib.Nat.{two-pow-succ}
use native.Mathlib.Omega.{arith}
use taavi_os.Common.Tests.{ltb, Bool-cases}
use taavi_os.Common.Bits.{digit, digit-lt, digit-bit_or, digit-bit_and, digit-complement}

-- Two numbers with the same digits are one.
eq_of_digits : (fuel a b : ℕ) → a ≤ fuel → b ≤ fuel → ((k : ℕ) → digit a k ≡ digit b k) → a ≡ b
eq_of_digits zero a b h g d = omega (arith, h, g)
eq_of_digits (suc fuel) a b h g d = omega (
  arith,
  d 0,
  eq_of_digits fuel (a / 2) (b / 2) (omega (arith, h)) (omega (arith, g)) (λ k. d (suc k)),
)

pub digits-eq : (a b : ℕ) → ((k : ℕ) → digit a k ≡ digit b k) → a ≡ b
digits-eq a b d = eq_of_digits (a + b) a b (omega arith) (omega arith) d

pub digit-zero : (k : ℕ) → digit 0 k ≡ 0
digit-zero zero = refl
digit-zero (suc k) = digit-zero k

pub and_or : (a b m : ℕ) → bit_and (bit_or a b) m ≡ bit_or (bit_and a m) (bit_and b m)
and_or a b m = digits-eq (bit_and (bit_or a b) m) (bit_or (bit_and a m) (bit_and b m)) (λ k. omega (
  arith,
  digit-bit_and (bit_or a b) m k,
  digit-bit_or a b k,
  digit-bit_or (bit_and a m) (bit_and b m) k,
  digit-bit_and a m k,
  digit-bit_and b m k,
))

pub or_zero : (a : ℕ) → bit_or a 0 ≡ a
or_zero a = digits-eq (bit_or a 0) a (λ k. omega (arith, digit-bit_or a 0 k, digit-zero k))

pub and_zero : (a : ℕ) → bit_and a 0 ≡ 0
and_zero a = digits-eq (bit_and a 0) 0 (λ k. omega (arith, digit-bit_and a 0 k, digit-zero k))

pub and_assoc : (a b c : ℕ) → bit_and (bit_and a b) c ≡ bit_and a (bit_and b c)
and_assoc a b c = digits-eq (bit_and (bit_and a b) c) (bit_and a (bit_and b c)) (λ k. omega (
  arith,
  digit-bit_and (bit_and a b) c k,
  digit-bit_and a b k,
  digit-bit_and a (bit_and b c) k,
  digit-bit_and b c k,
))

and_double : (a b : ℕ) → bit_and (2 * a) (2 * b) ≡ 2 * bit_and a b
and_double a b = digits-eq (bit_and (2 * a) (2 * b)) (2 * bit_and a b) both
  where
    both : (k : ℕ) → digit (bit_and (2 * a) (2 * b)) k ≡ digit (2 * bit_and a b) k
    both zero = omega (arith, digit-bit_and (2 * a) (2 * b) 0)
    both (suc k) =
        let e : 2 * a / 2 ≡ a = omega arith in
        let f : 2 * b / 2 ≡ b = omega arith in
        let g : 2 * bit_and a b / 2 ≡ bit_and a b = omega arith in
        digit-bit_and (2 * a) (2 * b) (suc k)
        ∙ ap (λ x. min (digit x k) (digit (2 * b / 2) k)) e
        ∙ ap (λ x. min (digit a k) (digit x k)) f
        ∙ sym (digit-bit_and a b k)
        ∙ ap (λ x. digit x k) (sym g)

-- Both shifted to the left
pub and_shift : (n a b : ℕ) → bit_and (2 ^ n * a) (2 ^ n * b) ≡ 2 ^ n * bit_and a b
and_shift zero a b =
    let e : (x : ℕ) → 1 * x ≡ x = λ x. omega arith in
    ap (λ x. bit_and x (1 * b)) (e a) ∙ ap (λ x. bit_and a x) (e b) ∙ sym (e (bit_and a b))
and_shift (suc n) a b =
    let e : (x : ℕ) → 2 ^ suc n * x ≡ 2 * (2 ^ n * x) = λ x. grind (arith, two-pow-succ n) in
    ap (λ x. bit_and x (2 ^ suc n * b)) (e a)
    ∙ ap (λ x. bit_and (2 * (2 ^ n * a)) x) (e b)
    ∙ and_double (2 ^ n * a) (2 ^ n * b)
    ∙ ap (λ x. 2 * x) (and_shift n a b)
    ∙ sym (e (bit_and a b))

-- The digits above a power of two
digit_high : (n k a : ℕ) → a < 2 ^ n → n ≤ k → digit a k ≡ 0
digit_high zero k a h g = ap (λ x. digit x k) (omega (arith, h)) ∙ digit-zero k
digit_high (suc n) zero a h g = absurd (omega (arith, g))
digit_high (suc n) (suc k) a h g =
    digit_high n k (a / 2) (omega (arith, h, two-pow-succ n)) (omega (arith, g))

-- A mask of the lowest `n` digits keeps a number that has no others.
pub and_mask : (n a : ℕ) → a < 2 ^ n → bit_and a (2 ^ n - 1) ≡ a
and_mask n a h = digits-eq (bit_and a (2 ^ n - 1)) a (λ k. elim (Bool-cases (ltb k n)) [
  | inl y ↦
      let low : k < n = ground arith in
      let one : digit (2 ^ n - 1) k ≡ 1 =
        ap (λ x. digit x k) (omega arith)
        ∙ digit-complement n 0 k low (omega (arith, h))
        ∙ omega (arith, digit-zero k) in
      omega (arith, digit-bit_and a (2 ^ n - 1) k, one, digit-lt a k)
  | inr y ↦
      let high : n ≤ k = ground arith in
      omega (arith, digit-bit_and a (2 ^ n - 1) k, digit_high n k a h high)
])
