-- ===== src/Pmm/PagesLaws.antt =====
-- The bitmap as a set of used pages: what setting and clearing one bit does to the test of any other.
use Prim.Native.Nat.{bit_and, bit_or}
use native.Mathlib.Nat.{two-pow-succ}
use taavi_os.Common.{
  ℕ, zero, suc, ◌-◌, ◌*◌, ◌/◌, ◌%◌, ◌^◌, ◌<◌, ◌≡◌, ap, not, ◌&&◌, ◌||◌, length, get_or, set,
  get_or-set, ◌==◌, if◌then◌else◌, arith,
}
use taavi_os.Common.Bits.{
  digit, digit-lt, digit-bit_or, digit-bit_and, digit-pow, digit-complement, mask-eq_zero,
}
use taavi_os.Pmm.Pages.{Pmm, u64_max, word_index, set_bit, clear_bit, test_bit}

-- The page has its bit in the bitmap.
abbrev pub InMap : ℕ → Pmm → Type 0
InMap page s = (page < 2 ^ 32) × (page < 64 * length s.bitmap)

pow-lt : (k n : ℕ) → k < n → 2 ^ k < 2 ^ n
pow-lt k zero h = absurd (omega arith)
pow-lt zero (suc zero) h = omega arith
pow-lt zero (suc (suc n)) h = omega (arith, pow-lt zero (suc n) (omega arith), two-pow-succ (suc n))
pow-lt (suc k) (suc n) h = omega (arith, pow-lt k n (omega arith), two-pow-succ k, two-pow-succ n)

-- The digit that stands for a page.
abbrev page_digit : ℕ → Pmm → ℕ
page_digit page s = digit (get_or s.bitmap (word_index page) 0) (page % 64)

test_bit-digit : (page : ℕ) (s : Pmm) → test_bit page s ≡ not (page_digit page s == 0)
unfolding test_bit
test_bit-digit page s = ap not (mask-eq_zero (get_or s.bitmap (word_index page) 0) (page % 64))

-- One word of the bitmap is written: the digit of every page.
written_digit :
    (s : Pmm) (p j v : ℕ)
    → InMap p s
    → j < 2 ^ 32
    → page_digit j (record s { bitmap = set s.bitmap (word_index p) v })
      ≡ (if p / 64 == j / 64 then digit v (j % 64) else page_digit j s)
written_digit s p j v h lt = ground (arith, get_or-set s.bitmap (word_index p) (word_index j) v 0)

or_digit : (w k j : ℕ) → digit (bit_or w (2 ^ k)) j ≡ (if k == j then 1 else digit w j)
or_digit w k j = ground (arith, digit-bit_or w (2 ^ k) j, digit-pow k j, digit-lt w j)

and_digit :
    (w k j : ℕ)
    → k < 64
    → j < 64
    → digit (bit_and w (u64_max - 2 ^ k)) j ≡ (if k == j then 0 else digit w j)
and_digit w k j hk hj = ground (
  arith,
  digit-bit_and w (u64_max - 2 ^ k) j,
  digit-complement 64 (2 ^ k) j hj (pow-lt k 64 hk),
  digit-pow k j,
  digit-lt w j,
)

-- The two parts of a page's number tell pages apart.
same_page : (p j : ℕ) → (p == j) ≡ (p / 64 == j / 64 && p % 64 == j % 64)
same_page p j = ground arith

pub test_bit-set_bit :
    (s : Pmm) (p j : ℕ)
    → InMap p s
    → j < 2 ^ 32
    → test_bit j (set_bit p s) ≡ (p == j || test_bit j s)
test_bit-set_bit s p j h lt =
    let v = bit_or (get_or s.bitmap (word_index p) 0) (2 ^ (p % 64)) in
    rw (test_bit-digit j (set_bit p s), test_bit-digit j s)
      (ground (
        arith,
        written_digit s p j v h lt,
        or_digit (get_or s.bitmap (word_index p) 0) (p % 64) (j % 64),
        same_page p j,
      ))

pub test_bit-clear_bit :
    (s : Pmm) (p j : ℕ)
    → InMap p s
    → j < 2 ^ 32
    → test_bit j (clear_bit p s) ≡ (not (p == j) && test_bit j s)
test_bit-clear_bit s p j h lt =
    let v = bit_and (get_or s.bitmap (word_index p) 0) (u64_max - 2 ^ (p % 64)) in
    rw (test_bit-digit j (clear_bit p s), test_bit-digit j s)
      (ground (
        arith,
        written_digit s p j v h lt,
        and_digit (get_or s.bitmap (word_index p) 0) (p % 64) (j % 64) (omega arith) (omega arith),
        same_page p j,
      ))
