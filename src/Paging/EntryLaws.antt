-- ===== src/Paging/EntryLaws.antt =====
-- The bits of the entries that the code makes.
use Prim.Native.Nat.{bit_and, bit_or}
use taavi_os.Common.{ℕ, ◌-◌, ◌*◌, ◌^◌, ◌<◌, ◌≡◌, sym, ap, ◌∙◌, false, ◌||◌, arith}
use taavi_os.Common.Bits.{digit-lt, digit-bit_or, mask-eq_zero}
use taavi_os.Common.BitLaws.{and_or, or_zero, and_zero, and_assoc, and_shift, and_mask}
use taavi_os.Pmm.Pages.{page_size}
use taavi_os.Paging.Entry.{huge_frame, page_frame_mask, has, frame}

-- A flag of `a | b`
pub has-bit_or : (k a b : ℕ) → has (2 ^ k) (bit_or a b) ≡ (has (2 ^ k) a || has (2 ^ k) b)
has-bit_or k a b = ground (
  arith,
  mask-eq_zero (bit_or a b) k,
  mask-eq_zero a k,
  mask-eq_zero b k,
  digit-bit_or a b k,
  digit-lt a k,
  digit-lt b k,
)

-- The flags of a table entry are outside of the frame.
pub frame-bit_or : (a b : ℕ) → frame b ≡ 0 → frame (bit_or a b) ≡ frame a
frame-bit_or a b e = and_or a b page_frame_mask ∙ ap (λ x. bit_or (frame a) x) e ∙ or_zero (frame a)

pub huge_frame-bit_or : (a b : ℕ) → huge_frame b ≡ 0 → huge_frame (bit_or a b) ≡ huge_frame a
huge_frame-bit_or a b e =
    and_or a b 0x000F_FFFF_FFE0_0000 ∙ ap (λ x. bit_or (huge_frame a) x) e ∙ or_zero (huge_frame a)

-- An address that is aligned to 2 MiB is aligned to 4 KiB.
pub huge_frame-frame : (a : ℕ) → huge_frame a ≡ a → frame a ≡ a
huge_frame-frame a e = ap frame (sym e) ∙ and_assoc a 0x000F_FFFF_FFE0_0000 page_frame_mask ∙ e

pub frame-huge_frame : (a : ℕ) → frame a ≡ 0 → huge_frame a ≡ 0
frame-huge_frame a e =
    sym (and_assoc a page_frame_mask 0x000F_FFFF_FFE0_0000)
    ∙ ap (λ x. bit_and x 0x000F_FFFF_FFE0_0000) e

-- The address of a page of 40 bits is its own frame,
pub frame-page : (p : ℕ) → p < 2 ^ 40 → frame (p * page_size) ≡ p * page_size
frame-page p h =
    let e : p * page_size ≡ 2 ^ 12 * p = omega arith in
    ap frame e ∙ and_shift 12 p (2 ^ 40 - 1) ∙ ap (λ x. 2 ^ 12 * x) (and_mask 40 p h) ∙ sym e

-- and has no flag.
pub has-frame : (a m : ℕ) → bit_and page_frame_mask m ≡ 0 → frame a ≡ a → has m a ≡ false
has-frame a m z e =
    let q : bit_and a m ≡ 0 =
      ap (λ x. bit_and x m) (sym e)
      ∙ and_assoc a page_frame_mask m
      ∙ ap (λ x. bit_and a x) z
      ∙ and_zero a in
    ground (arith, q)
