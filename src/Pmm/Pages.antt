-- ===== src/Pmm/Pages.antt =====
-- pmm.c: the state of the manager, and one bit of its bitmap.
use Prim.Native.Nat.{bit_and, bit_or}
use taavi_os.Common.{ℕ, ◌-◌, ◌/◌, ◌%◌, ◌^◌, Bool, not, List, get_or, set, ◌==◌}
use taavi_os.Config.{u32}

abbrev pub page_size : ℕ
page_size = 4096

-- The largest `uint64_t`.
abbrev pub u64_max : ℕ
u64_max = 2 ^ 64 - 1

-- The static variables of pmm.c. The bitmap is in words of 64 bits; a set bit is a used page.
pub record Pmm : Type 0 where
  pub bitmap : List ℕ
  pub max_pages : ℕ
  pub used_pages : ℕ
  pub free_pages : ℕ
  pub last_found : ℕ

-- `uint32_t ind = page / 64`
abbrev pub word_index : ℕ → ℕ
word_index page = u32 (page / 64)

-- `bitmap[ind] | (1ULL << (page % 64))`
abbrev pub set_bit : ℕ → Pmm → Pmm
set_bit page s = record s {
  bitmap =
      set s.bitmap (word_index page)
        (bit_or (get_or s.bitmap (word_index page) 0) (2 ^ (page % 64)));
}

-- `bitmap[ind] & ~(1ULL << (page % 64))`
abbrev pub clear_bit : ℕ → Pmm → Pmm
clear_bit page s = record s {
  bitmap =
      set s.bitmap (word_index page)
        (bit_and (get_or s.bitmap (word_index page) 0) (u64_max - 2 ^ (page % 64)));
}

-- `(bitmap[ind] & (1ULL << (page % 64))) != 0`
unfoldable pub test_bit : ℕ → Pmm → Bool
test_bit page s = not (bit_and (get_or s.bitmap (word_index page) 0) (2 ^ (page % 64)) == 0)
