-- ===== src/Ledger/Operation.antt =====
-- `operations_t` of kernel/include/shared/shared.h. A request stores the number in a `uint8_t`, and
-- a doctor request takes it from the caller unchecked, so it stays a number.
use taavi_os.Common.{ℕ}

abbrev pub write : ℕ
write = 0

abbrev pub read : ℕ
read = 2

abbrev pub free : ℕ
free = 5

abbrev pub open_file : ℕ
open_file = 6

abbrev pub create : ℕ
create = 8

abbrev pub list : ℕ
list = 10
