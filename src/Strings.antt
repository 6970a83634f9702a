-- ===== src/Strings.antt =====
-- kernel/libraries/kstring/kstring.c: C strings and numbers in decimal. `Text` compares and copies
-- strings, `Number` prints and reads numbers, `Laws` proves what they compute.
pub mod Text
pub mod Number
pub mod Laws
pub mod Tests
