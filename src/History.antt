-- ===== src/History.antt =====
-- userspace/library/libc/history.c: the lines that the shell remembers. `Lines` has the operations,
-- `Laws` proves them.
pub mod Lines
pub mod Laws
pub mod Tests
