-- ===== src/Spin.antt =====
-- kernel/libraries/locks/spinlock.c: the lock of the 64-bit kernel. `Lock` has its operations, a memory
-- access at a time, `Laws` what they keep in every interleaving.
pub mod Lock
pub mod Laws
mod Tests
