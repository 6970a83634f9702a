-- ===== src/Recovery.antt =====
-- How a clerk starts over: kernel/arch/x86/protocols/blankie.c and hail_mary.c, and the recovery
-- functions of the clerks. `Blankie` resets a clerk, `HailMary` calls the recovery of a clerk that
-- faulted, `Laws` proves what is left after it.
pub mod Blankie
pub mod HailMary
pub mod Laws
pub mod Tests
