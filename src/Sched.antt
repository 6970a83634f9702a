-- ===== src/Sched.antt =====
-- kernel/arch/x86/tcb/sched.c: the scheduler of the 32-bit kernel. `Pick` chooses the next task,
-- `Switch` wakes clerks and switches, `State` has the calls that change a task's state; the other
-- children prove their laws.
pub mod Pick
pub mod State
pub mod Switch
pub mod PickLaws
pub mod Fairness
pub mod SwitchLaws
pub mod Progress
pub mod StateLaws
pub mod Tests
