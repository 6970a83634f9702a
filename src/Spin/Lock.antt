-- ===== src/Spin/Lock.antt =====
-- The operations of a spinlock as the steps of the CPUs that call them. A step makes one access to the
-- memory that they share; the compiler's barriers keep the accesses in this order.
use taavi_os.Common.{ℕ, ◌+◌, List, [], ◌∷◌, ltb, ◌==◌, if◌then◌else◌}

-- `spinlock_t`, without the name
pub record Spinlock : Type 0 where
  pub locked : ℕ
  pub owner : ℕ

-- Where a CPU stands. `exchanging` and `waiting` are the two loops of spin_light_lock, with
-- `spin_laps`; `owning` is before the write of the owner; `checking`, `clearing` and `storing` are in
-- spin_light_unlock; `halted` is the endless loop of an error.
pub data Phase : Type 0 where
  outside : Phase
  exchanging : ℕ → Phase
  waiting : ℕ → Phase
  owning : Phase
  holding : Phase
  checking : Phase
  clearing : Phase
  storing : Phase
  halted : Phase

abbrev pub spin_limit : ℕ
spin_limit = 200_000_000

-- The next access of the CPU with the number `id`, which calls spin_light_lock when it is outside and
-- spin_light_unlock when it holds the lock.
unfoldable pub cpu_step : ℕ → Phase → Spinlock → Phase × Spinlock
cpu_step id outside l = (exchanging 0, l)
cpu_step id (exchanging laps) l =
    ((if l.locked == 1 then waiting laps else owning), record l { locked = 1 })
cpu_step id (waiting laps) l = (
  (if l.locked == 0
      then exchanging laps
      else (if ltb spin_limit (laps + 1) then halted else waiting (laps + 1))),
  l,
)
cpu_step id owning l = (holding, record l { owner = id })
cpu_step id holding l = (checking, l)
cpu_step id checking l = ((if l.locked == 0 then halted else clearing), l)
cpu_step id clearing l = (storing, record l { owner = 0 })
cpu_step id storing l = (outside, record l { locked = 0 })
cpu_step id halted l = (halted, l)

-- The lock and the phases of all CPUs.
pub record System : Type 0 where
  pub lock : Spinlock
  pub cpus : ℕ → Phase

-- SPINLOCK_INIT, with every CPU outside
abbrev pub start : System
start = record { lock = record { locked = 0; owner = 0 }; cpus = λ c. outside }

unfoldable pub step : ℕ → System → System
unfolding cpu_step
step c s =
    let (p, l) = cpu_step c (s.cpus c) s.lock in
    record { lock = l; cpus = λ x. if x == c then p else s.cpus x }

-- An interleaving: the CPUs in the order of their accesses.
unfoldable pub run : List ℕ → System → System
unfolding step
run [] s = s
run (c ∷ cs) s = run cs (step c s)
