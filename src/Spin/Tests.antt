-- ===== src/Spin/Tests.antt =====
-- Runs of the spinlock, and its theorem, on two CPUs.
use taavi_os.Common.{ℕ, ◌≡◌, refl, List, [], ◌∷◌, ◌++◌}
use taavi_os.Spin.Lock.{holding, waiting, start, run}
use taavi_os.Spin.Laws.{IsExclusive, run-IsExclusive}

-- CPU 1 takes the lock while CPU 2 waits, and CPU 2 gets it after the unlock.
abbrev contended : List ℕ
contended = 1 ∷ 2 ∷ 1 ∷ 2 ∷ 1 ∷ 2 ∷ []

first_holds : (run contended start).cpus 1 ≡ holding
unfolding run
first_holds = refl

second_waits : (run contended start).cpus 2 ≡ waiting 1
unfolding run
second_waits = refl

second_holds : (run (contended ++ (1 ∷ 1 ∷ 1 ∷ 1 ∷ 2 ∷ 2 ∷ 2 ∷ [])) start).cpus 2 ≡ holding
unfolding run
second_holds = refl

run-IsExclusive_example : IsExclusive (run contended start)
run-IsExclusive_example = run-IsExclusive contended
