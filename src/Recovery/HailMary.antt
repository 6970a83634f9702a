-- ===== src/Recovery/HailMary.antt =====
-- kernel/arch/x86/protocols/hail_mary.c: the recovery functions of the clerks, by pid.
use taavi_os.Common.{ℕ, Option, none, some, List, [], ◌∷◌, ◌==◌, if◌then◌else◌}
use taavi_os.Ledger.Types.{World, Allocator}
use taavi_os.Ledger.Serve.{ledger_check_request}
use taavi_os.Recovery.Blankie.{Registry, blankie_activate}

-- `hail_mary_t`; the callback is what it does to the state.
pub record HailMary (H : Type 0) : Type 0 where
  pub pid : ℕ
  pub cb : World H → World H

-- sizeof(hail_mary_t)
abbrev pub hail_mary_size : ℕ
hail_mary_size = 8

-- `gosling_table`
abbrev pub GoslingTable : Type 0 → Type 0
GoslingTable H = List (Option (HailMary H))

-- The loop of `register_hail_mary_function` for the first entry that is NULL.
unfoldable pub gosling_slot : {H : Type 0} → HailMary H → GoslingTable H → Option (GoslingTable H)
gosling_slot e [] = none
gosling_slot e (none ∷ t) = some (some e ∷ t)
gosling_slot e (some c ∷ t) = elim (gosling_slot e t) [ none ↦ none | some t' ↦ some (some c ∷ t') ]

-- The loop of `activate_hail_mary` for the first entry of this pid.
unfoldable pub find_gosling : {H : Type 0} → ℕ → GoslingTable H → Option (HailMary H)
find_gosling pid [] = none
find_gosling pid (none ∷ t) = find_gosling pid t
find_gosling pid (some e ∷ t) =
    let rest = find_gosling pid t in if e.pid == pid then some e else rest

module _ (al : Allocator) where
  open al use {Heap, kmalloc}

  -- The body at a free entry.
  unfoldable pub gosling_with :
      Option ℕ → GoslingTable Heap → GoslingTable Heap → Heap → GoslingTable Heap × Heap
  gosling_with none table' table h = (table, h)
  gosling_with (some a) table' table h = (table', h)

  unfoldable pub gosling_found :
      Option (GoslingTable Heap) → GoslingTable Heap → Heap → GoslingTable Heap × Heap
  unfolding gosling_with
  gosling_found none table h = (table, h)
  gosling_found (some table') table h =
      let (a, h') = kmalloc hail_mary_size h in gosling_with a table' table h'

  unfoldable pub register_hail_mary_function :
      ℕ → (World Heap → World Heap) → GoslingTable Heap → Heap → GoslingTable Heap × Heap
  unfolding gosling_slot gosling_found
  register_hail_mary_function pid cb table h =
      gosling_found (gosling_slot (record { pid = pid; cb = cb }) table) table h

unfoldable pub activate_hail_mary : {H : Type 0} → ℕ → GoslingTable H → World H → World H
unfolding find_gosling
activate_hail_mary pid table w = elim (find_gosling pid table) [ none ↦ w | some e ↦ e.cb w ]

-- `fs_recovery`, `gui_recovery`, `reaper_recovery` and `doc_recovery`, each with its own pid: the
-- ledger, then the blankie.
unfoldable pub clerk_recovery : {H : Type 0} → Registry → ℕ → World H → World H
unfolding ledger_check_request blankie_activate
clerk_recovery reg pid w = (blankie_activate reg pid (ledger_check_request pid w)).1
