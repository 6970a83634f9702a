-- ===== src/Vmm/StackLaws.antt =====
-- What the kernel stacks promise.
use taavi_os.Common.{
  ℕ, zero, suc, ◌+◌, ◌*◌, ◌/◌, ◌<◌, ◌≤◌, ◌≡◌, ◌≢◌, ◌⊎◌, inl, inr, refl, sym, ap, ◌∙◌, subst, false,
  Bool-cases, arith, Option, none, some, some_inj, leb, ◌==◌,
}
use taavi_os.Config.{status_ok, max_tasks}
use taavi_os.Pmm.Pages.{page_size}
use taavi_os.Paging.Walk.{IsTree}
use taavi_os.Paging.Kept.{Kept, refl-Kept}
use taavi_os.Vmm.Held.{Laid}
use taavi_os.Vmm.Rollback.{between}
use taavi_os.Vmm.AllocLaws.{Refused, vmm_alloc-AllocOutcome}
use taavi_os.Vmm.FreeLaws.{vmm_free-Laid}
use taavi_os.Vmm.Stacks.{
  kernel_stack_pages, kstack_region_base, kstack_slot_size, kstack_flags, Stacks, set_slot,
  free_slot, take_slot, vmm_alloc_kstack, sub64, vmm_free_kstack,
}

-- What a search of `n` slots from `i` on finds.
abbrev Searched : ℕ → ℕ → (ℕ → ℕ) → Option ℕ → Type 0
Searched n i map none = (j : ℕ) → i ≤ j → j < i + n → map j ≢ 0
Searched n i map (some j) =
    (i ≤ j) × (j < i + n) × (map j ≡ 0) × ((k : ℕ) → i ≤ k → k < j → map k ≢ 0)

Searched-more :
    (n i : ℕ) (map : ℕ → ℕ) (o : Option ℕ)
    → map i ≢ 0
    → Searched n (suc i) map o
    → Searched (suc n) i map o
Searched-more n i map none ne h = λ j lo hi. elim (Bool-cases (j == i)) [
  | inl e ↦ λ z. let f : j ≡ i = ground arith in ne (sym (ap map f) ∙ z)
  | inr e ↦ h j (ground (arith, lo)) (omega (arith, hi))
]
Searched-more n i map (some j) ne (lo, hi, e, before) = (
  omega (arith, lo),
  omega (arith, hi),
  e,
  λ k a b. elim (Bool-cases (k == i)) [
    | inl y ↦ λ z. let f : k ≡ i = ground arith in ne (sym (ap map f) ∙ z)
    | inr y ↦ before k (ground (arith, a)) b
  ],
)

free_slot-Searched : (n i : ℕ) (map : ℕ → ℕ) → Searched n i map (free_slot n i map)
unfolding free_slot
free_slot-Searched zero i map = λ j lo hi. absurd (omega (arith, lo, hi))
free_slot-Searched (suc n) i map = elim (Bool-cases (map i == 0)) [
  | inl e ↦ rw e (omega arith, omega arith, ground arith, λ k a b. absurd (omega (arith, a, b)))
  | inr e ↦ rw e (
      Searched-more n i map (free_slot n (suc i) map) (ground arith)
        (free_slot-Searched n (suc i) map))
]

-- The first address of the stack in slot `i`
abbrev pub stack_start : ℕ → ℕ
stack_start i = kstack_region_base + i * kstack_slot_size + page_size

-- A new stack: slot `i` was free and is taken, its 16 pages are laid, and the stack ends where the next
-- slot begins.
pub record NewStack (dir stack : ℕ) (s s' : Stacks) (i : ℕ) : Type 0 where
  pub slot : i < max_tasks
  pub free : s.kstack_map i ≡ 0
  pub ends : stack ≡ kstack_region_base + (i + 1) * kstack_slot_size
  pub map : (j : ℕ) → s'.kstack_map j ≡ set_slot i 1 s.kstack_map j
  pub laid : Laid dir (stack_start i) (between 0 kernel_stack_pages) s.space s'.space

abbrev pub StackResult : ℕ → Stacks → Option ℕ × Stacks → Type 0
StackResult dir s res =
    ((res.0 ≡ none)
      × ((j : ℕ) → res.1.kstack_map j ≡ s.kstack_map j)
      × Kept dir s.space res.1.space
      × (((j : ℕ) → j < max_tasks → s.kstack_map j ≢ 0)
          ⊎ ((i : ℕ) × (i < max_tasks)
              × (s.kstack_map i ≡ 0)
              × ((j : ℕ) → j < i → s.kstack_map j ≢ 0)
              × Refused dir (stack_start i) kernel_stack_pages s.space)))
    ⊎ ((stack : ℕ) × (i : ℕ) × (res.0 ≡ some stack) × NewStack dir stack s res.1 i)

take_slot-StackResult :
    (dir : ℕ) (s : Stacks) (o : Option ℕ)
    → IsTree dir s.space
    → Searched max_tasks 0 s.kstack_map o
    → StackResult dir s (take_slot o dir s)
unfolding take_slot
take_slot-StackResult dir s none tree h = inl (
  refl,
  λ j. refl,
  refl-Kept dir s.space tree,
  inl (λ j lt. h j (omega arith) (omega (arith, lt))),
)
take_slot-StackResult dir s (some i) tree (lo, hi, e, before) =
    elim (vmm_alloc-AllocOutcome dir (stack_start i) (kernel_stack_pages * page_size) kstack_flags
      s.space tree refl (omega arith) (omega arith) (omega arith) (omega (arith, hi))) [
        | inl (f, laid) ↦ rw f (
            inr (
              kstack_region_base + i * kstack_slot_size + kstack_slot_size,
              i,
              refl,
              record {
                slot = omega (arith, hi);
                free = e;
                ends = omega arith;
                map = λ j. refl;
                laid = laid;
              },
            ))
        | inr (f, kept, why) ↦ rw f (
            inl (
              refl,
              λ j. refl,
              kept,
              inr (i, omega (arith, hi), e, λ j lt. before j (omega arith) lt, why),
            ))
      ]

-- `vmm_alloc_kstack` in a tree of tables: it returns STATUS_OK and the end of a stack of 16 pages of its own,
-- filled with zeros, in a slot that was free and is taken now, while every other address, the page below the stack too, leads
-- where it did; or it returns STATUS_ERROR and changes no slot and no address, and then no slot was free,
-- or the
-- pages of the first free slot, which is one of the MAX_TASKS slots, were refused.
pub vmm_alloc_kstack-StackResult :
    (dir : ℕ) (s : Stacks) → IsTree dir s.space → StackResult dir s (vmm_alloc_kstack dir s)
unfolding vmm_alloc_kstack
vmm_alloc_kstack-StackResult dir s tree =
    take_slot-StackResult dir s (free_slot max_tasks 0 s.kstack_map) tree
      (free_slot-Searched max_tasks 0 s.kstack_map)

freed_stack :
    (dir stack i : ℕ) (s s' : Stacks)
    → NewStack dir stack s s' i
    → let res = vmm_free_kstack dir stack s' in
      (res.0 ≡ status_ok)
      × ((j : ℕ) → res.1.kstack_map j ≡ s.kstack_map j)
      × Kept dir s.space res.1.space
unfolding vmm_free_kstack
freed_stack dir stack i s s' new =
    let index : sub64 (sub64 stack kstack_slot_size) kstack_region_base / kstack_slot_size ≡ i =
      omega (arith, new.ends, new.slot) in
    let start : sub64 stack (kernel_stack_pages * page_size) ≡ stack_start i =
      omega (arith, new.ends, new.slot) in
    let inside : leb max_tasks i ≡ false = ground (arith, new.slot) in
    let taken : (s'.kstack_map i == 0) ≡ false = ground (arith, new.map i) in
    let f =
      vmm_free-Laid dir (stack_start i) (kernel_stack_pages * page_size) s.space s'.space
        (omega arith) (omega arith) (omega (arith, new.slot)) new.laid in
    rw (index, start, inside, taken, f.0)
      (
        refl,
        (λ j. elim (Bool-cases (j == i)) [
          | inl e ↦ let g : i ≡ j = ground arith in rw e (sym new.free ∙ ap s.kstack_map g)
          | inr e ↦ rw e (new.map j ∙ rw e refl)
        ]),
        f.1,
      )

-- `vmm_free_kstack` of a stack that `vmm_alloc_kstack` made in a tree of tables: it returns STATUS_OK, and
-- every slot and every address is as before both.
pub vmm_free_kstack-vmm_alloc_kstack :
    (dir stack : ℕ) (s : Stacks)
    → IsTree dir s.space
    → (vmm_alloc_kstack dir s).0 ≡ some stack
    → let res = vmm_free_kstack dir stack (vmm_alloc_kstack dir s).1 in
      (res.0 ≡ status_ok)
      × ((j : ℕ) → res.1.kstack_map j ≡ s.kstack_map j)
      × Kept dir s.space res.1.space
vmm_free_kstack-vmm_alloc_kstack dir stack s tree e =
    elim (vmm_alloc_kstack-StackResult dir s tree) [
      | inl (f, map, kept, why) ↦ absurd (cc (e, f))
      | inr (other, i, f, new) ↦
          let same : other ≡ stack = some_inj (sym f ∙ e) in
          freed_stack dir stack i s (vmm_alloc_kstack dir s).1
            (subst (λ x. NewStack dir x s (vmm_alloc_kstack dir s).1 i) same new)
    ]
