-- ===== src/Vmm/UserLaws.antt =====
-- `vmm_free_user_space` leaves no address of the lower half, and only that.
use taavi_os.Common.{
  ℕ, zero, suc, ◌+◌, ◌<◌, ◌≤◌, ◌≡◌, ◌⊎◌, inl, inr, refl, sym, ap, ◌∙◌, subst, true, false, ◌&&◌,
  Bool-cases, arith, Option, none, some, List, [], ◌∷◌, length, leb, ◌==◌,
}
use taavi_os.Config.{status_ok}
use taavi_os.Paging.Entry.{
  page_present, page_huge, has, frame, pml4_index, pdp_index, pd_index, pt_index,
}
use taavi_os.Paging.Space.{Space}
use taavi_os.Paging.Walk.{entry_table, next_table, table_at, IsTree}
use taavi_os.Paging.WalkLaws.{directory_path, leaf_phys, walk_from, translate}
use taavi_os.Paging.CreateLaws.{is_upper}
use taavi_os.Vmm.UserSpace.{
  drop_entry, free_entry, free_entries, free_table, free_directory, free_pointers,
  vmm_free_user_space,
}
use taavi_os.Vmm.Shrinks.{free_entries-absent, free_pointers-Shrinks}

-- The entries of the lower half: those of the directory, and of the tables below them.
abbrev pub IsUserEntry : ℕ → (ℕ → ℕ → ℕ) → ℕ → ℕ → Type 0
IsUserEntry dir mem b j =
    ((b ≡ dir) × (j < 256))
    ⊎ ((i : ℕ) × (p : List ℕ) × (length p ≤ 2)
        × (is_upper (i ∷ p) ≡ false)
        × (table_at mem dir (i ∷ p) ≡ some b))

-- Every entry is as it was, or it is one of the lower half and is 0 now.
abbrev pub Cleared : ℕ → Space → Space → Type 0
Cleared dir s₀ s =
    (b j : ℕ) → (s.mem b j ≡ s₀.mem b j) ⊎ ((s.mem b j ≡ 0) × IsUserEntry dir s₀.mem b j)

-- An entry that is present now was so before.
still_present :
    (dir : ℕ) (s₀ s : Space) (b j : ℕ)
    → Cleared dir s₀ s
    → has page_present (s.mem b j) ≡ true
    → s.mem b j ≡ s₀.mem b j
still_present dir s₀ s b j h e = elim (h b j) [
  | inl f ↦ f
  | inr (f, u) ↦
      let g : has page_present (s.mem b j) ≡ false = ap (has page_present) f in absurd (cc (e, g))
]

drop_entry-Cleared :
    (dir : ℕ) (s₀ s : Space) (table index : ℕ)
    → Cleared dir s₀ s
    → IsUserEntry dir s₀.mem table index
    → Cleared dir s₀ (drop_entry table index s)
unfolding drop_entry
drop_entry-Cleared dir s₀ s table index h u b j = elim (Bool-cases (b == table && j == index)) [
  | inr e ↦ rw e (h b j)
  | inl e ↦
      let f : table ≡ b = ground arith in
      let g : index ≡ j = ground arith in
      rw e (
        inr (
          refl,
          subst (λ x. IsUserEntry dir s₀.mem x j) f
              (subst (λ x. IsUserEntry dir s₀.mem table x) g u),
        ))
]

-- The body of a loop, at an entry of the lower half
free_entry-Cleared :
    (dir table index : ℕ) (s₀ s : Space) (inner : ℕ → Space → Space)
    → IsUserEntry dir s₀.mem table index
    → (has page_present (s₀.mem table index) ≡ true
        → Cleared dir s₀ (inner (frame (s₀.mem table index)) s))
    → Cleared dir s₀ s
    → Cleared dir s₀ (free_entry index inner table s)
unfolding free_entry
free_entry-Cleared dir table index s₀ s inner user below h =
    elim (Bool-cases (has page_present (s.mem table index))) [
      | inr e ↦ rw e h
      | inl e ↦
          let f = still_present dir s₀ s table index h e in
          rw (e, f)
            (drop_entry-Cleared dir s₀ (inner (frame (s₀.mem table index)) s) table index
              (below (sym (ap (has page_present) f) ∙ e)) user)
    ]

free_entries-Cleared :
    (n index dir table : ℕ) (s₀ s : Space) (inner : ℕ → Space → Space)
    → ((i : ℕ) → i < index + n → IsUserEntry dir s₀.mem table i)
    → ((i : ℕ) (s' : Space)
        → i < index + n
        → has page_present (s₀.mem table i) ≡ true
        → Cleared dir s₀ s'
        → Cleared dir s₀ (inner (frame (s₀.mem table i)) s'))
    → Cleared dir s₀ s
    → Cleared dir s₀ (free_entries n index inner table s)
unfolding free_entries
free_entries-Cleared zero index dir table s₀ s inner user below h = h
free_entries-Cleared (suc n) index dir table s₀ s inner user below h =
    free_entries-Cleared n (suc index) dir table s₀ (free_entry index inner table s) inner
      (λ i l. user i (omega (arith, l))) (λ i s' l. below i s' (omega (arith, l)))
      (free_entry-Cleared dir table index s₀ s inner (user index (omega arith))
        (λ e. below index s (omega arith) e h) h)

absent-translate :
    (dir virt : ℕ) (mem : ℕ → ℕ → ℕ)
    → has page_present (mem dir (pml4_index virt)) ≡ false
    → translate dir virt mem ≡ none
absent-translate dir virt mem e = rw e refl

-- No entry of a page directory below the lower half is huge.
abbrev pub HasNoHuge : ℕ → Space → Type 0
HasNoHuge dir s =
    (i j a k : ℕ)
    → j < 256
    → table_at s.mem dir (i ∷ j ∷ []) ≡ some a
    → has page_present (s.mem a k) ≡ true
    → has page_huge (s.mem a k) ≡ false

module _ (dir : ℕ) (s₀ : Space) (tree : IsTree dir s₀) (no_user_huge : HasNoHuge dir s₀) where
  -- The loop over a table of the lower half
  level-Cleared :
      (i : ℕ) (q : List ℕ) (t : ℕ) (s : Space) (inner : ℕ → Space → Space)
      → length q ≤ 2
      → is_upper (i ∷ q) ≡ false
      → table_at s₀.mem dir (i ∷ q) ≡ some t
      → ((j : ℕ) (s' : Space)
          → has page_present (s₀.mem t j) ≡ true
          → Cleared dir s₀ s'
          → Cleared dir s₀ (inner (frame (s₀.mem t j)) s'))
      → Cleared dir s₀ s
      → Cleared dir s₀ (free_entries 512 0 inner t s)
  level-Cleared i q t s inner l low at below h =
      free_entries-Cleared 512 0 dir t s₀ s inner (λ j lt. inr (i, q, l, low, at))
        (λ j s' lt. below j s') h

  next_level :
      (i : ℕ) (q : List ℕ) (t : ℕ)
      → table_at s₀.mem dir q ≡ some t
      → has page_present (s₀.mem t i) ≡ true
      → has page_huge (s₀.mem t i) ≡ false
      → table_at s₀.mem dir (i ∷ q) ≡ some (frame (s₀.mem t i))
  next_level i q t at e f = ap (next_table s₀.mem i) at ∙ rw (e, f) refl

  pub vmm_free_user_space-Cleared : Cleared dir s₀ (vmm_free_user_space (some dir) s₀).1
  unfolding vmm_free_user_space free_table free_directory free_pointers
  vmm_free_user_space-Cleared =
      free_entries-Cleared 256 0 dir dir s₀ s₀ free_pointers (λ i lt. inl (refl, lt))
        (λ i s lt e h.
          let pdpt = next_level i [] dir refl e (tree.no_huge [] dir i (omega arith) refl e) in
          let low : leb 256 i ≡ false = ground (arith, lt) in
          level-Cleared i [] (frame (s₀.mem dir i)) s free_directory (omega arith) low pdpt
            (λ j s e h.
              let two = frame (s₀.mem dir i) in
              let pd =
                next_level j (i ∷ []) two pdpt e
                  (tree.no_huge (i ∷ []) two j (omega arith) pdpt e) in
              level-Cleared j (i ∷ []) (frame (s₀.mem two j)) s free_table (omega arith) low pd
                (λ k s e h.
                  let three = frame (s₀.mem two j) in
                  let pt =
                    next_level k (j ∷ i ∷ []) three pd e
                      (no_user_huge j i three k (omega (arith, lt)) pd e) in
                  level-Cleared k (j ∷ i ∷ []) (frame (s₀.mem three k)) s (λ page s'. s')
                    (omega arith) low pt (λ l s e h. h) h)
                h)
            h)
        (λ b j. inl refl)

  abbrev after : Space
  after = (vmm_free_user_space (some dir) s₀).1

  user_gone : (virt : ℕ) → pml4_index virt < 256 → translate dir virt after.mem ≡ none
  unfolding vmm_free_user_space
  user_gone virt lt = absent-translate dir virt after.mem (
      free_entries-absent 256 0 dir (pml4_index virt) s₀ free_pointers free_pointers-Shrinks
        (omega arith) (omega (arith, lt)))

  -- A table of the upper half keeps its entries,
  upper_entry :
      (i : ℕ) (q : List ℕ) (b j : ℕ)
      → length q ≤ 2
      → is_upper (i ∷ q) ≡ true
      → table_at s₀.mem dir (i ∷ q) ≡ some b
      → after.mem b j ≡ s₀.mem b j
  upper_entry i q b j l up at = elim (vmm_free_user_space-Cleared b j) [
    | inl e ↦ e
    | inr (z, inl (e, lt)) ↦
        let one : (i ∷ q) ≡ [] =
          tree.one_place (i ∷ q) [] dir (omega (arith, l)) (omega arith)
            (at ∙ ap (λ (x : ℕ). some x) e) refl in
        absurd (cc one)
    | inr (z, inr (k, p, lp, low, there)) ↦
        let one : (i ∷ q) ≡ (k ∷ p) =
          tree.one_place (i ∷ q) (k ∷ p) b (omega (arith, l)) (omega (arith, lp)) at there in
        let e = ap is_upper one in absurd (cc (e, up, low))
  ]

  -- and so does the directory in its upper half.
  upper_root : (j : ℕ) → 256 ≤ j → after.mem dir j ≡ s₀.mem dir j
  upper_root j lo = elim (vmm_free_user_space-Cleared dir j) [
    | inl e ↦ e
    | inr (z, inl (e, lt)) ↦ absurd (omega (arith, lo, lt))
    | inr (z, inr (k, p, lp, low, there)) ↦
        let one : [] ≡ (k ∷ p) =
          tree.one_place [] (k ∷ p) dir (omega arith) (omega (arith, lp)) refl there in
        absurd (cc one)
  ]

  upper_tables :
      (i : ℕ) (q : List ℕ)
      → length q ≤ 2
      → is_upper (i ∷ q) ≡ true
      → table_at after.mem dir (i ∷ q) ≡ table_at s₀.mem dir (i ∷ q)
  upper_tables i [] l up = ap entry_table (upper_root i (ground (arith, up)))
  upper_tables i (j ∷ q) l up =
      ap (next_table after.mem i) (upper_tables j q (omega (arith, l)) up)
      ∙ step (table_at s₀.mem dir (j ∷ q)) refl
    where
      step :
          (o : Option ℕ)
          → table_at s₀.mem dir (j ∷ q) ≡ o
          → next_table after.mem i o ≡ next_table s₀.mem i o
      step none e = refl
      step (some b) e = ap entry_table (upper_entry j q b i (omega (arith, l)) up e)

  upper_walk :
      (virt : ℕ) (o : Option ℕ)
      → is_upper (directory_path virt) ≡ true
      → table_at s₀.mem dir (directory_path virt) ≡ o
      → walk_from virt o after.mem ≡ walk_from virt o s₀.mem
  upper_walk virt none up e = refl
  upper_walk virt (some pd) up e =
      rw (upper_entry (pdp_index virt) (pml4_index virt ∷ []) pd (pd_index virt) (omega arith) up e)
        (elim (Bool-cases (has page_present (s₀.mem pd (pd_index virt)))) [
          | inr f ↦ rw f refl
          | inl f ↦ elim (Bool-cases (has page_huge (s₀.mem pd (pd_index virt)))) [
            | inl g ↦ rw (f, g) refl
            | inr g ↦
                rw (f, g)
                  (ap (λ x. leaf_phys x virt)
                    (upper_entry (pd_index virt) (directory_path virt)
                      (frame (s₀.mem pd (pd_index virt))) (pt_index virt) (omega arith) up
                      (next_level (pd_index virt) (directory_path virt) pd e f g)))
          ]
        ])

  kernel_stays :
      (virt : ℕ) → 256 ≤ pml4_index virt → translate dir virt after.mem ≡ translate dir virt s₀.mem
  kernel_stays virt lo =
      let up : leb 256 (pml4_index virt) ≡ true = ground (arith, lo) in
      ap (λ o. walk_from virt o after.mem)
        (upper_tables (pdp_index virt) (pml4_index virt ∷ []) (omega arith) up)
      ∙ upper_walk virt (table_at s₀.mem dir (directory_path virt)) up refl

-- The lower half is empty, and the upper half is as it was.
pub record OnlyKernel (dir : ℕ) (s : Space) (res : ℕ × Space) : Type 0 where
  pub status : res.0 ≡ status_ok
  pub lower : (virt : ℕ) → pml4_index virt < 256 → translate dir virt res.1.mem ≡ none
  pub upper :
      (virt : ℕ) → 256 ≤ pml4_index virt → translate dir virt res.1.mem ≡ translate dir virt s.mem
  pub cleared : Cleared dir s res.1

-- `vmm_free_user_space` in a tree of tables whose lower half has no huge pages: it returns STATUS_OK,
-- every address of the lower half leads nowhere, every address of the upper half leads where it did,
-- and no word of the memory changes but entries of the lower half, which become 0.
pub vmm_free_user_space-OnlyKernel :
    (dir : ℕ) (s : Space)
    → IsTree dir s
    → HasNoHuge dir s
    → OnlyKernel dir s (vmm_free_user_space (some dir) s)
unfolding vmm_free_user_space
vmm_free_user_space-OnlyKernel dir s tree no_user_huge = record {
  status = refl;
  lower = user_gone dir s tree no_user_huge;
  upper = kernel_stays dir s tree no_user_huge;
  cleared = vmm_free_user_space-Cleared dir s tree no_user_huge;
}
