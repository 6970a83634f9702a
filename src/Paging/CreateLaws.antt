-- ===== src/Paging/CreateLaws.antt =====
-- `paging_create_directory`: the new directory shares the upper half of the kernel's.
use taavi_os.Common.{
  ℕ, ◌*◌, ◌^◌, ◌<◌, ◌≤◌, ◌≡◌, ◌≢◌, ◌⊎◌, inl, inr, refl, sym, ap, ◌∙◌, Bool, true, false, ◌&&◌,
  Bool-cases, arith, Option, none, some, some_inj, List, [], ◌∷◌, length, leb, ◌==◌, if◌then◌else◌,
}
use taavi_os.Pmm.Pages.{Pmm, page_size, test_bit}
use taavi_os.Pmm.Alloc.{pmm_alloc}
use taavi_os.Pmm.Valid.{Granted, AllocResult, count_all, used}
use taavi_os.Pmm.AllocLaws.{alloc-AllocResult}
use taavi_os.Paging.Entry.{is_aligned, page_present, page_huge, has, pml4_index, pdp_index}
use taavi_os.Paging.Space.{Space, zero_page, paging_create_directory}
use taavi_os.Paging.Walk.{entry_table, next_table, table_at, IsTree}
use taavi_os.Paging.WalkLaws.{directory_path, walk_from, translate}
use taavi_os.Paging.Kept.{Kept, refl-Kept}
use taavi_os.Paging.Agree.{agree-walk_from, agree-Kept}

-- The first index of a path, which stands last, is in the upper half.
abbrev pub is_upper : List ℕ → Bool
is_upper [] = false
is_upper (i ∷ []) = leb 256 i
is_upper (i ∷ j ∷ path) = is_upper (j ∷ path)

module _ (kernel : ℕ) (s : Space) (page : ℕ) (manager : Pmm) (tree : IsTree kernel s)
    (granted : Granted s.pmm page manager) where
  abbrev dir : ℕ
  dir = page * page_size

  abbrev created : Space
  created = record {
    mem = λ b j.
        if b == dir && leb 256 j then zero_page dir s.mem kernel j else zero_page dir s.mem b j;
    pmm = manager;
  }

  small : page < 2 ^ 32
  small = omega (arith, granted.inside, tree.manager.small)

  -- The page is no table of the kernel's directory.
  other_page : (p : List ℕ) (a : ℕ) → length p ≤ 3 → table_at s.mem kernel p ≡ some a → a ≢ dir
  other_page p a l e q =
      let (n, f, lt, t) = tree.in_use p a l e in
      let same : n ≡ page = omega (arith, f, q) in
      ground (arith, t, granted.was_free, ap (λ x. test_bit x s.pmm) same)

  old_entry : (a j : ℕ) → a ≢ dir → created.mem a j ≡ s.mem a j
  old_entry a j n = ground (arith, n)

  new_entry : (j : ℕ) → created.mem dir j ≡ (if leb 256 j then s.mem kernel j else 0)
  new_entry j = ground (arith, other_page [] kernel (omega arith) refl)

  step :
      (i : ℕ) (p : List ℕ) (o : Option ℕ)
      → length p ≤ 3
      → table_at s.mem kernel p ≡ o
      → next_table created.mem i o ≡ next_table s.mem i o
  step i p none l e = refl
  step i p (some a) l e = ap entry_table (old_entry a i (other_page p a l e))

  agree :
      (p : List ℕ) (a j : ℕ)
      → length p ≤ 3
      → table_at s.mem kernel p ≡ some a
      → created.mem a j ≡ s.mem a j
  agree p a j l e = old_entry a j (other_page p a l e)

  -- The tables of the new directory
  new_tables :
      (i : ℕ) (p : List ℕ)
      → length p ≤ 2
      → table_at created.mem dir (i ∷ p)
        ≡ (if is_upper (i ∷ p) then table_at s.mem kernel (i ∷ p) else none)
  new_tables i [] l = elim (Bool-cases (leb 256 i)) [
    | inl e ↦ ap entry_table (new_entry i) ∙ rw e refl
    | inr e ↦ ap entry_table (new_entry i) ∙ rw e refl
  ]
  new_tables i (j ∷ p) l =
      ap (next_table created.mem i) (new_tables j p (omega (arith, l)))
      ∙ elim (Bool-cases (is_upper (j ∷ p))) [
        | inl e ↦ rw e (step i (j ∷ p) (table_at s.mem kernel (j ∷ p)) (omega (arith, l)) refl)
        | inr e ↦ rw e refl
      ]

  -- are those of the kernel's in the upper half.
  from_kernel :
      (i : ℕ) (p : List ℕ) (a : ℕ)
      → length p ≤ 2
      → table_at created.mem dir (i ∷ p) ≡ some a
      → table_at s.mem kernel (i ∷ p) ≡ some a
  from_kernel i p a l e = elim (Bool-cases (is_upper (i ∷ p))) [
    | inl f ↦ sym (new_tables i p l ∙ rw f refl) ∙ e
    | inr f ↦
        let g : table_at created.mem dir (i ∷ p) ≡ none = new_tables i p l ∙ rw f refl in
        absurd (cc (e, g))
  ]

  created-IsTree : IsTree dir created
  created-IsTree = record {
    manager = granted.valid;
    one_place = one_place;
    in_use = in_use;
    no_huge = no_huge;
    aligned = aligned;
  }
    where
      one_place :
          (p q : List ℕ) (a : ℕ)
          → length p ≤ 3
          → length q ≤ 3
          → table_at created.mem dir p ≡ some a
          → table_at created.mem dir q ≡ some a
          → p ≡ q
      one_place [] [] a lp lq ep eq = refl
      one_place [] (j ∷ q) a lp lq ep eq =
          absurd
            (other_page (j ∷ q) a lq (from_kernel j q a (omega (arith, lq)) eq) (sym (some_inj ep)))
      one_place (i ∷ p) [] a lp lq ep eq =
          absurd
            (other_page (i ∷ p) a lp (from_kernel i p a (omega (arith, lp)) ep) (sym (some_inj eq)))
      one_place (i ∷ p) (j ∷ q) a lp lq ep eq =
          tree.one_place (i ∷ p) (j ∷ q) a lp lq (from_kernel i p a (omega (arith, lp)) ep)
            (from_kernel j q a (omega (arith, lq)) eq)

      in_use :
          (p : List ℕ) (a : ℕ)
          → length p ≤ 3
          → table_at created.mem dir p ≡ some a
          → (n : ℕ) × (a ≡ n * page_size) × (n < 2 ^ 32) × (test_bit n manager ≡ true)
      in_use [] a l e = (page, sym (some_inj e), small, ground (arith, granted.taken page small))
      in_use (i ∷ p) a l e =
          let (n, g, lt, t) = tree.in_use (i ∷ p) a l (from_kernel i p a (omega (arith, l)) e) in
          (n, g, lt, ground (arith, granted.taken n lt, t))

      no_huge :
          (p : List ℕ) (a i : ℕ)
          → length p ≤ 1
          → table_at created.mem dir p ≡ some a
          → has page_present (created.mem a i) ≡ true
          → has page_huge (created.mem a i) ≡ false
      no_huge [] a i l e f =
          let g : created.mem a i ≡ (if leb 256 i then s.mem kernel i else 0) =
            ap (λ x. created.mem x i) (sym (some_inj e)) ∙ new_entry i in
          elim (Bool-cases (leb 256 i)) [
            | inl h ↦
                let k : created.mem a i ≡ s.mem kernel i = g ∙ rw h refl in
                ap (has page_huge) k
                ∙ tree.no_huge [] kernel i l refl (sym (ap (has page_present) k) ∙ f)
            | inr h ↦ let k : created.mem a i ≡ 0 = g ∙ rw h refl in ap (has page_huge) k
          ]
      no_huge (j ∷ p) a i l e f =
          let g = from_kernel j p a (omega (arith, l)) e in
          let k = old_entry a i (other_page (j ∷ p) a (omega (arith, l)) g) in
          ap (has page_huge) k ∙ tree.no_huge (j ∷ p) a i l g (sym (ap (has page_present) k) ∙ f)

      aligned :
          (p : List ℕ) (a i : ℕ)
          → length p ≤ 2
          → table_at created.mem dir p ≡ some a
          → has page_present (created.mem a i) ≡ true
          → is_aligned (created.mem a i) ≡ true
      aligned [] a i l e f =
          let g : created.mem a i ≡ (if leb 256 i then s.mem kernel i else 0) =
            ap (λ x. created.mem x i) (sym (some_inj e)) ∙ new_entry i in
          elim (Bool-cases (leb 256 i)) [
            | inl h ↦
                let k : created.mem a i ≡ s.mem kernel i = g ∙ rw h refl in
                ap is_aligned k
                ∙ tree.aligned [] kernel i l refl (sym (ap (has page_present) k) ∙ f)
            | inr h ↦ let k : created.mem a i ≡ 0 = g ∙ rw h refl in ap is_aligned k
          ]
      aligned (j ∷ p) a i l e f =
          let g = from_kernel j p a (omega (arith, l)) e in
          let k = old_entry a i (other_page (j ∷ p) a (omega (arith, l)) g) in
          ap is_aligned k ∙ tree.aligned (j ∷ p) a i l g (sym (ap (has page_present) k) ∙ f)

  -- The kernel's own directory keeps its tables and its addresses.
  created-Kept : Kept kernel s created
  created-Kept =
      agree-Kept kernel s created agree tree granted.valid
        (λ n lt t. ground (arith, granted.taken n lt, t))
        (λ n j lt t.
          let apart : n * page_size ≢ dir = λ e.
            let f : n ≡ page = omega (arith, e) in
            ground (arith, t, granted.was_free, ap (λ x. test_bit x s.pmm) f) in
          ground (arith, apart))

  created-translate :
      (virt : ℕ)
      → translate dir virt created.mem
        ≡ (if leb 256 (pml4_index virt) then translate kernel virt s.mem else none)
  created-translate virt =
      ap (λ o. walk_from virt o created.mem)
        (new_tables (pdp_index virt) (pml4_index virt ∷ []) (omega arith))
      ∙ elim (Bool-cases (leb 256 (pml4_index virt))) [
        | inl e ↦ rw e (
            agree-walk_from kernel s created agree virt
              (table_at s.mem kernel (directory_path virt)) refl)
        | inr e ↦ rw e refl
      ]

-- A new directory `dir`: a page that was no table, a tree of tables, and the processor finds in it the
-- addresses of the kernel's upper half.
pub record Created (kernel dir : ℕ) (s s' : Space) : Type 0 where
  pub kept : Kept kernel s s'
  pub tree : IsTree dir s'
  pub fresh : (p : List ℕ) → length p ≤ 3 → table_at s.mem kernel p ≢ some dir
  pub shared :
      (virt : ℕ)
      → translate dir virt s'.mem
        ≡ (if leb 256 (pml4_index virt) then translate kernel virt s.mem else none)

abbrev pub CreateResult : ℕ → Space → Option ℕ × Space → Type 0
CreateResult kernel s res =
    ((res.0 ≡ none) × Kept kernel s res.1 × (s.pmm.free_pages ≡ 0))
    ⊎ ((dir : ℕ) × (res.0 ≡ some dir) × Created kernel dir s res.1)

create_on :
    (kernel : ℕ) (s : Space) (res : ℕ × Pmm)
    → IsTree kernel s
    → AllocResult s.pmm res
    → CreateResult kernel s (
        if res.0 == 0 then (none, record s { pmm = res.1 }) else (
          some res.0,
          record {
            mem = λ b j.
                if b == res.0 && leb 256 j
                then zero_page res.0 s.mem kernel j
                else zero_page res.0 s.mem b j;
            pmm = res.1;
          },
        ))
create_on kernel s res tree (inl (z, same, full)) =
    rw (z, same)
      (inl (
        refl,
        refl-Kept kernel s tree,
        tree.manager.free_eq ∙ count_all s.pmm.max_pages (used s.pmm) full,
      ))
create_on kernel s res tree (inr (page, address, nonzero, granted)) =
    let no_null : (page * page_size == 0) ≡ false = ground arith in
    rw (address, no_null)
      (inr (
        page * page_size,
        refl,
        record {
          kept = created-Kept kernel s page res.1 tree granted;
          tree = created-IsTree kernel s page res.1 tree granted;
          fresh =
              λ p l e. other_page kernel s page res.1 tree granted p (page * page_size) l e refl;
          shared = created-translate kernel s page res.1 tree granted;
        },
      ))

-- `paging_create_directory` in a tree of tables of the kernel: it returns NULL when no page is free and
-- changes no address, or a new directory, a tree of tables that shares exactly the upper half of the
-- kernel's addresses and has no others, and every address of the kernel's directory leads where it did.
pub paging_create_directory-CreateResult :
    (kernel : ℕ) (s : Space)
    → IsTree kernel s
    → CreateResult kernel s (paging_create_directory kernel s)
unfolding paging_create_directory
paging_create_directory-CreateResult kernel s tree =
    create_on kernel s (pmm_alloc s.pmm) tree (alloc-AllocResult s.pmm tree.manager)
