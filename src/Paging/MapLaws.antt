-- ===== src/Paging/MapLaws.antt =====
-- What `paging_map` does to every address.
use Prim.Native.Nat.{bit_or}
use taavi_os.Common.{
  ℕ, ◌+◌, ◌%◌, ◌<◌, ◌≤◌, ◌≡◌, ◌⊎◌, inl, inr, refl, sym, ap, ◌∙◌, Bool, true, false, not, ◌&&◌, ◌||◌,
  Bool-cases, arith, Option, none, some, [], ◌∷◌, if◌then◌else◌,
}
use taavi_os.Config.{status_ok, status_error}
use taavi_os.Paging.Entry.{
  huge_frame, page_present, has, frame, pml4_index, pdp_index, pd_index, pt_index, huge_page_size,
  is_address_viable, is_canonical,
}
use taavi_os.Paging.EntryLaws.{has-bit_or, frame-bit_or}
use taavi_os.Paging.Space.{Space, write_entry, descend, map_entry, paging_map}
use taavi_os.Paging.Walk.{table_at, IsTree}
use taavi_os.Paging.WalkLaws.{table_path, leaf_phys, translate}
use taavi_os.Paging.Kept.{Grown, trans-Grown, Kept, refl-Kept}
use taavi_os.Paging.Step.{HugeAt, Reached}
use taavi_os.Paging.Descend.{descend-Reached}
use taavi_os.Paging.Leaf.{same_page, written-Grown, written-translate, leaf-translate}

-- Where the processor finds an address
abbrev pub Finds : ℕ → ℕ → Space → Type 0
Finds dir virt s = (phys : ℕ) × (translate dir virt s.mem ≡ some phys)

huge-Finds : (dir virt : ℕ) (s : Space) → HugeAt dir s (table_path virt) → Finds dir virt s
huge-Finds dir virt s (a, e, f, g) =
    (huge_frame (s.mem a (pd_index virt)) + virt % huge_page_size, rw (e, f, g) refl)

Kept-Finds : (dir virt : ℕ) (s s' : Space) → Kept dir s s' → Finds dir virt s' → Finds dir virt s
Kept-Finds dir virt s s' h (phys, e) = (phys, sym (h.same virt) ∙ e)

pub same_page_refl : (virt : ℕ) → same_page virt virt ≡ true
same_page_refl virt = ground arith

pub leaf_phys-present :
    (entry virt : ℕ)
    → has page_present entry ≡ true
    → leaf_phys entry virt ≡ some (frame entry + virt % 4096)
leaf_phys-present entry virt e = rw e refl

pub leaf_phys-absent :
    (entry virt : ℕ) → has page_present entry ≡ false → leaf_phys entry virt ≡ none
leaf_phys-absent entry virt e = rw e refl

abbrev pub is_mappable : ℕ → ℕ → Bool
is_mappable virt phys = is_address_viable virt && is_address_viable phys && is_canonical virt

-- The page of `virt`, which led nowhere, leads to the page at `phys`, and every other page where it did.
pub record Mapped (dir virt phys : ℕ) (s s' : Space) : Type 0 where
  pub grown : Grown dir s s'
  pub allowed : is_mappable virt phys ≡ true
  pub spent : s.pmm.free_pages ≤ s'.pmm.free_pages + 3
  pub before : (w : ℕ) → same_page virt w ≡ true → translate dir w s.mem ≡ none
  pub table : (a : ℕ) × (table_at s'.mem dir (table_path virt) ≡ some a)
  pub mapped :
      (w : ℕ)
      → translate dir w s'.mem
        ≡ (if same_page virt w then some (phys + w % 4096) else translate dir w s.mem)

abbrev pub MapResult : ℕ → ℕ → ℕ → Space → ℕ × Space → Type 0
MapResult dir virt phys s res =
    ((res.0 ≡ status_error)
      × Kept dir s res.1
      × ((is_mappable virt phys ≡ false) ⊎ ((s.pmm.free_pages < 3) ⊎ Finds dir virt s)))
    ⊎ ((res.0 ≡ status_ok) × Mapped dir virt phys s res.1)

map_entry-MapResult :
    (dir virt phys entry : ℕ) (s : Space) (r : Option ℕ × Space)
    → is_mappable virt phys ≡ true
    → has page_present entry ≡ true
    → frame entry ≡ phys
    → Reached dir s true 3 (table_path virt) r
    → MapResult dir virt phys s (map_entry (pt_index virt) entry r)
unfolding map_entry
map_entry-MapResult dir virt phys entry s (none, s') ok p f h = inl (refl, h.kept, inr why)
  where
    why : (s.pmm.free_pages < 3) ⊎ Finds dir virt s
    why = elim (h.fails refl) [
      | inl (e, m) ↦ absurd (cc e)
      | inr (inl (e, few)) ↦ inl few
      | inr (inr huge) ↦ inr (Kept-Finds dir virt s s' h.kept (huge-Finds dir virt s' huge))
    ]
map_entry-MapResult dir virt phys entry s (some table, s') ok p f h =
    let at = h.at table refl in
    let leaf = leaf-translate dir s' virt table entry h.kept.grown.tree at in
    elim (Bool-cases (has page_present (s'.mem table (pt_index virt)))) [
      | inl e ↦ rw e (
          inl (
            refl,
            h.kept,
            inr (
                inr (
                  Kept-Finds dir virt s s' h.kept (
                    frame (s'.mem table (pt_index virt)) + virt % 4096,
                    leaf virt (same_page_refl virt)
                        ∙ leaf_phys-present (s'.mem table (pt_index virt)) virt e,
                  ))),
          ))
      | inr e ↦ rw e (
          inr (
            refl,
            record {
              grown =
                  trans-Grown dir s s'
                    (record s' { mem = write_entry table (pt_index virt) entry s'.mem })
                    h.kept.grown (written-Grown dir s' virt table entry h.kept.grown.tree at);
              allowed = ok;
              spent = h.spent;
              table = (
                table,
                (written-Grown dir s' virt table entry h.kept.grown.tree at).grows (table_path virt)
                    table (omega arith) at,
              );
              before = λ w y.
                  sym (h.kept.same w)
                  ∙ leaf w y
                  ∙ leaf_phys-absent (s'.mem table (pt_index virt)) w e;
              mapped = λ w.
                  written-translate dir s' virt table entry h.kept.grown.tree at w
                  ∙ ap (λ x. if same_page virt w then x else translate dir w s'.mem)
                      (leaf_phys-present entry w p ∙ ap (λ x. some (x + w % 4096)) f)
                  ∙ ap (λ x. if same_page virt w then some (phys + w % 4096) else x)
                      (h.kept.same w);
            },
          ))
    ]

-- `paging_map` in a tree of tables, for a `phys` that is the frame of itself and `flags` outside of
-- the frame: it returns STATUS_OK, and the page of `virt`, which led nowhere, leads to `phys` while every other address leads
-- where it did; or it returns STATUS_ERROR and every address leads where it did, and then an address was
-- refused, fewer than 3 pages were free, or `virt` led somewhere already. The tables
-- stay a tree, and a page in use that is no table keeps its content.
pub paging_map-MapResult :
    (dir virt phys flags : ℕ) (s : Space)
    → IsTree dir s
    → frame phys ≡ phys
    → frame flags ≡ 0
    → MapResult dir virt phys s (paging_map dir virt phys flags s)
unfolding paging_map
paging_map-MapResult dir virt phys flags s tree p f = elim (Bool-cases (is_mappable virt phys)) [
  | inr e ↦
      let g : (not (is_address_viable virt)
            || not (is_address_viable phys)
            || not (is_canonical virt))
          ≡ true =
        ground arith in
      rw g (inl (refl, refl-Kept dir s tree, inl e))
  | inl e ↦
      let g : (not (is_address_viable virt)
            || not (is_address_viable phys)
            || not (is_canonical virt))
          ≡ false =
        ground arith in
      let entry = bit_or (bit_or phys flags) page_present in
      rw g (
        map_entry-MapResult dir virt phys entry s
          (descend (pml4_index virt ∷ pdp_index virt ∷ pd_index virt ∷ []) true flags dir s) e
          (has-bit_or 0 (bit_or phys flags) page_present ∙ ground arith)
          (frame-bit_or (bit_or phys flags) page_present refl ∙ frame-bit_or phys flags f ∙ p)
          (descend-Reached (pml4_index virt ∷ pdp_index virt ∷ pd_index virt ∷ []) dir s [] dir true
            flags tree (omega arith) refl))
]
