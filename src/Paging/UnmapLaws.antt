-- ===== src/Paging/UnmapLaws.antt =====
-- What `paging_unmap` does to every address, and that it undoes `paging_map`.
use taavi_os.Common.{
  ℕ, ◌+◌, ◌%◌, ◌≡◌, ◌≢◌, ◌⊎◌, inl, inr, refl, sym, ap, ◌∙◌, true, false, not, Bool-cases, arith,
  Option, none, some, [], ◌∷◌, if◌then◌else◌,
}
use taavi_os.Config.{status_ok, status_error}
use taavi_os.Paging.Entry.{
  page_present, has, frame, pml4_index, pdp_index, pd_index, pt_index, is_address_viable,
}
use taavi_os.Paging.Space.{Space, write_entry, descend, paging_map, unmap_entry, paging_unmap}
use taavi_os.Paging.Walk.{next_table, table_at, IsTree}
use taavi_os.Paging.WalkLaws.{table_path, translate}
use taavi_os.Paging.Kept.{Grown, trans-Grown, Kept, refl-Kept}
use taavi_os.Paging.Step.{HugeAt, Reached}
use taavi_os.Paging.Descend.{descend-Reached}
use taavi_os.Paging.Leaf.{same_page, written-Grown, written-translate, leaf-translate}
use taavi_os.Paging.MapLaws.{
  Mapped, paging_map-MapResult, same_page_refl, leaf_phys-present, leaf_phys-absent,
}

-- The page of `virt`, which led to a page of 4 KiB, leads nowhere, and every other page where it did.
pub record Unmapped (dir virt : ℕ) (s s' : Space) : Type 0 where
  pub grown : Grown dir s s'
  pub before :
      (phys : ℕ) × ((w : ℕ)
        → same_page virt w ≡ true
        → translate dir w s.mem ≡ some (phys + w % 4096))
  pub unmapped :
      (w : ℕ) → translate dir w s'.mem ≡ (if same_page virt w then none else translate dir w s.mem)

abbrev pub UnmapResult : ℕ → ℕ → Space → ℕ × Space → Type 0
UnmapResult dir virt s res =
    ((res.0 ≡ status_error)
      × Kept dir s res.1
      × ((is_address_viable virt ≡ false)
          ⊎ ((translate dir virt s.mem ≡ none)
              ⊎ ((a : ℕ) → table_at s.mem dir (table_path virt) ≢ some a))))
    ⊎ ((res.0 ≡ status_ok) × Unmapped dir virt s res.1)

huge-none :
    (dir virt : ℕ) (s : Space)
    → HugeAt dir s (table_path virt)
    → table_at s.mem dir (table_path virt) ≡ none
huge-none dir virt s (a, e, f, g) = ap (next_table s.mem (pd_index virt)) e ∙ rw (f, g) refl

missing_before :
    (dir virt : ℕ) (s s' : Space)
    → Kept dir s s'
    → table_at s'.mem dir (table_path virt) ≡ none
    → (a : ℕ) → table_at s.mem dir (table_path virt) ≢ some a
missing_before dir virt s s' h n a e =
    let f = h.grown.grows (table_path virt) a (omega arith) e in absurd (cc (f, n))

unmap_entry-UnmapResult :
    (dir virt : ℕ) (s : Space) (r : Option ℕ × Space)
    → Reached dir s false 3 (table_path virt) r
    → UnmapResult dir virt s (unmap_entry (pt_index virt) r)
unfolding unmap_entry
unmap_entry-UnmapResult dir virt s (none, s') h = inl (
  refl,
  h.kept,
  inr (elim (h.fails refl) [
    | inl (e, m) ↦ inr (missing_before dir virt s s' h.kept m)
    | inr (inl (e, few)) ↦ absurd (cc e)
    | inr (inr huge) ↦ inr (missing_before dir virt s s' h.kept (huge-none dir virt s' huge))
  ]),
)
unmap_entry-UnmapResult dir virt s (some table, s') h =
    let at = h.at table refl in
    let leaf = leaf-translate dir s' virt table 0 h.kept.grown.tree at in
    elim (Bool-cases (has page_present (s'.mem table (pt_index virt)))) [
      | inr e ↦ rw e (
          inl (
            refl,
            h.kept,
            inr (
                inl (
                  sym (h.kept.same virt)
                  ∙ leaf virt (same_page_refl virt)
                  ∙ leaf_phys-absent (s'.mem table (pt_index virt)) virt e)),
          ))
      | inl e ↦ rw e (
          inr (
            refl,
            record {
              grown =
                  trans-Grown dir s s'
                    (record s' { mem = write_entry table (pt_index virt) 0 s'.mem }) h.kept.grown
                    (written-Grown dir s' virt table 0 h.kept.grown.tree at);
              before = (
                frame (s'.mem table (pt_index virt)),
                λ w y.
                    sym (h.kept.same w)
                    ∙ leaf w y
                    ∙ leaf_phys-present (s'.mem table (pt_index virt)) w e,
              );
              unmapped = λ w.
                  written-translate dir s' virt table 0 h.kept.grown.tree at w
                  ∙ ap (λ x. if same_page virt w then none else x) (h.kept.same w);
            },
          ))
    ]

-- `paging_unmap` in a tree of tables: it returns STATUS_OK, and the page of `virt`, which led to a page
-- of 4 KiB, leads nowhere while every other address leads where it did; or it returns STATUS_ERROR and
-- every address leads where it did, and then `virt` was not aligned, led nowhere, or had no page table.
-- The tables stay a tree, and a page in use that is no table keeps its content.
pub paging_unmap-UnmapResult :
    (dir virt : ℕ) (s : Space) → IsTree dir s → UnmapResult dir virt s (paging_unmap dir virt s)
unfolding paging_unmap
paging_unmap-UnmapResult dir virt s tree = elim (Bool-cases (is_address_viable virt)) [
  | inr e ↦
      let g : not (is_address_viable virt) ≡ true = ground arith in
      rw g (inl (refl, refl-Kept dir s tree, inl e))
  | inl e ↦
      let g : not (is_address_viable virt) ≡ false = ground arith in
      rw g (
        unmap_entry-UnmapResult dir virt s
          (descend (pml4_index virt ∷ pdp_index virt ∷ pd_index virt ∷ []) false 0 dir s)
          (descend-Reached (pml4_index virt ∷ pdp_index virt ∷ pd_index virt ∷ []) dir s [] dir
            false 0 tree (omega arith) refl))
]

-- A page that `paging_map` has mapped in a tree of tables is unmapped by `paging_unmap`, which returns
-- STATUS_OK, and then every address leads where it led before both, and a page that was in use and is no
-- table has its old content. `phys` is the frame of itself and `flags` are outside of it.
pub paging_unmap-paging_map :
    (dir virt phys flags : ℕ) (s : Space)
    → IsTree dir s
    → frame phys ≡ phys
    → frame flags ≡ 0
    → (paging_map dir virt phys flags s).0 ≡ status_ok
    → ((paging_unmap dir virt (paging_map dir virt phys flags s).1).0 ≡ status_ok)
      × Kept dir s (paging_unmap dir virt (paging_map dir virt phys flags s).1).1
paging_unmap-paging_map dir virt phys flags s tree p f ok =
    elim (paging_map-MapResult dir virt phys flags s tree p f) [
      | inl (e, kept, why) ↦ absurd (omega (arith, e, ok))
      | inr (e, m) ↦ unmapped (paging_map dir virt phys flags s).1 m
    ]
  where
    unmapped :
        (s' : Space)
        → Mapped dir virt phys s s'
        → ((paging_unmap dir virt s').0 ≡ status_ok) × Kept dir s (paging_unmap dir virt s').1
    unmapped s' m = elim (paging_unmap-UnmapResult dir virt s' m.grown.tree) [
      | inl (e, kept, inl odd) ↦ let h = m.allowed in absurd (ground (arith, odd, h))
      | inl (e, kept, inr (inl nowhere)) ↦
          let h : some (phys + virt % 4096) ≡ none =
            sym (m.mapped virt ∙ rw (same_page_refl virt) refl) ∙ nowhere in
          absurd (cc h)
      | inl (e, kept, inr (inr missing)) ↦ let (a, at) = m.table in absurd (missing a at)
      | inr (e, u) ↦ (
        e,
        record {
          grown = trans-Grown dir s s' (paging_unmap dir virt s').1 m.grown u.grown;
          same = λ w. elim (Bool-cases (same_page virt w)) [
            | inl y ↦ u.unmapped w ∙ rw y (sym (m.before w y))
            | inr n ↦ u.unmapped w ∙ rw n (m.mapped w ∙ rw n refl)
          ];
        },
      )
    ]
