-- ===== src/Paging/Kept.antt =====
-- Changes of the memory that every address survives: entries that only gain a permission, and new
-- tables, which are empty.
use taavi_os.Common.{
  ℕ, ◌*◌, ◌^◌, ◌<◌, ◌≤◌, ◌≡◌, ◌≢◌, refl, sym, ap, ◌∙◌, true, false, arith, Option, none, some, List,
  length,
}
use taavi_os.Pmm.Pages.{page_size, test_bit}
use taavi_os.Paging.Entry.{
  huge_frame, is_aligned, page_present, page_huge, has, frame, pd_index, pt_index,
}
use taavi_os.Paging.Space.{Space}
use taavi_os.Paging.Walk.{entry_table, table_at, IsTree}
use taavi_os.Paging.WalkLaws.{table_at-same, directory_path, walk_from, translate}

-- No table of the directory is at the address.
abbrev pub IsNoTable : ℕ → (ℕ → ℕ → ℕ) → ℕ → Type 0
IsNoTable dir mem a = (p : List ℕ) → length p ≤ 3 → table_at mem dir p ≢ some a

-- The directory stays a tree of tables, which keep their places; a new table is a page that was free,
-- and a page in use stays in use, with its content when it is no table.
pub record Grown (dir : ℕ) (s s' : Space) : Type 0 where
  pub tree : IsTree dir s'
  pub grows :
      (p : List ℕ) (a : ℕ)
      → length p ≤ 3
      → table_at s.mem dir p ≡ some a
      → table_at s'.mem dir p ≡ some a
  pub news :
      (p : List ℕ) (n : ℕ)
      → length p ≤ 3
      → n < 2 ^ 32
      → test_bit n s.pmm ≡ true
      → table_at s'.mem dir p ≡ some (n * page_size)
      → table_at s.mem dir p ≡ some (n * page_size)
  pub uses : (n : ℕ) → n < 2 ^ 32 → test_bit n s.pmm ≡ true → test_bit n s'.pmm ≡ true
  pub keeps :
      (n j : ℕ)
      → n < 2 ^ 32
      → test_bit n s.pmm ≡ true
      → IsNoTable dir s'.mem (n * page_size)
      → s'.mem (n * page_size) j ≡ s.mem (n * page_size) j

pub refl-Grown : (dir : ℕ) (s : Space) → IsTree dir s → Grown dir s s
refl-Grown dir s v = record {
  tree = v;
  grows = λ p a l e. e;
  news = λ p n l lt t e. e;
  uses = λ n lt t. t;
  keeps = λ n j lt t o. refl;
}

pub trans-Grown : (dir : ℕ) (s s' s'' : Space) → Grown dir s s' → Grown dir s' s'' → Grown dir s s''
trans-Grown dir s s' s'' h g = record {
  tree = g.tree;
  grows = λ p a l e. g.grows p a l (h.grows p a l e);
  news = λ p n l lt t e. h.news p n l lt t (g.news p n l lt (h.uses n lt t) e);
  uses = λ n lt t. g.uses n lt (h.uses n lt t);
  keeps = λ n j lt t o.
      g.keeps n j lt (h.uses n lt t) o
      ∙ h.keeps n j lt t (λ p l e. o p l (g.grows p (n * page_size) l e));
}

-- Besides, every address leads where it did.
pub record Kept (dir : ℕ) (s s' : Space) : Type 0 where
  pub grown : Grown dir s s'
  pub same : (virt : ℕ) → translate dir virt s'.mem ≡ translate dir virt s.mem

pub refl-Kept : (dir : ℕ) (s : Space) → IsTree dir s → Kept dir s s
refl-Kept dir s v = record { grown = refl-Grown dir s v; same = λ virt. refl }

pub trans-Kept : (dir : ℕ) (s s' s'' : Space) → Kept dir s s' → Kept dir s' s'' → Kept dir s s''
trans-Kept dir s s' s'' h g = record {
  grown = trans-Grown dir s s' s'' h.grown g.grown;
  same = λ virt. g.same virt ∙ h.same virt;
}

-- Two entries with the same addresses, both present or not, both huge or not
pub record Alike (a b : ℕ) : Type 0 where
  pub present : has page_present b ≡ has page_present a
  pub huge : has page_huge b ≡ has page_huge a
  pub frames : frame b ≡ frame a
  pub huge_frames : huge_frame b ≡ huge_frame a

pub refl-Alike : (a : ℕ) → Alike a a
refl-Alike a = record { present = refl; huge = refl; frames = refl; huge_frames = refl }

entry_table-Alike : (a b : ℕ) → Alike a b → entry_table b ≡ entry_table a
entry_table-Alike a b h = rw (h.present, h.huge, h.frames) refl

is_aligned-Alike : (a b : ℕ) → Alike a b → is_aligned b ≡ is_aligned a
is_aligned-Alike a b h = rw (h.huge, h.frames, h.huge_frames) refl

module _ (dir : ℕ) (s : Space) (m' : ℕ → ℕ → ℕ) where
  abbrev new : Space
  new = record s { mem = m' }

  -- The tables of a memory that has the same ones form a tree, when the upper levels have no huge entries.
  pub same_tables-IsTree :
      IsTree dir s
      → ((p : List ℕ) → length p ≤ 3 → table_at m' dir p ≡ table_at s.mem dir p)
      → ((p : List ℕ) (a i : ℕ)
          → length p ≤ 1
          → table_at s.mem dir p ≡ some a
          → has page_present (m' a i) ≡ true
          → has page_huge (m' a i) ≡ false)
      → ((p : List ℕ) (a i : ℕ)
          → length p ≤ 2
          → table_at s.mem dir p ≡ some a
          → has page_present (m' a i) ≡ true
          → is_aligned (m' a i) ≡ true)
      → IsTree dir new
  same_tables-IsTree v h g k = record {
    manager = v.manager;
    one_place =
        λ p q a lp lq ep eq. v.one_place p q a lp lq (sym (h p lp) ∙ ep) (sym (h q lq) ∙ eq);
    in_use = λ p a lp ep. v.in_use p a lp (sym (h p lp) ∙ ep);
    no_huge = λ p a i lp ep e. g p a i lp (sym (h p (omega (arith, lp))) ∙ ep) e;
    aligned = λ p a i lp ep e. k p a i lp (sym (h p (omega (arith, lp))) ∙ ep) e;
  }

  pub same_tables-Grown :
      IsTree dir new
      → ((p : List ℕ) → length p ≤ 3 → table_at m' dir p ≡ table_at s.mem dir p)
      → ((a j : ℕ) → IsNoTable dir s.mem a → m' a j ≡ s.mem a j)
      → Grown dir s new
  same_tables-Grown v h g = record {
    tree = v;
    grows = λ p a l e. h p l ∙ e;
    news = λ p n l lt t e. sym (h p l) ∙ e;
    uses = λ n lt t. t;
    keeps = λ n j lt t o. g (n * page_size) j (λ p l e. o p l (h p l ∙ e));
  }

  walk_from-Alike :
      (virt : ℕ) (o : Option ℕ)
      → ((a i : ℕ) → Alike (s.mem a i) (m' a i))
      → walk_from virt o m' ≡ walk_from virt o s.mem
  walk_from-Alike virt none h = refl
  walk_from-Alike virt (some pd) h =
      let e = h pd (pd_index virt) in
      let f = h (frame (s.mem pd (pd_index virt))) (pt_index virt) in
      rw (e.present, e.huge, e.frames, e.huge_frames, f.present, f.frames) refl

  pub Alike-table_at :
      ((a i : ℕ) → Alike (s.mem a i) (m' a i))
      → (p : List ℕ) → length p ≤ 3
      → table_at m' dir p ≡ table_at s.mem dir p
  Alike-table_at h =
      table_at-same s.mem m' dir (λ p a j l e. entry_table-Alike (s.mem a j) (m' a j) (h a j))

  -- Entries that stay alike change nothing.
  pub Alike-Kept :
      IsTree dir s
      → ((a i : ℕ) → Alike (s.mem a i) (m' a i))
      → ((a j : ℕ) → IsNoTable dir s.mem a → m' a j ≡ s.mem a j)
      → Kept dir s new
  Alike-Kept v h g = record {
    grown = same_tables-Grown tree (Alike-table_at h) g;
    same = λ virt.
        ap (λ o. walk_from virt o m') (Alike-table_at h (directory_path virt) (omega arith))
        ∙ walk_from-Alike virt (table_at s.mem dir (directory_path virt)) h;
  }
    where
      tree : IsTree dir new
      tree =
          same_tables-IsTree v (Alike-table_at h)
            (λ p a i l e f. (h a i).huge ∙ v.no_huge p a i l e (sym (h a i).present ∙ f))
            (λ p a i l e f.
              is_aligned-Alike (s.mem a i) (m' a i) (h a i)
              ∙ v.aligned p a i l e (sym (h a i).present ∙ f))
