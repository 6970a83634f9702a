-- ===== src/Pmm/Valid.antt =====
-- The invariant of the physical memory manager, its searches, and what taking a page does to it.
use taavi_os.Common.{
  ℕ, zero, suc, ◌+◌, ◌*◌, ◌^◌, ◌<◌, ◌≤◌, ◌≡◌, ◌≢◌, ◌⊎◌, inl, inr, refl, Bool, true, false, not,
  ◌||◌, ◌&&◌, Option, none, some, length, length-set, ltb, ◌==◌, if◌then◌else◌, Bool-cases, arith,
}
use taavi_os.Pmm.Pages.{Pmm, page_size, test_bit}
use taavi_os.Pmm.PagesLaws.{InMap, test_bit-set_bit}
use taavi_os.Pmm.Alloc.{find_free, grant}

-- How many of the numbers below `n` fail a test.
abbrev pub count_false : ℕ → (ℕ → Bool) → ℕ
count_false zero f = 0
count_false (suc n) f = (if f n then 0 else 1) + count_false n f

abbrev pub used : Pmm → ℕ → Bool
used s page = test_bit page s

pub record IsValid (s : Pmm) : Type 0 where
  pub covered : s.max_pages ≤ 64 * length s.bitmap
  pub small : s.max_pages < 2 ^ 32
  pub last : s.last_found ≤ s.max_pages
  pub zero_used : test_bit 0 s ≡ true
  pub free_eq : s.free_pages ≡ count_false s.max_pages (used s)
  pub used_eq : s.used_pages + s.free_pages ≡ s.max_pages

-- One number more passes the test.
count_set :
    (n p : ℕ) (f g : ℕ → Bool)
    → ((j : ℕ) → j < n → g j ≡ (p == j || f j))
    → f p ≡ false
    → count_false n g + (if ltb p n then 1 else 0) ≡ count_false n f
count_set zero p f g h e = ground arith
count_set (suc n) p f g h e =
    ground (arith, h n (omega arith), count_set n p f g (λ j l. h j (omega arith)) e)

-- One number fewer passes it.
pub count_clear :
    (n p : ℕ) (f g : ℕ → Bool)
    → ((j : ℕ) → j < n → g j ≡ (not (p == j) && f j))
    → f p ≡ true
    → count_false n g ≡ count_false n f + (if ltb p n then 1 else 0)
count_clear zero p f g h e = ground arith
count_clear (suc n) p f g h e =
    ground (arith, h n (omega arith), count_clear n p f g (λ j l. h j (omega arith)) e)

pub count_all : (n : ℕ) (f : ℕ → Bool) → ((j : ℕ) → j < n → f j ≡ true) → count_false n f ≡ 0
count_all zero f h = refl
count_all (suc n) f h = ground (arith, h n (omega arith), count_all n f (λ j l. h j (omega arith)))

pub count_false-le : (n : ℕ) (f : ℕ → Bool) → count_false n f ≤ n
count_false-le zero f = omega arith
count_false-le (suc n) f = ground (arith, count_false-le n f)

-- What a search of `n` pages from `page` on says of them.
abbrev pub Looked : ℕ → ℕ → Pmm → Option ℕ → Type 0
Looked n page s none = (j : ℕ) → page ≤ j → j < page + n → test_bit j s ≡ true
Looked n page s (some p) = (test_bit p s ≡ false) × (page ≤ p) × (p < page + n)

step_look :
    (n page : ℕ) (s : Pmm) (o : Option ℕ)
    → test_bit page s ≡ true
    → Looked n (page + 1) s o
    → Looked (suc n) page s o
step_look n page s none e h = λ j lo hi. elim (Bool-cases (page == j)) [
  | inl same ↦ ground arith
  | inr other ↦ h j (ground arith) (omega arith)
]
step_look n page s (some p) e h = (h.0, omega (arith, h.1), omega (arith, h.2))

pub find_free-Looked : (n page : ℕ) (s : Pmm) → Looked n page s (find_free n page s)
unfolding find_free
find_free-Looked zero page s = λ j lo hi. absurd (omega arith)
find_free-Looked (suc n) page s = elim (Bool-cases (test_bit page s)) [
  | inl e ↦ rw e (step_look n page s (find_free n (page + 1) s) e (find_free-Looked n (page + 1) s))
  | inr e ↦ rw e (e, omega arith, omega arith)
]

-- What taking page `p` does.
pub record Granted (s : Pmm) (p : ℕ) (s' : Pmm) : Type 0 where
  pub was_free : test_bit p s ≡ false
  pub inside : p < s.max_pages
  pub same_max : s'.max_pages ≡ s.max_pages
  pub taken : (j : ℕ) → j < 2 ^ 32 → test_bit j s' ≡ (p == j || test_bit j s)
  pub free_one_less : s'.free_pages + 1 ≡ s.free_pages
  pub used_one_more : s'.used_pages ≡ s.used_pages + 1
  pub valid : IsValid s'

-- The result of `pmm_alloc`: 0 and the same state, where every page is used, or the address of a page.
abbrev pub AllocResult : Pmm → ℕ × Pmm → Type 0
AllocResult s res =
    ((res.0 ≡ 0) × (res.1 ≡ s) × ((j : ℕ) → j < s.max_pages → test_bit j s ≡ true))
    ⊎ ((p : ℕ) × (res.0 ≡ p * page_size) × (p ≢ 0) × Granted s p res.1)

pub in_map : {s : Pmm} (p : ℕ) → IsValid s → p < s.max_pages → InMap p s
in_map p v h = (omega (arith, v.small), omega (arith, v.covered))

pub grant-Granted :
    (s : Pmm) (p : ℕ)
    → IsValid s
    → p < s.max_pages
    → test_bit p s ≡ false
    → Granted s p (grant p s).1
unfolding grant test_bit
grant-Granted s p v lt e = record {
  was_free = e;
  inside = lt;
  same_max = refl;
  taken = taken;
  free_one_less = omega (arith, count, v.free_eq, v.small, v.used_eq);
  used_one_more = omega (arith, v.used_eq, v.small, count, v.free_eq);
  valid = record {
    covered = omega (arith, v.covered, length-set s.bitmap);
    small = v.small;
    last = omega (arith, v.small, lt);
    zero_used = ground (arith, taken 0, v.zero_used);
    free_eq = omega (arith, count, v.free_eq, v.small, v.used_eq);
    used_eq = omega (arith, count, v.free_eq, v.small, v.used_eq);
  };
}
  where
    taken : (j : ℕ) → j < 2 ^ 32 → test_bit j (grant p s).1 ≡ (p == j || test_bit j s)
    taken j h = test_bit-set_bit s p j (in_map p v lt) h

    count : count_false s.max_pages (used (grant p s).1) + 1 ≡ count_false s.max_pages (used s)
    count = ground (
      arith,
      count_set s.max_pages p (used s) (used (grant p s).1)
          (λ j h. taken j (omega (arith, v.small))) e,
    )
