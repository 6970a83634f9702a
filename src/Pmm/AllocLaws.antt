-- ===== src/Pmm/AllocLaws.antt =====
-- What `pmm_alloc` and `pmm_free` promise of a valid manager.
use taavi_os.Common.{
  ℕ, ◌+◌, ◌-◌, ◌*◌, ◌/◌, ◌%◌, ◌^◌, ◌<◌, ◌≤◌, ◌≡◌, ◌≢◌, ◌⊎◌, ◌↔◌, inl, inr, refl, ap, ◌∙◌, true,
  false, not, ◌&&◌, Option, none, some, length-set, ltb, leb, ◌==◌, Bool-cases, arith,
}
use taavi_os.Config.{status_ok, status_error}
use taavi_os.Pmm.Pages.{Pmm, page_size, test_bit}
use taavi_os.Pmm.PagesLaws.{test_bit-clear_bit}
use taavi_os.Pmm.Alloc.{find_free, grant, grant_first, grant_second, pmm_alloc, release, pmm_free}
use taavi_os.Pmm.Valid.{
  IsValid, count_false, count_false-le, count_clear, count_all, used, Looked, find_free-Looked,
  AllocResult, in_map, grant-Granted,
}

granted :
    (s : Pmm) (p : ℕ)
    → IsValid s
    → p < s.max_pages
    → test_bit p s ≡ false
    → AllocResult s (grant p s)
granted s p v lt e = inr (p, address, not_zero, grant-Granted s p v lt e)
  where
    address : (grant p s).0 ≡ p * page_size
    address = unfold grant in omega (arith, v.small)

    not_zero : p ≢ 0
    not_zero z = ground (arith, v.zero_used, ap (λ x. test_bit x s) z)

grant_second-AllocResult :
    (s : Pmm) (o : Option ℕ)
    → IsValid s
    → ((j : ℕ) → s.last_found ≤ j → j < s.max_pages → test_bit j s ≡ true)
    → Looked s.last_found 0 s o
    → AllocResult s (grant_second o s)
unfolding grant_second
grant_second-AllocResult s none v above h = inl (refl, refl, all)
  where
    all : (j : ℕ) → j < s.max_pages → test_bit j s ≡ true
    all j lt = elim (Bool-cases (ltb j s.last_found)) [
      | inl low ↦ h j (omega arith) (ground arith)
      | inr high ↦ above j (ground arith) lt
    ]
grant_second-AllocResult s (some p) v above h = granted s p v (omega (arith, h.2, v.last)) h.0

grant_first-AllocResult :
    (s : Pmm) (o : Option ℕ)
    → IsValid s
    → Looked (s.max_pages - s.last_found) s.last_found s o
    → AllocResult s (grant_first o s)
unfolding grant_first
grant_first-AllocResult s none v h =
    grant_second-AllocResult s (find_free s.last_found 0 s) v (λ j lo hi. h j lo (omega arith))
      (find_free-Looked s.last_found 0 s)
grant_first-AllocResult s (some p) v h = granted s p v (omega (arith, h.2, v.last)) h.0

-- `pmm_alloc` on a valid manager: it gives the address of a page other than 0 that was free, takes
-- exactly that page and keeps the counts, or it returns 0, changes nothing, and every page is in use.
pub alloc-AllocResult : (s : Pmm) → IsValid s → AllocResult s (pmm_alloc s)
unfolding pmm_alloc
alloc-AllocResult s v =
    grant_first-AllocResult s (find_free (s.max_pages - s.last_found) s.last_found s) v
      (find_free-Looked (s.max_pages - s.last_found) s.last_found s)

pub alloc-IsValid : (s : Pmm) → IsValid s → IsValid (pmm_alloc s).1
alloc-IsValid s v = elim (alloc-AllocResult s v) [
  | inl (z, e, all) ↦ rw e v
  | inr (p, a, ne, g) ↦ g.valid
]

-- On a valid manager `pmm_alloc` returns 0, out of memory, exactly when the count of free pages is 0.
pub alloc-zero : (s : Pmm) → IsValid s → ((pmm_alloc s).0 ≡ 0) ↔ (s.free_pages ≡ 0)
alloc-zero s v = elim (alloc-AllocResult s v) [
  | inl (z, e, all) ↦ (λ h. v.free_eq ∙ count_all s.max_pages (used s) all, λ h. z)
  | inr (p, a, ne, g) ↦ (λ h. absurd (omega arith), λ h. absurd (omega (arith, g.free_one_less)))
]

-- What giving page `p` back does.
pub record Released (s : Pmm) (p : ℕ) (s' : Pmm) : Type 0 where
  pub freed : (j : ℕ) → j < 2 ^ 32 → test_bit j s' ≡ (not (p == j) && test_bit j s)
  pub free_one_more : s'.free_pages ≡ s.free_pages + 1
  pub used_one_less : s'.used_pages + 1 ≡ s.used_pages
  pub valid : IsValid s'

release-Released :
    (s : Pmm) (p : ℕ)
    → IsValid s
    → p < s.max_pages
    → p ≢ 0
    → test_bit p s ≡ true
    → Released s p (release p s)
unfolding release test_bit
release-Released s p v lt ne e = record {
  freed = freed;
  free_one_more = omega (arith, count, v.free_eq, v.small, v.used_eq, few);
  used_one_less = omega (arith, count, v.free_eq, v.small, v.used_eq, few);
  valid = record {
    covered = omega (arith, v.covered, length-set s.bitmap);
    small = v.small;
    last = ground (arith, v.small, v.last, lt);
    zero_used = ground (arith, freed 0, v.zero_used);
    free_eq = omega (arith, count, v.free_eq, v.small, v.used_eq, few);
    used_eq = omega (arith, count, v.free_eq, v.small, v.used_eq, few);
  };
}
  where
    freed : (j : ℕ) → j < 2 ^ 32 → test_bit j (release p s) ≡ (not (p == j) && test_bit j s)
    freed j h = test_bit-clear_bit s p j (in_map p v lt) h

    count : count_false s.max_pages (used (release p s)) ≡ count_false s.max_pages (used s) + 1
    count = ground (
      arith,
      count_clear s.max_pages p (used s) (used (release p s))
          (λ j h. freed j (omega (arith, v.small))) e,
    )

    few : count_false s.max_pages (used (release p s)) ≤ s.max_pages
    few = count_false-le s.max_pages (used (release p s))

-- What `pmm_free` does with an address: it refuses one that is unaligned or beyond the memory, accepts
-- a free page and changes nothing, or gives the page back.
abbrev pub FreeResult : Pmm → ℕ → ℕ × Pmm → Type 0
FreeResult s phys res =
    ((res.0 ≡ status_error)
      × (res.1 ≡ s)
      × ((phys % page_size ≢ 0) ⊎ (s.max_pages ≤ phys / page_size)))
    ⊎ ((res.0 ≡ status_ok) × (res.1 ≡ s) × (test_bit (phys / page_size) s ≡ false))
    ⊎ ((p : ℕ) × (res.0 ≡ status_ok)
        × (phys ≡ p * page_size)
        × (p < s.max_pages)
        × (test_bit p s ≡ true)
        × Released s p res.1)

-- `pmm_free` at an address other than 0, on a valid manager: it refuses an address that is unaligned or
-- beyond the memory and changes nothing, it accepts a page that is free already and changes nothing, or
-- it gives exactly that page back and keeps the manager valid.
pub free-FreeResult :
    (s : Pmm) (phys : ℕ) → IsValid s → phys ≢ 0 → FreeResult s phys (pmm_free phys s)
unfolding pmm_free
free-FreeResult s phys v ne = elim (Bool-cases (phys % page_size == 0)) [
  | inr odd ↦ rw odd (inl (refl, refl, inl (ground arith)))
  | inl aligned ↦ rw aligned (elim (Bool-cases (leb s.max_pages (phys / page_size))) [
    | inl high ↦ rw high (inl (refl, refl, inr (ground arith)))
    | inr low ↦ rw low (elim (Bool-cases (test_bit (phys / page_size) s)) [
      | inr clear ↦ rw clear (inr (inl (refl, refl, refl)))
      | inl set ↦ rw set (
          inr (
            inr (
              phys / page_size,
              refl,
              ground arith,
              ground arith,
              set,
              release-Released s (phys / page_size) v (ground arith) (ground arith) set,
            )))
    ])
  ])
]

pub free-IsValid : (s : Pmm) (phys : ℕ) → IsValid s → phys ≢ 0 → IsValid (pmm_free phys s).1
free-IsValid s phys v ne = elim (free-FreeResult s phys v ne) [
  | inl (c, e, why) ↦ rw e v
  | inr (inl (c, e, why)) ↦ rw e v
  | inr (inr (p, c, a, lt, t, r)) ↦ r.valid
]

-- `pmm_free` on the address of a page in use, other than page 0.
free_used :
    (s : Pmm) (p : ℕ)
    → IsValid s
    → p < s.max_pages
    → p ≢ 0
    → test_bit p s ≡ true
    → (pmm_free (p * page_size) s).1 ≡ release p s
unfolding pmm_free
free_used s p v lt ne e =
    let q : p * page_size / page_size ≡ p = omega arith in
    let m : p * page_size % page_size ≡ 0 = omega arith in rw (m, q) (ground arith)

-- A page that `pmm_alloc` gave and `pmm_free` took back: every page is in use or free as before, the
-- counts are as before, and the manager is valid.
pub alloc-free :
    (s : Pmm)
    → IsValid s
    → (pmm_alloc s).0 ≢ 0
    → let s' = (pmm_free (pmm_alloc s).0 (pmm_alloc s).1).1 in
      ((j : ℕ) → j < 2 ^ 32 → test_bit j s' ≡ test_bit j s)
      × (s'.free_pages ≡ s.free_pages)
      × (s'.used_pages ≡ s.used_pages)
      × IsValid s'
alloc-free s v ne = elim (alloc-AllocResult s v) [
  | inl (z, e, all) ↦ absurd (ne z)
  | inr (p, a, nz, g) ↦
      let t = (pmm_alloc s).1 in
      let taken : test_bit p t ≡ true = ground (arith, g.taken p, v.small, g.inside) in
      let lt : p < t.max_pages = omega (arith, g.inside, g.same_max) in
      let r = release-Released t p g.valid lt nz taken in
      rw (a, free_used t p g.valid lt nz taken)
        (
          λ j h. ground (arith, r.freed j h, g.taken j h, g.was_free),
          omega (arith, r.free_one_more, g.free_one_less),
          omega (arith, r.used_one_less, g.used_one_more),
          r.valid,
        )
]

-- Page 0 is free after `pmm_free` of it.
pub free_zero-test_bit :
    (s : Pmm) → IsValid s → 0 < s.max_pages → test_bit 0 (pmm_free 0 s).1 ≡ false
unfolding pmm_free release test_bit
free_zero-test_bit s v h =
    ground (arith, v.zero_used, test_bit-clear_bit s 0 0 (in_map 0 v h) (omega arith))

-- On a valid manager with at least one page, `pmm_free` takes page 0 back like any other page, though
-- it is reserved so that the address 0 can mean that memory has run out: after that the manager is no
-- longer valid.
pub free_zero-not_IsValid : (s : Pmm) → IsValid s → 0 < s.max_pages → ¬ (IsValid (pmm_free 0 s).1)
unfolding pmm_free release test_bit
free_zero-not_IsValid s v h v' =
    ground (arith, v.zero_used, v'.zero_used, test_bit-clear_bit s 0 0 (in_map 0 v h) (omega arith))
