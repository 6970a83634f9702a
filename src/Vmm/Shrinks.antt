-- ===== src/Vmm/Shrinks.antt =====
-- The loops of `vmm_free_user_space` only clear entries, and all of their own.
use taavi_os.Common.{
  ℕ, zero, suc, ◌+◌, ◌<◌, ◌≤◌, ◌≡◌, ◌⊎◌, inl, inr, refl, ap, ◌∙◌, subst, true, false, ◌&&◌,
  Bool-cases, arith, ◌==◌,
}
use taavi_os.Paging.Entry.{page_present, has, frame}
use taavi_os.Paging.Space.{Space}
use taavi_os.Vmm.UserSpace.{free_entry, free_entries, free_table, free_directory, free_pointers}

-- Every entry is as it was, or 0.
pub Shrinks : Space → Space → Type 0
Shrinks s s' = (b j : ℕ) → (s'.mem b j ≡ s.mem b j) ⊎ (s'.mem b j ≡ 0)

trans-Shrinks : (s s' s'' : Space) → Shrinks s s' → Shrinks s' s'' → Shrinks s s''
unfolding Shrinks
trans-Shrinks s s' s'' h g b j = elim (g b j) [
  | inr e ↦ inr e
  | inl e ↦ elim (h b j) [ inl f ↦ inl (e ∙ f) | inr f ↦ inr (e ∙ f) ]
]

absent-Shrinks :
    (s s' : Space) (b j : ℕ)
    → Shrinks s s'
    → has page_present (s.mem b j) ≡ false
    → has page_present (s'.mem b j) ≡ false
unfolding Shrinks
absent-Shrinks s s' b j h e = elim (h b j) [
  | inl f ↦ ap (has page_present) f ∙ e
  | inr f ↦ ap (has page_present) f
]

free_entry-Shrinks :
    (index table : ℕ) (s : Space) (inner : ℕ → Space → Space)
    → ((a : ℕ) (s' : Space) → Shrinks s' (inner a s'))
    → Shrinks s (free_entry index inner table s)
unfolding Shrinks free_entry
free_entry-Shrinks index table s inner h b j =
    elim (Bool-cases (has page_present (s.mem table index))) [
      | inr e ↦ rw e (inl refl)
      | inl e ↦ rw e (elim (Bool-cases (b == table && j == index)) [
        | inl f ↦ rw f (inr refl)
        | inr f ↦ rw f (h (frame (s.mem table index)) s b j)
      ])
    ]

pub free_entries-Shrinks :
    (n index table : ℕ) (s : Space) (inner : ℕ → Space → Space)
    → ((a : ℕ) (s' : Space) → Shrinks s' (inner a s'))
    → Shrinks s (free_entries n index inner table s)
unfolding Shrinks free_entries
free_entries-Shrinks zero index table s inner h = λ b j. inl refl
free_entries-Shrinks (suc n) index table s inner h =
    trans-Shrinks s (free_entry index inner table s)
      (free_entries n (suc index) inner table (free_entry index inner table s))
      (free_entry-Shrinks index table s inner h)
      (free_entries-Shrinks n (suc index) table (free_entry index inner table s) inner h)

free_entry-absent :
    (index table : ℕ) (s : Space) (inner : ℕ → Space → Space)
    → has page_present ((free_entry index inner table s).mem table index) ≡ false
unfolding free_entry
free_entry-absent index table s inner = elim (Bool-cases (has page_present (s.mem table index))) [
  | inr e ↦ rw e e
  | inl e ↦ let same : (table == table && index == index) ≡ true = ground arith in rw (e, same) refl
]

-- After a loop none of its entries is present.
pub free_entries-absent :
    (n index table j : ℕ) (s : Space) (inner : ℕ → Space → Space)
    → ((a : ℕ) (s' : Space) → Shrinks s' (inner a s'))
    → index ≤ j
    → j < index + n
    → has page_present ((free_entries n index inner table s).mem table j) ≡ false
unfolding free_entries
free_entries-absent zero index table j s inner h lo hi = absurd (omega (arith, lo, hi))
free_entries-absent (suc n) index table j s inner h lo hi = elim (Bool-cases (index == j)) [
  | inr e ↦
      free_entries-absent n (suc index) table j (free_entry index inner table s) inner h
        (ground (arith, lo)) (omega (arith, hi))
  | inl e ↦
      let f : index ≡ j = ground arith in
      absent-Shrinks (free_entry index inner table s)
        (free_entries n (suc index) inner table (free_entry index inner table s)) table j
        (free_entries-Shrinks n (suc index) table (free_entry index inner table s) inner h)
        (subst (λ x. has page_present ((free_entry index inner table s).mem table x) ≡ false) f
          (free_entry-absent index table s inner))
]

free_all-Shrinks :
    (n : ℕ) (inner : ℕ → Space → Space)
    → ((a : ℕ) (s' : Space) → Shrinks s' (inner a s'))
    → (a : ℕ) (s : Space) → Shrinks s (free_entries n 0 inner a s)
free_all-Shrinks n inner h a s = free_entries-Shrinks n 0 a s inner h

pub free_pointers-Shrinks : (a : ℕ) (s : Space) → Shrinks s (free_pointers a s)
unfolding Shrinks free_table free_directory free_pointers
free_pointers-Shrinks =
    free_all-Shrinks 512 free_directory
      (free_all-Shrinks 512 free_table (free_all-Shrinks 512 (λ page s. s) (λ a s b j. inl refl)))
