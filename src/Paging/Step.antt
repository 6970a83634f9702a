-- ===== src/Paging/Step.antt =====
-- `__search_or_create_table`: a step of a descent.
use Prim.Native.Nat.{bit_or}
use taavi_os.Common.{
  ℕ, ◌+◌, ◌*◌, ◌^◌, ◌<◌, ◌≤◌, ◌≡◌, ◌≢◌, ◌⊎◌, inl, inr, refl, sym, ap, ◌∙◌, Bool, true, false, not,
  ◌&&◌, Bool-cases, arith, Option, none, some, List, [], ◌∷◌, length, ◌==◌,
}
use taavi_os.Pmm.Pages.{Pmm, page_size}
use taavi_os.Pmm.Alloc.{pmm_alloc}
use taavi_os.Pmm.Valid.{AllocResult, count_all, used}
use taavi_os.Pmm.AllocLaws.{alloc-AllocResult}
use taavi_os.Paging.Entry.{page_present, page_user, page_huge, has, frame}
use taavi_os.Paging.EntryLaws.{has-bit_or, frame-bit_or, huge_frame-bit_or, frame-page, has-frame}
use taavi_os.Paging.Space.{
  Space, write_entry, table_flags, new_table, user_entry, search_or_create_table,
}
use taavi_os.Paging.Walk.{next_table, table_at, IsTree}
use taavi_os.Paging.Kept.{Kept, refl-Kept, Alike, refl-Alike, Alike-table_at, Alike-Kept}
use taavi_os.Paging.Fresh.{fresh-at, fresh-Kept}

-- The last index of the path finds a huge entry.
abbrev pub HugeAt : ℕ → Space → List ℕ → Type 0
HugeAt dir s [] = ⊥
HugeAt dir s (i ∷ path) =
    (a : ℕ) × (table_at s.mem dir path ≡ some a)
    × (has page_present (s.mem a i) ≡ true)
    × (has page_huge (s.mem a i) ≡ true)

-- There is no table at the path, and none may be made.
abbrev pub Missing : ℕ → Space → Bool → List ℕ → Type 0
Missing dir s create path = (create ≡ false) × (table_at s.mem dir path ≡ none)

-- A table may be made, and too few pages are free.
abbrev pub Spent : Space → Bool → ℕ → Type 0
Spent s create n = (create ≡ true) × (s.pmm.free_pages < n)

-- Every address leads where it did, at most `n` pages are spent, a table that is returned stands at the
-- end of `path`, and NULL is returned for one of three reasons.
pub record Reached (dir : ℕ) (s : Space) (create : Bool) (n : ℕ) (path : List ℕ)
    (r : Option ℕ × Space) : Type 0 where
  pub kept : Kept dir s r.1
  pub spent : s.pmm.free_pages ≤ r.1.pmm.free_pages + n
  pub at : (a : ℕ) → r.0 ≡ some a → table_at r.1.mem dir path ≡ some a
  pub fails : r.0 ≡ none → Missing dir r.1 create path ⊎ (Spent s create n ⊎ HugeAt dir r.1 path)

failed-Reached :
    (dir : ℕ) (s : Space) (create : Bool) (n : ℕ) (path : List ℕ)
    → IsTree dir s
    → Missing dir s create path ⊎ (Spent s create n ⊎ HugeAt dir s path)
    → Reached dir s create n path (none, s)
failed-Reached dir s create n path v why = record {
  kept = refl-Kept dir s v;
  spent = omega arith;
  at = λ a e. absurd (cc e);
  fails = λ e. why;
}

user_entry-Alike : (flags entry : ℕ) → Alike entry (user_entry flags entry)
user_entry-Alike flags entry =
    elim (Bool-cases (has page_user flags && not (has page_user entry))) [
      | inr e ↦ rw e (refl-Alike entry)
      | inl e ↦ rw e (record {
        present = has-bit_or 0 entry page_user ∙ ground arith;
        huge = has-bit_or 7 entry page_user ∙ ground arith;
        frames = frame-bit_or entry page_user refl;
        huge_frames = huge_frame-bit_or entry page_user refl;
      })
    ]

table_flags_cases : (flags : ℕ) → (table_flags flags ≡ 7) ⊎ (table_flags flags ≡ 3)
table_flags_cases flags = elim (Bool-cases (has page_user flags)) [
  | inl e ↦ inl (rw e refl)
  | inr e ↦ inr (rw e refl)
]

-- The entry of a new table
pub record IsTableEntry (page entry : ℕ) : Type 0 where
  pub present : has page_present entry ≡ true
  pub not_huge : has page_huge entry ≡ false
  pub frames : frame entry ≡ page * page_size

new_entry-IsTableEntry :
    (page flags : ℕ)
    → page < 2 ^ 32
    → IsTableEntry page (bit_or (page * page_size) (table_flags flags))
new_entry-IsTableEntry page flags l =
    let plain : frame (page * page_size) ≡ page * page_size = frame-page page (omega (arith, l)) in
    let flat : has page_huge (page * page_size) ≡ false =
      has-frame (page * page_size) page_huge refl plain in
    elim (table_flags_cases flags) [
      | inl e ↦ rw e (record {
        present = has-bit_or 0 (page * page_size) 7 ∙ ground arith;
        not_huge = has-bit_or 7 (page * page_size) 7 ∙ rw flat refl;
        frames = frame-bit_or (page * page_size) 7 refl ∙ plain;
      })
      | inr e ↦ rw e (record {
        present = has-bit_or 0 (page * page_size) 3 ∙ ground arith;
        not_huge = has-bit_or 7 (page * page_size) 3 ∙ rw flat refl;
        frames = frame-bit_or (page * page_size) 3 refl ∙ plain;
      })
    ]

module _ (dir : ℕ) (s : Space) (path : List ℕ) (table index : ℕ) (tree : IsTree dir s)
    (short : length path ≤ 2) (at : table_at s.mem dir path ≡ some table) where
  new_table-Reached :
      (flags : ℕ) (res : ℕ × Pmm)
      → has page_present (s.mem table index) ≡ false
      → AllocResult s.pmm res
      → Reached dir s true 1
          (index ∷ path)
          (new_table table index flags res.0 (record s { pmm = res.1 }))
  unfolding new_table
  new_table-Reached flags res empty (inl (z, same, full)) =
      let none_free : s.pmm.free_pages ≡ 0 =
        tree.manager.free_eq ∙ count_all s.pmm.max_pages (used s.pmm) full in
      rw (z, same)
        (failed-Reached dir s true 1 (index ∷ path) tree
          (inr (inl (refl, omega (arith, none_free)))))
  new_table-Reached flags res empty (inr (page, address, nonzero, granted)) =
      let small : page < 2 ^ 32 = omega (arith, granted.inside, tree.manager.small) in
      let entry = bit_or (page * page_size) (table_flags flags) in
      let e = new_entry-IsTableEntry page flags small in
      let no_null : (page * page_size == 0) ≡ false = ground arith in
      rw (address, no_null)
        (record {
          kept =
              fresh-Kept dir s path table index page entry res.1 tree short at empty granted small
                e.present e.not_huge e.frames;
          at = λ a f.
              fresh-at dir s path table index page entry res.1 tree short at empty granted small
                e.present e.not_huge e.frames
              ∙ sym (ap (λ (x : ℕ). some x) e.frames)
              ∙ f;
          spent = omega (arith, granted.free_one_less);
          fails = λ f. absurd (cc f);
        })

  -- A step of a descent in a tree of tables
  pub search_or_create_table-Reached :
      (create : Bool) (flags : ℕ)
      → Reached dir s create 1 (index ∷ path) (search_or_create_table table index create flags s)
  unfolding search_or_create_table
  search_or_create_table-Reached create flags =
      elim (Bool-cases (has page_present (s.mem table index))) [
        | inr e ↦ rw e (elim (Bool-cases create) [
          | inr f ↦ rw f (
              failed-Reached dir s false 1 (index ∷ path) tree
                (inl (refl, ap (next_table s.mem index) at ∙ rw e refl)))
          | inl f ↦
              rw f
                (new_table-Reached flags (pmm_alloc s.pmm) e (alloc-AllocResult s.pmm tree.manager))
        ])
        | inl e ↦ rw e (elim (Bool-cases (has page_huge (s.mem table index))) [
          | inl f ↦
              rw f (failed-Reached dir s create 1 (index ∷ path) tree (inr (inr (table, at, e, f))))
          | inr f ↦ rw f (
              let entry = user_entry flags (s.mem table index) in
              let m' = write_entry table index entry s.mem in
              let old : Alike (s.mem table index) entry =
                user_entry-Alike flags (s.mem table index) in
              record {
                kept = Alike-Kept dir s m' tree (alike flags) (λ a j o.
                    let apart : a ≢ table =
                      λ g. o path (omega (arith, short)) (at ∙ ap (λ (x : ℕ). some x) (sym g)) in
                    ground (arith, apart));
                at = λ a g.
                    Alike-table_at dir s m' (alike flags) (index ∷ path) (omega (arith, short))
                    ∙ ap (next_table s.mem index) at
                    ∙ rw (e, f) (sym (ap (λ (x : ℕ). some x) old.frames) ∙ g);
                spent = omega arith;
                fails = λ g. absurd (cc g);
              })
        ])
      ]
    where
      alike :
          (flags a i : ℕ)
          → Alike
              (s.mem a i)
              (write_entry table index (user_entry flags (s.mem table index)) s.mem a i)
      alike flags a i = elim (Bool-cases (a == table && i == index)) [
        | inr f ↦ rw f (refl-Alike (s.mem a i))
        | inl f ↦
            let g : a ≡ table = ground arith in
            let h : i ≡ index = ground arith in
            let k : (table == table && index == index) ≡ true = ground arith in
            rw (g, h, k) (user_entry-Alike flags (s.mem table index))
      ]
