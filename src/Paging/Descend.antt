-- ===== src/Paging/Descend.antt =====
-- The descents that the operations make, step by step.
use taavi_os.Common.{
  ℕ, suc, ◌+◌, ◌≤◌, ◌≡◌, inl, inr, refl, ap, ◌∙◌, Bool, arith, Option, none, some, List, [], ◌∷◌,
  length,
}
use taavi_os.Paging.Space.{Space, search_or_create_table, descend_on, descend}
use taavi_os.Paging.Walk.{next_table, table_at, IsTree}
use taavi_os.Paging.Kept.{refl-Kept, trans-Kept}
use taavi_os.Paging.Step.{HugeAt, Reached, search_or_create_table-Reached}

-- The path of a descent
abbrev pub path_onto : List ℕ → List ℕ → List ℕ
path_onto [] path = path
path_onto (i ∷ is) path = path_onto is (i ∷ path)

descend_on-Reached :
    (dir : ℕ) (s : Space) (create : Bool) (n : ℕ) (path path' : List ℕ) (r : Option ℕ × Space)
    (rest : ℕ → Space → Option ℕ × Space)
    → Reached dir s create 1 path r
    → (HugeAt dir r.1 path → HugeAt dir r.1 path')
    → (table_at r.1.mem dir path ≡ none → table_at r.1.mem dir path' ≡ none)
    → ((a : ℕ) (s' : Space)
        → IsTree dir s'
        → table_at s'.mem dir path ≡ some a
        → Reached dir s' create n path' (rest a s'))
    → Reached dir s create (suc n) path' (descend_on r rest)
unfolding descend_on
descend_on-Reached dir s create n path path' (none, s') rest h k k' g = record {
  kept = h.kept;
  spent = omega (arith, h.spent);
  at = λ a e. absurd (cc e);
  fails = λ e. elim (h.fails e) [
    | inl (e, f) ↦ inl (e, k' f)
    | inr (inl (e, f)) ↦ inr (inl (e, omega (arith, f)))
    | inr (inr f) ↦ inr (inr (k f))
  ];
}
descend_on-Reached dir s create n path path' (some a, s') rest h k k' g =
    let next = g a s' h.kept.grown.tree (h.at a refl) in
    record {
      kept = trans-Kept dir s s' (rest a s').1 h.kept next.kept;
      spent = omega (arith, h.spent, next.spent);
      at = next.at;
      fails = λ e. elim (next.fails e) [
        | inl f ↦ inl f
        | inr (inl (e, f)) ↦ inr (inl (e, omega (arith, f, h.spent)))
        | inr (inr f) ↦ inr (inr f)
      ];
    }

-- A huge entry stands at the last index only.
huge_on :
    (is : List ℕ) (dir : ℕ) (s : Space) (i : ℕ) (path : List ℕ)
    → IsTree dir s
    → length path + length is ≤ 2
    → HugeAt dir s (i ∷ path)
    → HugeAt dir s (path_onto is (i ∷ path))
huge_on [] dir s i path tree l h = h
huge_on (j ∷ is) dir s i path tree l (a, e, f, g) =
    absurd (cc (g, tree.no_huge path a i (omega (arith, l)) e f))

none_on :
    (is : List ℕ) (mem : ℕ → ℕ → ℕ) (dir : ℕ) (path : List ℕ)
    → table_at mem dir path ≡ none
    → table_at mem dir (path_onto is path) ≡ none
none_on [] mem dir path e = e
none_on (i ∷ is) mem dir path e = none_on is mem dir (i ∷ path) (ap (next_table mem i) e)

-- A descent from a table of the tree, along at most as many indices as there are levels left
pub descend-Reached :
    (is : List ℕ) (dir : ℕ) (s : Space) (path : List ℕ) (table : ℕ) (create : Bool) (flags : ℕ)
    → IsTree dir s
    → length path + length is ≤ 3
    → table_at s.mem dir path ≡ some table
    → Reached dir s create (length is) (path_onto is path) (descend is create flags table s)
unfolding descend
descend-Reached [] dir s path table create flags tree l at = record {
  kept = refl-Kept dir s tree;
  spent = omega arith;
  at = λ a e. at ∙ e;
  fails = λ e. absurd (cc e);
}
descend-Reached (i ∷ is) dir s path table create flags tree l at =
    let first =
      search_or_create_table-Reached dir s path table i tree (omega (arith, l)) at create flags in
    descend_on-Reached dir s create (length is) (i ∷ path) (path_onto is (i ∷ path))
      (search_or_create_table table i create flags s) (descend is create flags) first
      (huge_on is dir (search_or_create_table table i create flags s).1 i path first.kept.grown.tree
        (omega (arith, l)))
      (none_on is (search_or_create_table table i create flags s).1.mem dir (i ∷ path))
      (λ a s' v e. descend-Reached is dir s' (i ∷ path) a create flags v (omega (arith, l)) e)
