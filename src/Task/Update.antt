-- ===== src/Task/Update.antt =====
-- What a write to one slot of the task table leaves in the slots.
use taavi_os.Common.{
  ℕ, ◌≡◌, inl, inr, refl, Bool-cases, Option, none, some, ◌==◌, ==_iff, some_inj, sym, ap, ◌∙◌,
  subst,
}
use taavi_os.Task.{Task, TaskTable, put_task, update_task}

-- What an update leaves in a slot that held a task with `P`.
pub update-slot :
    (P : Task → Type 0) (c : ℕ) (f : Task → Task) (pid : ℕ) (tasks : TaskTable)
    → ((t : Task) → P t → P (f t))
    → ((t : Task) × (tasks pid ≡ some t) × P t)
    → (t : Task) × (update_task c f tasks pid ≡ some t) × P t
update-slot P c f pid tasks h (t, e, p) = go (tasks c) refl
  where
    go :
        (o : Option Task)
        → tasks c ≡ o
        → (t' : Task) × (elim o as (λ x. TaskTable) [
          | none ↦ tasks
          | some u ↦ put_task c (some (f u)) tasks
        ]
              pid
            ≡ some t')
          × P t'
    go none eq = (t, e, p)
    go (some u) eq = elim (Bool-cases (c == pid)) [
      | inl same ↦
          let at : tasks c ≡ tasks pid = ap tasks ((==_iff c pid).0 same) in
          (f u, rw same refl, h u (subst P (some_inj (sym e ∙ sym at ∙ eq)) p))
      | inr other ↦ (t, rw other e, p)
    ]

-- What an update of a task leaves in its slot.
pub update-at :
    (c : ℕ) (f : Task → Task) (t : Task) (tasks : TaskTable)
    → tasks c ≡ some t
    → update_task c f tasks c ≡ some (f t)
update-at c f t tasks e = go (tasks c) e
  where
    go :
        (o : Option Task)
        → o ≡ some t
        → elim o as (λ x. TaskTable) [ none ↦ tasks | some u ↦ put_task c (some (f u)) tasks ] c
          ≡ some (f t)
    go none h = cc
    go (some u) h = rw ((==_iff c c).1 refl) (ap (λ x. some (f x)) (some_inj h))
