-- ===== src/Spin/Laws.antt =====
-- Mutual exclusion, in every interleaving.
use taavi_os.Common.{
  ℕ, ◌+◌, ◌≡◌, ◌≢◌, ◌⊎◌, inl, inr, refl, sym, ap, ◌∙◌, Bool, true, false, Bool-cases, arith, List,
  [], ◌∷◌, ltb, ◌==◌,
}
use taavi_os.Spin.Lock.{
  Spinlock, Phase, outside, exchanging, waiting, owning, holding, checking, clearing, storing,
  halted, spin_limit, cpu_step, System, start, step, run,
}

-- The CPU has the lock.
abbrev pub is_inside : Phase → Bool
is_inside owning = true
is_inside holding = true
is_inside checking = true
is_inside clearing = true
is_inside storing = true
is_inside _ = false

-- The CPU has written its number, and not yet taken it back.
abbrev pub is_owner : Phase → Bool
is_owner holding = true
is_owner checking = true
is_owner _ = false

-- One CPU at most has the lock, the lock says so, and names it.
pub record IsExclusive (s : System) : Type 0 where
  pub bit : (s.lock.locked ≡ 0) ⊎ (s.lock.locked ≡ 1)
  pub taken : (c : ℕ) → is_inside (s.cpus c) ≡ true → s.lock.locked ≡ 1
  pub one : (c x : ℕ) → is_inside (s.cpus c) ≡ true → is_inside (s.cpus x) ≡ true → c ≡ x
  pub named : (c : ℕ) → is_owner (s.cpus c) ≡ true → s.lock.owner ≡ c

-- What a step does to the CPU that makes it, in a phase `p`, giving `q` and the lock `m`.
pub record Moves (id : ℕ) (p : Phase) (l : Spinlock) (q : Phase) (m : Spinlock) : Type 0 where
  -- It enters where the lock is free, else stays as it is, or leaves and frees the lock.
  pub bit : (m.locked ≡ 0) ⊎ (m.locked ≡ 1)
  pub entered : is_inside q ≡ true → (m.locked ≡ 1) × ((is_inside p ≡ true) ⊎ (l.locked ≡ 0))
  pub kept : l.locked ≡ 1 → (m.locked ≡ 1) ⊎ (is_inside p ≡ true)
  pub owner : is_owner q ≡ true → m.owner ≡ id
  pub owner_kept : (m.owner ≡ l.owner) ⊎ (is_inside p ≡ true)

cpu_step-Moves :
    (id : ℕ) (p : Phase) (l : Spinlock)
    → (l.locked ≡ 0) ⊎ (l.locked ≡ 1)
    → (is_inside p ≡ true → l.locked ≡ 1)
    → (is_owner p ≡ true → l.owner ≡ id)
    → let (q, m) = cpu_step id p l in Moves id p l q m
unfolding cpu_step
cpu_step-Moves id outside l b t o = record {
  bit = b;
  entered = λ e. cc;
  kept = λ e. inl e;
  owner = λ e. cc;
  owner_kept = inl refl;
}
cpu_step-Moves id (exchanging laps) l b t o = elim b [
  | inl z ↦
      let f : (l.locked == 1) ≡ false = ground arith in
      rw f (record {
        bit = inr refl;
        entered = λ e. (refl, inr z);
        kept = λ e. inl refl;
        owner = λ e. cc;
        owner_kept = inl refl;
      })
  | inr z ↦
      let f : (l.locked == 1) ≡ true = ground arith in
      rw f (record {
        bit = inr refl;
        entered = λ e. cc;
        kept = λ e. inl refl;
        owner = λ e. cc;
        owner_kept = inl refl;
      })
]
cpu_step-Moves id (waiting laps) l b t o = elim (Bool-cases (l.locked == 0)) [
  | inl y ↦ rw y (record {
    bit = b;
    entered = λ e. cc;
    kept = λ e. inl e;
    owner = λ e. cc;
    owner_kept = inl refl;
  })
  | inr y ↦ elim (Bool-cases (ltb spin_limit (laps + 1))) [
    | inl z ↦
        rw (y, z)
          (record {
            bit = b;
            entered = λ e. cc;
            kept = λ e. inl e;
            owner = λ e. cc;
            owner_kept = inl refl;
          })
    | inr z ↦
        rw (y, z)
          (record {
            bit = b;
            entered = λ e. cc;
            kept = λ e. inl e;
            owner = λ e. cc;
            owner_kept = inl refl;
          })
  ]
]
cpu_step-Moves id owning l b t o = record {
  bit = b;
  entered = λ e. (t refl, inl refl);
  kept = λ e. inl e;
  owner = λ e. refl;
  owner_kept = inr refl;
}
cpu_step-Moves id holding l b t o = record {
  bit = b;
  entered = λ e. (t refl, inl refl);
  kept = λ e. inl e;
  owner = λ e. o refl;
  owner_kept = inr refl;
}
cpu_step-Moves id checking l b t o =
    let z : (l.locked == 0) ≡ false = (let q = t refl in ground arith) in
    rw z (record {
      bit = b;
      entered = λ e. (t refl, inl refl);
      kept = λ e. inl e;
      owner = λ e. cc;
      owner_kept = inr refl;
    })
cpu_step-Moves id clearing l b t o = record {
  bit = b;
  entered = λ e. (t refl, inl refl);
  kept = λ e. inl e;
  owner = λ e. cc;
  owner_kept = inr refl;
}
cpu_step-Moves id storing l b t o = record {
  bit = inl refl;
  entered = λ e. cc;
  kept = λ e. inr refl;
  owner = λ e. cc;
  owner_kept = inr refl;
}
cpu_step-Moves id halted l b t o = record {
  bit = b;
  entered = λ e. cc;
  kept = λ e. inl e;
  owner = λ e. cc;
  owner_kept = inl refl;
}

is_owner-is_inside : (p : Phase) → is_owner p ≡ true → is_inside p ≡ true
is_owner-is_inside holding e = refl
is_owner-is_inside checking e = refl
is_owner-is_inside outside e = cc
is_owner-is_inside (exchanging laps) e = cc
is_owner-is_inside (waiting laps) e = cc
is_owner-is_inside owning e = cc
is_owner-is_inside clearing e = cc
is_owner-is_inside storing e = cc
is_owner-is_inside halted e = cc

module _ (c : ℕ) (s : System) (v : IsExclusive s) where
  abbrev after : Phase
  after = (cpu_step c (s.cpus c) s.lock).0

  abbrev lock' : Spinlock
  lock' = (cpu_step c (s.cpus c) s.lock).1

  moves : Moves c (s.cpus c) s.lock after lock'
  moves = cpu_step-Moves c (s.cpus c) s.lock v.bit (v.taken c) (v.named c)

  -- A CPU other than the one that moves has the lock: the one that moves stays without it.
  inside_other :
      (x : ℕ)
      → x ≢ c
      → is_inside (s.cpus x) ≡ true
      → (lock'.locked ≡ 1) × (is_inside after ≡ false) × ((is_inside (s.cpus c) ≡ true) → ⊥)
  inside_other x ne e =
      let not_c : (is_inside (s.cpus c) ≡ true) → ⊥ = λ f. ne (v.one x c e f) in
      (
        elim (moves.kept (v.taken x e)) [ inl k ↦ k | inr f ↦ absurd (not_c f) ],
        elim (Bool-cases (is_inside after)) [
          | inl y ↦ elim ((moves.entered y).1) [
            | inl f ↦ absurd (not_c f)
            | inr f ↦ absurd (let t = v.taken x e in omega (arith, t, f))
          ]
          | inr y ↦ y
        ],
        not_c,
      )

  moved : (x : ℕ) → x ≡ c → (step c s).cpus x ≡ after
  unfolding step
  moved x e = (let y : (x == c) ≡ true = ground arith in rw y refl)

  stayed : (x : ℕ) → x ≢ c → (step c s).cpus x ≡ s.cpus x
  unfolding step
  stayed x e = (let y : (x == c) ≡ false = ground arith in rw y refl)

  which : (x : ℕ) → (x ≡ c) ⊎ (x ≢ c)
  which x = elim (Bool-cases (x == c)) [
    | inl y ↦ inl (ground arith)
    | inr y ↦ inr (λ e. ground arith)
  ]

  step-IsExclusive : IsExclusive (step c s)
  unfolding step
  step-IsExclusive = record {
    bit = moves.bit;
    taken = λ x e. elim (which x) [
      | inl q ↦ (moves.entered (sym (ap is_inside (moved x q)) ∙ e)).0
      | inr q ↦ (inside_other x q (sym (ap is_inside (stayed x q)) ∙ e)).0
    ];
    one = λ x y e f. elim (which x) [
      | inl p ↦ elim (which y) [
        | inl q ↦ p ∙ sym q
        | inr q ↦
            let o = inside_other y q (sym (ap is_inside (stayed y q)) ∙ f) in
            let i : is_inside after ≡ true = sym (ap is_inside (moved x p)) ∙ e in
            let g : true ≡ false = sym i ∙ o.1 in cc
      ]
      | inr p ↦ elim (which y) [
        | inl q ↦
            let o = inside_other x p (sym (ap is_inside (stayed x p)) ∙ e) in
            let i : is_inside after ≡ true = sym (ap is_inside (moved y q)) ∙ f in
            let g : true ≡ false = sym i ∙ o.1 in cc
        | inr q ↦
            v.one x y (sym (ap is_inside (stayed x p)) ∙ e) (sym (ap is_inside (stayed y q)) ∙ f)
      ]
    ];
    named = λ x e. elim (which x) [
      | inl q ↦ moves.owner (sym (ap is_owner (moved x q)) ∙ e) ∙ sym q
      | inr q ↦
          let o : is_owner (s.cpus x) ≡ true = sym (ap is_owner (stayed x q)) ∙ e in
          let i = inside_other x q (is_owner-is_inside (s.cpus x) o) in
          elim moves.owner_kept [ inl k ↦ k ∙ v.named x o | inr f ↦ absurd (i.2 f) ]
    ];
  }

start-IsExclusive : IsExclusive start
start-IsExclusive = record {
  bit = inl refl;
  taken = λ c e. cc;
  one = λ c x e f. cc;
  named = λ c e. cc;
}

from-IsExclusive : (cs : List ℕ) (s : System) → IsExclusive s → IsExclusive (run cs s)
unfolding run
from-IsExclusive [] s v = v
from-IsExclusive (c ∷ cs) s v = from-IsExclusive cs (step c s) (step-IsExclusive c s v)

-- In every interleaving of the accesses of any number of CPUs, each of which unlocks only what it has
-- locked, one CPU at most has the lock; `locked` is 1 while one has it, and `owner` is its number while
-- it holds it.
pub run-IsExclusive : (cs : List ℕ) → IsExclusive (run cs start)
run-IsExclusive cs = from-IsExclusive cs start start-IsExclusive
