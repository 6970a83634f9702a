-- ===== src/Ledger/Entries.antt =====
-- Lemmas on the searches and counts through one request table.
use taavi_os.Common.{
  ℕ, zero, suc, ◌<◌, ◌≡◌, refl, Bool, true, false, Option, none, some, [], ◌∷◌, length, get_or, set,
  ap, arith, Bool-cases, inl, inr, ◌≤◌,
}
use taavi_os.Ledger.Types.{Request, Table}
use taavi_os.Ledger.Queue.{place}
use taavi_os.Ledger.Serve.{holds, shift, find_entry, count_entries, is_some_request}

-- No entry passes the test.
abbrev pub NoneHolds : (Request → Bool) → Table → Type 0
NoneHolds p t = (j : ℕ) → holds p (get_or t j none) ≡ false

-- What a search that stops at entry `i` says of the table.
pub record Found (p : Request → Bool) (t : Table) (i : ℕ) (r : Request) : Type 0 where
  pub inside : i < length t
  pub at_index : get_or t i none ≡ some r
  pub passes : p r ≡ true
  pub first : (j : ℕ) → j < i → holds p (get_or t j none) ≡ false

-- What the result of a search says of the table.
abbrev pub Searched : (Request → Bool) → Table → Option (ℕ × Request) → Type 0
Searched p t none = NoneHolds p t
Searched p t (some (i, r)) = Found p t i r

Searched-shift :
    (p : Request → Bool) (o : Option Request) (t : Table) (res : Option (ℕ × Request))
    → holds p o ≡ false
    → Searched p t res
    → Searched p (o ∷ t) (shift res)
Searched-shift p o t none fails s = none_holds
  where
    none_holds : NoneHolds p (o ∷ t)
    none_holds zero = fails
    none_holds (suc j) = s j
Searched-shift p o t (some (i, r)) fails f = record {
  inside = omega (arith, f.inside);
  at_index = f.at_index;
  passes = f.passes;
  first = before;
}
  where
    before : (j : ℕ) → j < suc i → holds p (get_or (o ∷ t) j none) ≡ false
    before zero h = fails
    before (suc j) h = f.first j (omega arith)

pub find_entry-Searched : (p : Request → Bool) (t : Table) → Searched p t (find_entry p t)
unfolding find_entry
find_entry-Searched p [] = λ j. refl
find_entry-Searched p (none ∷ t) =
    Searched-shift p none t (find_entry p t) refl (find_entry-Searched p t)
find_entry-Searched p (some q ∷ t) = elim (Bool-cases (p q)) [
  | inl hit ↦ rw hit (record {
    inside = omega arith;
    at_index = refl;
    passes = hit;
    first = λ j h. absurd (omega arith);
  })
  | inr miss ↦ rw miss (Searched-shift p (some q) t (find_entry p t) miss (find_entry-Searched p t))
]

-- A count is zero exactly when no entry passes.
pub count_entries-none : (p : Request → Bool) (t : Table) → NoneHolds p t → count_entries p t ≡ 0
unfolding count_entries
count_entries-none p [] h = refl
count_entries-none p (o ∷ t) h = rw (h 0) (omega (arith, count_entries-none p t (λ j. h (suc j))))

pub count_entries-some :
    (p : Request → Bool) (t : Table) (i : ℕ)
    → holds p (get_or t i none) ≡ true
    → 0 < count_entries p t
unfolding count_entries
count_entries-some p [] i h = cc
count_entries-some p (o ∷ t) zero h = rw h (omega arith)
count_entries-some p (o ∷ t) (suc i) h = omega (arith, count_entries-some p t i h)

pub count_entries-le-length : (p : Request → Bool) (t : Table) → count_entries p t ≤ length t
unfolding count_entries
count_entries-le-length p [] = omega arith
count_entries-le-length p (o ∷ t) = ground (arith, count_entries-le-length p t)

-- A request is placed at an entry that was NULL, and no other entry changes.
pub record Placed (r : Request) (t t' : Table) : Type 0 where
  pub slot : ℕ
  pub inside : slot < length t
  pub was_free : get_or t slot none ≡ none
  pub table_eq : t' ≡ set t slot (some r)

-- What the result of `place` says of the table.
abbrev pub PlaceResult : Request → Table → Option Table → Type 0
PlaceResult r t none = count_entries is_some_request t ≡ length t
PlaceResult r t (some t') = Placed r t t'

pub place-PlaceResult : (r : Request) (t : Table) → PlaceResult r t (place r t)
unfolding place count_entries
place-PlaceResult r [] = refl
place-PlaceResult r (none ∷ t) = record {
  slot = 0;
  inside = omega arith;
  was_free = refl;
  table_eq = refl;
}
place-PlaceResult r (some q ∷ t) = grow (place r t) refl (place-PlaceResult r t)
  where
    grow :
        (o : Option Table)
        → place r t ≡ o
        → PlaceResult r t o
        → PlaceResult r (some q ∷ t) (place r (some q ∷ t))
    grow none e p = rw (e, place) (omega arith)
    grow (some t') e p =
        rw (e, place)
          (record {
            slot = suc p.slot;
            inside = omega (arith, p.inside);
            was_free = p.was_free;
            table_eq = ap (λ x. some q ∷ x) p.table_eq;
          })
