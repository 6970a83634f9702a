-- ===== src/History/Laws.antt =====
-- What the history promises: no line outside the array, and the newest line first.
use taavi_os.Common.{
  ℕ, ◌-◌, ◌<◌, ◌≤◌, ◌≡◌, ◌≢◌, inl, inr, refl, Bool, true, false, some_inj, Option, none, some, List,
  [], ◌∷◌, ◌++◌, length, take, replicate, get_or, length-set, get_or-set, ◌==◌, if◌then◌else◌,
  Bool-cases, arith, ap, ◌∙◌,
}
use taavi_os.Strings.Text.{strncpy}
use taavi_os.Strings.Laws.{IsText, strncpy-take}
use taavi_os.History.Lines.{
  max_saved_lines, history_line_len, History, history_init, next_slot, store_line, add_copied,
  history_add, history_get_next, history_get_prev,
}

-- The array has its 32 lines once it is initialized, and at most 32 are saved.
pub record IsValid (h : History) : Type 0 where
  pub all_lines : h.has_initialized ≡ true → length h.lines ≡ max_saved_lines
  pub few : h.total_saved ≤ max_saved_lines

-- The state after the first call of any function.
pub record IsReady (h : History) : Type 0 where
  pub initialized : h.has_initialized ≡ true
  pub all_lines : length h.lines ≡ max_saved_lines
  pub few : h.total_saved ≤ max_saved_lines

init-IsReady : (h : History) → IsValid h → IsReady (history_init h)
unfolding history_init
init-IsReady h v = elim (Bool-cases h.has_initialized) [
  | inl y ↦ rw y (record { initialized = refl; all_lines = v.all_lines y; few = v.few })
  | inr n ↦ rw n (record { initialized = refl; all_lines = refl; few = v.few })
]

-- A line index that is returned is one of a line that is there, and NULL means that nothing is saved.
abbrev pub Returns : History → Option ℕ × History → Type 0
Returns h (none, h') = (h.total_saved ≡ 0) × IsReady h'
Returns h (some c, h') =
    (h.total_saved ≢ 0) × (c < length h'.lines) × (h'.lines ≡ (history_init h).lines) × IsReady h'

init_total : (h : History) → (history_init h).total_saved ≡ h.total_saved
unfolding history_init
init_total h = ground arith

-- `history_get_next` from any valid state: it returns NULL where nothing is saved and else the index of
-- a line of the array; no line changes, and the state is valid.
pub get_next-Returns : (h : History) → IsValid h → Returns h (history_get_next h)
unfolding history_get_next
get_next-Returns h v = elim (Bool-cases ((history_init h).total_saved == 0)) [
  | inl z ↦ rw z (ground (arith, init_total h), init-IsReady h v)
  | inr nz ↦
      let r = init-IsReady h v in
      rw nz (
        ground (arith, init_total h),
        ground (arith, r.all_lines, r.few),
        refl,
        record { initialized = r.initialized; all_lines = r.all_lines; few = r.few },
      )
]

-- `history_get_prev` from any valid state: it returns NULL where nothing is saved and else the index of
-- a line of the array; no line changes, and the state is valid.
pub get_prev-Returns : (h : History) → IsValid h → Returns h (history_get_prev h)
unfolding history_get_prev
get_prev-Returns h v = elim (Bool-cases ((history_init h).total_saved == 0)) [
  | inl z ↦ rw z (ground (arith, init_total h), init-IsReady h v)
  | inr nz ↦
      let r = init-IsReady h v in
      rw nz (
        ground (arith, init_total h),
        ground (arith, r.all_lines, r.few),
        refl,
        record { initialized = r.initialized; all_lines = r.all_lines; few = r.few },
      )
]

-- A line as it is kept: its first 511 bytes, filled up with zeros, and a zero byte at the end.
abbrev pub kept_line : List ℕ → List ℕ
kept_line s =
    (take (history_line_len - 1) s ++ replicate (history_line_len - 1 - length s) 0) ++ 0 ∷ []

-- What adding the line `s` leaves: the next one back is that line.
pub record Added (s : List ℕ) (h' : History) : Type 0 where
  pub ready : IsReady h'
  pub index : ℕ
  pub newest : (history_get_next h').0 ≡ some index
  pub line_eq : get_or h'.lines index [] ≡ kept_line s

store-Added :
    (s : List ℕ) (h : History)
    → IsReady h
    → (t : List ℕ) → t ++ 0 ∷ [] ≡ kept_line s
    → Added s (store_line t h)
unfolding history_get_next history_init
store-Added s h r t e = record {
  ready = record {
    initialized = r.initialized;
    all_lines = length-set h.lines (next_slot h) (t ++ 0 ∷ []) ∙ r.all_lines;
    few = ground (arith, r.few);
  };
  index = next_slot h;
  newest = ground (arith, r.initialized, r.few);
  line_eq = ground (
    arith,
    e,
    r.all_lines,
    r.few,
    get_or-set h.lines (next_slot h) (next_slot h) (t ++ 0 ∷ []) [],
  );
}

added :
    (b : Bool) (o : Option (List ℕ)) (t : List ℕ) (h h' : History)
    → b ≡ false
    → o ≡ some t
    → (if b then some h else add_copied o h') ≡ some (store_line t h')
unfolding add_copied
added b none t h h' e f = cc
added b (some u) t h h' e f = rw e (ap (λ x. some (store_line x h')) (some_inj f))

-- Adding a line that is not empty succeeds, and the line that `history_get_next` returns then is that
-- line, cut at 511 bytes.
pub add-Added :
    (c : ℕ) (s rest : List ℕ) (h : History)
    → IsText (c ∷ s)
    → IsValid h
    → (h' : History) × (history_add (some ((c ∷ s) ++ 0 ∷ rest)) h ≡ some h') × Added (c ∷ s) h'
unfolding history_add
add-Added c s rest h t v =
    let nz : (c == 0) ≡ false = ground (arith, t.0) in
    let copied =
      take (history_line_len - 1) (c ∷ s) ++ replicate (history_line_len - 1 - length (c ∷ s)) 0 in
    (
      store_line copied (history_init h),
      added (c == 0) (strncpy (history_line_len - 1) ((c ∷ s) ++ 0 ∷ rest)) copied h
          (history_init h) nz (strncpy-take (history_line_len - 1) (c ∷ s) rest t),
      store-Added (c ∷ s) (history_init h) (init-IsReady h v) copied refl,
    )
