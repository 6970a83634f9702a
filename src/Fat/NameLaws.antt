-- ===== src/Fat/NameLaws.antt =====
-- Names: the two fields of a formatted name, and the segments of a path.
use taavi_os.Common.{
  ltb, ℕ, zero, suc, ◌+◌, ◌<◌, ◌≤◌, ◌≡◌, ◌≢◌, refl, sym, ap, ap₂, ◌∙◌, inl, inr, true, false,
  Bool-cases, arith, Option, none, some, List, [], ◌∷◌, ◌++◌, append-nil, append_assoc, length,
  length-append, take, take-all, take-append_left, drop, set, replicate, ◌==◌, if◌then◌else◌,
}
use taavi_os.Fat.Name.{
  pad, dot, slash, upper, deposit, find_dot, format_at, format_83, skip_slashes, segment_length,
  with_rest, walk_segment, walk_dir_path,
}

-- A field of `n` characters: those of `s` in upper case, then spaces.
abbrev pub field : ℕ → List ℕ → List ℕ
field zero s = []
field (suc n) [] = pad ∷ field n []
field (suc n) (c ∷ s) = upper c ∷ field n s

-- What stands before the first dot of a name, and what stands after it.
unfoldable pub stem : List ℕ → List ℕ
stem [] = []
stem (c ∷ s) = let rest = stem s in if c == dot then [] else c ∷ rest

unfoldable pub extension : List ℕ → List ℕ
extension [] = []
extension (c ∷ s) = let rest = extension s in if c == dot then s else rest

drop-append : (a b : List ℕ) → drop (length a) (a ++ b) ≡ b
drop-append [] b = refl
drop-append (x ∷ a) b = drop-append a b

set-append : (a : List ℕ) (x w : ℕ) (b : List ℕ) → set (a ++ (x ∷ b)) (length a) w ≡ a ++ (w ∷ b)
set-append [] x w b = refl
set-append (y ∷ a) x w b = ap (λ r. y ∷ r) (set-append a x w b)

field-pad : (n : ℕ) → field n [] ≡ replicate n pad
field-pad zero = refl
field-pad (suc n) = ap (λ r. pad ∷ r) (field-pad n)

length-field : (n : ℕ) (s : List ℕ) → length (field n s) ≡ n
length-field zero s = refl
length-field (suc n) [] = ap suc (length-field n [])
length-field (suc n) (c ∷ s) = ap suc (length-field n s)

-- Depositing into spaces makes a field.
deposit-field :
    (n : ℕ) (a s b : List ℕ)
    → deposit n (length a) s (a ++ (replicate n pad ++ b)) ≡ a ++ (field n s ++ b)
unfolding deposit
deposit-field zero a s b = refl
deposit-field (suc n) a [] b = ap (λ r. a ++ (r ++ b)) (sym (field-pad (suc n)))
deposit-field (suc n) a (c ∷ s) b =
    let k : length a + 1 ≡ length (a ++ (upper c ∷ [])) =
      (let h = length-append a (upper c ∷ []) in omega (arith, h)) in
    let q : set (a ++ (pad ∷ (replicate n pad ++ b))) (length a) (upper c)
        ≡ (a ++ (upper c ∷ [])) ++ (replicate n pad ++ b) =
      set-append a pad (upper c) (replicate n pad ++ b)
      ∙ sym (append_assoc a (upper c ∷ []) (replicate n pad ++ b)) in
    rw (q, k)
      (deposit-field n (a ++ (upper c ∷ [])) s b ∙ append_assoc a (upper c ∷ []) (field n s ++ b))

-- What the place of the dot says.
abbrev Parts : ℕ → List ℕ → Option ℕ → Type 0
Parts i s none = (stem s ≡ s) × (extension s ≡ [])
Parts i s (some k) = (j : ℕ) × (k ≡ i + j) × (take j s ≡ stem s) × (drop (suc j) s ≡ extension s)

Parts-here : (i c : ℕ) (s : List ℕ) → (c == dot) ≡ true → Parts i (c ∷ s) (some i)
unfolding stem extension
Parts-here i c s e = (0, omega arith, rw e refl, rw e refl)

Parts-later :
    (i c : ℕ) (s : List ℕ) (o : Option ℕ)
    → (c == dot) ≡ false
    → Parts (i + 1) s o
    → Parts i (c ∷ s) o
unfolding stem extension
Parts-later i c s none e (a, b) = (rw e (ap (λ r. c ∷ r) a), rw e b)
Parts-later i c s (some k) e (j, q, a, b) =
    (suc j, omega (arith, q), rw e (ap (λ r. c ∷ r) a), rw e b)

-- A dot within the first `n` characters, or the end of the string, is found.
find_dot-Parts :
    (n i : ℕ) (s : List ℕ)
    → length (stem s) < n
    → (o : Option ℕ) × (find_dot n i s ≡ some o) × Parts i s o
unfolding find_dot stem extension
find_dot-Parts zero i s h = absurd (omega (arith, h))
find_dot-Parts (suc n) i [] h = (none, refl, (refl, refl))
find_dot-Parts (suc n) i (c ∷ s) h = elim (Bool-cases (c == dot)) [
  | inl y ↦ (some i, rw y refl, Parts-here i c s y)
  | inr y ↦
      let k : length (stem (c ∷ s)) ≡ suc (length (stem s)) = rw y refl in
      let (o, e, p) = find_dot-Parts n (i + 1) s (omega (arith, h, k)) in
      (o, rw y e, Parts-later i c s o y p)
]

-- Where there is none, the loop never ends.
find_dot-none : (n i : ℕ) (s : List ℕ) → n ≤ length (stem s) → find_dot n i s ≡ none
unfolding find_dot stem
find_dot-none zero i s h = refl
find_dot-none (suc n) i [] h = absurd (omega (arith, h))
find_dot-none (suc n) i (c ∷ s) h = elim (Bool-cases (c == dot)) [
  | inl y ↦ let k : length (stem (c ∷ s)) ≡ 0 = rw y refl in absurd (omega (arith, h, k))
  | inr y ↦
      let k : length (stem (c ∷ s)) ≡ suc (length (stem s)) = rw y refl in
      rw y (find_dot-none n (i + 1) s (omega (arith, h, k)))
]

format_at-field :
    (s : List ℕ) (o : Option ℕ)
    → Parts 0 s o
    → format_at o s ≡ field 8 (stem s) ++ field 3 (extension s)
unfolding format_at
format_at-field s none (a, b) =
    deposit-field 8 [] s (replicate 3 pad)
    ∙ ap (λ r. field 8 r ++ replicate 3 pad) (sym a)
    ∙ ap (λ r. field 8 (stem s) ++ field 3 r) (sym b)
format_at-field s (some k) (j, q, a, b) =
    let k0 : k ≡ j = omega (arith, q) in
    let k1 : k + 1 ≡ suc j = omega (arith, q) in
    let name = field 8 (stem s) in
    let first : deposit 8 0 (take k s) (replicate 11 pad) ≡ name ++ (replicate 3 pad ++ []) =
      deposit-field 8 [] (take k s) (replicate 3 pad)
      ∙ ap (λ r. field 8 r ++ replicate 3 pad) (ap (λ x. take x s) k0 ∙ a) in
    rw (first, k1, b)
      (ap (λ n. deposit 3 n (extension s) (name ++ (replicate 3 pad ++ [])))
          (sym (length-field 8 (stem s)))
        ∙ deposit-field 3 name (extension s) []
        ∙ ap (λ r. name ++ r) (append-nil (field 3 (extension s))))

abbrev from_dot : List ℕ → Option (Option ℕ) → Option (List ℕ)
from_dot s o = elim o [ none ↦ none | some k ↦ some (format_at k s) ]

-- Where fewer than 256 characters stand before the first dot of a name, or are all of a name without a dot,
-- `__fat32_format_83` ends and leaves eight characters of what stands before the first dot and three of
-- what stands after it, both in upper case, cut, or filled up with spaces. For every other name it never
-- ends, since its index of 8 bits wraps.
pub format_83-field :
    (filename : List ℕ)
    → format_83 filename ≡ (
        if ltb (length (stem filename)) 256
        then some (field 8 (stem filename) ++ field 3 (extension filename))
        else none)
unfolding format_83
format_83-field s = elim (Bool-cases (ltb (length (stem s)) 256)) [
  | inl y ↦
      let (o, e, p) = find_dot-Parts 256 0 s (ground arith) in
      rw y (ap (from_dot s) e ∙ ap some (format_at-field s o p))
  | inr y ↦ rw y (ap (from_dot s) (find_dot-none 256 0 s (ground arith)))
]

-- No more characters stand before the dot than there are.
stem-length-le : (s : List ℕ) → length (stem s) ≤ length s
unfolding stem
stem-length-le [] = omega arith
stem-length-le (c ∷ s) =
    let rest = stem-length-le s in
    elim (Bool-cases (c == dot)) [ inl y ↦ rw y (omega arith) | inr y ↦ rw y (omega (arith, rest)) ]

skip_slashes-replicate :
    (n c : ℕ) (p : List ℕ) → c ≢ slash → skip_slashes (replicate n slash ++ (c ∷ p)) ≡ c ∷ p
unfolding skip_slashes
skip_slashes-replicate zero c p h = ground arith
skip_slashes-replicate (suc n) c p h = skip_slashes-replicate n c p h

-- A path, from the end of a segment on.
abbrev pub AtEnd : List ℕ → Type 0
AtEnd [] = Unit
AtEnd (c ∷ p) = c ≡ slash

-- No character is a slash.
abbrev pub NoSlash : List ℕ → Type 0
NoSlash [] = Unit
NoSlash (c ∷ p) = (c ≢ slash) × NoSlash p

segment_length-append :
    (n : ℕ) (s p : List ℕ)
    → length s ≤ n
    → NoSlash s
    → AtEnd p
    → segment_length n (s ++ p) ≡ length s
unfolding segment_length
segment_length-append zero [] p h no_slash end = refl
segment_length-append zero (c ∷ s) p h no_slash end = absurd (omega (arith, h))
segment_length-append (suc n) [] [] h no_slash end = refl
segment_length-append (suc n) [] (c ∷ p) h no_slash end = ground (arith, end)
segment_length-append (suc n) (c ∷ s) p h (ne, no_slash) end =
    let rest = segment_length-append n s p (omega (arith, h)) no_slash end in
    ground (arith, rest, ne)

-- A path that starts with slashes and a segment of 1 to 12 characters: `__fat32_walk_dir_path` formats
-- the segment and leaves the path behind it.
pub walk_dir_path-segment :
    (n c : ℕ) (s p : List ℕ)
    → length s < 12
    → NoSlash (c ∷ s)
    → AtEnd p
    → walk_dir_path (replicate n slash ++ (c ∷ (s ++ p)))
      ≡ some (field 8 (stem (c ∷ s)) ++ field 3 (extension (c ∷ s)), p)
unfolding walk_dir_path walk_segment
walk_dir_path-segment n c s p h no_slash end =
    let l : segment_length 12 (c ∷ (s ++ p)) ≡ suc (length s) =
      segment_length-append 12 (c ∷ s) p (omega (arith, h)) no_slash end in
    let short : ltb (length (stem (c ∷ s))) 256 ≡ true =
      (let k = stem-length-le (c ∷ s) in ground (arith, k, h)) in
    let name = field 8 (stem (c ∷ s)) ++ field 3 (extension (c ∷ s)) in
    let chosen : (if ltb (length (stem (c ∷ s))) 256 then some name else none) ≡ some name =
      rw short refl in
    ap walk_segment (skip_slashes-replicate n c (s ++ p) no_slash.0)
    ∙ ap (λ k. with_rest (format_83 (take k (c ∷ (s ++ p)))) (drop k (c ∷ (s ++ p)))) l
    ∙ ap₂ (λ a b. with_rest (format_83 (c ∷ a)) b)
        (take-append_left (length s) s p (omega arith) ∙ take-all (length s) s (omega arith))
        (drop-append s p)
    ∙ ap (λ o. with_rest o p) (format_83-field (c ∷ s) ∙ chosen)
