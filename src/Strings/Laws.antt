-- ===== src/Strings/Laws.antt =====
-- What printing and reading a number, comparing and copying strings compute.
use taavi_os.Common.{
  ℕ, zero, suc, ◌+◌, ◌-◌, ◌*◌, ◌/◌, ◌%◌, ◌^◌, ◌<◌, ◌≡◌, ◌↔◌, inl, inr, refl, true, false, ap, ◌∙◌,
  subst, Option, some, List, [], ◌∷◌, ◌++◌, length, take, replicate, ltb, leb, ◌==◌, ==_iff,
  Bool-cases, arith,
}
use taavi_os.Config.{u32}
use taavi_os.Strings.Text.{char_diff, strcmp, strncpy}
use taavi_os.Strings.Number.{digits, reverse_onto, itoa, atoi_digits, atoi}

-- One digit read.
read_digit :
    (n : ℕ) (rest : List ℕ)
    → n < 2 ^ 31
    → atoi_digits (n / 10) ((n % 10 + 48) ∷ rest) ≡ atoi_digits n rest
unfolding atoi_digits
read_digit n rest h =
    let low : leb 48 (n % 10 + 48) ≡ true = ground arith in
    let high : leb (n % 10 + 48) 57 ≡ true = ground arith in
    let value : u32 (n / 10 * 10 + (n % 10 + 48) - 48) ≡ n = omega arith in
    rw (low, high, value) refl

-- Reading the printed digits of `n` gives `n`, and goes on behind them.
read_digits :
    (fuel n : ℕ) (rest : List ℕ)
    → n < 10 ^ fuel
    → n < 2 ^ 31
    → atoi_digits 0 (reverse_onto (digits fuel n) rest) ≡ atoi_digits n rest
unfolding digits reverse_onto
read_digits zero n rest h k = let z : 0 ≡ n = omega arith in ap (λ x. atoi_digits x rest) z
read_digits (suc fuel) n rest h k = elim (Bool-cases (n == 0)) [
  | inl z ↦ let z' : 0 ≡ n = ground arith in rw z (ap (λ x. atoi_digits x rest) z')
  | inr nz ↦ rw nz (
      read_digits fuel (n / 10) ((n % 10 + 48) ∷ rest) (omega arith) (omega arith)
      ∙ read_digit n rest k)
]

-- No digit of a printed number is a blank, so that `atoi` skips nothing.
skips_none :
    (fuel n : ℕ) (rest : List ℕ)
    → atoi rest ≡ atoi_digits 0 rest
    → atoi (reverse_onto (digits fuel n) rest) ≡ atoi_digits 0 (reverse_onto (digits fuel n) rest)
unfolding digits reverse_onto atoi
skips_none zero n rest h = h
skips_none (suc fuel) n rest h = elim (Bool-cases (n == 0)) [
  | inl z ↦ rw z h
  | inr nz ↦
      let blank : (n % 10 + 48 == 32) ≡ false = ground arith in
      rw nz (skips_none fuel (n / 10) ((n % 10 + 48) ∷ rest) (rw blank refl))
]

-- For every `int` that is not negative `itoa` prints a string, and `atoi` reads the same number from it.
pub itoa-atoi : (n : ℕ) → n < 2 ^ 31 → (s : List ℕ) × (itoa n ≡ some s) × (atoi s ≡ some n)
unfolding itoa atoi atoi_digits
itoa-atoi n h = elim (Bool-cases (n == 0)) [
  | inl z ↦ let z' : 0 ≡ n = ground arith in (48 ∷ 0 ∷ [], rw z refl, ap some z')
  | inr nz ↦
      let small : ltb n (2 ^ 31) ≡ true = ground arith in
      (
        reverse_onto (digits 10 n) (0 ∷ []),
        rw (nz, small) refl,
        skips_none 10 n (0 ∷ []) refl ∙ read_digits 10 n (0 ∷ []) (omega arith) h,
      )
]

-- The bytes of a string before its zero byte.
abbrev pub IsText : List ℕ → Type 0
IsText [] = Unit
IsText (c ∷ s) = (0 < c) × (c < 256) × IsText s

char_diff-zero : (x y : ℕ) → x < 256 → y < 256 → (char_diff x y ≡ 0) ↔ (x ≡ y)
char_diff-zero x y hx hy = (λ h. ground arith, λ h. ground arith)

-- What a comparison says of two strings.
abbrev pub Compares : List ℕ → List ℕ → Option ℕ → Type 0
Compares s t o = (code : ℕ) × (o ≡ some code) × ((code ≡ 0) ↔ (s ≡ t))

-- The same byte in front of both.
compare_cons : (x : ℕ) (s t : List ℕ) (o : Option ℕ) → Compares s t o → Compares (x ∷ s) (x ∷ t) o
compare_cons x s t o (code, e, same) = (code, e, (λ h. ap (λ u. x ∷ u) (same.0 h), λ h. same.1 cc))

-- `strcmp` on two strings ends inside both, and returns 0 exactly when they are the same; also for
-- bytes from 128 on, which are negative as `char`.
pub strcmp-Compares :
    (s t rest rest' : List ℕ)
    → IsText s
    → IsText t
    → Compares s t (strcmp (s ++ 0 ∷ rest) (t ++ 0 ∷ rest'))
unfolding strcmp
strcmp-Compares [] [] rest rest' hs ht = (_, refl, (λ h. refl, λ h. refl))
strcmp-Compares [] (y ∷ t) rest rest' hs ht = (
  char_diff 0 y,
  refl,
  (λ h. absurd (omega (arith, (char_diff-zero 0 y (omega arith) ht.1).0 h, ht.0)), λ h. cc),
)
strcmp-Compares (x ∷ s) [] rest rest' hs ht =
    let nz : (x == 0) ≡ false = ground (arith, hs.0) in
    rw nz (
      char_diff x 0,
      refl,
      (λ h. absurd (omega (arith, (char_diff-zero x 0 hs.1 (omega arith)).0 h, hs.0)), λ h. cc),
    )
strcmp-Compares (x ∷ s) (y ∷ t) rest rest' hs ht =
    let nz : (x == 0) ≡ false = ground (arith, hs.0) in
    elim (Bool-cases (x == y)) [
      | inl same ↦
          rw (nz, same)
            (subst (λ u. Compares (x ∷ s) (u ∷ t) (strcmp (s ++ 0 ∷ rest) (t ++ 0 ∷ rest')))
              ((==_iff x y).0 same)
              (compare_cons x s t _ (strcmp-Compares s t rest rest' hs.2 ht.2)))
      | inr other ↦
          rw (nz, other)
            (
              char_diff x y,
              refl,
              (
                λ h.
                    let same = (char_diff-zero x y hs.1 ht.1).0 h in
                    absurd (ground (arith, same, other)),
                λ h. let same : x ≡ y = cc in absurd (ground (arith, same, other)),
              ),
            )
    ]

-- `strncpy` of a string into `n` bytes gives its first `n` bytes, and zeros where it is shorter.
pub strncpy-take :
    (n : ℕ) (s rest : List ℕ)
    → IsText s
    → strncpy n (s ++ 0 ∷ rest) ≡ some (take n s ++ replicate (n - length s) 0)
unfolding strncpy
strncpy-take zero s rest h =
    ap (λ k. some (replicate k 0)) (let z : 0 ≡ 0 - length s = omega arith in z)
strncpy-take (suc n) [] rest h =
    let k : suc n ≡ suc n - 0 = omega arith in ap (λ j. some (replicate j 0)) k
strncpy-take (suc n) (c ∷ s) rest h =
    let nz : (c == 0) ≡ false = ground (arith, h.0) in
    let k : n - length s ≡ suc n - suc (length s) = omega arith in
    rw (nz, strncpy-take n s rest h.2) (ap (λ j. some (c ∷ (take n s ++ replicate j 0))) k)
