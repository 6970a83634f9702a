-- ===== src/Strings/Tests.antt =====
-- Runs of the string functions, and their theorems at small strings.
use taavi_os.Common.{ℕ, ◌≡◌, ◌++◌, refl, some, List, [], ◌∷◌, arith}
use taavi_os.Strings.Text.{strlen, strncmp, memcmp, strcpy}
use taavi_os.Strings.Number.{itoa, atoi}
use taavi_os.Strings.Laws.{itoa-atoi}

-- "hi" and "ho"
abbrev hi : List ℕ
hi = 104 ∷ 105 ∷ []

abbrev ho : List ℕ
ho = 104 ∷ 111 ∷ []

-- -207 in decimal
minus_207 : itoa 4294967089 ≡ some (45 ∷ 50 ∷ 48 ∷ 55 ∷ 0 ∷ [])
unfolding itoa
minus_207 = refl

blanks_42 : atoi (32 ∷ 32 ∷ 52 ∷ 50 ∷ 120 ∷ []) ≡ some 42
unfolding atoi
blanks_42 = refl

hi_length : strlen (hi ++ 0 ∷ []) ≡ some 2
unfolding strlen
hi_length = refl

hi_copy : strcpy (hi ++ 0 ∷ 7 ∷ []) ≡ some (104 ∷ 105 ∷ 0 ∷ [])
unfolding strcpy
hi_copy = refl

hi_prefix : strncmp 1 hi ho ≡ some 0
unfolding strncmp
hi_prefix = refl

hi_bytes : memcmp 2 hi ho ≡ some 4294967290
unfolding memcmp
hi_bytes = refl

itoa-atoi_example : (s : List ℕ) × (itoa 207 ≡ some s) × (atoi s ≡ some 207)
itoa-atoi_example = itoa-atoi 207 (omega arith)
