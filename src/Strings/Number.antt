-- ===== src/Strings/Number.antt =====
-- kstring.c: `itoa` and `atoi`. An `int` is its 32-bit pattern.
use taavi_os.Common.{
  ℕ, zero, suc, ◌+◌, ◌-◌, ◌*◌, ◌/◌, ◌%◌, ◌^◌, ◌&&◌, Option, none, some, List, [], ◌∷◌, ltb, leb,
  ◌==◌, if◌then◌else◌,
}
use taavi_os.Config.{u32}

-- `while (n != 0)`: the digits from the last one on, as the loop stores them. An `int` has at most ten.
unfoldable pub digits : ℕ → ℕ → List ℕ
digits zero n = []
digits (suc fuel) n = let rest = digits fuel (n / 10) in if n == 0 then [] else (n % 10 + 48) ∷ rest

-- The swaps that turn the digits around, with what follows them in the buffer.
unfoldable pub reverse_onto : List ℕ → List ℕ → List ℕ
reverse_onto [] rest = rest
reverse_onto (c ∷ t) rest = reverse_onto t (c ∷ rest)

-- The bytes of the string. `-n` overflows where `n` is INT_MIN, which is `none`.
unfoldable pub itoa : ℕ → Option (List ℕ)
unfolding digits reverse_onto
itoa n =
    if n == 0
    then some (48 ∷ 0 ∷ [])
    else (if ltb n (2 ^ 31)
        then some (reverse_onto (digits 10 n) (0 ∷ []))
        else (if n == 2 ^ 31
            then none
            else some (45 ∷ reverse_onto (digits 10 (2 ^ 32 - n)) (0 ∷ []))))

-- The second loop of `atoi`. The source does not say what an overflow gives; the machine wraps around.
unfoldable pub atoi_digits : ℕ → List ℕ → Option ℕ
atoi_digits res [] = none
atoi_digits res (c ∷ s) =
    let rest = atoi_digits (u32 (res * 10 + c - 48)) s in
    if leb 48 c && leb c 57 then rest else some res

-- The first loop skips blanks.
unfoldable pub atoi : List ℕ → Option ℕ
unfolding atoi_digits
atoi [] = none
atoi (c ∷ s) = let rest = atoi s in if c == 32 then rest else atoi_digits 0 (c ∷ s)
