-- ===== src/Strings/Text.antt =====
-- kstring.c: strings as the bytes from a pointer on, up to the end of the memory that it may read; a
-- read beyond that is `none`. A `char` is signed.
use taavi_os.Common.{
  ℕ, zero, suc, ◌+◌, ◌-◌, ◌^◌, not, ◌&&◌, ◌||◌, Option, none, some, List, [], ◌∷◌, replicate, ltb,
  ◌==◌, if◌then◌else◌,
}
use taavi_os.Config.{u32}

-- a byte as `int`, and the difference of two: 32-bit patterns
abbrev pub char_value : ℕ → ℕ
char_value c = if ltb c 128 then c else c + 2 ^ 32 - 256

abbrev pub char_diff : ℕ → ℕ → ℕ
char_diff x y = u32 (char_value x + 2 ^ 32 - char_value y)

unfoldable pub strlen : List ℕ → Option ℕ
strlen [] = none
strlen (c ∷ s) =
    let rest : Option ℕ = elim (strlen s) [ none ↦ none | some n ↦ some (suc n) ] in
    if c == 0 then some 0 else rest

unfoldable pub strcmp : List ℕ → List ℕ → Option ℕ
strcmp [] b = none
strcmp (x ∷ a) [] = none
strcmp (x ∷ a) (y ∷ b) =
    let rest = strcmp a b in if not (x == 0) && x == y then rest else some (char_diff x y)

-- The bytes are compared unsigned here.
unfoldable pub strncmp : ℕ → List ℕ → List ℕ → Option ℕ
strncmp zero a b = some 0
strncmp (suc n) [] b = none
strncmp (suc n) (x ∷ a) [] = none
strncmp (suc n) (x ∷ a) (y ∷ b) =
    let rest = strncmp n a b in if not (x == y) || x == 0 then some (u32 (x + 2 ^ 32 - y)) else rest

unfoldable pub memcmp : ℕ → List ℕ → List ℕ → Option ℕ
memcmp zero a b = some 0
memcmp (suc n) [] b = none
memcmp (suc n) (x ∷ a) [] = none
memcmp (suc n) (x ∷ a) (y ∷ b) =
    let rest = memcmp n a b in if not (x == y) then some (u32 (x + 2 ^ 32 - y)) else rest

-- The bytes that `strcpy` writes from `dest` on.
unfoldable pub strcpy : List ℕ → Option (List ℕ)
strcpy [] = none
strcpy (c ∷ s) =
    let rest : Option (List ℕ) = elim (strcpy s) [ none ↦ none | some t ↦ some (c ∷ t) ] in
    if c == 0 then some (0 ∷ []) else rest

-- The `size` bytes that `strncpy` writes: a zero byte in `src` fills the rest.
unfoldable pub strncpy : ℕ → List ℕ → Option (List ℕ)
strncpy zero src = some []
strncpy (suc n) [] = none
strncpy (suc n) (c ∷ s) =
    let rest : Option (List ℕ) = elim (strncpy n s) [ none ↦ none | some t ↦ some (c ∷ t) ] in
    if c == 0 then some (replicate (suc n) 0) else rest
