-- ===== src/Fat/Name.antt =====
-- fat32helpers.c: the names of 8 and 3 characters. A string is the list of its characters, without the
-- 0 at its end.
use taavi_os.Common.{
  ℕ, zero, suc, ◌+◌, ◌-◌, ◌&&◌, Option, none, some, List, [], ◌∷◌, take, drop, set, replicate, leb,
  ◌==◌, if◌then◌else◌,
}

abbrev pub pad : ℕ
pad = 0x20

abbrev pub dot : ℕ
dot = 46

abbrev pub slash : ℕ
slash = 47

-- `c >= 'a' && c <= 'z' ? c - ASCII_CASE_DIFF : c`
abbrev pub upper : ℕ → ℕ
upper c = if leb 97 c && leb c 122 then c - 0x20 else c

-- The characters go to `dst[i]` and after it, at most `n` of them.
unfoldable pub deposit : ℕ → ℕ → List ℕ → List ℕ → List ℕ
deposit zero i s dst = dst
deposit (suc n) i [] dst = dst
deposit (suc n) i (c ∷ s) dst = deposit n (i + 1) s (set dst i (upper c))

-- The loop that looks for `index_of_dot`, over the characters from index `i` on; `none` in place of -1. The
-- index is a `uint8_t`, of which `n` values are left before it is 0 again: then the string is longer than
-- every index, no character up to here is a dot, and the loop never ends, which is the other `none`.
unfoldable pub find_dot : ℕ → ℕ → List ℕ → Option (Option ℕ)
find_dot zero i s = none
find_dot (suc n) i [] = some none
find_dot (suc n) i (c ∷ s) =
    let rest = find_dot n (i + 1) s in if c == dot then some (some i) else rest

unfoldable pub format_at : Option ℕ → List ℕ → List ℕ
unfolding deposit
format_at none filename = deposit 8 0 filename (replicate 11 pad)
format_at (some k) filename =
    deposit 3 8 (drop (k + 1) filename) (deposit 8 0 (take k filename) (replicate 11 pad))

-- `__fat32_format_83`, for a name that is there: what it leaves in `dst`, and `none` where it never ends.
-- The indices of the later loops stay below 8, below 3, or below the index of the dot.
unfoldable pub format_83 : List ℕ → Option (List ℕ)
unfolding format_at find_dot
format_83 filename = elim (find_dot 256 0 filename) [
  | none ↦ none
  | some index_of_dot ↦ some (format_at index_of_dot filename)
]

unfoldable pub skip_slashes : List ℕ → List ℕ
skip_slashes [] = []
skip_slashes (c ∷ p) = let rest = skip_slashes p in if c == slash then rest else c ∷ p

-- The loop over `index`, with `n` characters left in `segment`: the length of the segment.
unfoldable pub segment_length : ℕ → List ℕ → ℕ
segment_length zero p = 0
segment_length (suc n) [] = 0
segment_length (suc n) (c ∷ p) = let rest = segment_length n p in if c == slash then 0 else suc rest

-- The formatted name, with the rest of the path.
abbrev pub with_rest : Option (List ℕ) → List ℕ → Option (List ℕ × List ℕ)
with_rest none path = none
with_rest (some name) path = some (name, path)

unfoldable pub walk_segment : List ℕ → Option (List ℕ × List ℕ)
unfolding segment_length format_83
walk_segment [] = none
walk_segment (c ∷ p) =
    let index = segment_length 12 (c ∷ p) in
    with_rest (format_83 (take index (c ∷ p))) (drop index (c ∷ p))

-- `__fat32_walk_dir_path`: the name and the rest of the path, `none` for STATUS_ERROR.
unfoldable pub walk_dir_path : List ℕ → Option (List ℕ × List ℕ)
unfolding walk_segment skip_slashes
walk_dir_path path = walk_segment (skip_slashes path)
