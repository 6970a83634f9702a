-- ===== src/History/Lines.antt =====
-- history.c: its static variables and its functions. The strncpy of userspace/library/libc/string.c is
-- the same code as the kernel's.
use taavi_os.Common.{
  ℕ, ◌+◌, ◌-◌, Bool, true, Option, none, some, List, [], ◌∷◌, ◌++◌, replicate, set, leb, ◌||◌, ◌==◌,
  if◌then◌else◌,
}
use taavi_os.Config.{u8}
use taavi_os.Strings.Text.{strncpy}

abbrev pub max_saved_lines : ℕ
max_saved_lines = 32

abbrev pub history_line_len : ℕ
history_line_len = 512

pub record History : Type 0 where
  pub lines : List (List ℕ)
  pub total_saved : ℕ
  pub current_line : ℕ
  pub has_initialized : Bool

unfoldable pub history_init : History → History
history_init h = if h.has_initialized then h else record h {
  lines = replicate max_saved_lines (replicate history_line_len 0);
  has_initialized = true;
}

-- The entry that the next line goes to.
abbrev pub next_slot : History → ℕ
next_slot h = if leb max_saved_lines h.total_saved then 0 else h.total_saved

-- The line `s` stored, with its last byte zero.
abbrev pub store_line : List ℕ → History → History
store_line s h = record h {
  lines = set h.lines (next_slot h) (s ++ 0 ∷ []);
  total_saved = u8 (next_slot h + 1);
  current_line = next_slot h;
}

unfoldable pub add_copied : Option (List ℕ) → History → Option History
add_copied none h = none
add_copied (some s) h = some (store_line s h)

-- The line is NULL, or the bytes from its pointer on; the outer `none` is a read beyond them.
unfoldable pub history_add : Option (List ℕ) → History → Option History
unfolding history_init strncpy add_copied
history_add none h = some h
history_add (some []) h = none
history_add (some (c ∷ s)) h =
    let rest = add_copied (strncpy (history_line_len - 1) (c ∷ s)) (history_init h) in
    if c == 0 then some h else rest

-- The index of the line that is returned, `none` for NULL. A step down from 0 wraps around to 255.
unfoldable pub history_get_next : History → Option ℕ × History
unfolding history_init
history_get_next h =
    let h = history_init h in
    let c =
      if leb max_saved_lines h.current_line then u8 (h.total_saved + 255) else h.current_line in
    if h.total_saved == 0 then (none, h) else (some c, record h { current_line = u8 (c + 255) })

unfoldable pub history_get_prev : History → Option ℕ × History
unfolding history_init
history_get_prev h =
    let h = history_init h in
    let c =
      if leb max_saved_lines h.current_line || leb h.total_saved h.current_line
      then u8 (h.total_saved + 255)
      else h.current_line in
    if h.total_saved == 0 then (none, h) else (some c, record h { current_line = u8 (c + 1) })
