-- ===== src/History/Tests.antt =====
-- The history before its first use, and its theorems there.
use taavi_os.Common.{◌≡◌, ◌++◌, false, some, [], ◌∷◌, arith}
use taavi_os.Strings.Laws.{IsText}
use taavi_os.History.Lines.{History, history_add}
use taavi_os.History.Laws.{IsValid, Added, add-Added}

abbrev fresh : History
fresh = record { lines = []; total_saved = 0; current_line = 0; has_initialized = false }

fresh-IsValid : IsValid fresh
fresh-IsValid = record { all_lines = λ h. cc; few = omega arith }

-- One line is there, and the index has stepped down from 0.
abbrev stepped : History
stepped = record fresh { total_saved = 1; current_line = 255 }

stepped-IsValid : IsValid stepped
stepped-IsValid = record { all_lines = λ h. cc; few = omega arith }

-- "ls"
ls-IsText : IsText (108 ∷ 115 ∷ [])
ls-IsText = (omega arith, omega arith, (omega arith, omega arith, tt))

add-Added_example :
    (h' : History) × (history_add (some ((108 ∷ 115 ∷ []) ++ 0 ∷ [])) fresh ≡ some h')
    × Added (108 ∷ 115 ∷ []) h'
add-Added_example = add-Added 108 (115 ∷ []) [] fresh ls-IsText fresh-IsValid
