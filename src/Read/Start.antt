-- ===== src/Read/Start.antt =====
-- The opening of the parsers that work on the file as a whole.
use aspose_note_foss_for_pyt.Prelude.{ℕ, String, ◌≡◌, none, some, arith}
use aspose_note_foss_for_pyt.Parser.{State, ok}
use aspose_note_foss_for_pyt.Read.{file_start}

-- the file's size that the parsers go by, and the state whose context keeps it
abbrev pub size_in : State → ℕ
size_in s = elim s.ctx.file_size [ none ↦ s.reader.bounds.end | some n ↦ n ]

abbrev pub with_size : State → State
with_size s = record s { ctx = record s.ctx { file_size = some (size_in s) } }

pub file_start_lem :
    (m : String) (s : State)
    → s.reader.bounds.start ≡ 0
    → file_start m s ≡ ok (size_in s) (with_size s)
unfolding file_start
file_start_lem m s h = ground arith
