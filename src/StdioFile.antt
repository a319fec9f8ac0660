-- ===== src/StdioFile.antt =====
-- src/StdioFile.h and src/StdioFile.cc: a file that is open for reading is the characters that
-- are left, and the `errno` of the read that fails behind them, if one does.
pub mod Lines
pub mod Handles
use blockad.Common.{
  ℕ, Bool, true, false, not, List, [], ◌∷◌, ◌++◌, Option, none, some, Bytes, codes, length, ◌==◌,
  if◌then◌else◌, Result, ok, throws,
}
use blockad.Platform.{Platform}
use blockad.IoError.{io_error_at}

pub record Stream : Type 0 where
  pub chars : Bytes
  pub failure : Option ℕ

-- What `fopen` answers: a stream, or `errno`.
pub data Opening : Type 0 where
  opened : Stream → Opening
  refused : ℕ → Opening

module _ (sys : Platform) (path : Bytes) where
  -- `StdioFile(path, mode)` with `fopen` answering.
  unfoldable pub open_file : Opening → Result Stream
  unfolding io_error_at
  open_file (opened f) = ok f
  open_file (refused errno) = throws (io_error_at sys (codes "opening") path errno)

  -- `readc()` at the end of the characters: `EOF`, or an exception.
  unfoldable pub end_of_file : Option ℕ → Result (Unit {0})
  unfolding io_error_at
  end_of_file none = ok tt
  end_of_file (some errno) = throws (io_error_at sys (codes "reading") path errno)

  -- `readline(line)`: whether there is a line, the line, and the characters behind it.
  unfoldable pub readline_loop : Option ℕ → Bytes → Bytes → Result (Bool × Bytes × Bytes)
  unfolding end_of_file
  readline_loop failure line [] = elim (end_of_file failure) [
    | ok _ ↦ ok (not (length line == 0), line, [])
    | throws e ↦ throws e
  ]
  readline_loop failure line (c ∷ rest) =
      if c == b'\n' then ok (true, line, rest) else readline_loop failure (line ++ c ∷ []) rest

  unfoldable pub readline : Stream → Result (Bool × Bytes × Bytes)
  unfolding readline_loop
  readline f = readline_loop f.failure [] f.chars
