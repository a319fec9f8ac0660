-- ===== src/Nonblock.antt =====
-- src/nonblock.cc
use blockad.Common.{
  ℕ, ◌==◌, Option, none, some, codes, bit_and, bit_or, if◌then◌else◌, Result, ok, throws,
}
use blockad.Platform.{Platform}
use blockad.IoError.{io_error}

-- What `fcntl` answers to F_GETFL: its `errno`, or the flags.
pub data Flags : Type 0 where
  getfl_failed : ℕ → Flags
  flags : ℕ → Flags

abbrev pub o_nonblock : ℕ
o_nonblock = 2048

-- The flags that the descriptor then has; `set` is what `fcntl` answers to F_SETFL, `none` for
-- success.
unfoldable pub nonblock : Platform → Flags → (set : Option ℕ) → Result ℕ
unfolding io_error
nonblock sys (getfl_failed errno) set = throws (io_error sys (codes "fcntl F_GETFL") errno)
nonblock sys (flags f) set =
    if bit_and f o_nonblock == 0
    then elim set [
      | some errno ↦ throws (io_error sys (codes "fcntl F_SETFL") errno)
      | none ↦ ok (bit_or f o_nonblock)
    ]
    else ok f
