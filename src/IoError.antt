-- ===== src/IoError.antt =====
-- src/IOError.h and src/IOError.cc: the messages of `IOError` and `SystemError`, which are
-- `std::runtime_error`s.
use blockad.Common.{ℕ, ◌++◌, Bytes, codes, Exception, runtime_error}
use blockad.Platform.{Platform}

module _ (sys : Platform) where
  -- `IOError(what, path, errno_value)`
  unfoldable pub io_error_at : Bytes → Bytes → ℕ → Exception
  io_error_at what path errno_value =
      runtime_error (what ++ codes " " ++ path ++ codes ": " ++ sys.strerror errno_value)

  -- `IOError(what, errno_value)`
  unfoldable pub io_error : Bytes → ℕ → Exception
  io_error what errno_value = runtime_error (what ++ codes ": " ++ sys.strerror errno_value)

  -- `SystemError(what, errno_value)`
  unfoldable pub system_error : Bytes → ℕ → Exception
  system_error what errno_value = runtime_error (what ++ codes ": " ++ sys.strerror errno_value)
