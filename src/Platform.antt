-- ===== src/Platform.antt =====
-- The functions of the C library and of the kernel that src/ calls and does not define. They are
-- arguments of the model; `InetLaws` states what the manual pages of inet_pton(3) and
-- inet_ntop(3) promise.
use blockad.Common.{ℕ, ◌≡◌, Option, some, List, Bytes, IsByte, All, Lacks, length, find, ◌≢◌, none}

-- `regmatch_t`; an unused entry has -1 in both, which is `none` here.
pub record Regmatch : Type 0 where
  pub rm_so : Option ℕ
  pub rm_eo : Option ℕ

pub record Platform : Type 0 where
  -- `inet_pton(AF_INET, s, …)` and `inet_pton(AF_INET6, s, …)`
  pub pton4 : Bytes → Option Bytes
  pub pton6 : Bytes → Option Bytes
  -- `inet_ntop`, into a buffer that is long enough
  pub ntop4 : Bytes → Bytes
  pub ntop6 : Bytes → Bytes
  pub strerror : ℕ → Bytes
  -- `regcomp` by pattern and flags: the error code, 0 for success
  pub regcomp : Bytes → ℕ → ℕ
  -- `re_nsub` of the pattern compiled with the flags
  pub re_nsub : Bytes → ℕ → ℕ
  -- `regexec` by pattern, compilation flags, subject, `nmatch` and `eflags`
  pub regexec : Bytes → ℕ → Bytes → ℕ → ℕ → ℕ × List Regmatch
  pub regerror : ℕ → Bytes

-- An array of `n` bytes.
abbrev pub IsBytes : ℕ → Bytes → Type 0
IsBytes n a = (length a ≡ n) × All IsByte a

pub record InetLaws (sys : Platform) : Type 0 where
  -- A success fills 4 or 16 bytes.
  pub pton4-IsBytes : (s a : Bytes) → sys.pton4 s ≡ some a → IsBytes 4 a
  pub pton6-IsBytes : (s a : Bytes) → sys.pton6 s ≡ some a → IsBytes 16 a
  -- What is printed is read back.
  pub pton4-ntop4 : (a : Bytes) → IsBytes 4 a → sys.pton4 (sys.ntop4 a) ≡ some a
  pub pton6-ntop6 : (a : Bytes) → IsBytes 16 a → sys.pton6 (sys.ntop6 a) ≡ some a
  -- The printed forms are C strings; only the IPv6 form has colons.
  pub ntop4_plain : (a : Bytes) → Lacks 0 (sys.ntop4 a) × Lacks b':' (sys.ntop4 a)
  pub ntop6_plain : (a : Bytes) → Lacks 0 (sys.ntop6 a)
  pub ntop6_colon : (a : Bytes) → find b':' (sys.ntop6 a) ≢ none
