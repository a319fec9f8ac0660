-- ===== src/Regex.antt =====
-- src/Regex_.h and src/Regex.cc: a compiled regular expression as a value. Regex/Handles has the
-- counted references to it.
pub mod Matches
pub mod Handles
use blockad.Common.{
  ℕ, Bool, true, false, List, [], ◌∷◌, Option, none, some, Bytes, c_str, ◌==◌, if◌then◌else◌, not,
  bit_and, bit_or, runtime_error, Result, ok, throws,
}
use blockad.Platform.{Platform, Regmatch}

-- What `regcomp` was given; `regex_t` is determined by it.
pub record Regex : Type 0 where
  pub pattern : Bytes
  pub cflags : ℕ

abbrev pub reg_extended : ℕ
reg_extended = 1

abbrev pub reg_nosub : ℕ
reg_nosub = 8

abbrev pub default_nmatches : ℕ
default_nmatches = 64

abbrev pub is_unused : Regmatch → Bool
is_unused m = elim m.rm_so [ none ↦ true | some _ ↦ false ]

-- Keeps `m` unless nothing is kept behind it and it is unused.
abbrev pub keep : Regmatch → List Regmatch → List Regmatch
keep m [] = if is_unused m then [] else m ∷ []
keep m (k ∷ ks) = m ∷ k ∷ ks

-- `while(matches.size() > 0 && matches.back().rm_so == -1) matches.pop_back();`
unfoldable pub strip : List Regmatch → List Regmatch
strip [] = []
strip (m ∷ ms) = keep m (strip ms)

module _ (sys : Platform) where
  -- `compile(regex, cflags, basic)` of a `Regex` that holds nothing.
  unfoldable pub compile : Bytes → ℕ → Bool → Result Regex
  compile regex cflags basic =
      let flags = if basic then cflags else bit_or cflags reg_extended in
      let rc = sys.regcomp (c_str regex) flags in
      if rc == 0
      then ok (record { pattern = c_str regex; cflags = flags })
      else throws (runtime_error (sys.regerror rc))

  unfoldable pub captures : Regex → ℕ
  captures r = sys.re_nsub r.pattern r.cflags

  -- `execute(s, matches, eflags, nmatch)`: its result, and what it leaves in `matches`.
  unfoldable pub execute : Regex → Bytes → ℕ → ℕ → ℕ × List Regmatch
  unfolding strip
  execute r s eflags nmatch =
      let (rc, matches) = sys.regexec r.pattern r.cflags (c_str s) nmatch eflags in
      if rc == 0 then (rc, strip matches) else (rc, matches)

  -- `execute(s, eflags)`
  unfoldable pub execute_only : Regex → Bytes → ℕ → ℕ
  unfolding execute
  execute_only r s eflags =
      if not (bit_and r.cflags reg_nosub == 0)
      then (sys.regexec r.pattern r.cflags (c_str s) 0 eflags).0
      else (execute r s eflags default_nmatches).0

  -- `matches(s, eflags)`
  abbrev pub is_match : Regex → Bytes → ℕ → Bool
  is_match r s eflags = execute_only r s eflags == 0
