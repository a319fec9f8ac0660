-- ===== src/LogFile.antt =====
-- src/WatcherImplementation.cc and src/PollingWatcher.cc: the file of a watcher, from the
-- characters that appear in it to the calls of `processLine`, which is an argument with a state of
-- its own.
pub mod Delivery
pub mod Paths
pub mod Turn
pub mod Streams
use blockad.Common.{
  ℕ, zero, suc, ◌+◌, Bool, true, false, not, ◌&&◌, ◌||◌, List, [], ◌∷◌, ◌++◌, Option, none, some,
  Bytes, codes, length, take, drop, ltb, ◌==◌, if◌then◌else◌, Exception, runtime_error, Result, ok,
  throws, ◌>>=◌,
}
use blockad.Platform.{Platform}

-- `p.rfind(c)`
unfoldable pub rfind : ℕ → Bytes → Option ℕ
rfind c [] = none
rfind c (x ∷ s) = elim (rfind c s) [
  | some i ↦ some (suc i)
  | none ↦ if x == c then some 0 else none
]

-- `getDirName(p)`
unfoldable pub get_dir_name : Bytes → Bytes
unfolding rfind
get_dir_name p = elim (rfind b'/' p) [ none ↦ codes "." | some s ↦ take (s + 1) p ]

-- `getBaseName(p)`
unfoldable pub get_base_name : Bytes → Bytes
unfolding rfind
get_base_name p = elim (rfind b'/' p) [ none ↦ p | some s ↦ drop (s + 1) p ]

-- `Watcher::IOError(s, e)`, of `Watcher::Error`.
unfoldable pub watcher_error : Platform → Bytes → ℕ → Exception
watcher_error sys s e =
    runtime_error (if not (e == 0) then s ++ codes ": " ++ sys.strerror e else s)

-- `st_dev` and `st_ino`
pub record Identity : Type 0 where
  pub dev : ℕ
  pub ino : ℕ

abbrev pub same_file : Identity → Identity → Bool
same_file a b = a.dev == b.dev && a.ino == b.ino

-- Whether the file that is open is still the one that the path names; `none` is a `stat` that
-- fails.
abbrev pub is_current : Identity → Option Identity → Bool
is_current id none = false
is_current id (some now) = same_file id now

-- What `getc` returns from the position reached on: characters, and then an error or the end of the
-- file. For an error `failure` is the `errno` that stands when `closeFile()` has returned, since
-- the code looks at it only then: the calls in between may have changed it.
pub record Reading : Type 0 where
  pub chars : Bytes
  pub failure : Option ℕ

-- The members of a `PollingWatcher`. A file that is not open is `none`.
pub record Polling : Type 0 where
  pub open_as : Option Identity
  pub line : Bytes
  pub next : ℕ

-- What `fopen` and `fstat` answer, and what the new file then holds.
pub data OpenAnswer : Type 0 where
  open_failed : ℕ → OpenAnswer
  fstat_failed : ℕ → OpenAnswer
  opened_as : Identity → Reading → OpenAnswer

-- `pollfd(limit)`: what it leaves in `limit`; it returns -1.
unfoldable pub pollfd : Polling → ℕ → ℕ
pollfd w limit = if ltb w.next limit then w.next else limit

abbrev pub enoent : ℕ
enoent = 2

module _ (sys : Platform) (path : Bytes) {S : Type 0} (process : Bytes → S → Result S) where
  -- `closeFile()`
  unfoldable pub close_file : Polling → S → Result (Polling × S)
  close_file w s = elim w.open_as [
    | none ↦ ok (w, s)
    | some id ↦ do
      s' ← (if length w.line == 0 then ok s else process w.line s)
      ok (record w { open_as = none; line = [] }, s')
  ]

  -- The loop of `readLines` over the characters; `line` is what has been read of the current line.
  unfoldable pub read_chars : Bytes → Bytes → S → Result (Bytes × S)
  read_chars line [] s = ok (line, s)
  read_chars line (c ∷ rest) s =
      let later = read_chars (line ++ c ∷ []) rest s in
      if c == b'\n' then process (line ++ c ∷ []) s >>= read_chars [] rest else later

  -- `readLines()`
  unfoldable pub read_lines : Polling → Reading → S → Result (Polling × S)
  unfolding read_chars close_file watcher_error
  read_lines w r s = do
    (line, s') ← read_chars w.line r.chars s
    elim r.failure [
      | none ↦ ok (record w { line = line }, s')
      | some e ↦ (do
        closed ← close_file (record w { line = line }) s'
        throws (watcher_error sys (codes "reading " ++ path) e))
    ]

  -- `openFile()` of a watcher whose file is not open, and what can then be read.
  unfoldable pub open_file : Polling → OpenAnswer → Result (Polling × Option Reading)
  unfolding watcher_error
  open_file w (open_failed e) =
      if not (e == enoent)
      then throws (watcher_error sys (codes "opening " ++ path) e)
      else ok (w, none)
  open_file w (fstat_failed e) = throws (watcher_error sys (codes "fstat " ++ path) e)
  open_file w (opened_as id r) = ok (record w { open_as = some id }, some r)

  -- The constructor, at the time `now`; what the file holds is read later.
  unfoldable pub new_polling : ℕ → OpenAnswer → Result Polling
  unfolding open_file
  new_polling now answer = do
    (w, there) ← open_file (record { open_as = none; line = []; next = now }) answer
    ok w

  -- The second half of `work`, where the file is not open.
  unfoldable pub reopen : OpenAnswer → Polling × S → Result (Polling × S)
  unfolding open_file read_lines
  reopen answer (w, s) = do
    (w', there) ← open_file w answer
    elim there [ none ↦ ok (w', s) | some r ↦ read_lines w' r s ]

  -- `work()` at the time `now`: `more` is what the file that is open still holds.
  unfoldable pub work :
      ℕ → Option Identity → Reading → OpenAnswer → Polling → S → Result (Polling × S)
  unfolding close_file read_lines reopen
  work now stat more answer w s =
      let due = record w { next = now + 1 } in
      elim w.open_as [
        | none ↦ reopen answer (due, s)
        | some id ↦
            if is_current id stat then read_lines due more s else close_file due s >>= reopen answer
      ]
