-- ===== src/Inotify.antt =====
-- src/InotifyWatcher.h and src/InotifyWatcher.cc: a watcher that is told of changes by events. What
-- the system answers is an argument; the warning about EINVAL is left out.
pub mod Events
pub mod Pairing
pub mod Overflow
pub mod Sequence
pub mod Delivery
pub mod Passes
pub mod Turn
use blockad.Common.{
  ℕ, zero, suc, ◌+◌, ◌-◌, ◌*◌, Bool, true, false, not, ◌&&◌, ◌||◌, List, [], ◌∷◌, ◌++◌, Option,
  none, some, Bytes, codes, c_str, equal, take, drop, length, get_or, ltb, ◌==◌, if◌then◌else◌,
  bit_and, ℤ, pos, negsuc, equal_ℤ, Exception, out_of_range, undefined, Result, ok, throws, ◌>>=◌,
}
use blockad.Platform.{Platform}
use blockad.LogFile.{Reading, watcher_error, read_chars, get_base_name, get_dir_name, enoent}

-- `struct inotify_event`; the name stands with the NULs behind it.
pub record Event : Type 0 where
  pub wd : ℤ
  pub mask : ℕ
  pub cookie : ℕ
  pub name : Bytes

-- A number of four bytes, the least significant first.
abbrev pub le32 : Bytes → ℕ
le32 b = get_or b 0 0 + 256 * get_or b 1 0 + 65536 * get_or b 2 0 + 16777216 * get_or b 3 0

-- The same bytes as an `int`.
abbrev pub int32 : ℕ → ℤ
int32 n = if ltb n 2147483648 then pos n else negsuc (4294967295 - n)

abbrev pub short_read : Platform → Exception
short_read sys = watcher_error sys (codes "short read from inotify fd") 0

-- The event in a buffer of `n` bytes, by the fields of its header and the bytes behind that.
unfoldable pub cut : Platform → (n wd mask cookie len : ℕ) → Bytes → Result (Event × Bytes)
cut sys n wd mask cookie len body =
    if ltb n 16
    then throws (short_read sys)
    else if ltb n (16 + len)
    then throws (short_read sys)
    else ok (
      record { wd = int32 wd; mask = mask; cookie = cookie; name = take len body },
      drop len body,
    )

-- The event that the buffer begins with, and what is behind it.
unfoldable pub take_event : Platform → Bytes → Result (Event × Bytes)
unfolding cut
take_event sys buffer =
    cut sys (length buffer) (le32 buffer) (le32 (drop 4 buffer)) (le32 (drop 8 buffer))
      (le32 (drop 12 buffer)) (drop 16 buffer)

-- The members that change; `is_open` is whether `fp` is no null pointer.
pub record Inotify : Type 0 where
  pub is_open : Bool
  pub line : Bytes
  pub file_wd : ℤ
  pub dir_wd : ℤ

-- What `fopen` and `inotify_add_watch` answer.
pub data Opened : Type 0 where
  fopen_failed : ℕ → Opened
  watch_failed : ℕ → Opened
  watched : ℕ → Opened

-- What the system answers while one event is handled: what the open file has, the results of
-- `inotify_rm_watch`, where `none` is success, and the new file.
pub record Answers : Type 0 where
  pub current : Reading
  pub removed : Option ℕ
  pub removed_again : Option ℕ
  pub opened : Opened
  pub fresh : Reading

abbrev pub in_self : ℕ
in_self = 3072

abbrev pub einval : ℕ
einval = 22

abbrev pub no_wd : ℤ
no_wd = negsuc 0

abbrev pub is_wd : ℤ → Bool
is_wd (pos n) = true
is_wd (negsuc n) = false

module _ (sys : Platform) (path : Bytes) where
  -- `openFile()` of a watcher whose file is not open.
  unfoldable pub open_file : Opened → Inotify → Result Inotify
  unfolding watcher_error
  open_file (fopen_failed errno) w =
      if not (errno == enoent)
      then throws (watcher_error sys (codes "opening " ++ path) errno)
      else ok w
  open_file (watch_failed errno) w =
      throws (watcher_error sys (codes "inotify_add_watch for " ++ path) errno)
  open_file (watched wd) w = ok (record w { is_open = true; file_wd = pos wd })

module _ (sys : Platform) (path : Bytes) {S : Type 0} (process : Bytes → S → Result S) where
  -- `inotify_rm_watch`, with `none` for success.
  unfoldable pub remove_watch : ℤ → Option ℕ → Result (Unit {0})
  unfolding watcher_error
  remove_watch file_wd removed = if not (is_wd file_wd) then ok tt else elim removed [
    | none ↦ ok tt
    | some errno ↦
        if errno == einval
        then ok tt
        else throws (watcher_error sys (codes "inotify_rm_watch for " ++ path) errno)
  ]

  abbrev pub flush : Bytes → S → Result S
  flush line s = if length line == 0 then ok s else process line s

  -- `closeFile()`
  unfoldable pub close_file : Option ℕ → Inotify → S → Result (Inotify × S)
  unfolding remove_watch
  close_file removed w s = if not w.is_open then ok (w, s) else (do
    s' ← flush w.line s
    done ← remove_watch w.file_wd removed
    ok (
      record w {
        is_open = false;
        line = [];
        file_wd = if is_wd w.file_wd then no_wd else w.file_wd;
      },
      s',
    ))

  -- `readLines()`. With no file open, `getc` is called with a null pointer. A read error closes the
  -- file, which may itself throw.
  unfoldable pub read_lines : Option ℕ → Reading → Inotify → S → Result (Inotify × S)
  unfolding close_file watcher_error
  read_lines removed r w s = if not w.is_open then throws undefined else (do
    (line, s') ← read_chars sys path process w.line r.chars s
    elim r.failure [
      | none ↦ ok (record w { line = line }, s')
      | some errno ↦ (do
        closed ← close_file removed (record w { line = line }) s'
        throws (watcher_error sys (codes "reading " ++ path) errno))
    ])

  -- `event.wd == file_wd`: the file has changed, and may be gone.
  unfoldable pub changed : Answers → Event → Inotify × S → Result (Inotify × S)
  unfolding read_lines close_file
  changed a e (w, s) = if not (equal_ℤ e.wd w.file_wd) then ok (w, s) else (do
    (w', s') ← read_lines a.removed a.current w s
    if not (bit_and e.mask in_self == 0) then close_file a.removed w' s' else ok (w', s'))

  -- Whether the event is about the directory entry of the file.
  abbrev pub names_file : Event → Inotify → Bool
  names_file e w =
      equal_ℤ e.wd w.dir_wd
      && not (length e.name == 0)
      && equal (c_str e.name) (c_str (get_base_name path))

  -- The file has been created or replaced.
  unfoldable pub replaced : Answers → Event → Inotify × S → Result (Inotify × S)
  unfolding close_file open_file read_lines
  replaced a e (w, s) = if not (names_file e w) then ok (w, s) else (do
    (w', s') ← close_file a.removed_again w s
    w'' ← open_file sys path a.opened w'
    if w''.is_open then read_lines a.removed_again a.fresh w'' s' else ok (w'', s'))

  unfoldable pub handle : Answers → Event → Inotify × S → Result (Inotify × S)
  unfolding changed replaced
  handle a e x = changed a e x >>= replaced a e

  -- The loop over the buffer, for the events from number `i` on. An event has 16 bytes at least, so
  -- that the fuel of `work` is never used up (Inotify/Events).
  unfoldable pub work_loop : ℕ → (ℕ → Answers) → ℕ → Bytes → Inotify × S → Result (Inotify × S)
  unfolding take_event handle
  work_loop fuel answers i [] x = ok x
  work_loop zero answers i (b ∷ buffer) x = throws undefined
  work_loop (suc fuel) answers i (b ∷ buffer) x = do
    (e, rest) ← take_event sys (b ∷ buffer)
    x' ← handle (answers i) e x
    work_loop fuel answers (suc i) rest x'

  -- `work()`: `read` fills the buffer or sets `errno`; EINTR and EAGAIN are no errors.
  unfoldable pub work : (ℕ → Answers) → Option Bytes → ℕ → Inotify × S → Result (Inotify × S)
  unfolding work_loop watcher_error
  work answers (some buffer) errno x = work_loop (length buffer) answers 0 buffer x
  work answers none errno x =
      if not (errno == 4) && not (errno == 11)
      then throws (watcher_error sys (codes "read from inotify fd") errno)
      else ok x

-- The constructor: the answers of `inotify_init` and of the watch of the directory, of opening the
-- file, and of `fseek`, where `none` is success.
unfoldable pub new_inotify :
    Platform → Bytes → Option ℕ → (Bytes → ℤ) → ℕ → Opened → Option ℕ → Result Inotify
unfolding open_file watcher_error get_dir_name
new_inotify sys path init watch errno opened seek = elim init [
  | some e ↦ throws (watcher_error sys (codes "inotify_init") e)
  | none ↦
      let dir = get_dir_name path in
      if not (is_wd (watch dir))
      then throws (watcher_error sys (codes "inotify_add_watch for " ++ dir) errno)
      else (do
        w ←
            open_file sys path opened
              (record { is_open = false; line = []; file_wd = no_wd; dir_wd = watch dir })
        if w.is_open
            then elim seek [
              | some e ↦ throws (watcher_error sys (codes "seeking " ++ path) e)
              | none ↦ ok w
            ]
            else ok w)
]
