-- ===== src/Loop.antt =====
-- src/blockad.cc: the inner loop of `main`, which waits for its watchers and lets them work. Where
-- a watcher looks is its own affair: `main` sees it through an interface.
pub mod Timeout
pub mod Waiting
pub mod Safety
pub mod Polls
pub mod Notifies
pub mod Processing
pub mod Passes
pub mod Signals
use blockad.Common.{
  ℕ, zero, suc, ◌+◌, Bool, true, false, not, ◌&&◌, ◌||◌, List, [], ◌∷◌, ◌++◌, Option, none, some,
  Bytes, codes, ltb, ◌==◌, if◌then◌else◌, ℤ, pos, negsuc, equal_ℤ, ltb_ℤ, add_ℤ, long_max,
  Exception, Result, ok, throws, ◌>>=◌,
}
use blockad.Platform.{Platform}
use blockad.LogFile.{Identity, Reading, OpenAnswer, Polling}
use blockad.Inotify.{Inotify, is_wd, no_wd}
use blockad.Timeval.{Timeval, time_sub, timeval_lt_time, timeval_ge_time}

-- What `main` asks of a watcher: `pollfd(limit)`, with what it leaves in `limit`, and `work()`, by
-- what the system answers in it. `W` is the state of a watcher and `S` what the watchers share.
pub record Implementation (A W S : Type 0) : Type 0 where
  pub pollfd : W → ℕ → ℤ × ℕ
  pub work : A → W → S → Result (W × S)

-- A watcher with the path of its file.
pub record Polled : Type 0 where
  pub path : Bytes
  pub state : Polling

-- What a `PollingWatcher` asks the system when it works.
pub record PollAnswers : Type 0 where
  pub now : ℕ
  pub stat : Option Identity
  pub more : Reading
  pub opening : OpenAnswer

abbrev pub polling :
    Platform → {S : Type 0} → (Bytes → S → Result S) → Implementation PollAnswers Polled S
polling sys process = record {
  pollfd = λ w limit. (negsuc 0, blockad.LogFile.pollfd w.state limit);
  work = λ a w s. do
    (state, s') ← blockad.LogFile.work sys w.path process a.now a.stat a.more a.opening w.state s
    ok (record w { state = state }, s');
}

-- A watcher with the path of its file and its descriptor.
pub record Notified : Type 0 where
  pub path : Bytes
  pub ifd : ℤ
  pub state : Inotify

-- What an `InotifyWatcher` asks the system when it works.
pub record NotifyAnswers : Type 0 where
  pub events : ℕ → blockad.Inotify.Answers
  pub got : Option Bytes
  pub errno : ℕ

abbrev pub inotify :
    Platform → {S : Type 0} → (Bytes → S → Result S) → Implementation NotifyAnswers Notified S
inotify sys process = record {
  pollfd = λ w limit. (w.ifd, limit);
  work = λ a w s. do
    (state, s') ← blockad.Inotify.work sys w.path process a.events a.got a.errno (w.state, s)
    ok (record w { state = state }, s');
}

-- `fds`, `maxfd` and `limit`.
pub record Waits : Type 0 where
  pub fds : List ℤ
  pub maxfd : ℤ
  pub limit : ℕ

abbrev pub time_max : ℕ
time_max = long_max

abbrev pub note_fd : ℤ × ℕ → Waits → Waits
note_fd (fd, limit) g =
    if is_wd fd
    then record {
      fds = g.fds ++ fd ∷ [];
      maxfd = if ltb_ℤ g.maxfd fd then fd else g.maxfd;
      limit = limit;
    }
    else record g { limit = limit }

-- `delta`, the time from `now` until `limit`.
unfoldable pub delta : ℕ → Timeval → Timeval
unfolding time_sub
delta limit now =
    let d = time_sub (pos limit) now in
    if timeval_lt_time d (pos 0) then record { tv_sec = pos 0; tv_usec = pos 0 } else d

-- The last argument of `select`.
unfoldable pub timeout : ℕ → Timeval → Option Timeval
unfolding delta
timeout limit now = if not (limit == time_max) then some (delta limit now) else none

-- `FD_ISSET`
abbrev pub is_set : ℤ → List ℤ → Bool
is_set fd [] = false
is_set fd (f ∷ fds) = equal_ℤ fd f || is_set fd fds

module _ {A W S : Type 0} (impl : Implementation A W S) where
  -- The loop that asks the watchers for their descriptors and times.
  unfoldable pub gather : List W → Waits → Waits
  gather [] g = g
  gather (w ∷ ws) g = gather ws (note_fd (impl.pollfd w g.limit) g)

  -- What there is to wait for, with the descriptor of the pipe of signals.
  abbrev pub waits : ℤ → List W → Waits
  waits signal_fd ws =
      gather ws (record { fds = signal_fd ∷ []; maxfd = signal_fd; limit = time_max })

  -- Whether a watcher is to work; `fds` is what `select` has left.
  unfoldable pub is_due : List ℤ → Timeval → W → Bool
  is_due fds now w =
      let (fd, limit) = impl.pollfd w time_max in
      if is_wd fd then is_set fd fds else timeval_ge_time now (pos limit)

  -- One turn of the loop over the watchers.
  unfoldable pub check_one : List ℤ → Timeval → A → W → S → Result (W × S)
  unfolding is_due
  check_one fds now a w s = if is_due fds now w then impl.work a w s else ok (w, s)

  -- The loop that lets the watchers work, from number `i` on.
  unfoldable pub check : List ℤ → Timeval → (ℕ → A) → ℕ → List W → S → Result (List W × S)
  unfolding check_one
  check fds now answers i [] s = ok ([], s)
  check fds now answers i (w ∷ ws) s = do
    (w', s') ← check_one fds now (answers i) w s
    (ws', s'') ← check fds now answers (suc i) ws s'
    ok (w' ∷ ws', s'')

-- What `select` answers: its error, or the descriptors that are ready.
pub data Selected : Type 0 where
  select_failed : ℕ → Selected
  selected : List ℤ → Selected

-- What the system answers, to `select` by its arguments, in a turn of the inner loop; `none` is a
-- success of `sigprocmask`.
pub record TurnAnswers (A : Type 0) : Type 0 where
  pub unblocking : Option ℕ
  pub before : Timeval
  pub selecting : ℤ → List ℤ → Option Timeval → Selected
  pub blocking : Option ℕ
  pub now : Timeval
  pub works : ℕ → A

-- The call of `select`, for the descriptors below `maxfd + 1`.
abbrev pub wait_for : {A : Type 0} → TurnAnswers A → Waits → Selected
wait_for a g = a.selecting (add_ℤ g.maxfd (pos 1)) g.fds (timeout g.limit a.before)

-- How a turn ends: the loop goes on, a signal ends it, `exit(-1)` after a message, or an exception.
pub data Turn (W S : Type 0) : Type 0 where
  again : List W → S → Turn W S
  signalled : List W → S → Turn W S
  exits : Bytes → Turn W S
  threw : Exception → Turn W S

abbrev pub eintr : ℕ
eintr = 4

-- `if(FD_ISSET(signal_pipe[0], &fds))`
abbrev pub after : {W S : Type 0} → Bool → Result (List W × S) → Turn W S
after signal (throws e) = threw e
after true (ok (ws, s)) = signalled ws s
after false (ok (ws, s)) = again ws s

-- One turn of the inner loop.
unfoldable pub turn :
    Platform → {A W S : Type 0} → Implementation A W S → ℤ → TurnAnswers A → List W → S → Turn W S
unfolding gather timeout check
turn sys impl signal_fd a ws s = elim a.unblocking [
  | some errno ↦ exits (codes "sigprocmask: " ++ sys.strerror errno)
  | none ↦ elim a.blocking [
    | some errno ↦ exits (codes "sigprocmask: " ++ sys.strerror errno)
    | none ↦ elim (wait_for a (waits impl signal_fd ws)) [
      | select_failed errno ↦
          if errno == eintr then again ws s else exits (codes "select: " ++ sys.strerror errno)
      | selected fds ↦ after (is_set signal_fd fds) (check impl fds a.now a.works 0 ws s)
    ]
  ]
]
