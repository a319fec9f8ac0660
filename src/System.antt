-- ===== src/System.antt =====
-- src/blockad.cc: `main` as a whole, whose inner loop runs over the watchers until a signal makes
-- it read the configuration anew. The watchers are objects, found by the order of their creation.
pub mod Attack
pub mod Runs
pub mod History
pub mod Fatal
pub mod Makers
use blockad.Common.{
  ℕ, zero, suc, ◌+◌, Bool, true, false, List, [], ◌∷◌, ◌++◌, Option, none, some, Bytes, ◌==◌, ltb,
  if◌then◌else◌, ℤ, undefined, Result, ok, throws, ◌>>=◌,
}
use blockad.Platform.{Platform}
use blockad.BlockMethod.{Registry}
use blockad.StdioFile.{Opening}
use blockad.ConfFile.{ConfFile}
use blockad.Detector.{Detector, Blocker}
use blockad.Daemon.{
  Watcher, Watchers, Daemon, Creation, Outcome, running, exited, terminated, misbehaved, uncaught,
  reload,
}
use blockad.Daemon.Start.{Setup, Options, start}
use blockad.Loop.{Implementation, TurnAnswers, Turn, again, signalled, exits, threw, turn}
use blockad.Loop.Processing.{Progress, processing}

-- The state of `main` between two turns of its inner loop, with the watchers by their serial
-- numbers, and the number of lines that have been processed.
pub record System (W : Type 0) : Type 0 where
  pub daemon : Daemon
  pub objects : ℕ → W
  pub lines : ℕ

-- What the system answers in one turn: in the inner loop, to `time` by the line and the pattern,
-- and, when the configuration is read anew, to `fopen` and to the constructors of watchers.
pub record Moment (A W : Type 0) : Type 0 where
  pub waiting : TurnAnswers A
  pub clocks : ℕ → ℕ → ℕ
  pub fopen : Bytes → Opening
  pub make : Bytes → Result W

-- How a turn ends: `main` goes on, or it has ended.
pub data Iterated (W : Type 0) : Type 0 where
  goes_on : System W → Iterated W
  ended : Outcome → Iterated W

abbrev pub creation : {W : Type 0} → (Bytes → Result W) → Creation
creation make path = make path >>= λ object. ok tt

-- `watchers[i]` for each `i`; no null pointer is to be followed.
unfoldable pub objects_of : {W : Type 0} → (ℕ → W) → Watchers → Result (List W)
objects_of objects [] = ok []
objects_of objects (none ∷ watchers) = throws undefined
objects_of objects (some w ∷ watchers) =
    objects_of objects watchers >>= λ ws. ok (objects w.serial ∷ ws)

abbrev pub put : {W : Type 0} → ℕ → W → (ℕ → W) → ℕ → W
put n object objects k = if k == n then object else objects k

-- The objects behind a turn.
unfoldable pub put_back : {W : Type 0} → Watchers → List W → (ℕ → W) → ℕ → W
put_back [] ws objects = objects
put_back (none ∷ watchers) ws objects = put_back watchers ws objects
put_back (some w ∷ watchers) [] objects = objects
put_back (some w ∷ watchers) (object ∷ ws) objects =
    put_back watchers ws (put w.serial object objects)

-- The objects behind `updateWatchers`, which has created those from number `first` on.
unfoldable pub put_new : {W : Type 0} → (Bytes → Result W) → ℕ → Watchers → (ℕ → W) → ℕ → W
put_new make first [] objects = objects
put_new make first (none ∷ watchers) objects = put_new make first watchers objects
put_new make first (some w ∷ watchers) objects = put_new make first watchers (
    if ltb w.serial first
    then objects
    else elim (make w.path) [ throws e ↦ objects | ok object ↦ put w.serial object objects ])

-- The state behind a reload.
unfoldable pub reloaded : {W : Type 0} → (Bytes → Result W) → System W → Outcome → Iterated W
unfolding put_new
reloaded make s (running d) =
    goes_on (record s { daemon = d; objects = put_new make s.daemon.created d.watchers s.objects })
reloaded make s (exited message) = ended (exited message)
reloaded make s terminated = ended terminated
reloaded make s misbehaved = ended misbehaved

abbrev pub advance : {W : Type 0} → System W → List W → Progress → System W
advance s ws (detector, lines) = record s {
  daemon = record s.daemon { detector = detector };
  objects = put_back s.daemon.watchers ws s.objects;
  lines = lines;
}

module _ (sys : Platform) (registry : Registry) (blocker : Blocker) {A W : Type 0}
    (watching : (Bytes → Progress → Result Progress) → Implementation A W Progress) (signal_fd : ℤ)
    (conffile : Bytes) where
  -- Behind the turn of the inner loop.
  unfoldable pub behind_turn : Moment A W → System W → Turn W Progress → Iterated W
  unfolding reloaded put_back uncaught reload
  behind_turn m s (again ws p) = goes_on (advance s ws p)
  behind_turn m s (signalled ws p) =
      reloaded m.make (advance s ws p)
        (reload sys registry m.fopen (creation m.make) conffile (advance s ws p).daemon)
  behind_turn m s (exits message) = ended (exited message)
  behind_turn m s (threw e) = ended (uncaught e)

  -- One turn of the inner loop, and what the outer loop does if it is the last.
  unfoldable pub iterate : Moment A W → System W → Iterated W
  unfolding behind_turn objects_of turn uncaught
  iterate m s = elim (objects_of s.objects s.daemon.watchers) [
    | throws e ↦ ended (uncaught e)
    | ok ws ↦ behind_turn m s (
        turn sys (watching (processing sys blocker s.daemon.config m.clocks)) signal_fd m.waiting ws
          (s.daemon.detector, s.lines))
  ]

  -- The turns in a row, until `main` ends.
  unfoldable pub iterate_all : List (Moment A W) → System W → Iterated W
  unfolding iterate
  iterate_all [] s = goes_on s
  iterate_all (m ∷ moments) s = elim (iterate m s) [
    | ended o ↦ ended o
    | goes_on s' ↦ iterate_all moments s'
  ]

  -- `main` behind its options, until its first wait. `spare` stands for objects that do not exist.
  unfoldable pub boot :
      (Bytes → Opening) → (Bytes → Result W) → (spare : W) → Setup → Options → Iterated W
  unfolding start put_new
  boot fopen make spare setup o = elim (start sys registry fopen (creation make) setup o) [
    | running d ↦
        goes_on (record { daemon = d; objects = put_new make 0 d.watchers (λ n. spare); lines = 0 })
    | exited message ↦ ended (exited message)
    | terminated ↦ ended terminated
    | misbehaved ↦ ended misbehaved
  ]
