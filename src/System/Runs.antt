-- ===== src/System/Runs.antt =====
-- src/blockad.cc: a run of `main` over all its turns goes through the states of Daemon/Reach only.
use blockad.Common.{
  ℕ, suc, ◌≡◌, refl, ap, subst, ◌∙◌, List, [], ◌∷◌, Bytes, length, ℤ, Result, ok, throws, ◌>>=◌,
  Holds, Holds-bind, Holds-ok, Holds_by_eq,
}
use blockad.Platform.{Platform, InetLaws}
use blockad.BlockMethod.{Registry}
use blockad.StdioFile.{Opening}
use blockad.Detector.{Blocker, process_line}
use blockad.Daemon.{
  Watcher, Watchers, Daemon, Outcome, running, exited, terminated, misbehaved, reload,
}
use blockad.Daemon.Watchers.{present}
use blockad.Daemon.Start.{Setup, Options, start}
use blockad.Daemon.Reach.{Reach, started, detected, reloaded, IsWellFormed, Reach-IsWellFormed}
use blockad.Loop.{
  Implementation, Polled, PollAnswers, polling, Notified, NotifyAnswers, inotify, Turn, again,
  signalled, exits, threw, turn,
}
use blockad.Loop.Processing.{Progress, processing}
use blockad.Loop.Safety.{IsSafe, Leaves, turn-Leaves}
use blockad.Loop.Polls.{polling-IsSafe}
use blockad.Loop.Notifies.{inotify-IsSafe}
use blockad.System.{
  System, Moment, Iterated, goes_on, ended, creation, objects_of, advance, behind_turn, iterate,
  iterate_all, boot,
}
use blockad.System

-- The watchers of a build touch what they share by `processLine` only.
pub record Watches {A W : Type 0}
    (watching : (Bytes → Progress → Result Progress) → Implementation A W Progress) : Type 1 where
  pub safe :
      (process : Bytes → Progress → Result Progress) (P : Progress → Type 0)
      → ((line : Bytes) (s : Progress) → P s → Holds P (process line s))
      → IsSafe P (watching process)

pub polling-Watches :
    (sys : Platform) → Watches {A = PollAnswers} {W = Polled} (λ process. polling sys process)
polling-Watches sys = record { safe = λ process P keep. polling-IsSafe sys process P keep }

pub inotify-Watches :
    (sys : Platform) → Watches {A = NotifyAnswers} {W = Notified} (λ process. inotify sys process)
inotify-Watches sys = record { safe = λ process P keep. inotify-IsSafe sys process P keep }

-- Where `main` goes on, it is in a state with `P`.
abbrev pub Arrives : {W : Type 0} → (System W → Type 0) → Iterated W → Type 0
Arrives P (goes_on s) = P s
Arrives P (ended o) = Unit

pub Arrives-then :
    {W : Type 0} (P Q : System W → Type 0) (i : Iterated W) (next : System W → Iterated W)
    → Arrives P i
    → ((s : System W) → i ≡ goes_on s → P s → Arrives Q (next s))
    → Arrives Q (elim i [ ended o ↦ ended o | goes_on s ↦ next s ])
Arrives-then P Q (ended o) next h k = tt
Arrives-then P Q (goes_on s) next h k = k s refl h

pub Arrives-map :
    {W : Type 0} (P Q : System W → Type 0) (i : Iterated W)
    → Arrives P i
    → ((s : System W) → P s → Q s)
    → Arrives Q i
Arrives-map P Q (ended o) h k = tt
Arrives-map P Q (goes_on s) h k = k s h

-- No pointer is null.
objects_of-present :
    {W : Type 0} (objects : ℕ → W) (ws : List Watcher)
    → (os : List W) × (objects_of objects (present ws) ≡ ok os) × (length os ≡ length ws)
unfolding objects_of
objects_of-present objects [] = ([], refl, refl)
objects_of-present objects (w ∷ ws) =
    let (os, e, l) = objects_of-present objects ws in
    (objects w.serial ∷ os, ap (λ r. r >>= λ os. ok (objects w.serial ∷ os)) e, ap suc l)

module _ (sys : Platform) (laws : InetLaws sys) (registry : Registry) (blocker : Blocker)
    {A W : Type 0} (watching : (Bytes → Progress → Result Progress) → Implementation A W Progress)
    (watches : Watches watching) (signal_fd : ℤ) (conffile : Bytes) where
  abbrev pub Reached : System W → Type 0
  Reached s = Reach sys laws registry blocker s.daemon

  -- The daemon with another record of detections.
  abbrev pub Seen : Daemon → Progress → Type 0
  Seen d (detector, n) = Reach sys laws registry blocker (record d { detector = detector })

  pub processing-Seen :
      (d : Daemon) (clocks : ℕ → ℕ → ℕ) (line : Bytes) (s : Progress)
      → Seen d s
      → Holds (Seen d) (processing sys blocker d.config clocks line s)
  processing-Seen d clocks line (detector, n) h =
      Holds-bind (λ detector'. Seen d (detector', n)) (Seen d)
        (process_line sys blocker d.config (clocks n) line detector) _
        (Holds_by_eq (λ detector'. Seen d (detector', n)) _
          (λ detector' e. detected (clocks n) line detector' h e))
        (λ detector' k. Holds-ok (Seen d) (detector', suc n) k)

  reloaded-Reached :
      (make : Bytes → Result W) (s : System W) (o : Outcome)
      → ((d : Daemon) → o ≡ running d → Reach sys laws registry blocker d)
      → Arrives Reached (System.reloaded make s o)
  unfolding System.reloaded
  reloaded-Reached make s (running d) h = h d refl
  reloaded-Reached make s (exited message) h = tt
  reloaded-Reached make s terminated h = tt
  reloaded-Reached make s misbehaved h = tt

  behind_turn-Reached :
      (m : Moment A W) (s : System W) (t : Turn W Progress)
      → Leaves (Seen s.daemon) t
      → Arrives Reached (behind_turn sys registry blocker watching signal_fd conffile m s t)
  unfolding behind_turn
  behind_turn-Reached m s (again ws p) h = h
  behind_turn-Reached m s (signalled ws p) h =
      reloaded-Reached m.make (advance s ws p) _
        (λ d e. reloaded m.fopen (creation m.make) conffile h e)
  behind_turn-Reached m s (exits message) h = tt
  behind_turn-Reached m s (threw e) h = tt

  pub iterate-Reached :
      (m : Moment A W) (s : System W)
      → Reached s
      → Arrives Reached (iterate sys registry blocker watching signal_fd conffile m s)
  unfolding iterate
  iterate-Reached m s h = listed (objects_of s.objects s.daemon.watchers)
    where
      listed :
          (r : Result (List W))
          → Arrives Reached (elim r [
            | throws e ↦ ended (blockad.Daemon.uncaught e)
            | ok ws ↦ behind_turn sys registry blocker watching signal_fd conffile m s (
                turn sys
                  (watching (processing sys blocker s.daemon.config m.clocks))
                  signal_fd
                  m.waiting
                  ws
                  (s.daemon.detector, s.lines))
          ])
      listed (throws e) = tt
      listed (ok ws) =
          let process = processing sys blocker s.daemon.config m.clocks in
          behind_turn-Reached m s _ (
            turn-Leaves (Seen s.daemon) (watching process)
              (watches.safe process (Seen s.daemon) (processing-Seen s.daemon m.clocks)) sys
              signal_fd m.waiting ws (s.daemon.detector, s.lines) h)

  iterate_all-Reached :
      (moments : List (Moment A W)) (s : System W)
      → Reached s
      → Arrives Reached (iterate_all sys registry blocker watching signal_fd conffile moments s)
  unfolding iterate_all
  iterate_all-Reached [] s h = h
  iterate_all-Reached (m ∷ moments) s h =
      Arrives-then Reached Reached (iterate sys registry blocker watching signal_fd conffile m s) _
        (iterate-Reached m s h) (λ s' e k. iterate_all-Reached moments s' k)

  pub boot-Reached :
      (fopen : Bytes → Opening) (make : Bytes → Result W) (spare : W) (setup : Setup) (o : Options)
      → Arrives Reached
          (boot sys registry blocker watching signal_fd conffile fopen make spare setup o)
  unfolding boot
  boot-Reached fopen make spare setup o =
      begun (start sys registry fopen (creation make) setup o)
        (λ d e. started fopen (creation make) setup o e)
    where
      begun :
          (r : Outcome)
          → ((d : Daemon) → r ≡ running d → Reach sys laws registry blocker d)
          → Arrives Reached (elim r [
            | running d ↦ goes_on (record {
              daemon = d;
              objects = System.put_new make 0 d.watchers (λ n. spare);
              lines = 0;
            })
            | exited message ↦ ended (exited message)
            | terminated ↦ ended terminated
            | misbehaved ↦ ended misbehaved
          ])
      begun (running d) h = h d refl
      begun (exited message) h = tt
      begun terminated h = tt
      begun misbehaved h = tt

  -- Whatever the watchers are and the system answers, where inet_pton and inet_ntop keep their
  -- promises and the watchers touch what they share by `processLine` only: a run of `main`, from
  -- its start over any turns of its loops, goes through states that detections and reloads lead to
  -- only, and so waits in well-formed ones: the configuration is valid; there are as many watchers
  -- as it has files, each with its object, and no null pointer; each watcher that has been created
  -- is in use or has been deleted, and that once; and the keys of the map are addresses.
  pub iterate_all-Reach :
      (fopen : Bytes → Opening) (make : Bytes → Result W) (spare : W) (setup : Setup) (o : Options)
      (moments : List (Moment A W)) (s s' : System W)
      → boot sys registry blocker watching signal_fd conffile fopen make spare setup o ≡ goes_on s
      → iterate_all sys registry blocker watching signal_fd conffile moments s ≡ goes_on s'
      → Reach sys laws registry blocker s'.daemon
        × IsWellFormed sys s'.daemon
        × (os : List W) × (objects_of s'.objects s'.daemon.watchers ≡ ok os)
        × (length os ≡ length s'.daemon.config.files)
  iterate_all-Reach fopen make spare setup o moments s s' begun run =
      let first : Reached s =
        subst (Arrives Reached) begun (boot-Reached fopen make spare setup o) in
      let there : Reached s' = subst (Arrives Reached) run (iterate_all-Reached moments s first) in
      let good = Reach-IsWellFormed sys laws registry blocker there in
      let (ws, same, each) = good.watching in
      let (os, listed, one) = objects_of-present s'.objects ws in
      (there, good, os, ap (objects_of s'.objects) same ∙ listed, one ∙ each)

pub Arrives-both :
    {W : Type 0} (P Q : System W → Type 0) (i : Iterated W)
    → Arrives P i
    → Arrives Q i
    → Arrives (λ s. P s × Q s) i
Arrives-both P Q (ended o) h k = tt
Arrives-both P Q (goes_on s) h k = (h, k)
