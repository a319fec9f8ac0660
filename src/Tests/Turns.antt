-- ===== src/Tests/Turns.antt =====
-- Examples about the events that the kernel reports, the turns of the inner loop of `main`, and the
-- states that `main` reaches.
use blockad.Common.{
  inr, ℕ, ◌≡◌, ◌≤◌, refl, false, List, [], ◌∷◌, ◌++◌, none, some, codes, arith, undefined, throws,
  pos, All, equal,
}
use blockad.Inotify.{
  Event, Inotify, Answers, fopen_failed, watched, handle, new_inotify, open_file, work, no_wd,
}
use blockad.Inotify.Events.{encode_all}
use blockad.Inotify.Sequence.{Delivers}
use blockad.Inotify.Delivery.{of_current, of_new, handle-Delivers}
use blockad.Inotify.Passes.{event_passes}
use blockad.Inotify.Turn.{work-hands}
use blockad.Loop.Passes.{hands}
use blockad.Inotify.Pairing.{IsPaired, Reach-IsPaired}
use blockad.Inotify.Pairing
use blockad.Inotify.Overflow.{work_overflow}
use blockad.LogFile.{Reading, opened_as, pollfd}
use blockad.LogFile.Delivery.{note}
use blockad.Loop.{
  Polled, PollAnswers, polling, TurnAnswers, selected, delta, timeout, gather, after, is_set, turn,
}
use blockad.Loop.Timeout.{clock, Lasts, delta-Lasts}
use blockad.Loop.Waiting.{around, turn-around}
use blockad.Daemon.{Update, update_watchers}
use blockad.Daemon.Ownership.{IsShared, update_watchers-IsShared}
use blockad.Daemon.Start.{Setup}
use blockad.Nonblock.{flags}
use blockad.Tests.Sample.{sample}
use blockad.Tests.Data.{loaded, creating, watcher}

abbrev closed : Inotify
closed = record { is_open = false; line = []; file_wd = no_wd; dir_wd = pos 1 }

abbrev start_of_closed : Pairing.Reach sample (codes "/log") note (closed, [])
unfolding new_inotify open_file
start_of_closed = Pairing.created {w = closed} none (λ dir. pos 1) 0 (fopen_failed 2) none [] refl

Reach-IsPaired_example : IsPaired closed
Reach-IsPaired_example = Reach-IsPaired sample (codes "/log") note start_of_closed

abbrev pub nothing : Reading
nothing = record { chars = []; failure = none }

abbrev system : ℕ → Answers
system i = record {
  current = nothing;
  removed = none;
  removed_again = none;
  opened = watched 2;
  fresh = record { chars = codes "one\ntwo"; failure = none };
}

abbrev overflow : Event
overflow = record { wd = no_wd; mask = 16384; cookie = 0; name = [] }

abbrev appearance : Event
appearance = record { wd = pos 1; mask = 256; cookie = 0; name = codes "log" ++ 0 ∷ [] }

work-hands_example :
    work sample (codes "/log") note system (some (encode_all (appearance ∷ []))) 0 (closed, [])
    ≡ hands note
        (event_passes sample (codes "/log") note system 0 (appearance ∷ []) closed).0
        (event_passes sample (codes "/log") note system 0 (appearance ∷ []) closed).1
        []
work-hands_example =
    work-hands sample (codes "/log") note system (appearance ∷ []) 0 closed []
      (λ k. record {
        current = refl;
        fresh = refl;
        removed = refl;
        removed_again = refl;
        opened = inr (2, refl);
      })
      (
        record { wd = omega arith; mask = omega arith; cookie = omega arith; name = omega arith },
        tt,
      )
      (refl, tt) refl

handle-Delivers_example :
    Delivers
      ((closed.line ++ of_current sample (codes "/log") (system 0) appearance closed)
        ++ of_new sample (codes "/log") (system 0) appearance closed)
      (pos 1)
      []
      (handle sample (codes "/log") note (system 0) appearance (closed, []))
handle-Delivers_example =
    handle-Delivers sample (codes "/log") (system 0) appearance closed []
      (record {
        current = refl;
        fresh = refl;
        removed = refl;
        removed_again = refl;
        opened = inr (2, refl);
      })
      refl refl tt

work_overflow_example :
    work sample
      (codes "/log")
      note
      system
      (some (encode_all (overflow ∷ appearance ∷ [])))
      0
      (closed, [])
    ≡ throws undefined
work_overflow_example =
    work_overflow sample (codes "/log") note (closed, []) system overflow (appearance ∷ []) 0
      start_of_closed refl refl
      (
        record { wd = omega arith; mask = omega arith; cookie = omega arith; name = omega arith },
        (
          record { wd = omega arith; mask = omega arith; cookie = omega arith; name = omega arith },
          tt,
        ),
      )

delta-Lasts_example : Lasts 750000 (delta 101 (clock 100 250000))
delta-Lasts_example = delta-Lasts 101 100 250000 (omega arith)

abbrev pub idle : Polled
idle = record { path = codes "/log"; state = record { open_as = none; line = []; next = 101 } }

abbrev later : Polled
later = record { path = codes "/more"; state = record { open_as = none; line = []; next = 102 } }

abbrev turn_answers : TurnAnswers PollAnswers
turn_answers = record {
  unblocking = none;
  before = clock 100 250000;
  selecting = λ nfds fds t. selected [];
  blocking = none;
  now = clock 101 5;
  works = λ i. record {
    now = 101;
    stat = none;
    more = nothing;
    opening = opened_as (record { dev = 1; ino = 7 }) nothing;
  };
}

turn-around_example :
    (pre : List Polled) × (v : Polled) × (post : List Polled) × (later ∷ idle ∷ []
      ≡ pre ++ v ∷ post)
    × All (λ x. v.state.next ≤ x.state.next) (later ∷ idle ∷ [])
    × (turn sample (polling sample note) (pos 3) turn_answers (later ∷ idle ∷ []) []
        ≡ after
            (is_set (pos 3) [])
            (around (polling sample note) [] turn_answers.now turn_answers.works pre v post []))
unfolding gather pollfd timeout delta
turn-around_example =
    turn-around sample note turn_answers (pos 3) later (idle ∷ []) [] [] 100 250000 101 5 refl refl
      refl refl (omega arith) (omega arith) (omega arith) refl (omega arith)

abbrev updated : Update
updated = record { old_watchers = none ∷ []; new_watchers = some watcher ∷ []; created = 1 }

update_watchers-IsShared_example : IsShared (some watcher ∷ []) 1 1 updated
unfolding update_watchers equal
update_watchers-IsShared_example =
    update_watchers-IsShared creating (some loaded) loaded (some watcher ∷ []) 1 {u = updated} refl

abbrev pub setup : Setup
setup = record {
  daemonized = none;
  pid_written = none;
  piped = none;
  read_flags = flags 0;
  read_set = none;
  write_flags = flags 1;
  write_set = none;
  masked = none;
  installed = none;
}
