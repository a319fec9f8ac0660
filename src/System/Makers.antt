-- ===== src/System/Makers.antt =====
-- src/Watcher.cc and src/blockad.cc: what `new BlockingWatcher(path)` makes in each build, with the
-- `nonblock` that follows it in `updateWatchers`.
use blockad.Common.{ℕ, Option, Bytes, ℤ, Result, ok, ◌>>=◌}
use blockad.Platform.{Platform}
use blockad.LogFile.{OpenAnswer, new_polling}
use blockad.Inotify.{Opened, new_inotify}
use blockad.Nonblock.{Flags, nonblock}
use blockad.Loop.{Polled, Notified}

-- A `PollingWatcher` has no descriptor, so that `nonblock` is not called.
unfoldable pub make_polling :
    Platform
    → {S : Type 0} → (Bytes → S → Result S)
    → (now : ℕ) → (Bytes → OpenAnswer)
    → Bytes
    → Result Polled
unfolding new_polling
make_polling sys process now opening path = do
  state ← new_polling sys path process now (opening path)
  ok (record { path = path; state = state })

-- What the system answers to the constructor of an `InotifyWatcher` and to `nonblock`.
pub record NotifyCreation : Type 0 where
  pub ifd : ℤ
  pub init : Option ℕ
  pub watch : Bytes → ℤ
  pub errno : ℕ
  pub opening : Opened
  pub seek : Option ℕ
  pub flags : Flags
  pub set : Option ℕ

unfoldable pub make_inotify : Platform → (Bytes → NotifyCreation) → Bytes → Result Notified
unfolding new_inotify nonblock
make_inotify sys answers path =
    let a = answers path in
    new_inotify sys path a.init a.watch a.errno a.opening a.seek >>= λ state.
    nonblock sys a.flags a.set >>= λ f. ok (record { path = path; ifd = a.ifd; state = state })
