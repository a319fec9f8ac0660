-- ===== src/Loop/Notifies.antt =====
-- What an `InotifyWatcher` (src/InotifyWatcher.cc) leaves true when it works, if `processLine`
-- does.
use blockad.Common.{
  ℕ, zero, suc, not, [], ◌∷◌, ◌++◌, Option, none, some, Bytes, codes, length, ◌==◌, equal_ℤ,
  bit_and, Result, ok, throws, ◌>>=◌, Holds, Holds-bind, Holds-any, Holds-ok, Holds-throws,
  Holds-if, Holds-guard, undefined,
}
use blockad.Platform.{Platform}
use blockad.LogFile.{Reading, read_chars, watcher_error}
use blockad.Inotify.{
  Event, Inotify, Answers, in_self, names_file, flush, remove_watch, close_file, read_lines,
  changed, open_file, replaced, handle, take_event, work_loop, work,
}
use blockad.Loop.{Notified, inotify}
use blockad.Loop.Safety.{IsSafe}
use blockad.Loop.Polls.{read_chars-Safe, flush-Safe}

module _ (sys : Platform) (path : Bytes) {S : Type 0} (process : Bytes → S → Result S)
    (P : S → Type 0) (keep : (line : Bytes) (s : S) → P s → Holds P (process line s)) where
  abbrev Safe : Inotify × S → Type 0
  Safe x = P x.1

  close_file-Safe :
      (removed : Option ℕ) (w : Inotify) (s : S)
      → P s
      → Holds Safe (close_file sys path process removed w s)
  unfolding close_file
  close_file-Safe removed w s h =
      Holds-if Safe (not w.is_open) (ok (w, s)) _ (Holds-ok Safe (w, s) h) (
        Holds-bind P Safe (flush sys path process w.line s) _
          (flush-Safe sys path process P keep (length w.line == 0) w.line s h)
          (λ t k.
            Holds-bind (λ _. Unit {0}) Safe (remove_watch sys path process w.file_wd removed) _
              (Holds-any _) (λ _ _. Holds-ok Safe _ k)))

  read_lines-Safe :
      (removed : Option ℕ) (r : Reading) (w : Inotify) (s : S)
      → P s
      → Holds Safe (read_lines sys path process removed r w s)
  unfolding read_lines
  read_lines-Safe removed r w s h = Holds-guard Safe (not w.is_open) undefined _ (
      Holds-bind (λ (x : Bytes × S). P x.1) Safe (read_chars sys path process w.line r.chars s) _
        (read_chars-Safe sys path process P keep w.line r.chars s h)
        (λ x k. by_failure x.0 x.1 r.failure k))
    where
      by_failure :
          (line : Bytes) (s' : S) (f : Option ℕ)
          → P s'
          → Holds Safe (elim f [
            | none ↦ ok (record w { line = line }, s')
            | some errno ↦
                close_file sys path process removed (record w { line = line }) s' >>= λ closed.
                throws (watcher_error sys (codes "reading " ++ path) errno)
          ])
      by_failure line s' none k = Holds-ok Safe _ k
      by_failure line s' (some errno) k =
          Holds-bind (λ _. Unit {0}) Safe
            (close_file sys path process removed (record w { line = line }) s') _ (Holds-any _)
            (λ _ _. Holds-throws Safe _)

  changed-Safe :
      (a : Answers) (e : Event) (x : Inotify × S)
      → Safe x
      → Holds Safe (changed sys path process a e x)
  unfolding changed
  changed-Safe a e (w, s) h =
      Holds-if Safe (not (equal_ℤ e.wd w.file_wd)) (ok (w, s)) _ (Holds-ok Safe (w, s) h) (
        Holds-bind Safe Safe (read_lines sys path process a.removed a.current w s) _
          (read_lines-Safe a.removed a.current w s h)
          (λ y k.
            Holds-if Safe (not (bit_and e.mask in_self == 0)) _ _
              (close_file-Safe a.removed y.0 y.1 k) (Holds-ok Safe y k)))

  replaced-Safe :
      (a : Answers) (e : Event) (x : Inotify × S)
      → Safe x
      → Holds Safe (replaced sys path process a e x)
  unfolding replaced
  replaced-Safe a e (w, s) h =
      Holds-if Safe (not (names_file sys path process e w)) (ok (w, s)) _ (Holds-ok Safe (w, s) h) (
        Holds-bind Safe Safe (close_file sys path process a.removed_again w s) _
          (close_file-Safe a.removed_again w s h)
          (λ y k.
            Holds-bind (λ _. Unit {0}) Safe (open_file sys path a.opened y.0) _ (Holds-any _)
              (λ w' _.
                Holds-if Safe w'.is_open _ _ (read_lines-Safe a.removed_again a.fresh w' y.1 k)
                  (Holds-ok Safe (w', y.1) k))))

  work_loop-Safe :
      (fuel : ℕ) (answers : ℕ → Answers) (i : ℕ) (buffer : Bytes) (x : Inotify × S)
      → Safe x
      → Holds Safe (work_loop sys path process fuel answers i buffer x)
  unfolding work_loop handle
  work_loop-Safe fuel answers i [] x h = Holds-ok Safe x h
  work_loop-Safe zero answers i (b ∷ buffer) x h = Holds-throws Safe undefined
  work_loop-Safe (suc fuel) answers i (b ∷ buffer) x h =
      Holds-bind (λ _. Unit {0}) Safe (take_event sys (b ∷ buffer)) _ (Holds-any _)
        (λ e _.
          Holds-bind Safe Safe (handle sys path process (answers i) e.0 x) _
            (Holds-bind Safe Safe (changed sys path process (answers i) e.0 x) _
              (changed-Safe (answers i) e.0 x h) (replaced-Safe (answers i) e.0))
            (λ y k. work_loop-Safe fuel answers (suc i) e.1 y k))

  work-Safe :
      (answers : ℕ → Answers) (got : Option Bytes) (errno : ℕ) (x : Inotify × S)
      → Safe x
      → Holds Safe (work sys path process answers got errno x)
  unfolding work
  work-Safe answers (some buffer) errno x h = work_loop-Safe (length buffer) answers 0 buffer x h
  work-Safe answers none errno x h = Holds-guard Safe _ _ _ (Holds-ok Safe x h)

pub inotify-IsSafe :
    (sys : Platform) {S : Type 0} (process : Bytes → S → Result S) (P : S → Type 0)
    → ((line : Bytes) (s : S) → P s → Holds P (process line s))
    → IsSafe P (inotify sys process)
inotify-IsSafe sys {S} process P keep = record {
  work = λ a w s h.
      Holds-bind (λ (x : Inotify × S). P x.1) (λ (x : Notified × S). P x.1)
        (work sys w.path process a.events a.got a.errno (w.state, s)) _
        (work-Safe sys w.path process P keep a.events a.got a.errno (w.state, s) h)
        (λ x k. Holds-ok (λ (x : Notified × S). P x.1) _ k);
}
