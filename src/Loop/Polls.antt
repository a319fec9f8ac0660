-- ===== src/Loop/Polls.antt =====
-- What a `PollingWatcher` (src/PollingWatcher.cc) leaves true when it works, if `processLine` does.
use blockad.Common.{
  ℕ, ◌+◌, Bool, [], ◌∷◌, ◌++◌, Option, none, some, Bytes, codes, length, ◌==◌, if◌then◌else◌,
  Result, ok, throws, ◌>>=◌, Holds, Holds-bind, Holds-any, Holds-ok, Holds-throws, Holds-if,
}
use blockad.Platform.{Platform}
use blockad.LogFile.{
  Identity, Reading, OpenAnswer, Polling, is_current, read_chars, close_file, read_lines, open_file,
  reopen, work, watcher_error,
}
use blockad.Loop.{Polled, polling}
use blockad.Loop.Safety.{IsSafe}

module _ (sys : Platform) (path : Bytes) {S : Type 0} (process : Bytes → S → Result S)
    (P : S → Type 0) (keep : (line : Bytes) (s : S) → P s → Holds P (process line s)) where
  pub flush-Safe :
      (b : Bool) (line : Bytes) (s : S) → P s → Holds P (if b then ok s else process line s)
  flush-Safe b line s h = Holds-if P b (ok s) (process line s) (Holds-ok P s h) (keep line s h)

  pub read_chars-Safe :
      (line chars : Bytes) (s : S)
      → P s
      → Holds (λ (x : Bytes × S). P x.1) (read_chars sys path process line chars s)
  unfolding read_chars
  read_chars-Safe line [] s h = Holds-ok (λ (x : Bytes × S). P x.1) (line, s) h
  read_chars-Safe line (c ∷ rest) s h =
      Holds-if (λ (x : Bytes × S). P x.1) (c == b'\n') _ _
        (Holds-bind P (λ (x : Bytes × S). P x.1) (process (line ++ c ∷ []) s) _
          (keep (line ++ c ∷ []) s h) (λ t k. read_chars-Safe [] rest t k))
        (read_chars-Safe (line ++ c ∷ []) rest s h)

  close_file-Safe :
      (w : Polling) (s : S)
      → P s
      → Holds (λ (x : Polling × S). P x.1) (close_file sys path process w s)
  unfolding close_file
  close_file-Safe w s h = by_open w.open_as
    where
      by_open :
          (o : Option Identity)
          → Holds
              (λ (x : Polling × S). P x.1)
              (elim o [
                | none ↦ ok (w, s)
                | some id ↦ (if length w.line == 0 then ok s else process w.line s) >>= λ s'.
                    ok (record w { open_as = none; line = [] }, s')
              ])
      by_open none = Holds-ok (λ (x : Polling × S). P x.1) (w, s) h
      by_open (some id) =
          Holds-bind P (λ (x : Polling × S). P x.1)
            (if length w.line == 0 then ok s else process w.line s) _
            (flush-Safe (length w.line == 0) w.line s h)
            (λ t k. Holds-ok (λ (x : Polling × S). P x.1) _ k)

  read_lines-Safe :
      (w : Polling) (r : Reading) (s : S)
      → P s
      → Holds (λ (x : Polling × S). P x.1) (read_lines sys path process w r s)
  unfolding read_lines
  read_lines-Safe w r s h =
      Holds-bind (λ (x : Bytes × S). P x.1) (λ (x : Polling × S). P x.1)
        (read_chars sys path process w.line r.chars s) _ (read_chars-Safe w.line r.chars s h)
        (λ x k. by_failure x.0 x.1 r.failure k)
    where
      by_failure :
          (line : Bytes) (s' : S) (f : Option ℕ)
          → P s'
          → Holds
              (λ (x : Polling × S). P x.1)
              (elim f [
                | none ↦ ok (record w { line = line }, s')
                | some e ↦ close_file sys path process (record w { line = line }) s' >>= λ closed.
                    throws (watcher_error sys (codes "reading " ++ path) e)
              ])
      by_failure line s' none k = Holds-ok (λ (x : Polling × S). P x.1) _ k
      by_failure line s' (some e) k =
          Holds-bind (λ _. Unit {0}) (λ (x : Polling × S). P x.1)
            (close_file sys path process (record w { line = line }) s') _ (Holds-any _)
            (λ _ _. Holds-throws (λ (x : Polling × S). P x.1) _)

  reopen-Safe :
      (answer : OpenAnswer) (w : Polling) (s : S)
      → P s
      → Holds (λ (x : Polling × S). P x.1) (reopen sys path process answer (w, s))
  unfolding reopen
  reopen-Safe answer w s h =
      Holds-bind (λ _. Unit {0}) (λ (x : Polling × S). P x.1) (open_file sys path process w answer)
        _ (Holds-any _) (λ x _. by_reading x.0 x.1)
    where
      by_reading :
          (w' : Polling) (there : Option Reading)
          → Holds
              (λ (x : Polling × S). P x.1)
              (elim there [ none ↦ ok (w', s) | some r ↦ read_lines sys path process w' r s ])
      by_reading w' none = Holds-ok (λ (x : Polling × S). P x.1) (w', s) h
      by_reading w' (some r) = read_lines-Safe w' r s h

  work-Safe :
      (now : ℕ) (stat : Option Identity) (more : Reading) (answer : OpenAnswer) (w : Polling)
      (s : S)
      → P s
      → Holds (λ (x : Polling × S). P x.1) (work sys path process now stat more answer w s)
  unfolding work
  work-Safe now stat more answer w s h = by_open w.open_as
    where
      due : Polling
      due = record w { next = now + 1 }

      by_open :
          (o : Option Identity)
          → Holds
              (λ (x : Polling × S). P x.1)
              (elim o [
                | none ↦ reopen sys path process answer (due, s)
                | some id ↦
                    if is_current id stat
                    then read_lines sys path process due more s
                    else close_file sys path process due s >>= reopen sys path process answer
              ])
      by_open none = reopen-Safe answer due s h
      by_open (some id) =
          Holds-if (λ (x : Polling × S). P x.1) (is_current id stat) _ _
            (read_lines-Safe due more s h)
            (Holds-bind (λ (x : Polling × S). P x.1) (λ (x : Polling × S). P x.1)
              (close_file sys path process due s) _ (close_file-Safe due s h)
              (λ x k. reopen-Safe answer x.0 x.1 k))

pub polling-IsSafe :
    (sys : Platform) {S : Type 0} (process : Bytes → S → Result S) (P : S → Type 0)
    → ((line : Bytes) (s : S) → P s → Holds P (process line s))
    → IsSafe P (polling sys process)
polling-IsSafe sys {S} process P keep = record {
  work = λ a w s h.
      Holds-bind (λ (x : Polling × S). P x.1) (λ (x : Polled × S). P x.1)
        (work sys w.path process a.now a.stat a.more a.opening w.state s) _
        (work-Safe sys w.path process P keep a.now a.stat a.more a.opening w.state s h)
        (λ x k. Holds-ok (λ (x : Polled × S). P x.1) _ k);
}
