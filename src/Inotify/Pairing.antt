-- ===== src/Inotify/Pairing.antt =====
-- The file of an `InotifyWatcher` (src/InotifyWatcher.cc) and the watch of it.
use blockad.Common.{
  ℕ, zero, suc, ◌≡◌, refl, Bool, true, false, [], ◌∷◌, Option, none, some, Bytes, codes, ◌++◌,
  if◌then◌else◌, length, not, ℤ, equal_ℤ, undefined, Result, ok, throws, ◌>>=◌, Holds, Holds-bind,
  Holds-any, Holds-ok, Holds-throws, Holds-if, Holds-guard, Holds_of_eq,
}
use blockad.Platform.{Platform}
use blockad.LogFile.{Reading, read_chars, watcher_error}
use blockad.Inotify.{
  Event, Inotify, Opened, fopen_failed, watch_failed, watched, Answers, no_wd, is_wd, open_file,
  remove_watch, flush, close_file, read_lines, changed, names_file, replaced, handle, take_event,
  work_loop, work, new_inotify,
}

abbrev pub Matched : Bool → ℤ → Type 0
Matched true file_wd = is_wd file_wd ≡ true
Matched false file_wd = file_wd ≡ no_wd

-- There is a watch of the file exactly while the file is open.
abbrev pub IsPaired : Inotify → Type 0
IsPaired w = Matched w.is_open w.file_wd

module _ (sys : Platform) (path : Bytes) where
  open_file-IsPaired :
      (o : Opened) (w : Inotify) → IsPaired w → Holds IsPaired (open_file sys path o w)
  unfolding open_file
  open_file-IsPaired (fopen_failed errno) w h = Holds-guard IsPaired _ _ _ (Holds-ok IsPaired w h)
  open_file-IsPaired (watch_failed errno) w h = Holds-throws IsPaired _
  open_file-IsPaired (watched wd) w h = Holds-ok IsPaired _ refl

  new_inotify-IsPaired :
      (init : Option ℕ) (watch : Bytes → ℤ) (errno : ℕ) (opened : Opened) (seek : Option ℕ)
      → Holds IsPaired (new_inotify sys path init watch errno opened seek)
  unfolding new_inotify
  new_inotify-IsPaired (some e) watch errno opened seek = Holds-throws IsPaired _
  new_inotify-IsPaired none watch errno opened seek = Holds-guard IsPaired _ _ _ (
      Holds-bind IsPaired IsPaired (open_file sys path opened _) _
        (open_file-IsPaired opened _ refl)
        (λ w h. Holds-if IsPaired w.is_open _ _ (sought w seek h) (Holds-ok IsPaired w h)))
    where
      sought :
          (w : Inotify) (seek : Option ℕ)
          → IsPaired w
          → Holds IsPaired (elim seek [
            | some e ↦ throws (watcher_error sys (codes "seeking " ++ path) e)
            | none ↦ ok w
          ])
      sought w none h = Holds-ok IsPaired w h
      sought w (some e) h = Holds-throws IsPaired _

module _ (sys : Platform) (path : Bytes) {S : Type 0} (process : Bytes → S → Result S) where
  abbrev AllPaired : Inotify × S → Type 0
  AllPaired x = IsPaired x.0

  closed_wd :
      (file_wd : ℤ) → Matched true file_wd → (if is_wd file_wd then no_wd else file_wd) ≡ no_wd
  closed_wd file_wd h = rw h

  close_file-AllPaired :
      (removed : Option ℕ) (o : Bool) (line : Bytes) (file_wd dir_wd : ℤ) (s : S)
      → Matched o file_wd
      → Holds AllPaired (
          close_file sys path process removed
            (record { is_open = o; line = line; file_wd = file_wd; dir_wd = dir_wd })
            s)
  unfolding close_file
  close_file-AllPaired removed false line file_wd dir_wd s h = Holds-ok AllPaired _ h
  close_file-AllPaired removed true line file_wd dir_wd s h =
      Holds-bind (λ _. Unit {0}) AllPaired (flush sys path process line s) _ (Holds-any _)
        (λ s' _.
          Holds-bind (λ _. Unit {0}) AllPaired (remove_watch sys path process file_wd removed) _
            (Holds-any _) (λ _ _. Holds-ok AllPaired _ (closed_wd file_wd h)))

  read_lines-AllPaired :
      (removed : Option ℕ) (r : Reading) (w : Inotify) (s : S)
      → IsPaired w
      → Holds AllPaired (read_lines sys path process removed r w s)
  unfolding read_lines
  read_lines-AllPaired removed r w s h = Holds-guard AllPaired (not w.is_open) undefined _ (
      Holds-bind (λ _. Unit {0}) AllPaired (read_chars sys path process w.line r.chars s) _
        (Holds-any _) (λ x _. ended (record w { line = x.0 }) x.1 r.failure h))
    where
      ended :
          (w' : Inotify) (s' : S) (failure : Option ℕ)
          → IsPaired w'
          → Holds AllPaired (elim failure [
            | none ↦ ok (w', s')
            | some errno ↦ close_file sys path process removed w' s' >>= λ _.
                throws (watcher_error sys (codes "reading " ++ path) errno)
          ])
      ended w' s' none h' = Holds-ok AllPaired _ h'
      ended w' s' (some errno) h' =
          Holds-bind (λ _. Unit {0}) AllPaired (close_file sys path process removed w' s') _
            (Holds-any _) (λ _ _. Holds-throws AllPaired _)

  close_file-IsPaired :
      (removed : Option ℕ) (w : Inotify) (s : S)
      → IsPaired w
      → Holds AllPaired (close_file sys path process removed w s)
  close_file-IsPaired removed w s h =
      close_file-AllPaired removed w.is_open w.line w.file_wd w.dir_wd s h

  changed-AllPaired :
      (a : Answers) (e : Event) (x : Inotify × S)
      → AllPaired x
      → Holds AllPaired (changed sys path process a e x)
  unfolding changed
  changed-AllPaired a e (w, s) h =
      Holds-if AllPaired (not (equal_ℤ e.wd w.file_wd)) _ _ (Holds-ok AllPaired _ h) (
        Holds-bind AllPaired AllPaired (read_lines sys path process a.removed a.current w s) _
          (read_lines-AllPaired a.removed a.current w s h)
          (λ y k.
            Holds-if AllPaired _ _ _ (close_file-IsPaired a.removed y.0 y.1 k)
              (Holds-ok AllPaired y k)))

  replaced-AllPaired :
      (a : Answers) (e : Event) (x : Inotify × S)
      → AllPaired x
      → Holds AllPaired (replaced sys path process a e x)
  unfolding replaced
  replaced-AllPaired a e (w, s) h =
      Holds-if AllPaired (not (names_file sys path process e w)) _ _ (Holds-ok AllPaired _ h) (
        Holds-bind AllPaired AllPaired (close_file sys path process a.removed_again w s) _
          (close_file-IsPaired a.removed_again w s h)
          (λ y k.
            Holds-bind IsPaired AllPaired (open_file sys path a.opened y.0) _
              (open_file-IsPaired sys path a.opened y.0 k)
              (λ w' k'.
                Holds-if AllPaired w'.is_open _ _
                  (read_lines-AllPaired a.removed_again a.fresh w' y.1 k')
                  (Holds-ok AllPaired _ k'))))

  handle-AllPaired :
      (a : Answers) (e : Event) (x : Inotify × S)
      → AllPaired x
      → Holds AllPaired (handle sys path process a e x)
  unfolding handle
  handle-AllPaired a e x h =
      Holds-bind AllPaired AllPaired (changed sys path process a e x) _ (changed-AllPaired a e x h)
        (replaced-AllPaired a e)

  work_loop-AllPaired :
      (fuel : ℕ) (answers : ℕ → Answers) (i : ℕ) (buffer : Bytes) (x : Inotify × S)
      → AllPaired x
      → Holds AllPaired (work_loop sys path process fuel answers i buffer x)
  unfolding work_loop
  work_loop-AllPaired fuel answers i [] x h = Holds-ok AllPaired x h
  work_loop-AllPaired zero answers i (b ∷ buffer) x h = Holds-throws AllPaired undefined
  work_loop-AllPaired (suc fuel) answers i (b ∷ buffer) x h =
      Holds-bind (λ _. Unit {0}) AllPaired (take_event sys (b ∷ buffer)) _ (Holds-any _)
        (λ e _.
          Holds-bind AllPaired AllPaired (handle sys path process (answers i) e.0 x) _
            (handle-AllPaired (answers i) e.0 x h)
            (λ y k. work_loop-AllPaired fuel answers (suc i) e.1 y k))

  work-AllPaired :
      (answers : ℕ → Answers) (got : Option Bytes) (errno : ℕ) (x : Inotify × S)
      → AllPaired x
      → Holds AllPaired (work sys path process answers got errno x)
  unfolding work
  work-AllPaired answers (some buffer) errno x h =
      work_loop-AllPaired (length buffer) answers 0 buffer x h
  work-AllPaired answers none errno x h = Holds-guard AllPaired _ _ _ (Holds-ok AllPaired x h)

  -- The states of a watcher that has been created and has worked.
  pub data Reach : Inotify × S → Type 0 where
    created :
        {w : Inotify} (init : Option ℕ) (watch : Bytes → ℤ) (errno : ℕ) (opened : Opened)
        (seek : Option ℕ) (s : S)
        → new_inotify sys path init watch errno opened seek ≡ ok w
        → Reach (w, s)
    worked :
        {x y : Inotify × S} (answers : ℕ → Answers) (got : Option Bytes) (errno : ℕ)
        → Reach x
        → work sys path process answers got errno x ≡ ok y
        → Reach y

  -- In every state that a watcher reaches there is a watch of the file exactly while the file is
  -- open; while it is not, the descriptor is -1.
  pub Reach-IsPaired : {x : Inotify × S} → Reach x → IsPaired x.0
  Reach-IsPaired (created {w} init watch errno opened seek s e) =
      Holds_of_eq IsPaired (new_inotify-IsPaired sys path init watch errno opened seek) e
  Reach-IsPaired (worked {x} {y} answers got errno r e) =
      Holds_of_eq AllPaired (work-AllPaired answers got errno x (Reach-IsPaired r)) e
