-- ===== src/Inotify/Overflow.antt =====
-- What `InotifyWatcher` (src/InotifyWatcher.cc) does with the event of a queue that ran over,
-- whose watch descriptor is -1: inotify(7).
use blockad.Common.{
  ℕ, ◌≡◌, ap, ◌∙◌, Bool, true, false, List, ◌∷◌, some, Bytes, All, ℤ, undefined, Result, throws,
  ◌>>=◌,
}
use blockad.Platform.{Platform}
use blockad.Inotify.{Event, Inotify, Answers, no_wd, read_lines, changed, handle, work}
use blockad.Inotify.Events.{IsEvent, encode_all, handle_all, work-handle_all}
use blockad.Inotify.Pairing.{Matched, Reach, Reach-IsPaired}

module _ (sys : Platform) (path : Bytes) {S : Type 0} (process : Bytes → S → Result S) where
  handle_closed :
      (a : Answers) (e : Event) (o : Bool) (line : Bytes) (file_wd dir_wd : ℤ) (s : S)
      → Matched o file_wd
      → o ≡ false
      → e.wd ≡ no_wd
      → handle sys path process a e
          (record { is_open = o; line = line; file_wd = file_wd; dir_wd = dir_wd }, s)
        ≡ throws undefined
  unfolding handle changed read_lines
  handle_closed a e true line file_wd dir_wd s h c d = absurd (cc)
  handle_closed a e false line file_wd dir_wd s h c d = rw (h, d)

  -- In every state that a watcher reaches while its file is not open, a buffer whose first event
  -- has the watch descriptor -1, as that of a queue that ran over has, makes `readLines` call
  -- `getc` with a null pointer.
  pub work_overflow :
      (x : Inotify × S) (answers : ℕ → Answers) (e : Event) (es : List Event) (errno : ℕ)
      → Reach sys path process x
      → x.0.is_open ≡ false
      → e.wd ≡ no_wd
      → All IsEvent (e ∷ es)
      → work sys path process answers (some (encode_all (e ∷ es))) errno x ≡ throws undefined
  work_overflow x answers e es errno r c d h =
      work-handle_all sys path process answers (e ∷ es) errno x h
      ∙ ap (λ t. t >>= handle_all sys path process answers 1 es)
          (handle_closed (answers 0) e x.0.is_open x.0.line x.0.file_wd x.0.dir_wd x.1
            (Reach-IsPaired sys path process r) c d)
