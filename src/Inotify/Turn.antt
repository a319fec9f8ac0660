-- ===== src/Inotify/Turn.antt =====
-- Turns of an `InotifyWatcher` (src/InotifyWatcher.cc) over buffers of events, as passes over
-- lines.
use blockad.Common.{
  ℕ, suc, ◌≡◌, refl, ap, ◌∙◌, inl, inr, Bool, true, false, not, List, [], ◌∷◌, some, Bytes, ◌==◌,
  if◌then◌else◌, ℤ, equal_ℤ, bit_and, Result, ◌>>=◌, Bool-cases, All,
}
use blockad.Platform.{Platform}
use blockad.Loop.Passes.{hands}
use blockad.Inotify.{Event, Inotify, Answers, is_wd, in_self, names_file, work}
use blockad.Inotify.Delivery.{IsHealthy}
use blockad.Inotify.Events.{encode_all, handle_all, IsEvent, work-handle_all}
use blockad.Inotify.Pairing.{IsPaired, Matched}
use blockad.Inotify.Passes.{
  close_pass, read_pass, changed_pass, open_pass, replaced_pass, event_pass, event_passes, runs,
  runs-then, handle-runs,
}

module _ (sys : Platform) (path : Bytes) {S : Type 0} (process : Bytes → S → Result S) where
  close_pass-IsPaired :
      (o : Bool) (line : Bytes) (file_wd dir_wd : ℤ)
      → Matched o file_wd
      → IsPaired
          (close_pass (record { is_open = o; line = line; file_wd = file_wd; dir_wd = dir_wd })).0
  close_pass-IsPaired true line file_wd dir_wd h = rw h
  close_pass-IsPaired false line file_wd dir_wd h = h

  event_pass-IsPaired :
      (a : Answers) (e : Event) (w : Inotify)
      → IsHealthy sys path a
      → IsPaired w
      → IsPaired (event_pass sys path process a e w).0
  event_pass-IsPaired a e w h k = replaced_pair (changed_pass a e w).0 changed_pair
    where
      shut_pair :
          (b : Bool) (v : Inotify) → IsPaired v → IsPaired (if b then close_pass v else (v, [])).0
      shut_pair true v m = close_pass-IsPaired v.is_open v.line v.file_wd v.dir_wd m
      shut_pair false v m = m

      changed_pair : IsPaired (changed_pass a e w).0
      changed_pair = elim (Bool-cases (equal_ℤ e.wd w.file_wd)) [
        | inl q ↦
            rw q (shut_pair (not (bit_and e.mask in_self == 0)) (read_pass a.current.chars w).0 k)
        | inr q ↦ rw q k
      ]

      open_pair : (v : Inotify) → IsPaired v → IsPaired (open_pass a v).0
      open_pair v m = elim h.opened [ inl f ↦ rw f m | inr (wd, f) ↦ rw f refl ]

      replaced_pair : (v : Inotify) → IsPaired v → IsPaired (replaced_pass sys path process a e v).0
      replaced_pair v m = elim (Bool-cases (names_file sys path process e v)) [
        | inl q ↦
            rw q (
              open_pair (close_pass v).0
                (close_pass-IsPaired v.is_open v.line v.file_wd v.dir_wd m))
        | inr q ↦ rw q m
      ]

  handle_all-runs :
      (answers : ℕ → Answers) (i : ℕ) (es : List Event) (w : Inotify) (s : S)
      → ((k : ℕ) → IsHealthy sys path (answers k))
      → All (λ e. is_wd e.wd ≡ true) es
      → IsPaired w
      → handle_all sys path process answers i es (w, s)
        ≡ runs sys path process (event_passes sys path process answers i es w) s
  handle_all-runs answers i [] w s h d k = refl
  handle_all-runs answers i (e ∷ es) w s h d k =
      ap (λ r. r >>= handle_all sys path process answers (suc i) es)
        (handle-runs sys path process (answers i) e w s (h i) d.0 k)
      ∙ runs-then sys path process (event_pass sys path process (answers i) e w) s
          (event_passes sys path process answers (suc i) es) _
          (λ t.
            handle_all-runs answers (suc i) es (event_pass sys path process (answers i) e w).0 t h
              d.1 (event_pass-IsPaired (answers i) e w (h i) k))

  -- Whatever `processLine` does: where the calls of the system go through, but that the file may
  -- not exist, for a watcher that watches its file exactly while that is open, a turn over a buffer
  -- of events with descriptors is one pass over the lines that the events make it find, in order:
  -- those that a change of the file adds, with what was kept of the last before them; the line that
  -- was never finished, where the file is closed; and those of a file that takes its place. They
  -- are handed over until `processLine` throws; if it does not, the watcher is as the events leave
  -- it.
  pub work-hands :
      (answers : ℕ → Answers) (es : List Event) (errno : ℕ) (w : Inotify) (s : S)
      → ((k : ℕ) → IsHealthy sys path (answers k))
      → All IsEvent es
      → All (λ e. is_wd e.wd ≡ true) es
      → IsPaired w
      → work sys path process answers (some (encode_all es)) errno (w, s)
        ≡ hands process
            (event_passes sys path process answers 0 es w).0
            (event_passes sys path process answers 0 es w).1
            s
  work-hands answers es errno w s h v d k =
      work-handle_all sys path process answers es errno (w, s) v
      ∙ handle_all-runs answers 0 es w s h d k
