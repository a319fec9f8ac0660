-- ===== src/Inotify/Passes.antt =====
-- Events as `InotifyWatcher::work` (src/InotifyWatcher.cc) handles them, as one pass over the lines
-- that they make it find.
use blockad.Common.{
  ℕ, suc, ◌≡◌, refl, sym, ap, ◌∙◌, inl, inr, Bool, true, false, not, List, [], ◌∷◌, ◌++◌, Option,
  none, Bytes, length, ◌==◌, if◌then◌else◌, ℤ, pos, negsuc, arith, equal_ℤ, bit_and, Result, ok,
  ◌>>=◌, Bool-cases, bind_assoc, bind_cong,
}
use blockad.Platform.{Platform}
use blockad.LogFile.{Reading}
use blockad.LogFile.Turn.{cut_lines, unfinished, process_all, process_all-append, read_chars-passes}
use blockad.Loop.Passes.{hands}
use blockad.Inotify.{
  Event, Inotify, fopen_failed, watch_failed, watched, Answers, no_wd, is_wd, in_self, open_file,
  remove_watch, close_file, read_lines, changed, names_file, replaced, handle,
}
use blockad.Inotify.Delivery.{IsHealthy, open_while}
use blockad.Inotify.Pairing.{IsPaired}

-- A watcher behind a call, and the lines that the call has handed over.
abbrev pub Pass : Type 0
Pass = Inotify × List Bytes

abbrev pub and_then : Pass → (Inotify → Pass) → Pass
and_then (w, lines) next = ((next w).0, lines ++ (next w).1)

-- `closeFile()`
abbrev pub close_pass : Inotify → Pass
close_pass w = if not w.is_open then (w, []) else (
  record w { is_open = false; line = []; file_wd = if is_wd w.file_wd then no_wd else w.file_wd },
  unfinished w.line,
)

-- `readLines()`
abbrev pub read_pass : Bytes → Inotify → Pass
read_pass chars w = (record w { line = (cut_lines w.line chars).0 }, (cut_lines w.line chars).1)

abbrev pub changed_pass : Answers → Event → Inotify → Pass
changed_pass a e w =
    if not (equal_ℤ e.wd w.file_wd)
    then (w, [])
    else and_then (read_pass a.current.chars w)
        (λ v. if not (bit_and e.mask in_self == 0) then close_pass v else (v, []))

-- `openFile()` and then `readLines()`, if there is a file.
abbrev pub open_pass : Answers → Inotify → Pass
open_pass a w = elim a.opened [
  | watched wd ↦ read_pass a.fresh.chars (record w { is_open = true; file_wd = pos wd })
  | fopen_failed errno ↦ (w, [])
  | watch_failed errno ↦ (w, [])
]

module _ (sys : Platform) (path : Bytes) {S : Type 0} (process : Bytes → S → Result S) where
  abbrev pub replaced_pass : Answers → Event → Inotify → Pass
  replaced_pass a e w =
      if not (names_file sys path process e w)
      then (w, [])
      else and_then (close_pass w) (open_pass a)

  -- An event.
  abbrev pub event_pass : Answers → Event → Inotify → Pass
  event_pass a e w = and_then (changed_pass a e w) (replaced_pass a e)

  -- Events in turn, from number `i` on.
  abbrev pub event_passes : (ℕ → Answers) → ℕ → List Event → Inotify → Pass
  event_passes answers i [] w = (w, [])
  event_passes answers i (e ∷ es) w =
      and_then (event_pass (answers i) e w) (event_passes answers (suc i) es)

  -- What a pass does with the lines.
  abbrev pub runs : Pass → S → Result (Inotify × S)
  runs p s = hands process p.0 p.1 s

  suc_not_0 : (n : ℕ) → (suc n == 0) ≡ false
  suc_not_0 n = ground arith

  remove_watch_ok : (file_wd : ℤ) → remove_watch sys path process file_wd none ≡ ok tt
  unfolding remove_watch
  remove_watch_ok (pos n) = refl
  remove_watch_ok (negsuc n) = refl

  close_file-runs :
      (o : Bool) (line : Bytes) (file_wd dir_wd : ℤ) (s : S)
      → (let w : Inotify = record {
        is_open = o;
        line = line;
        file_wd = file_wd;
        dir_wd = dir_wd;
      } in
          close_file sys path process none w s ≡ runs (close_pass w) s)
  unfolding close_file
  close_file-runs false line file_wd dir_wd s = refl
  close_file-runs true [] file_wd dir_wd s = rw (remove_watch_ok file_wd)
  close_file-runs true (c ∷ line) file_wd dir_wd s =
      rw (suc_not_0 (length line), remove_watch_ok file_wd)
        (sym (bind_assoc (process (c ∷ line) s) _ _))

  read_lines-runs :
      (removed : Option ℕ) (r : Reading) (o : Bool) (line : Bytes) (file_wd dir_wd : ℤ) (s : S)
      → o ≡ true
      → r.failure ≡ none
      → (let w : Inotify = record {
        is_open = o;
        line = line;
        file_wd = file_wd;
        dir_wd = dir_wd;
      } in
          read_lines sys path process removed r w s ≡ runs (read_pass r.chars w) s)
  unfolding read_lines
  read_lines-runs removed r false line file_wd dir_wd s o f = absurd (cc)
  read_lines-runs removed r true line file_wd dir_wd s o f = rw f (
      ap
        (λ (q : Result (Bytes × S)). q >>= λ (x : Bytes × S).
          ok (record { is_open = true; line = x.0; file_wd = file_wd; dir_wd = dir_wd }, x.1))
        (read_chars-passes sys path process line r.chars s)
      ∙ bind_assoc (process_all process (cut_lines line r.chars).1 s) _ _)

  -- A call behind a pass.
  pub runs-then :
      (p : Pass) (s : S) (next : Inotify → Pass) (f : Inotify × S → Result (Inotify × S))
      → ((t : S) → f (p.0, t) ≡ runs (next p.0) t)
      → (runs p s >>= f) ≡ runs (and_then p next) s
  runs-then p s next f h =
      bind_assoc (process_all process p.1 s) _ f
      ∙ bind_cong (process_all process p.1 s) _ _ h
      ∙ sym (bind_assoc (process_all process p.1 s) (process_all process (next p.0).1) _)
      ∙ ap (λ (q : Result S). q >>= λ t. ok ((next p.0).0, t))
          (sym (process_all-append process p.1 (next p.0).1 s))

  shut_if :
      (b : Bool) (removed : Option ℕ) (w : Inotify) (s : S)
      → removed ≡ none
      → (if b then close_file sys path process removed w s else ok (w, s))
        ≡ runs (if b then close_pass w else (w, [])) s
  shut_if true removed w s e = rw e (close_file-runs w.is_open w.line w.file_wd w.dir_wd s)
  shut_if false removed w s e = refl

  changed-runs :
      (a : Answers) (e : Event) (w : Inotify) (s : S)
      → IsHealthy sys path a
      → is_wd e.wd ≡ true
      → IsPaired w
      → changed sys path process a e (w, s) ≡ runs (changed_pass a e w) s
  unfolding changed
  changed-runs a e w s h d k = elim (Bool-cases (equal_ℤ e.wd w.file_wd)) [
    | inl q ↦ rw q (
        ap
          (λ r. r >>= λ (x : Inotify × S).
            if not (bit_and e.mask in_self == 0)
            then close_file sys path process a.removed x.0 x.1
            else ok x)
          (read_lines-runs a.removed a.current w.is_open w.line w.file_wd w.dir_wd s
            (open_while sys path w.file_wd e.wd w.is_open k d q) h.current)
        ∙ runs-then (read_pass a.current.chars w) s
            (λ v. if not (bit_and e.mask in_self == 0) then close_pass v else (v, [])) _
            (λ t.
              shut_if (not (bit_and e.mask in_self == 0)) a.removed (read_pass a.current.chars w).0
                t h.removed))
    | inr q ↦ rw q
  ]

  open-runs :
      (a : Answers) (w : Inotify) (s : S)
      → IsHealthy sys path a
      → w.is_open ≡ false
      → (open_file sys path a.opened w >>= λ v.
          if v.is_open then read_lines sys path process a.removed_again a.fresh v s else ok (v, s))
        ≡ runs (open_pass a w) s
  unfolding open_file
  open-runs a w s h c = elim h.opened [
    | inl e ↦ rw (e, c)
    | inr (wd, e) ↦
        rw e (read_lines-runs a.removed_again a.fresh true w.line (pos wd) w.dir_wd s refl h.fresh)
  ]

  closed :
      (o : Bool) (line : Bytes) (file_wd dir_wd : ℤ)
      → (close_pass
          (record { is_open = o; line = line; file_wd = file_wd; dir_wd = dir_wd })).0.is_open
        ≡ false
  closed true line file_wd dir_wd = refl
  closed false line file_wd dir_wd = refl

  replaced-runs :
      (a : Answers) (e : Event) (w : Inotify) (s : S)
      → IsHealthy sys path a
      → replaced sys path process a e (w, s) ≡ runs (replaced_pass a e w) s
  unfolding replaced
  replaced-runs a e w s h = elim (Bool-cases (names_file sys path process e w)) [
    | inl q ↦ rw q (
        ap
          (λ r. r >>= λ (x : Inotify × S). open_file sys path a.opened x.0 >>= λ v.
            if v.is_open
            then read_lines sys path process a.removed_again a.fresh v x.1
            else ok (v, x.1))
          (ap (λ o. close_file sys path process o w s) h.removed_again
            ∙ close_file-runs w.is_open w.line w.file_wd w.dir_wd s)
        ∙ runs-then (close_pass w) s (open_pass a) _
            (λ t. open-runs a (close_pass w).0 t h (closed w.is_open w.line w.file_wd w.dir_wd)))
    | inr q ↦ rw q
  ]

  pub handle-runs :
      (a : Answers) (e : Event) (w : Inotify) (s : S)
      → IsHealthy sys path a
      → is_wd e.wd ≡ true
      → IsPaired w
      → handle sys path process a e (w, s) ≡ runs (event_pass a e w) s
  unfolding handle
  handle-runs a e w s h d k =
      ap (λ r. r >>= replaced sys path process a e) (changed-runs a e w s h d k)
      ∙ runs-then (changed_pass a e w) s (replaced_pass a e) (replaced sys path process a e)
          (λ t. replaced-runs a e (changed_pass a e w).0 t h)
