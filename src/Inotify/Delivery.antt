-- ===== src/Inotify/Delivery.antt =====
-- Which lines `InotifyWatcher` (src/InotifyWatcher.cc) delivers.
use blockad.Common.{
  ℕ, suc, ◌≡◌, refl, sym, ap, ◌∙◌, inl, inr, ◌⊎◌, Bool, true, false, not, List, [], ◌∷◌, ◌++◌,
  Option, none, Bytes, subst, Lacks, length, ◌==◌, if◌then◌else◌, arith, ℤ, pos, negsuc, equal_ℤ,
  bit_and, Result, ok, ◌>>=◌, append-nil, Bool-cases,
}
use blockad.Platform.{Platform}
use blockad.LogFile.{Reading, enoent}
use blockad.LogFile.Delivery.{note, concat, read_chars-IsLine}
use blockad.Inotify.{
  Event, Inotify, fopen_failed, watched, Answers, no_wd, is_wd, in_self, open_file, remove_watch,
  close_file, read_lines, changed, names_file, replaced, handle,
}
use blockad.Inotify.Pairing.{IsPaired, Matched}
use blockad.Inotify.Sequence.{
  Delivers, Delivers-ran, Delivers-bind, Delivers-nil, Delivers-then, Delivers-if, Delivers-ok,
}

-- A partial line, as `closeFile` hands it over.
abbrev left_over : Bytes → List Bytes
left_over [] = []
left_over (c ∷ line) = (c ∷ line) ∷ []

concat-left_over : (line : Bytes) → concat (left_over line) ++ [] ≡ line
concat-left_over [] = refl
concat-left_over (c ∷ line) = append-nil _ ∙ append-nil (c ∷ line)

module _ (sys : Platform) (path : Bytes) where
  read_lines-Delivers :
      (removed : Option ℕ) (r : Reading) (o : Bool) (line : Bytes) (file_wd dir_wd : ℤ)
      (ls : List Bytes)
      → o ≡ true
      → r.failure ≡ none
      → Lacks b'\n' line
      → Delivers (line ++ r.chars) dir_wd ls (
          read_lines sys path note removed r
            (record { is_open = o; line = line; file_wd = file_wd; dir_wd = dir_wd })
            ls)
  unfolding read_lines
  read_lines-Delivers removed r false line file_wd dir_wd ls o f h = absurd (cc)
  read_lines-Delivers removed r true line file_wd dir_wd ls o f h =
      let (line', new, run, same, k, h') = read_chars-IsLine sys path line r.chars ls h in
      (
        record { is_open = true; line = line'; file_wd = file_wd; dir_wd = dir_wd },
        new,
        rw (run, f),
        same,
        h',
        refl,
      )

  suc_not_0 : (n : ℕ) → (suc n == 0) ≡ false
  suc_not_0 n = ground arith

  -- Behind a `closeFile` that goes through the file is not open.
  Shuts : Inotify → List Bytes → Result (Inotify × List Bytes) → Type 0
  Shuts w ls r =
      (w' : Inotify) × (new : List Bytes) × (r ≡ ok (w', ls ++ new))
      × (concat new ++ w'.line ≡ w.line)
      × Lacks b'\n' w'.line
      × (w'.dir_wd ≡ w.dir_wd)
      × (w'.is_open ≡ false)

  remove_watch_ok : (file_wd : ℤ) → remove_watch sys path note file_wd none ≡ ok tt
  unfolding remove_watch
  remove_watch_ok (pos n) = refl
  remove_watch_ok (negsuc n) = refl

  shut : ℤ → ℤ → Inotify
  shut file_wd dir_wd = record {
    is_open = false;
    line = [];
    file_wd = if is_wd file_wd then no_wd else file_wd;
    dir_wd = dir_wd;
  }

  close_file-Shuts :
      (o : Bool) (line : Bytes) (file_wd dir_wd : ℤ) (ls : List Bytes)
      → Lacks b'\n' line
      → Shuts
          (record { is_open = o; line = line; file_wd = file_wd; dir_wd = dir_wd })
          ls
          (close_file sys path note none
            (record { is_open = o; line = line; file_wd = file_wd; dir_wd = dir_wd })
            ls)
  unfolding close_file shut Shuts
  close_file-Shuts false line file_wd dir_wd ls h = (
    record { is_open = false; line = line; file_wd = file_wd; dir_wd = dir_wd },
    [],
    ap
        (λ (x : List Bytes).
          ok (record { is_open = false; line = line; file_wd = file_wd; dir_wd = dir_wd }, x))
        (sym (append-nil ls)),
    refl,
    h,
    refl,
    refl,
  )
  close_file-Shuts true [] file_wd dir_wd ls h = (
    shut file_wd dir_wd,
    [],
    rw (remove_watch_ok file_wd) (ap (λ x. ok (shut file_wd dir_wd, x)) (sym (append-nil ls))),
    refl,
    tt,
    refl,
    refl,
  )
  close_file-Shuts true (c ∷ line) file_wd dir_wd ls h = (
    shut file_wd dir_wd,
    (c ∷ line) ∷ [],
    rw (suc_not_0 (length line)) (rw (remove_watch_ok file_wd)),
    concat-left_over (c ∷ line),
    tt,
    refl,
    refl,
  )

  -- What an event makes the watcher read of the file that is open.
  abbrev pub of_current : Answers → Event → Inotify → Bytes
  of_current a e w = if equal_ℤ e.wd w.file_wd then a.current.chars else []

  -- What the new file holds, if there is one.
  abbrev pub of_fresh : Answers → Bytes
  of_fresh a = elim a.opened [ watched _ ↦ a.fresh.chars | _ ↦ [] ]

  -- The calls that an event leads to succeed, but that the file may not exist.
  pub record IsHealthy (a : Answers) : Type 0 where
    pub current : a.current.failure ≡ none
    pub fresh : a.fresh.failure ≡ none
    pub removed : a.removed ≡ none
    pub removed_again : a.removed_again ≡ none
    pub opened : (a.opened ≡ fopen_failed enoent) ⊎ ((wd : ℕ) × (a.opened ≡ watched wd))

  close_file-Delivers :
      (w : Inotify) (ls : List Bytes) (removed : Option ℕ)
      → removed ≡ none
      → Lacks b'\n' w.line
      → Delivers w.line w.dir_wd ls (close_file sys path note removed w ls)
  unfolding Shuts
  close_file-Delivers w ls removed e h =
      let (w', new, run, same, h', d, _) =
        close_file-Shuts w.is_open w.line w.file_wd w.dir_wd ls h in
      (w', new, rw e run, same, h', d)

  pub open_while :
      (file_wd wd : ℤ) (o : Bool)
      → Matched o file_wd
      → is_wd wd ≡ true
      → equal_ℤ wd file_wd ≡ true
      → o ≡ true
  open_while file_wd wd true m p e = refl
  open_while (pos k) (pos n) false m p e = absurd (cc)
  open_while (negsuc k) (pos n) false m p e = absurd (cc)
  open_while file_wd (negsuc n) false m p e = absurd (cc)

  -- `closeFile()` behind an event of the file itself.
  abbrev settle : Answers → Event → Inotify × List Bytes → Result (Inotify × List Bytes)
  settle a e (w, ls) =
      if not (bit_and e.mask in_self == 0)
      then close_file sys path note a.removed w ls
      else ok (w, ls)

  settle-Delivers :
      (a : Answers) (e : Event) (w : Inotify) (ls : List Bytes)
      → IsHealthy a
      → Lacks b'\n' w.line
      → Delivers w.line w.dir_wd ls (settle a e (w, ls))
  settle-Delivers a e w ls g h =
      Delivers-if w.line w.dir_wd ls (not (bit_and e.mask in_self == 0))
        (close_file sys path note a.removed w ls) (ok (w, ls))
        (close_file-Delivers w ls a.removed g.removed h) (Delivers-ok w ls h)

  changed-Delivers :
      (a : Answers) (e : Event) (w : Inotify) (ls : List Bytes)
      → IsHealthy a
      → IsPaired w
      → is_wd e.wd ≡ true
      → Lacks b'\n' w.line
      → Delivers (w.line ++ of_current a e w) w.dir_wd ls (changed sys path note a e (w, ls))
  unfolding changed
  changed-Delivers a e w ls g m p h = elim (Bool-cases (equal_ℤ e.wd w.file_wd)) [
    | inl y ↦
        let o = open_while w.file_wd e.wd w.is_open m p y in
        rw y (
          Delivers-then (w.line ++ a.current.chars) w.dir_wd ls
            (read_lines sys path note a.removed a.current w ls) (settle a e)
            (read_lines-Delivers a.removed a.current w.is_open w.line w.file_wd w.dir_wd ls o
              g.current h)
            (λ w' ls' h'. settle-Delivers a e w' ls' g h'))
    | inr y ↦ rw y (Delivers-nil w.line w.dir_wd ls (ok (w, ls)) (Delivers-ok w ls h))
  ]

  -- What the new file holds, if an event is about its directory entry.
  abbrev pub of_new : Answers → Event → Inotify → Bytes
  of_new a e w = if names_file sys path note e w then of_fresh a else []

  -- `openFile()` and `readLines()` behind `closeFile()`.
  abbrev open_again : Answers → Inotify × List Bytes → Result (Inotify × List Bytes)
  open_again a (w, ls) = open_file sys path a.opened w >>= λ w'.
      if w'.is_open then read_lines sys path note a.removed_again a.fresh w' ls else ok (w', ls)

  open_again-Delivers :
      (a : Answers) (o : Bool) (line : Bytes) (file_wd dir_wd : ℤ) (ls : List Bytes)
      → o ≡ false
      → IsHealthy a
      → Lacks b'\n' line
      → Delivers (line ++ of_fresh a) dir_wd ls (
          open_again a
            (record { is_open = o; line = line; file_wd = file_wd; dir_wd = dir_wd }, ls))
  unfolding open_file
  open_again-Delivers a true line file_wd dir_wd ls o g h = absurd (cc)
  open_again-Delivers a false line file_wd dir_wd ls o g h = elim g.opened [
    | inl e ↦
        let w : Inotify = record {
          is_open = false;
          line = line;
          file_wd = file_wd;
          dir_wd = dir_wd;
        } in
        rw e (Delivers-nil line dir_wd ls (ok (w, ls)) (Delivers-ok w ls h))
    | inr (wd, e) ↦
        rw e
          (read_lines-Delivers a.removed_again a.fresh true line (pos wd) dir_wd ls refl g.fresh h)
  ]

  replaced-Delivers :
      (a : Answers) (e : Event) (w : Inotify) (ls : List Bytes)
      → IsHealthy a
      → Lacks b'\n' w.line
      → Delivers (w.line ++ of_new a e w) w.dir_wd ls (replaced sys path note a e (w, ls))
  unfolding replaced Shuts
  replaced-Delivers a e w ls g h = elim (Bool-cases (names_file sys path note e w)) [
    | inl y ↦
        let (w', new, run, same, h', d, o) =
          close_file-Shuts w.is_open w.line w.file_wd w.dir_wd ls h in
        rw y (
          Delivers-ran w.line (of_fresh a) w.dir_wd ls new w'
            (close_file sys path note a.removed_again w ls) (open_again a)
            (ap (λ r. close_file sys path note r w ls) g.removed_again ∙ run) same
            (subst
              (λ x. Delivers (w'.line ++ of_fresh a) x (ls ++ new) (open_again a (w', ls ++ new))) d
              (open_again-Delivers a w'.is_open w'.line w'.file_wd w'.dir_wd (ls ++ new) o g h')))
    | inr y ↦ rw y (Delivers-nil w.line w.dir_wd ls (ok (w, ls)) (Delivers-ok w ls h))
  ]

  -- For a watcher that watches its file exactly while that is open, and has kept a part of a line
  -- without a newline: an event with a watch descriptor that is not negative, where the calls that
  -- it leads to succeed but for a file that does not exist, leaves out no character that they read
  -- and delivers none of them twice. The lines delivered and the part that is kept then are the
  -- part kept before, what is read of the open file if the event is about it, and what is read of
  -- the new file if the event is about the directory entry; what the file that is closed then held
  -- beyond what had been read is not among it.
  pub handle-Delivers :
      (a : Answers) (e : Event) (w : Inotify) (ls : List Bytes)
      → IsHealthy a
      → IsPaired w
      → is_wd e.wd ≡ true
      → Lacks b'\n' w.line
      → Delivers
          ((w.line ++ of_current a e w) ++ of_new a e w)
          w.dir_wd
          ls
          (handle sys path note a e (w, ls))
  unfolding handle
  handle-Delivers a e w ls g m p h =
      Delivers-bind (w.line ++ of_current a e w) (of_new a e w) w.dir_wd ls
        (changed sys path note a e (w, ls)) (replaced sys path note a e)
        (changed-Delivers a e w ls g m p h)
        (λ w' ls' h' d.
          let same : of_new a e w' ≡ of_new a e w =
            ap (λ x. of_new a e (record w' { dir_wd = x })) d in
          subst (λ x. Delivers (w'.line ++ x) w.dir_wd ls' (replaced sys path note a e (w', ls')))
            same
            (subst
              (λ x.
                Delivers (w'.line ++ of_new a e w') x ls' (replaced sys path note a e (w', ls')))
              d (replaced-Delivers a e w' ls' g h')))
