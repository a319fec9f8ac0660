-- ===== src/LogFile/Delivery.antt =====
-- Which lines `readLines` (src/WatcherImplementation.cc) and `work` (src/PollingWatcher.cc)
-- deliver.
use blockad.Common.{
  ℕ, suc, ◌+◌, ◌≡◌, ◌≢◌, refl, sym, ap, ◌∙◌, inl, inr, true, false, List, [], ◌∷◌, ◌++◌, Option,
  none, some, Bytes, All, All-append, Lacks, length, ◌==◌, if◌then◌else◌, arith, Result, ok, throws,
  ◌>>=◌, append_assoc, append-nil, Bool-cases,
}
use blockad.Platform.{Platform}
use blockad.LogFile.{
  Identity, Reading, Polling, opened_as, read_chars, read_lines, close_file, open_file, reopen,
  is_current, work,
}

-- A `processLine` that notes the lines that it is given.
abbrev pub note : Bytes → List Bytes → Result (List Bytes)
note line ls = ok (ls ++ line ∷ [])

abbrev pub concat : List Bytes → Bytes
concat [] = []
concat (l ∷ ls) = l ++ concat ls

-- A text that ends in its only newline.
abbrev pub IsLine : Bytes → Type 0
IsLine l = (body : Bytes) × (l ≡ body ++ b'\n' ∷ []) × Lacks b'\n' body

ends-IsLine :
    (line : Bytes) (c : ℕ) → (c == b'\n') ≡ true → Lacks b'\n' line → IsLine (line ++ c ∷ [])
ends-IsLine line c e h = (line, ground (arith, e), h)

continues-Lacks :
    (line : Bytes) (c : ℕ) → (c == b'\n') ≡ false → Lacks b'\n' line → Lacks b'\n' (line ++ c ∷ [])
continues-Lacks line c e h = All-append (λ x. x ≢ b'\n') line (c ∷ []) h (ground (arith, e), tt)

module _ (sys : Platform) (path : Bytes) {S : Type 0} (process : Bytes → S → Result S) where
  read_chars_newline :
      (line : Bytes) (c : ℕ) (rest : Bytes) (s : S)
      → (c == b'\n') ≡ true
      → read_chars sys path process line (c ∷ rest) s
        ≡ (process (line ++ c ∷ []) s >>= read_chars sys path process [] rest)
  unfolding read_chars
  read_chars_newline line c rest s e = rw e

  read_chars_other :
      (line : Bytes) (c : ℕ) (rest : Bytes) (s : S)
      → (c == b'\n') ≡ false
      → read_chars sys path process line (c ∷ rest) s
        ≡ read_chars sys path process (line ++ c ∷ []) rest s
  unfolding read_chars
  read_chars_other line c rest s e = rw e

  read_chars_bind :
      (p : Result S) (a b : Bytes)
      → ((t : S)
          → read_chars sys path process [] (a ++ b) t
            ≡ (read_chars sys path process [] a t >>= λ r. read_chars sys path process r.0 b r.1))
      → (p >>= read_chars sys path process [] (a ++ b))
        ≡ ((p >>= read_chars sys path process [] a) >>= λ r. read_chars sys path process r.0 b r.1)
  read_chars_bind (ok t) a b h = h t
  read_chars_bind (throws x) a b h = refl

  -- Characters that arrive in two goes are delivered as if they had arrived at once: a line that
  -- is only partly written is kept, and goes on with what is read next.
  read_chars-append :
      (line a b : Bytes) (s : S)
      → read_chars sys path process line (a ++ b) s
        ≡ (read_chars sys path process line a s >>= λ r. read_chars sys path process r.0 b r.1)
  unfolding read_chars
  read_chars-append line [] b s = refl
  read_chars-append line (c ∷ a) b s = elim (Bool-cases (c == b'\n')) [
    | inl e ↦
        rw e (read_chars_bind (process (line ++ c ∷ []) s) a b (λ t. read_chars-append [] a b t))
    | inr e ↦ rw e (read_chars-append (line ++ c ∷ []) a b s)
  ]

module _ (sys : Platform) (path : Bytes) where
  -- Where what was kept has no newline, `readLines` delivers the characters in order and leaves
  -- none out: what it delivers are whole lines, each with its newline and no other, and what it
  -- keeps has no newline.
  pub read_chars-IsLine :
      (line chars : Bytes) (ls : List Bytes)
      → Lacks b'\n' line
      → (line' : Bytes) × (new : List Bytes) × (read_chars sys path note line chars ls
          ≡ ok (line', ls ++ new))
        × (concat new ++ line' ≡ line ++ chars)
        × All IsLine new
        × Lacks b'\n' line'
  unfolding read_chars
  read_chars-IsLine line [] ls h =
      (line, [], ap (λ x. ok (line, x)) (sym (append-nil ls)), sym (append-nil line), tt, h)
  read_chars-IsLine line (c ∷ rest) ls h = elim (Bool-cases (c == b'\n')) [
    | inl e ↦
        let l = line ++ c ∷ [] in
        let (line', new, run, same, k', h') = read_chars-IsLine [] rest (ls ++ l ∷ []) tt in
        (
          line',
          l ∷ new,
          read_chars_newline sys path note line c rest ls e
              ∙ run
              ∙ ap (λ x. ok (line', x)) (append_assoc ls (l ∷ []) new),
          append_assoc l (concat new) line'
              ∙ ap (λ x. l ++ x) same
              ∙ append_assoc line (c ∷ []) rest,
          (ends-IsLine line c e h, k'),
          h',
        )
    | inr e ↦
        let (line', new, run, same, k', h') =
          read_chars-IsLine (line ++ c ∷ []) rest ls (continues-Lacks line c e h) in
        (
          line',
          new,
          read_chars_other sys path note line c rest ls e ∙ run,
          same ∙ append_assoc line (c ∷ []) rest,
          k',
          h',
        )
  ]

  -- A result in which `text` is delivered behind `ls`, but for a last part without a newline.
  abbrev pub Delivers : Bytes → List Bytes → Result (Polling × List Bytes) → Type 0
  Delivers text ls result =
      (w : Polling) × (new : List Bytes) × (result ≡ ok (w, ls ++ new))
      × (concat new ++ w.line ≡ text)
      × Lacks b'\n' w.line

  read_lines-Delivers :
      (w : Polling) (r : Reading) (ls : List Bytes)
      → r.failure ≡ none
      → Lacks b'\n' w.line
      → Delivers (w.line ++ r.chars) ls (read_lines sys path note w r ls)
  unfolding read_lines
  read_lines-Delivers w r ls e h =
      let (line', new, run, same, k, h') = read_chars-IsLine w.line r.chars ls h in
      (record w { line = line' }, new, rw run (rw e refl), same, h')

  reopen-Delivers :
      (w : Polling) (id : Identity) (r : Reading) (ls : List Bytes)
      → r.failure ≡ none
      → Lacks b'\n' w.line
      → Delivers (w.line ++ r.chars) ls (reopen sys path note (opened_as id r) (w, ls))
  unfolding reopen open_file
  reopen-Delivers w id r ls e h = read_lines-Delivers (record w { open_as = some id }) r ls e h

  suc_not_0 : (n : ℕ) → (suc n == 0) ≡ false
  suc_not_0 n = ground arith

  -- A partial line, as `closeFile` hands it over.
  abbrev left_over : Bytes → List Bytes
  left_over [] = []
  left_over (c ∷ line) = (c ∷ line) ∷ []

  left_over-joins :
      (line : Bytes) (new : List Bytes) (rest : Bytes)
      → concat (left_over line ++ new) ++ rest ≡ line ++ (concat new ++ rest)
  left_over-joins [] new rest = refl
  left_over-joins (c ∷ line) new rest = append_assoc (c ∷ line) (concat new) rest

  abbrev closed : Polling → Polling
  closed w = record w { open_as = none; line = [] }

  close_file-left_over :
      (w : Polling) (id : Identity) (ls : List Bytes)
      → w.open_as ≡ some id
      → close_file sys path note w ls ≡ ok (closed w, ls ++ left_over w.line)
  unfolding close_file
  close_file-left_over w id ls e = rw e (handed w.line)
    where
      handed :
          (line : Bytes)
          → ◌>>=◌ {B = Polling × List Bytes}
              (if length line == 0 then ok ls else note line ls)
              (λ t. ok (closed w, t))
            ≡ ok (closed w, ls ++ left_over line)
      handed [] = ap (λ x. ok (closed w, x)) (sym (append-nil ls))
      handed (c ∷ line) = rw (suc_not_0 (length line))

  -- What a turn of `work` can read: the rest of the file that is open, or the whole of the file
  -- that has taken its place.
  abbrev pub available : Polling → Option Identity → Reading → Reading → Bytes
  available w stat more anew = elim w.open_as [
    | none ↦ anew.chars
    | some id ↦ if is_current id stat then more.chars else anew.chars
  ]

  replaced-Delivers :
      (w : Polling) (old id : Identity) (r : Reading) (ls : List Bytes)
      → w.open_as ≡ some old
      → r.failure ≡ none
      → Delivers
          (w.line ++ r.chars)
          ls
          (close_file sys path note w ls >>= reopen sys path note (opened_as id r))
  replaced-Delivers w old id r ls e f =
      let (w', new, run, same, h) = reopen-Delivers (closed w) id r (ls ++ left_over w.line) f tt in
      (
        w',
        left_over w.line ++ new,
        rw (close_file-left_over w old ls e)
            (run ∙ ap (λ x. ok (w', x)) (append_assoc ls (left_over w.line) new)),
        left_over-joins w.line new w'.line ∙ ap (λ x. w.line ++ x) same,
        h,
      )

  work_turn :
      (now : ℕ) (stat : Option Identity) (more anew : Reading) (id : Identity) (o : Option Identity)
      (line : Bytes) (n : ℕ) (ls : List Bytes)
      → more.failure ≡ none
      → anew.failure ≡ none
      → Lacks b'\n' line
      → Delivers
          (line ++ available (record { open_as = o; line = line; next = n }) stat more anew)
          ls
          (work sys path note now stat more
            (opened_as id anew)
            (record { open_as = o; line = line; next = n })
            ls)
  unfolding work
  work_turn now stat more anew id none line n ls e f h =
      reopen-Delivers (record { open_as = none; line = line; next = now + 1 }) id anew ls f h
  work_turn now stat more anew id (some old) line n ls e f h =
      let due : Polling = record { open_as = some old; line = line; next = now + 1 } in
      elim (Bool-cases (is_current old stat)) [
        | inl y ↦ rw y (read_lines-Delivers due more ls e h)
        | inr x ↦ rw x (replaced-Delivers due old id anew ls refl f)
      ]

  -- Whatever a turn of `work` finds, if the files can be opened and read and what was kept has no
  -- newline, no character that the turn reads is left out or delivered twice: the lines that it
  -- delivers, and the part that it keeps, are what was kept before and then what is read of the
  -- file that is current. If that is another file than before, what the old one held beyond what
  -- had been read is not among it. The part that is kept has no newline.
  pub work-Delivers :
      (now : ℕ) (stat : Option Identity) (more anew : Reading) (id : Identity) (w : Polling)
      (ls : List Bytes)
      → more.failure ≡ none
      → anew.failure ≡ none
      → Lacks b'\n' w.line
      → Delivers
          (w.line ++ available w stat more anew)
          ls
          (work sys path note now stat more (opened_as id anew) w ls)
  work-Delivers now stat more anew id w ls e f h =
      work_turn now stat more anew id w.open_as w.line w.next ls e f h
