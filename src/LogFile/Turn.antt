-- ===== src/LogFile/Turn.antt =====
-- A turn of `PollingWatcher::work` (src/PollingWatcher.cc) as one pass over the lines that it
-- finds.
use blockad.Common.{
  ℕ, suc, ◌+◌, ◌≡◌, refl, sym, ap, ◌∙◌, inl, inr, false, List, [], ◌∷◌, ◌++◌, Option, none, some,
  Bytes, length, ◌==◌, if◌then◌else◌, arith, Result, ok, ◌>>=◌, Bool-cases, bind_assoc, bind_cong,
}
use blockad.Platform.{Platform}
use blockad.LogFile.{
  Identity, Reading, Polling, opened_as, read_chars, read_lines, close_file, open_file, reopen,
  is_current, work,
}

-- The part of a line that is left, and the lines before it with their newlines, where `line` stands
-- before the characters.
unfoldable pub cut_lines : Bytes → Bytes → Bytes × List Bytes
cut_lines line [] = (line, [])
cut_lines line (c ∷ rest) =
    let later = cut_lines (line ++ c ∷ []) rest in
    let (left, lines) = cut_lines [] rest in
    if c == b'\n' then (left, (line ++ c ∷ []) ∷ lines) else later

-- A line that was never finished.
abbrev pub unfinished : Bytes → List Bytes
unfinished [] = []
unfinished (c ∷ line) = (c ∷ line) ∷ []

-- What a turn is to leave of the line, and the lines that it is to hand over, in their order.
abbrev pub turn_lines : Polling → Option Identity → Reading → Reading → Bytes × List Bytes
turn_lines w stat more anew = elim w.open_as [
  | none ↦ cut_lines w.line anew.chars
  | some id ↦
      if is_current id stat
      then cut_lines w.line more.chars
      else ((cut_lines [] anew.chars).0, unfinished w.line ++ (cut_lines [] anew.chars).1)
]

-- The file that is open behind the turn.
abbrev pub now_open : Polling → Option Identity → Identity → Option Identity
now_open w stat id = elim w.open_as [
  | none ↦ some id
  | some old ↦ if is_current old stat then some old else some id
]

module _ {S : Type 0} (process : Bytes → S → Result S) where
  -- The lines in turn, until one makes `processLine` throw.
  abbrev pub process_all : List Bytes → S → Result S
  process_all [] s = ok s
  process_all (l ∷ ls) s = process l s >>= process_all ls

  -- The lines of `cut`, and then a state with what is left of the line.
  abbrev pub passes : {W : Type 0} → (Bytes → W) → Bytes × List Bytes → S → Result (W × S)
  passes f (left, lines) s = process_all lines s >>= λ s'. ok (f left, s')

  pub process_all-append :
      (a b : List Bytes) (s : S) → process_all (a ++ b) s ≡ (process_all a s >>= process_all b)
  process_all-append [] b s = refl
  process_all-append (l ∷ a) b s =
      bind_cong (process l s) _ _ (λ t. process_all-append a b t)
      ∙ sym (bind_assoc (process l s) (process_all a) (process_all b))

module _ (sys : Platform) (path : Bytes) {S : Type 0} (process : Bytes → S → Result S) where
  pub read_chars-passes :
      (line chars : Bytes) (s : S)
      → read_chars sys path process line chars s ≡ passes process (λ l. l) (cut_lines line chars) s
  unfolding read_chars cut_lines
  read_chars-passes line [] s = refl
  read_chars-passes line (c ∷ rest) s = elim (Bool-cases (c == b'\n')) [
    | inl e ↦ rw e (
        bind_cong (process (line ++ c ∷ []) s) _ _ (λ t. read_chars-passes [] rest t)
        ∙ sym (bind_assoc (process (line ++ c ∷ []) s) _ _))
    | inr e ↦ rw e (read_chars-passes (line ++ c ∷ []) rest s)
  ]

  read_lines-passes :
      (w : Polling) (r : Reading) (s : S)
      → r.failure ≡ none
      → read_lines sys path process w r s
        ≡ passes process (λ l. record w { line = l }) (cut_lines w.line r.chars) s
  unfolding read_lines
  read_lines-passes w r s e = rw e (
      ap (λ (q : Result (Bytes × S)). q >>= λ (x : Bytes × S). ok (record w { line = x.0 }, x.1))
        (read_chars-passes w.line r.chars s)
      ∙ bind_assoc (process_all process (cut_lines w.line r.chars).1 s) _ _)

  reopen-passes :
      (w : Polling) (id : Identity) (r : Reading) (s : S)
      → r.failure ≡ none
      → reopen sys path process (opened_as id r) (w, s)
        ≡ passes process
            (λ l. record w { open_as = some id; line = l })
            (cut_lines w.line r.chars)
            s
  unfolding reopen open_file
  reopen-passes w id r s e = read_lines-passes (record w { open_as = some id }) r s e

  suc_not_0 : (n : ℕ) → (suc n == 0) ≡ false
  suc_not_0 n = ground arith

  close_file-unfinished :
      (id : Identity) (line : Bytes) (n : ℕ) (s : S)
      → close_file sys path process (record { open_as = some id; line = line; next = n }) s ≡ (
          process_all process (unfinished line) s >>= λ t.
          ok (record { open_as = none; line = []; next = n }, t))
  unfolding close_file
  close_file-unfinished id [] n s = refl
  close_file-unfinished id (c ∷ line) n s =
      rw (suc_not_0 (length line)) (sym (bind_assoc (process (c ∷ line) s) _ _))

  replaced_turn :
      (old id : Identity) (anew : Reading) (line : Bytes) (n : ℕ) (s : S)
      → anew.failure ≡ none
      → (close_file sys path process (record { open_as = some old; line = line; next = n }) s
          >>= reopen sys path process (opened_as id anew))
        ≡ passes process
            (λ l. record { open_as = some id; line = l; next = n })
            ((cut_lines [] anew.chars).0, unfinished line ++ (cut_lines [] anew.chars).1)
            s
  replaced_turn old id anew line n s f =
      let lines = (cut_lines [] anew.chars).1 in
      ap (λ q. q >>= reopen sys path process (opened_as id anew))
        (close_file-unfinished old line n s)
      ∙ bind_assoc (process_all process (unfinished line) s) _ _
      ∙ bind_cong (process_all process (unfinished line) s) _ _
          (λ t. reopen-passes (record { open_as = none; line = []; next = n }) id anew t f)
      ∙ sym (bind_assoc (process_all process (unfinished line) s) (process_all process lines) _)
      ∙ ap
          (λ (q : Result S). q >>= λ t.
            ok (record { open_as = some id; line = (cut_lines [] anew.chars).0; next = n }, t))
          (sym (process_all-append process (unfinished line) lines s))

  work_turn :
      (now : ℕ) (stat : Option Identity) (more anew : Reading) (id : Identity) (o : Option Identity)
      (line : Bytes) (n : ℕ) (s : S)
      → more.failure ≡ none
      → anew.failure ≡ none
      → (let w : Polling = record { open_as = o; line = line; next = n } in
          work sys path process now stat more (opened_as id anew) w s
          ≡ passes process
              (λ l. record { open_as = now_open w stat id; line = l; next = now + 1 })
              (turn_lines w stat more anew)
              s)
  unfolding work
  work_turn now stat more anew id none line n s e f =
      reopen-passes (record { open_as = none; line = line; next = now + 1 }) id anew s f
  work_turn now stat more anew id (some old) line n s e f =
      elim (Bool-cases (is_current old stat)) [
        | inl y ↦ rw y (
            read_lines-passes (record { open_as = some old; line = line; next = now + 1 }) more s e)
        | inr y ↦ rw y (replaced_turn old id anew line (now + 1) s f)
      ]

  -- Whatever `processLine` does, where the files can be opened and read a turn is one pass over the
  -- lines that there are: those of the file that is open, with what was kept of the last before
  -- them, or, where another has taken its place, the line that was never finished and those of the
  -- new file. They are handed over in order until `processLine` throws; if it does not, what is
  -- left of the last line is kept, and the file that the path names is open.
  pub work-passes :
      (now : ℕ) (stat : Option Identity) (more anew : Reading) (id : Identity) (w : Polling) (s : S)
      → more.failure ≡ none
      → anew.failure ≡ none
      → work sys path process now stat more (opened_as id anew) w s
        ≡ passes process
            (λ l. record { open_as = now_open w stat id; line = l; next = now + 1 })
            (turn_lines w stat more anew)
            s
  work-passes now stat more anew id w s e f =
      work_turn now stat more anew id w.open_as w.line w.next s e f
