-- ===== src/Execute/Dump.antt =====
-- The lines of output that `execute` (src/execute.cc) writes to the log.
use blockad.Common.{
  ℕ, zero, suc, ◌≤◌, ◌≡◌, refl, sym, ap, subst, ◌∙◌, ◌⊎◌, inl, inr, true, false, [], ◌∷◌, ◌++◌, map,
  some, Bytes, codes, find, take, drop, length, length-drop, ◌==◌, if◌then◌else◌, arith, Bool-cases,
  Option-cases,
}
use blockad.StdioFile.Lines.{lines}
use blockad.Log.{error}
use blockad.Execute.{ends_line, terminate, dump_loop, dump, report, hex, line_message}

abbrev Ended : Bytes → Type 0
Ended text = (text ≡ []) ⊎ (ends_line text ≡ true)

-- The first newline of a text that ends in one.
Ended-find :
    (c : ℕ) (text : Bytes)
    → ends_line (c ∷ text) ≡ true
    → (i : ℕ) × (find b'\n' (c ∷ text) ≡ some i) × Ended (drop (suc i) (c ∷ text))
unfolding ends_line find
Ended-find c [] h = (0, ground (arith, h), inl refl)
Ended-find c (d ∷ text) h = elim (Bool-cases (c == b'\n')) [
  | inl y ↦ (0, rw y, inr h)
  | inr y ↦ let (i, e, k) = Ended-find d text h in (suc i, rw (y, e), k)
]

lines-find :
    (text : Bytes) (i : ℕ)
    → find b'\n' text ≡ some i
    → lines text ≡ take i text ∷ lines (drop (suc i) text)
unfolding find lines
lines-find [] i e = ground (arith, e)
lines-find (c ∷ rest) i e = elim (Bool-cases (c == b'\n')) [
  | inl y ↦ at 0 (ground (arith, e, y)) (rw y)
  | inr y ↦ elim (Option-cases (find b'\n' rest)) [
    | inl f ↦ absurd (ground (arith, e, y, f))
    | inr (j, f) ↦ at (suc j) (ground (arith, e, y, f)) (rw (y, lines-find rest j f))
  ]
]
  where
    at :
        (k : ℕ)
        → k ≡ i
        → lines (c ∷ rest) ≡ take k (c ∷ rest) ∷ lines (drop (suc k) (c ∷ rest))
        → lines (c ∷ rest) ≡ take i (c ∷ rest) ∷ lines (drop (suc i) (c ∷ rest))
    at k z h =
        subst (λ x. lines (c ∷ rest) ≡ take x (c ∷ rest) ∷ lines (drop (suc x) (c ∷ rest))) z h

dump_loop-lines :
    (fuel : ℕ) (text : Bytes)
    → Ended text
    → length text ≤ fuel
    → dump_loop fuel text ≡ some (lines text)
unfolding dump_loop lines
dump_loop-lines fuel [] h l = refl
dump_loop-lines zero (c ∷ text) h l = absurd (omega arith)
dump_loop-lines (suc fuel) (c ∷ text) (inl e) l = absurd (ground (arith, e))
dump_loop-lines (suc fuel) (c ∷ text) (inr h) l =
    let (i, e, k) = Ended-find c text h in
    let later =
      dump_loop-lines fuel (drop (suc i) (c ∷ text)) k (omega (arith, length-drop i text)) in
    rw (dump_loop, e) (rw later (ap some (sym (lines-find (c ∷ text) i e))))

ends_line-append : (text : Bytes) → ends_line (text ++ b'\n' ∷ []) ≡ true
unfolding ends_line
ends_line-append [] = refl
ends_line-append (c ∷ []) = refl
ends_line-append (c ∷ d ∷ text) = ends_line-append (d ∷ text)

lines-append :
    (c : ℕ) (text : Bytes)
    → ends_line (c ∷ text) ≡ false
    → lines ((c ∷ text) ++ b'\n' ∷ []) ≡ lines (c ∷ text)
unfolding ends_line lines
lines-append c [] h = rw h
lines-append c (d ∷ text) h = rw (lines-append d text h)

terminate_ended :
    (c : ℕ) (text : Bytes) → ends_line (c ∷ text) ≡ true → terminate (c ∷ text) ≡ c ∷ text
unfolding terminate
terminate_ended c text h = ground (arith, h)

terminate_open :
    (c : ℕ) (text : Bytes)
    → ends_line (c ∷ text) ≡ false
    → terminate (c ∷ text) ≡ (c ∷ text) ++ b'\n' ∷ []
unfolding terminate
terminate_open c text h = ground (arith, h)

dump_of :
    (output text : Bytes) → terminate output ≡ text → Ended text → dump output ≡ some (lines text)
unfolding dump
dump_of output text e h = rw e (dump_loop-lines (length text) text h (omega arith))

-- The lines that are found are the lines of the output, whether it ends in a newline or not, and
-- the loop ends.
dump-lines : (output : Bytes) → dump output ≡ some (lines output)
unfolding terminate
dump-lines [] = dump_of [] [] refl (inl refl)
dump-lines (c ∷ text) = elim (Bool-cases (ends_line (c ∷ text))) [
  | inl y ↦ dump_of (c ∷ text) (c ∷ text) (terminate_ended c text y) (inr y)
  | inr y ↦
      dump_of (c ∷ text) ((c ∷ text) ++ b'\n' ∷ []) (terminate_open c text y)
        (inr (ends_line-append (c ∷ text)))
      ∙ ap some (lines-append c text y)
]

-- Where a command fails, its report is one message for each line of its output, in order, and then
-- the message of its status; where it does not fail, nothing is logged. The loop that finds the
-- lines ends.
pub report-lines :
    (argv0 : Bytes) (ws : ℕ) (output : Bytes)
    → report argv0 ws output
      ≡ some (
          if ws == 0
          then []
          else map (line_message argv0) (lines output)
            ++ error (argv0 ++ codes " exited with status " ++ hex ws) ∷ [])
unfolding report
report-lines argv0 ws output = rw (dump-lines output) (ground arith)
