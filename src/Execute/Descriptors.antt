-- ===== src/Execute/Descriptors.antt =====
-- What `execute` (src/execute.cc) does with the pipe, whatever the system answers.
use blockad.Common.{
  ℕ, suc, ◌+◌, ◌≡◌, refl, ap, inl, inr, Bool, true, false, List, [], ◌∷◌, map, none, some, Bytes,
  c_str, get_or, ok, Result, Option-cases,
}
use blockad.Platform.{Platform}
use blockad.Log.{Message}
use blockad.Execute.{
  End, read_end, write_end, Call, closes, reaps, logs, Reads, Wait, exited, wait_failed, Answers,
  collect, report, Run, finish, wait_child, read_output, parent, piped, execute,
}
use blockad.Execute.Dump.{report-lines}

abbrev pub same_end : End → End → Bool
same_end read_end read_end = true
same_end write_end write_end = true
same_end _ _ = false

-- The calls of `close` on one end of the pipe.
abbrev pub closings : End → List Call → ℕ
closings e [] = 0
closings e (closes d ∷ calls) = elim (same_end e d) [
  | true ↦ suc (closings e calls)
  | false ↦ closings e calls
]
closings e (reaps ∷ calls) = closings e calls
closings e (logs m ∷ calls) = closings e calls

closings-logs : (e : End) (ms : List Message) → closings e (map logs ms) ≡ 0
closings-logs e [] = refl
closings-logs e (m ∷ ms) = closings-logs e ms

-- The run ends, and has called `close` so often on each end.
abbrev Closes : ℕ → ℕ → Run → Type 0
Closes r w run =
    ((result : Result ℕ) × (run.0 ≡ some result))
    × (closings read_end run.1 ≡ r)
    × (closings write_end run.1 ≡ w)

-- How many descriptors of one end there are: none if there is no pipe.
abbrev pub opened : Answers → ℕ
opened a = elim a.pipe [ some _ ↦ 0 | none ↦ 1 ]

-- Whether the parent's own `close` of the write end fails.
abbrev pub close_fails : Answers → ℕ
close_fails a = elim a.pipe [
  | some _ ↦ 0
  | none ↦ elim a.fork [ some _ ↦ 0 | none ↦ elim a.close [ some _ ↦ 1 | none ↦ 0 ] ]
]

module _ (sys : Platform) (argv0 : Bytes) where
  logged-Closes :
      (ws : ℕ) (output : Bytes) {messages : List Message}
      → report argv0 ws output ≡ some messages
      → Closes 0 0 (finish sys argv0 ws output)
  unfolding finish
  logged-Closes ws output {messages} e =
      rw (finish, e)
        ((ok ws, refl), closings-logs read_end messages, closings-logs write_end messages)

  finish-Closes : (ws : ℕ) (output : Bytes) → Closes 0 0 (finish sys argv0 ws output)
  finish-Closes ws output = logged-Closes ws output (report-lines argv0 ws output)

  wait_child-Closes : (w : Wait) (output : Bytes) → Closes 0 0 (wait_child sys argv0 w output)
  unfolding wait_child
  wait_child-Closes (exited ws) output = finish-Closes ws output
  wait_child-Closes (wait_failed errno) output = ((_, refl), refl, refl)

  read_output-Closes : (r : Reads) (w : Wait) → Closes 1 0 (read_output sys argv0 r w)
  unfolding read_output
  read_output-Closes r w = elim (Option-cases r.last) [
    | inl e ↦
        let (ends, reading, writing) = wait_child-Closes w (collect r.chunks) in
        rw (read_output, e) (ends, ap suc reading, writing)
    | inr (errno, e) ↦ rw (read_output, e) ((_, refl), refl, refl)
  ]

  piped-Closes : (a : Answers) → Closes (opened a) (opened a + close_fails a) (piped sys argv0 a)
  unfolding piped parent
  piped-Closes a = elim (Option-cases a.pipe) [
    | inr (errno, e) ↦ rw (piped, e) ((_, refl), refl, refl)
    | inl e ↦ elim (Option-cases a.fork) [
      | inr (errno, f) ↦ rw (piped, e, f) ((_, refl), refl, refl)
      | inl f ↦ elim (Option-cases a.close) [
        | inr (errno, g) ↦ rw (piped, e, f, g) ((_, refl), refl, refl)
        | inl g ↦
            let (ends, reading, writing) = read_output-Closes a.reads a.wait in
            rw (piped, e, f, g) (ends, reading, ap suc writing)
      ]
    ]
  ]

-- Whatever the system answers, `execute` ends, with a status or an exception, and has closed each
-- end of the pipe that it opened: once, and the write end a second time where the first `close`
-- of it failed.
pub execute-Closes :
    (sys : Platform) (command : List Bytes) (a : Answers)
    → ((result : Result ℕ) × ((execute sys command a).0 ≡ some result))
      × (closings read_end (execute sys command a).1 ≡ opened a)
      × (closings write_end (execute sys command a).1 ≡ opened a + close_fails a)
unfolding execute
execute-Closes sys command a = piped-Closes sys (c_str (get_or command 0 [])) a
