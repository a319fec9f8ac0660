-- ===== src/Tests/Systems.antt =====
-- Examples about watchers of the kernel's events, the loops of `main`, commands and compiled
-- regular expressions.
use blockad.Common.{
  ℕ, ◌+◌, ◌≡◌, refl, false, [], ◌∷◌, ◌++◌, map, none, some, codes, arith, ok, Result, ◌==◌,
  if◌then◌else◌, c_str,
}
use blockad.Regex.Handles.{
  Heap, compile, install, write, drop_old, contents, copy, assign, destroy, CompiledRegex,
}
use blockad.Regex.Handles.Counts.{IsCounted}
use blockad.Regex.Handles.Recompile.{IsBroken, compile-IsBroken}
use blockad.Regex.Handles.Lifetimes.{empty, Reach-IsCounted, Reach-safe}
use blockad.Regex.Handles.Lifetimes
use blockad.Log.{error}
use blockad.Execute.{Answers, exited, execute, report, line_message, hex, read_end, write_end}
use blockad.Execute.Descriptors.{closings, opened, close_fails, execute-Closes}
use blockad.Execute.Dump.{report-lines}
use blockad.StdioFile.Lines.{lines}
use blockad.StdioFile.Handles.{construct, drop_stream, open_path, fopen_into, write_file}
use blockad.StdioFile.Handles.Ownership.{Reach-closings}
use blockad.StdioFile.Handles.Ownership
use blockad.Tests.Sample.{sample}

abbrev compiled_one : Heap
compiled_one = record {
  handles = some 0 ∷ [];
  memory =
      write (λ p. none) 0 (some (record { refcount = 1; cflags = 1; compiled = some (codes "F") }));
  next = 1;
}

compiled_one_Reach : Lifetimes.Reach sample compiled_one
unfolding compile install drop_old sample c_str
compiled_one_Reach =
    Lifetimes.compiled {h' = compiled_one} {thrown = ok tt} 0 (codes "F") 0 false
      (Lifetimes.constructed Lifetimes.start) (omega arith) refl refl

Reach-IsCounted_example : IsCounted compiled_one
Reach-IsCounted_example = Reach-IsCounted compiled_one_Reach

Reach-safe_example :
    ((c : CompiledRegex) × (contents 0 compiled_one ≡ ok c))
    × ((h' : Heap) × (copy 0 compiled_one ≡ ok h'))
    × ((h' : Heap) × (assign 0 0 compiled_one ≡ ok h'))
    × ((h' : Heap) × (destroy 0 compiled_one ≡ ok h'))
Reach-safe_example = Reach-safe 0 0 0 compiled_one_Reach (omega arith) refl

compile-IsBroken_example :
    (r : Heap × Result (Unit {0})) × (compile sample 0 (codes "G") 0 false compiled_one ≡ ok r)
    × IsBroken 0 r.0
compile-IsBroken_example =
    compile-IsBroken sample 0 (codes "G") 0 false compiled_one 0 (omega arith) refl
      (Reach-IsCounted compiled_one_Reach)

abbrev answers : Answers
answers = record {
  pipe = none;
  fork = none;
  close = none;
  reads = record {
    chunks = some (codes "no ch") ∷ none ∷ some (codes "ain\nbye") ∷ [];
    last = none;
  };
  wait = exited 256;
}

execute-Closes_example :
    ((result : Result ℕ) × ((execute sample (codes "iptables" ∷ []) answers).0 ≡ some result))
    × (closings read_end (execute sample (codes "iptables" ∷ []) answers).1 ≡ opened answers)
    × (closings write_end (execute sample (codes "iptables" ∷ []) answers).1
        ≡ opened answers + close_fails answers)
execute-Closes_example = execute-Closes sample (codes "iptables" ∷ []) answers

report-lines_example :
    report (codes "iptables") 256 (codes "no chain\nbye")
    ≡ some (
        if 256 == 0
        then []
        else map (line_message (codes "iptables")) (lines (codes "no chain\nbye"))
          ++ error (codes "iptables" ++ codes " exited with status " ++ hex 256) ∷ [])
report-lines_example = report-lines (codes "iptables") 256 (codes "no chain\nbye")

Reach-closings_example :
    (Ownership.closings 0
        (drop_stream (open_path sample (codes "/deny") none (construct 0 [])).0).closed
      ≡ Ownership.opened 0 1)
    × (Ownership.closings 0 (write_file sample (codes "/deny") none (some 28) none 0 []).0.closed
        ≡ Ownership.opened 0 (write_file sample (codes "/deny") none (some 28) none 0 []).0.next)
unfolding open_path fopen_into write_file
Reach-closings_example =
    Reach-closings sample (codes "/deny") none (some 28) none 0
      (Ownership.opened_path (codes "/deny") none Ownership.constructed)
