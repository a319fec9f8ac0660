-- ===== src/Tests/Lives.antt =====
-- Examples about the lives of objects: streams of watchers, signals in the pipe, compiled regular
-- expressions.
use blockad.Common.{
  c_str, ◌+◌, ◌*◌, ◌≤◌, ◌<◌, ◌≡◌, min, refl, true, false, List, [], ◌∷◌, arith, pos, Result, ok,
}
use blockad.LogFile.Streams.{
  Call, opening, closing, construct, lives, destroy_polling, destroy_inotify, destroy-closings,
}
use blockad.StdioFile.Handles.Ownership.{closings, holds, opened}
use blockad.Loop.Signals.{signal_all, reloads, drained, reloads-signal_all}
use blockad.Regex.Handles.{Heap, construct_compiled}
use blockad.Regex.Handles.Lifetimes.{empty}
use blockad.Regex.Handles.Constructor.{flags, Left, construct_compiled-Left}
use blockad.Tests.Sample.{sample}

abbrev twice_opened : List Call
twice_opened = opening true ∷ closing true ∷ opening true ∷ []

destroy-closings_example :
    (closings 1 (destroy_inotify (pos 4) (lives twice_opened construct)).closed
      ≡ opened 1 (lives twice_opened construct).next)
    × ((destroy_inotify (pos 4) (lives twice_opened construct)).fds_closed ≡ pos 4 ∷ [])
    × (closings 1 (destroy_polling (lives twice_opened construct)).closed
        ≡ opened 1 (lives twice_opened construct).next + holds 1 (lives twice_opened construct).fp)
destroy-closings_example = destroy-closings twice_opened (pos 4) 1 refl

reloads-signal_all_example :
    (0 < reloads 2 (signal_all 65536 6 0))
    × (reloads 2 (signal_all 65536 6 0) ≤ 6)
    × (min 6 65536 ≤ 4 * reloads 2 (signal_all 65536 6 0))
    × (4 * reloads 2 (signal_all 65536 6 0) ≤ min 6 65536 + 3)
    × (drained 2 (signal_all 65536 6 0) ≡ 0)
reloads-signal_all_example = reloads-signal_all 65536 6 2 (omega arith) (omega arith) (omega arith)

construct_compiled-Left_example :
    (r : Heap × Result (Unit {0})) × (construct_compiled sample [] 0 false empty ≡ ok r)
    × Left sample [] 0 false empty (sample.regcomp (c_str []) (flags sample [] 0 false empty)) r
construct_compiled-Left_example =
    construct_compiled-Left sample [] 0 false empty
      (record { counted = λ p. refl; fresh = λ p l. refl })
