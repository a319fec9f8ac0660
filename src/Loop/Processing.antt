-- ===== src/Loop/Processing.antt =====
-- What the watchers of `main` hand their lines to: the `processLine` of `BlockingWatcher`
-- (src/blockad.cc), with the lines counted.
use blockad.Common.{ℕ, suc, Bytes, Result, ok, ◌>>=◌}
use blockad.Platform.{Platform}
use blockad.ConfFile.{ConfFile}
use blockad.Detector.{Detector, Blocker, process_line}

-- The table of addresses, and the number of lines so far, by which `clocks` tells the time.
abbrev pub Progress : Type 0
Progress = Detector × ℕ

abbrev pub processing :
    Platform → Blocker → ConfFile → (clocks : ℕ → ℕ → ℕ) → Bytes → Progress → Result Progress
processing sys blocker config clocks line (d, n) =
    process_line sys blocker config (clocks n) line d >>= λ d'. ok (d', suc n)
