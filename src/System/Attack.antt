-- ===== src/System/Attack.antt =====
-- src/PollingWatcher.cc and src/blockad.cc together: what a turn of the inner loop of `main` makes
-- of the lines of the logfiles, from their bytes to the blocking of an address.
use blockad.Common.{
  ℕ, suc, ◌+◌, ◌<◌, ◌≡◌, sym, ap, ◌∙◌, Bool, true, false, List, [], ◌∷◌, Option, Bytes, All, length,
  arith, Result, ok, ◌>>=◌, ℤ, bind_assoc, bind_cong,
}
use blockad.Platform.{Platform, InetLaws}
use blockad.Address.{Address}
use blockad.BlockMethod.{Action}
use blockad.ConfFile.{ConfFile, Match}
use blockad.Detector.{Blocker, Detector, entry, is_exempted, detected_address}
use blockad.Detector.Addresses.{IsAddress, detect_all}
use blockad.Detector.Attack.{detections, IsBurst, detect_all-blocked}
use blockad.Detector.Lines.{
  IsUnmatched, Detects, process_line_unmatched, process_line-detected_address,
}
use blockad.LogFile.Turn.{process_all}
use blockad.BlockMethod.{Registry}
use blockad.StdioFile.{Opening}
use blockad.Timeval.{Timeval}
use blockad.Daemon.Reach.{Reach, Reach-IsWellFormed}
use blockad.System.{System, Moment, goes_on, objects_of, advance, behind_turn, iterate}
use blockad.Loop.{
  Polled, PollAnswers, polling, Turn, Selected, selected, after, turn, is_set, wait_for, waits,
}
use blockad.Loop.Passes.{Found, IsReadable, due_lines, all_after, hands, smooth, turn-hands}
use blockad.Loop.Processing.{Progress, processing}

-- The detections that lines mean, from line number `n` on: a line that no pattern matches means
-- nothing, and one that one pattern matches, with a printed address in its group, a detection of
-- that address, at the time that the clock shows while that pattern is at work.
pub data Reads (sys : Platform) (patterns : List Match) (clocks : ℕ → ℕ → ℕ)
    : ℕ → List Bytes → List (ℕ × Address) → Type 0 where
  finished : {n : ℕ} → Reads sys patterns clocks n [] []
  unmatched :
      {n : ℕ} {line : Bytes} {lines : List Bytes} {events : List (ℕ × Address)}
      → All (IsUnmatched sys line) patterns
      → Reads sys patterns clocks (suc n) lines events
      → Reads sys patterns clocks n (line ∷ lines) events
  detects :
      {n : ℕ} {line : Bytes} {lines : List Bytes} {a : Address} {events : List (ℕ × Address)}
      → (D : Detects sys patterns line a) → Reads sys patterns clocks (suc n) lines events
      → Reads sys patterns clocks n (line ∷ lines) ((clocks n (length D.before), a) ∷ events)

abbrev pub progress : ℕ → Detector → Result Progress
progress n d = ok (d, n)

abbrev pub behind : {V : Type 0} → V → ℕ → Detector → Result (V × Progress)
behind v n d = ok (v, (d, n))

module _ (sys : Platform) (laws : InetLaws sys) (blocker : Blocker) (config : ConfFile)
    (clocks : ℕ → ℕ → ℕ) where
  counted :
      (n : ℕ) (line : Bytes) (lines : List Bytes) (r : Result Detector)
      → (r >>= progress (suc n + length lines)) ≡ (r >>= progress (n + length (line ∷ lines)))
  counted n line lines r = bind_cong r _ _ (λ d. ap (λ k. ok (d, k)) (omega arith))

  -- What `processLine` makes of all lines in turn is what their detections in turn make.
  pub process_all-detect_all :
      {n : ℕ} {lines : List Bytes} {events : List (ℕ × Address)} (d : Detector)
      → Reads sys config.patterns clocks n lines events
      → process_all (processing sys blocker config clocks) lines (d, n)
        ≡ (detect_all blocker config events d >>= progress (n + length lines))
  process_all-detect_all {n} d finished = ap (λ k. ok (d, k)) (omega arith)
  process_all-detect_all {n} d (unmatched {line = line} {lines = lines} {events = events} u rest) =
      rw (process_line_unmatched sys blocker config (clocks n) line d u)
        (process_all-detect_all d rest ∙ counted n line lines (detect_all blocker config events d))
  process_all-detect_all {n} d
        (detects {line = line} {lines = lines} {a = a} {events = events} D rest) =
      rw (process_line-detected_address sys blocker config (clocks n) line a d laws D) (
        bind_assoc (detected_address blocker config (clocks n (length D.before)) a d) _ _
        ∙ bind_cong (detected_address blocker config (clocks n (length D.before)) a d) _ _ (λ d'.
          process_all-detect_all d' rest
          ∙ counted n line lines (detect_all blocker config events d'))
        ∙ sym (bind_assoc (detected_address blocker config (clocks n (length D.before)) a d) _ _))

  hands-detect_all :
      {V : Type 0} (v : V) (n : ℕ) (lines : List Bytes) (events : List (ℕ × Address)) (d : Detector)
      → Reads sys config.patterns clocks n lines events
      → hands (processing sys blocker config clocks) v lines (d, n)
        ≡ (detect_all blocker config events d >>= behind v (n + length lines))
  hands-detect_all v n lines events d reads =
      ap (λ (r : Result Progress). r >>= λ s. ok (v, s)) (process_all-detect_all d reads)
      ∙ bind_assoc (detect_all blocker config events d) _ _

module _ (sys : Platform) (laws : InetLaws sys) (blocker : Blocker) (config : ConfFile)
    (clocks : ℕ → ℕ → ℕ) (signal_fd : ℤ) (selecting : ℤ → List ℤ → Option Timeval → Selected)
    (before now : Timeval) (found : ℕ → Found) (fds : List ℤ) (ws : List Polled) where
  -- The lines that the watchers hand over in the turn.
  abbrev pub turn_lines : List Bytes
  turn_lines = due_lines sys (processing sys blocker config clocks) fds now found 0 ws

  -- The watchers after the turn.
  abbrev pub watchers_after : List Polled
  watchers_after = all_after sys (processing sys blocker config clocks) fds now found 0 ws

  -- Where no call fails, the files can be opened and read, and inet_pton and inet_ntop keep their
  -- promises, a turn of the inner loop with watchers that poll their files is, for the table of
  -- addresses, the detections that the lines mean which the watchers that are due find, in their
  -- order: it ends with what a detection throws or goes on, by the pipe of signals, with a number
  -- of lines that has grown by that of the lines found.
  pub turn-detect_all :
      (d : Detector) (n : ℕ) (events : List (ℕ × Address))
      → ((k : ℕ) → IsReadable (found k))
      → wait_for
          (smooth selecting before now found)
          (waits (polling sys (processing sys blocker config clocks)) signal_fd ws)
        ≡ selected fds
      → Reads sys config.patterns clocks n turn_lines events
      → turn sys
          (polling sys (processing sys blocker config clocks))
          signal_fd
          (smooth selecting before now found)
          ws
          (d, n)
        ≡ after
            (is_set signal_fd fds)
            (detect_all blocker config events d >>= behind watchers_after (n + length turn_lines))
  turn-detect_all d n events readable woken reads =
      turn-hands sys (processing sys blocker config clocks) signal_fd selecting before now found fds
        ws (d, n) readable woken
      ∙ ap (after (is_set signal_fd fds)) (
          hands-detect_all sys laws blocker config clocks watchers_after n turn_lines events d
            reads)

module _ (sys : Platform) (laws : InetLaws sys) (registry : Registry) (blocker : Blocker)
    (signal_fd : ℤ) (conffile : Bytes) (s : System Polled) (ws : List Polled) (clocks : ℕ → ℕ → ℕ)
    (selecting : ℤ → List ℤ → Option Timeval → Selected) (before now : Timeval) (found : ℕ → Found)
    (fds : List ℤ) (fopen : Bytes → Opening) (make : Bytes → Result Polled) where
  abbrev config : ConfFile
  config = s.daemon.config

  abbrev moment : Moment PollAnswers Polled
  moment = record {
    waiting = smooth selecting before now found;
    clocks = clocks;
    fopen = fopen;
    make = make;
  }

  abbrev lines_found : List Bytes
  lines_found =
      turn_lines sys laws blocker config clocks signal_fd selecting before now found fds ws

  abbrev left : List Polled
  left = watchers_after sys laws blocker config clocks signal_fd selecting before now found fds ws

  pub iterate-turn :
      (t : Turn Polled Progress)
      → objects_of s.objects s.daemon.watchers ≡ ok ws
      → turn sys
          (polling sys (processing sys blocker config clocks))
          signal_fd
          (smooth selecting before now found)
          ws
          (s.daemon.detector, s.lines)
        ≡ t
      → iterate sys registry blocker (λ process. polling sys process) signal_fd conffile moment s
        ≡ behind_turn sys registry blocker
            (λ process. polling sys process)
            signal_fd
            conffile
            moment
            s
            t
  unfolding iterate
  iterate-turn t listed same =
      rw (listed, iterate)
        (ap
          (behind_turn sys registry blocker (λ process. polling sys process) signal_fd conffile
            moment s)
          same)

  -- In any state that `main` reaches with watchers that poll their files, where inet_pton and
  -- inet_ntop keep their promises, no call fails, the files can be opened and read, every blocking
  -- has an answer and that of the address `a`, which is not exempted, is a success: if the lines
  -- that the watchers find in a turn, in however many files, detect `a` more than `rate_max` times
  -- and all detections fall within `rate_interval`, and no signal has come, then `main` goes on
  -- with `a` marked as blocked.
  pub iterate_attack :
      (answer : (b : Address) → Bool × List Action) (first : ℕ) (a : Address)
      (events : List (ℕ × Address))
      → ((b : Address) → blocker s.daemon.config.block b ≡ ok (answer b))
      → Reach sys laws registry blocker s.daemon
      → objects_of s.objects s.daemon.watchers ≡ ok ws
      → ((k : ℕ) → IsReadable (found k))
      → wait_for
          (smooth selecting before now found)
          (waits (polling sys (processing sys blocker s.daemon.config clocks)) signal_fd ws)
        ≡ selected fds
      → is_set signal_fd fds ≡ false
      → Reads sys s.daemon.config.patterns clocks s.lines lines_found events
      → (answer a).0 ≡ true
      → is_exempted s.daemon.config.exempted a ≡ false
      → IsBurst first s.daemon.config.rate_interval events
      → IsAddress a
      → s.daemon.config.rate_max < detections a events
      → (d : Detector) × (iterate sys registry blocker
            (λ process. polling sys process)
            signal_fd
            conffile
            moment
            s
          ≡ goes_on (advance s left (d, s.lines + length lines_found)))
        × ((entry a d.address_data).blocked ≡ true)
  unfolding behind_turn
  iterate_attack answer first a events answers reach listed readable woken quiet reads done spared
        burst ha many =
      let keys = (Reach-IsWellFormed sys laws registry blocker reach).keys in
      let (d, run, marked) =
        detect_all-blocked blocker config answer answers first a events s.daemon.detector done
          spared burst ha keys many in
      let whole =
        turn-detect_all sys laws blocker config clocks signal_fd selecting before now found fds ws
          s.daemon.detector s.lines events readable woken reads
        ∙ ap (λ r. after (is_set signal_fd fds) (r >>= behind left (s.lines + length lines_found)))
            run
        ∙ ap (λ b. after b (ok (left, (d, s.lines + length lines_found)))) quiet in
      (d, iterate-turn _ listed whole, marked)
