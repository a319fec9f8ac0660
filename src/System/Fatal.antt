-- ===== src/System/Fatal.antt =====
-- src/PollingWatcher.cc and src/blockad.cc together: a line of a logfile that ends the daemon.
use blockad.Common.{
  ℕ, ◌+◌, ◌≡◌, ap, ◌∙◌, List, ◌∷◌, ◌++◌, Option, Bytes, length, ℤ, Exception, Result, ok, throws,
  ◌>>=◌,
}
use blockad.Platform.{Platform, InetLaws}
use blockad.Address.{Address}
use blockad.BlockMethod.{Registry}
use blockad.StdioFile.{Opening}
use blockad.ConfFile.{ConfFile}
use blockad.Detector.{Blocker, Detector}
use blockad.Detector.Addresses.{detect_all}
use blockad.Detector.Lines.{Refuses, process_line-throws}
use blockad.Daemon.{uncaught}
use blockad.LogFile.Turn.{process_all, process_all-append}
use blockad.Timeval.{Timeval}
use blockad.Loop.{Polled, polling, Selected, selected, after, is_set, threw, wait_for, waits}
use blockad.Loop.Passes.{Found, IsReadable, due_lines, all_after, hands, smooth, turn-hands}
use blockad.Loop.Processing.{processing}
use blockad.System.{System, ended, objects_of, behind_turn, iterate}
use blockad.System.Attack.{Reads, process_all-detect_all, iterate-turn}

module _ (sys : Platform) (laws : InetLaws sys) (blocker : Blocker) (config : ConfFile)
    (clocks : ℕ → ℕ → ℕ) where
  -- The lines before go through, and one is refused.
  hands-throws :
      {V : Type 0} (v : V) (n : ℕ) (earlier later : List Bytes) (line : Bytes)
      (events : List (ℕ × Address)) (d : Detector) {d' : Detector} (x : Exception)
      → Reads sys config.patterns clocks n earlier events
      → detect_all blocker config events d ≡ ok d'
      → Refuses sys config.patterns line x
      → hands (processing sys blocker config clocks) v (earlier ++ line ∷ later) (d, n) ≡ throws x
  hands-throws v n earlier later line events d {d'} x reads through r =
      let process = processing sys blocker config clocks in
      ap (λ q. q >>= λ s. ok (v, s))
        (process_all-append process earlier (line ∷ later) (d, n)
          ∙ ap (λ q. q >>= process_all process (line ∷ later))
              (process_all-detect_all sys laws blocker config clocks d reads
                ∙ ap (λ q. q >>= λ e. ok (e, n + length earlier)) through)
          ∙ ap (λ q. (q >>= λ e. ok (e, ℕ.suc (n + length earlier))) >>= process_all process later)
              (process_line-throws sys blocker config (clocks (n + length earlier)) line x d' r))

module _ (sys : Platform) (laws : InetLaws sys) (registry : Registry) (blocker : Blocker)
    (signal_fd : ℤ) (conffile : Bytes) (s : System Polled) (ws : List Polled) (clocks : ℕ → ℕ → ℕ)
    (selecting : ℤ → List ℤ → Option Timeval → Selected) (before now : Timeval) (found : ℕ → Found)
    (fds : List ℤ) (fopen : Bytes → Opening) (make : Bytes → Result Polled) where
  -- With watchers that poll their files, where inet_pton and inet_ntop keep their promises, no call
  -- fails and the files can be opened and read: if, of the lines that the watchers find in a turn,
  -- those before some line are without a match or detections that go through, and the first pattern
  -- that matches that line has a text in its capture group for which `Address` throws, then `main`
  -- ends as it does for that exception, whatever the lines behind hold.
  pub iterate_refused :
      (earlier later : List Bytes) (line : Bytes) (events : List (ℕ × Address)) (d : Detector)
      (x : Exception)
      → objects_of s.objects s.daemon.watchers ≡ ok ws
      → ((k : ℕ) → IsReadable (found k))
      → wait_for
          (smooth selecting before now found)
          (waits (polling sys (processing sys blocker s.daemon.config clocks)) signal_fd ws)
        ≡ selected fds
      → due_lines sys (processing sys blocker s.daemon.config clocks) fds now found 0 ws
        ≡ earlier ++ line ∷ later
      → Reads sys s.daemon.config.patterns clocks s.lines earlier events
      → detect_all blocker s.daemon.config events s.daemon.detector ≡ ok d
      → Refuses sys s.daemon.config.patterns line x
      → iterate sys registry blocker
          (λ process. polling sys process)
          signal_fd
          conffile
          (record {
            waiting = smooth selecting before now found;
            clocks = clocks;
            fopen = fopen;
            make = make;
          })
          s
        ≡ ended (uncaught x)
  unfolding behind_turn
  iterate_refused earlier later line events d x listed readable woken there reads through r =
      let process = processing sys blocker s.daemon.config clocks in
      let left = all_after sys process fds now found 0 ws in
      iterate-turn sys laws registry blocker signal_fd conffile s ws clocks selecting before now
        found fds fopen make (threw x) listed
        (turn-hands sys process signal_fd selecting before now found fds ws
            (s.daemon.detector, s.lines) readable woken
          ∙ ap
              (λ lines.
                after (is_set signal_fd fds)
                  (hands process left lines (s.daemon.detector, s.lines)))
              there
          ∙ ap (after (is_set signal_fd fds)) (
              hands-throws sys laws blocker s.daemon.config clocks left s.lines earlier later line
                events s.daemon.detector x reads through r))
