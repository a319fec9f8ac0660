-- ===== src/System/History.antt =====
-- src/blockad.cc: what a run of `main` does outside, turn by turn.
use blockad.Common.{◌≡◌, List, [], ◌∷◌, ◌++◌, Bytes, All, ℤ, Result}
use blockad.Platform.{Platform}
use blockad.BlockMethod.{Registry}
use blockad.ConfFile.{ConfFile}
use blockad.Detector.{Detector, Effect, Blocker}
use blockad.Detector.Exempt.{Spares, Adds}
use blockad.Daemon.{Creation, Daemon, Outcome, running, reload}
use blockad.Loop.{Implementation}
use blockad.Loop.Processing.{Progress}
use blockad.System.{System, Moment, Iterated, goes_on, ended, iterate}
use blockad.System.Runs.{Watches}
use blockad.System

-- The record of detections behind a reload.
abbrev kept : Detector → Outcome → Detector
kept detector (running d) = d.detector
kept detector _ = detector

-- The effects of each turn, with the configurations that are in force in them.
abbrev pub AllPermitted : List ConfFile → List (List Effect) → Type 0
AllPermitted [] [] = Unit
AllPermitted [] (piece ∷ pieces) = ⊥
AllPermitted (config ∷ configs) [] = ⊥
AllPermitted (config ∷ configs) (piece ∷ pieces) =
    All (Spares config) piece × AllPermitted configs pieces

abbrev pub all_of : List (List Effect) → List Effect
all_of [] = []
all_of (piece ∷ pieces) = piece ++ all_of pieces

module _ (sys : Platform) (registry : Registry) (blocker : Blocker) {A W : Type 0}
    (watching : (Bytes → Progress → Result Progress) → Implementation A W Progress)
    (watches : Watches watching) (signal_fd : ℤ) (conffile : Bytes) where
  -- What has been done is what was done before and what the configuration allows.
  abbrev Grows : System W → System W → Type 0
  Grows s s' = Adds s.daemon.config s.daemon.detector.effects s'.daemon.detector

  abbrev Passes : System W → Progress → Type 0
  Passes s (detector, n) = Adds s.daemon.config s.daemon.detector.effects detector

  unfoldable pub configs_in_force : List (Moment A W) → System W → List ConfFile
  configs_in_force [] s = []
  configs_in_force (m ∷ moments) s =
      s.daemon.config ∷ (elim (iterate sys registry blocker watching signal_fd conffile m s) [
        | ended o ↦ []
        | goes_on s' ↦ configs_in_force moments s'
      ])

  -- The turns have done outside, each in its turn, what its configuration permits, and no more.
  abbrev pub History : List (Moment A W) → System W → System W → Type 0
  History moments s s' =
      (pieces : List (List Effect)) × (s'.daemon.detector.effects
        ≡ s.daemon.detector.effects ++ all_of pieces)
      × AllPermitted (configs_in_force moments s) pieces
