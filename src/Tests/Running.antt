-- ===== src/Tests/Running.antt =====
-- Examples about detections, watchers and reloading.
use blockad.Common.{
  ℕ, ◌≡◌, refl, true, false, List, [], ◌∷◌, none, some, Bytes, codes, arith, undefined, ok, throws,
  equal, c_str, ◌++◌,
}
use blockad.Address.{Address, build_mask, matches}
use blockad.Lexer.RoundTrip.{escaped}
use blockad.BlockMethod.{iptables_type, static_registry, find_type}
use blockad.StdioFile.{Opening, opened}
use blockad.StdioFile.Lines.{lines}
use blockad.ConfFile.{ConfFile}
use blockad.Detector.{AddressData, Detector, entry, is_exempted, observe, process_pattern}
use blockad.Detector.Window.{Monitor, Tracks, monitor, tries, observe-Tracks}
use blockad.Detector.Addresses.{detect_all, own, detect_all-own}
use blockad.Detector.Captures.{process_pattern_past_end}
use blockad.Daemon.{Watcher, Update, terminated, update_watchers, reload}
use blockad.Daemon.Watchers.{present, vacated, update_watchers_same, update_watchers_extended}
use blockad.Daemon.Origins.{AllOriginate, update_watchers-AllOriginate, update_watchers_misplaced}
use blockad.Daemon.Reload.{reload_trailing_backslash}
use blockad.Tests.Sample.{sample}
use blockad.LogFile.{Reading, Polling, opened_as, work}
use blockad.LogFile.Delivery.{note, Delivers, available, work-Delivers}
use blockad.Tests.Data.{
  home, away, group, loaded, blocker, nobody, unset, creating, watcher, daemon,
}

abbrev away_data : AddressData
away_data = record { times = 100 ∷ []; blocked = false }

abbrev away_monitor : Monitor
away_monitor = record { seen = 20 ∷ 100 ∷ []; is_blocked = false }

observe-Tracks_example :
    (ad' : AddressData) × (observe blocker loaded 130 away away_data
      ≡ ok (ad', tries blocker loaded away true [] refl 130 away_monitor))
    × Tracks loaded 130 ad' (monitor loaded true 130 away_monitor)
observe-Tracks_example =
    observe-Tracks blocker loaded away true [] refl 100 130 away_data away_monitor (omega arith)
      (record {
        same = refl;
        windowed = λ _. refl;
        ascending = ((omega arith, tt), (tt, tt));
        past = omega arith;
      })

abbrev events : List (ℕ × Address)
events = (100, away) ∷ (110, home) ∷ (120, away) ∷ (130, home) ∷ []

detect_all-own_example :
    (d : Detector) × (detect_all blocker loaded events nobody ≡ ok d)
    × ((entry away d.address_data).blocked
        ≡ (own loaded true away events (record { seen = []; is_blocked = false })).is_blocked)
unfolding is_exempted matches build_mask
detect_all-own_example =
    detect_all-own blocker loaded (λ a. (true, [])) (λ a. refl) events away
      ((omega arith, refl, (omega arith, refl, (omega arith, refl, (omega arith, refl, tt))))) refl
      refl

process_pattern_past_end_example :
    process_pattern sample blocker loaded
      (λ _. 100)
      0
      (record { regex = group; capture = 2 })
      (codes "F?")
      nobody
    ≡ throws undefined
unfolding c_str sample
process_pattern_past_end_example =
    process_pattern_past_end sample blocker loaded (λ _. 100) 0
      (record { regex = group; capture = 2 }) (codes "F?") nobody
      (record { rm_so = some 0; rm_eo = some 2 } ∷ record { rm_so = some 1; rm_eo = some 2 } ∷ [])
      (unset ∷ []) refl (refl, tt) (omega arith)

update_watchers_same_example :
    update_watchers creating (some loaded) loaded (present (watcher ∷ [])) 1
    ≡ ok (record { old_watchers = vacated 1; new_watchers = present (watcher ∷ []); created = 1 })
update_watchers_same_example =
    update_watchers_same creating loaded loaded (watcher ∷ []) 1 refl refl

abbrev longer : ConfFile
longer = record loaded { files = codes "/log" ∷ codes "/more" ∷ [] }

update_watchers_extended_example :
    update_watchers creating (some loaded) longer (present (watcher ∷ [])) 1 ≡ throws undefined
update_watchers_extended_example =
    update_watchers_extended creating loaded longer (watcher ∷ []) 1 refl (codes "/more") [] refl
      (omega arith)

abbrev unfinished : Bytes → Opening
unfinished path =
    opened (record { chars = b'"' ∷ escaped (codes "/log") (b'\\' ∷ []); failure = none })

reload_trailing_backslash_example :
    reload sample static_registry unfinished creating (codes "blockad.conf") daemon ≡ terminated
unfolding lines find_type static_registry equal
reload_trailing_backslash_example =
    reload_trailing_backslash sample static_registry unfinished creating (codes "blockad.conf")
      daemon iptables_type (b'"' ∷ escaped (codes "/log") (b'\\' ∷ [])) (codes "/log") [] refl refl
      refl (omega arith)

abbrev polling : Polling
polling = record {
  open_as = some (record { dev = 1; ino = 7 });
  line = codes "sshd: f";
  next = 100;
}

abbrev more_text : Reading
more_text = record { chars = codes "ail\nok"; failure = none }

work-Delivers_example :
    Delivers sample
      (codes "/log")
      (polling.line
        ++ available sample
            (codes "/log")
            polling
            (some (record { dev = 1; ino = 8 }))
            more_text
            more_text)
      []
      (work sample
        (codes "/log")
        note
        200
        (some (record { dev = 1; ino = 8 }))
        more_text
        (opened_as (record { dev = 1; ino = 8 }) more_text)
        polling
        [])
work-Delivers_example =
    work-Delivers sample (codes "/log") 200 (some (record { dev = 1; ino = 8 })) more_text more_text
      (record { dev = 1; ino = 8 }) polling [] refl refl (omega arith)

abbrev second : Watcher
second = record { serial = 1; path = codes "/b" }

abbrev two_files : ConfFile
two_files = record loaded { files = codes "/log" ∷ codes "/b" ∷ [] }

abbrev first_changed : ConfFile
first_changed = record loaded { files = codes "/x" ∷ codes "/b" ∷ [] }

abbrev mixed_up : Update
mixed_up = record {
  old_watchers = none ∷ some second ∷ [];
  new_watchers = some (record { serial = 2; path = codes "/x" }) ∷ some watcher ∷ [];
  created = 3;
}

update_watchers_misplaced_example :
    update_watchers creating (some two_files) first_changed (some watcher ∷ some second ∷ []) 2
    ≡ ok mixed_up
unfolding equal
update_watchers_misplaced_example =
    update_watchers_misplaced creating two_files first_changed watcher second (codes "/x") 2 refl
      refl refl refl

update_watchers-AllOriginate_example :
    AllOriginate
      (some watcher ∷ some second ∷ [])
      2
      (some two_files.files)
      0
      first_changed.files
      mixed_up.new_watchers
unfolding update_watchers equal
update_watchers-AllOriginate_example =
    update_watchers-AllOriginate creating (some two_files) first_changed
      (some watcher ∷ some second ∷ []) 2 {u = mixed_up} refl
