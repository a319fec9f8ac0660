-- ===== src/Tests/Whole.antt =====
-- Examples about `main` as a whole and the life of its objects.
use blockad.Common.{
  runtime_error, Result, ◌≡◌, refl, true, false, List, [], ◌∷◌, ◌++◌, none, some, Bytes, length,
  codes, equal, c_str, find, arith, ok, pos, ◌>>=◌,
}
use blockad.Address.{Address, assign, as_string, is4, matches, build_mask, lt}
use blockad.Address.Order.{equivalent}
use blockad.BlockMethod.{static_registry, find_type, create}
use blockad.ConfFile.{new_conf_file}
use blockad.Detector.{detected_address, Detector, blocking, process_line, entry, is_exempted}
use blockad.Detector.Lines.{Detects, Refuses}
use blockad.Daemon.Start.{default_options, start}
use blockad.Daemon.Reach.{IsWellFormed}
use blockad.Daemon.Reach
use blockad.LogFile.{new_polling, open_file, open_failed, pollfd, work}
use blockad.Loop.Processing.{processing}
use blockad.Detector.Addresses.{detect_all}
use blockad.LogFile.Turn.{cut_lines}
use blockad.Loop.{Polled, PollAnswers, polling, selected, is_due, turn, after, is_set}
use blockad.Loop.Passes.{Found, smooth, polled_after}
use blockad.Loop.Timeout.{clock}
use blockad.System.{
  System, Moment, goes_on, ended, objects_of, put_new, put_back, advance, behind_turn, iterate,
  iterate_all, boot,
}
use blockad.System.Runs.{polling-Watches, iterate_all-Reach}
use blockad.Daemon.{Daemon, uncaught}
use blockad.System.Makers.{make_polling}
use blockad.System.Fatal.{iterate_refused}
use blockad.System.Attack.{behind, turn-detect_all, iterate_attack, detects, finished}
use blockad.Tests.Sample.{sample, sample-InetLaws, shown}
use blockad.Tests.Data.{
  away, group, loaded, on_disk, blocker, log_line, unset, creating, daemon, nobody,
}
use blockad.Tests.Turns.{setup, idle, nothing}

abbrev conffile : Bytes
conffile = codes "blockad.conf"

abbrev waiting : System Polled
waiting = record { daemon = daemon; objects = λ n. idle; lines = 0 }

daemon_Reach : Reach.Reach sample sample-InetLaws static_registry blocker daemon
unfolding start new_conf_file static_registry find_type create equal sample c_str
    blockad.Regex.compile blockad.Regex.captures blockad.Strtol.strtol
    blockad.Address.assign_pattern blockad.Address.convert find blockad.Address.substring
    blockad.BlockMethod.create_from
daemon_Reach =
    Reach.started {d = daemon} on_disk creating setup
      (record default_options { conffile = conffile }) refl

-- The logfiles do not exist yet.
abbrev maker : Bytes → Result Polled
maker path =
    make_polling sample (processing sample blocker loaded (λ n i. 100)) 101 (λ p. open_failed 2)
      path

-- Two attacks have been logged.
abbrev twice : Found
twice = record {
  now = 101;
  stat = none;
  more = nothing;
  anew = record { chars = log_line ++ b'\n' ∷ log_line ++ b'\n' ∷ []; failure = none };
  id = record { dev = 1; ino = 7 };
}

attacked : Detects sample loaded.patterns (log_line ++ b'\n' ∷ []) away
unfolding as_string c_str sample is4
attacked = record {
  before = [];
  pattern = record { regex = group; capture = 1 };
  behind = [];
  listed = refl;
  unmatched_before = tt;
  unmatched_behind = tt;
  groups_before = record { rm_so = some 0; rm_eo = some 6 } ∷ [];
  groups_behind = unset ∷ [];
  start = codes "F";
  text = shown (192 ∷ 0 ∷ 2 ∷ 9 ∷ []);
  rest = b'\n' ∷ [];
  matched = refl;
  captured = refl;
  composed = refl;
  bytes = (omega arith, omega arith);
  printed = refl;
}

abbrev moment : Moment PollAnswers Polled
moment = record {
  waiting = smooth (λ nfds fds t. selected []) (clock 100 250000) (clock 101 5) (λ k. twice);
  clocks = λ n i. 100;
  fopen = on_disk;
  make = maker;
}

iterate_attack_example :
    (d : Detector) × (iterate sample static_registry blocker
        (λ process. polling sample process)
        (pos 3)
        conffile
        moment
        waiting
      ≡ goes_on (advance waiting (polled_after twice idle ∷ []) (d, 2)))
    × ((entry away d.address_data).blocked ≡ true)
unfolding is_due pollfd cut_lines objects_of is_exempted matches build_mask equivalent lt
iterate_attack_example =
    iterate_attack sample sample-InetLaws static_registry blocker (pos 3) conffile waiting
      (idle ∷ []) (λ n i. 100) (λ nfds fds t. selected []) (clock 100 250000) (clock 101 5)
      (λ k. twice) [] on_disk maker (λ a. (true, [])) 100 away ((100, away) ∷ (100, away) ∷ [])
      (λ a. refl) daemon_Reach refl (λ k. record { more = refl; anew = refl }) refl refl
      (detects attacked (detects attacked finished)) refl refl
      (omega arith, omega arith, refl, (omega arith, omega arith, refl, tt)) refl (omega arith)

turn-detect_all_example :
    turn sample
      (polling sample (processing sample blocker loaded (λ n i. 100)))
      (pos 3)
      moment.waiting
      (idle ∷ [])
      (nobody, 0)
    ≡ after (is_set (pos 3) []) (
        detect_all blocker loaded ((100, away) ∷ (100, away) ∷ []) nobody
        >>= behind (polled_after twice idle ∷ []) 2)
unfolding is_due pollfd cut_lines
turn-detect_all_example =
    turn-detect_all sample sample-InetLaws blocker loaded (λ n i. 100) (pos 3)
      (λ nfds fds t. selected []) (clock 100 250000) (clock 101 5) (λ k. twice) [] (idle ∷ [])
      nobody 0 ((100, away) ∷ (100, away) ∷ []) (λ k. record { more = refl; anew = refl }) refl
      (detects attacked (detects attacked finished))

-- The daemon behind its start, and behind a turn in which it has blocked an address.
abbrev booted : System Polled
booted = record {
  daemon = daemon;
  objects = put_new maker 0 daemon.watchers (λ n. idle);
  lines = 0;
}

abbrev blocked : Detector
blocked = record {
  address_data = (away, record { times = 100 ∷ 100 ∷ []; blocked = true }) ∷ [];
  effects = blocking away ∷ [];
}

abbrev attacked_state : System Polled
attacked_state = advance booted (polled_after twice idle ∷ []) (blocked, 2)

one_turn :
    iterate_all sample static_registry blocker
      (λ process. polling sample process)
      (pos 3)
      conffile
      (moment ∷ [])
      booted
    ≡ goes_on attacked_state
unfolding iterate_all iterate turn behind_turn work process_line sample c_str find
    blockad.Regex.execute assign blockad.Address.convert blockad.Address.substring matches
    build_mask put_new put_back is_due pollfd cut_lines objects_of equivalent lt make_polling
one_turn = refl

started :
    boot sample static_registry blocker
      (λ process. polling sample process)
      (pos 3)
      conffile
      on_disk
      maker
      idle
      setup
      (record default_options { conffile = conffile })
    ≡ goes_on booted
unfolding boot start new_conf_file static_registry find_type create equal sample c_str
    blockad.Regex.compile blockad.Regex.captures blockad.Strtol.strtol
    blockad.Address.assign_pattern blockad.Address.convert find blockad.Address.substring
    blockad.BlockMethod.create_from put_new make_polling new_polling open_file
started = refl

iterate_all-Reach_example :
    Reach.Reach sample sample-InetLaws static_registry blocker attacked_state.daemon
    × IsWellFormed sample attacked_state.daemon
    × (os : List Polled) × (objects_of attacked_state.objects attacked_state.daemon.watchers
        ≡ ok os)
    × (length os ≡ length attacked_state.daemon.config.files)
iterate_all-Reach_example =
    iterate_all-Reach sample sample-InetLaws static_registry blocker
      (λ process. polling sample process) (polling-Watches sample) (pos 3) conffile on_disk maker
      idle setup (record default_options { conffile = conffile }) (moment ∷ []) booted
      attacked_state started one_turn

-- A host name has been logged.
abbrev named : Found
named = record twice {
  anew = record {
    chars = log_line ++ b'\n' ∷ codes "F?\n" ++ log_line ++ b'\n' ∷ [];
    failure = none;
  };
}

refused : Refuses sample loaded.patterns (codes "F?\n") (runtime_error (codes "Invalid address"))
unfolding assign c_str sample find blockad.Address.convert blockad.Address.substring
refused = record {
  before = [];
  pattern = record { regex = group; capture = 1 };
  behind = [];
  listed = refl;
  unmatched_before = tt;
  groups_before = record { rm_so = some 0; rm_eo = some 3 } ∷ [];
  groups_behind = unset ∷ [];
  start = codes "F";
  text = codes "?";
  rest = codes "\n";
  matched = refl;
  captured = refl;
  composed = refl;
  refused = refl;
}

abbrev seen_once : Detector
seen_once = record {
  address_data = (away, record { times = 100 ∷ []; blocked = false }) ∷ [];
  effects = [];
}

iterate_refused_example :
    iterate sample static_registry blocker
      (λ process. polling sample process)
      (pos 3)
      conffile
      (record moment {
        waiting = smooth (λ nfds fds t. selected []) (clock 100 250000) (clock 101 5) (λ k. named);
      })
      waiting
    ≡ ended (uncaught (runtime_error (codes "Invalid address")))
unfolding is_due pollfd cut_lines objects_of detected_address matches build_mask
iterate_refused_example =
    iterate_refused sample sample-InetLaws static_registry blocker (pos 3) conffile waiting
      (idle ∷ []) (λ n i. 100) (λ nfds fds t. selected []) (clock 100 250000) (clock 101 5)
      (λ k. named) [] on_disk maker ((log_line ++ b'\n' ∷ []) ∷ []) ((log_line ++ b'\n' ∷ []) ∷ [])
      (codes "F?\n") ((100, away) ∷ []) seen_once (runtime_error (codes "Invalid address")) refl
      (λ k. record { more = refl; anew = refl }) refl refl (detects attacked finished) refl refused
