-- ===== src/Daemon/Start.antt =====
-- `main` (src/blockad.cc) until its first wait. Log messages other than errors are left out.
use blockad.Common.{
  ℕ, Bool, true, false, List, [], ◌∷◌, ◌++◌, Option, none, some, Bytes, codes, if◌then◌else◌,
  Result, ok, throws, ◌>>=◌,
}
use blockad.Platform.{Platform}
use blockad.BlockMethod.{Registry}
use blockad.StdioFile.{Opening}
use blockad.ConfFile.{ConfFile, new_conf_file}
use blockad.Nonblock.{Flags, nonblock}
use blockad.Daemon.{
  Update, Creation, Outcome, running, exited, uncaught, redundant, update_watchers,
}

-- What `getopt` returns; it writes a message of its own for what it does not know.
pub data Flag : Type 0 where
  debugging_flag foreground_flag : Flag
  conffile_flag pidfile_flag : Bytes → Flag
  unknown_flag : Flag

pub record Options : Type 0 where
  pub debugging : Bool
  pub background : Bool
  pub conffile : Bytes
  pub pidfile : Option Bytes

abbrev pub default_options : Options
default_options = record {
  debugging = false;
  background = true;
  conffile = codes "/etc/blockad.conf";
  pidfile = none;
}

-- The loop over the options; `none` is `exit(1)`.
unfoldable pub parse_options : List Flag → Options → Option Options
parse_options [] o = some o
parse_options (debugging_flag ∷ flags) o = parse_options flags (record o { debugging = true })
parse_options (foreground_flag ∷ flags) o = parse_options flags (record o { background = false })
parse_options (conffile_flag path ∷ flags) o = parse_options flags (record o { conffile = path })
parse_options (pidfile_flag path ∷ flags) o = parse_options flags (record o { pidfile = some path })
parse_options (unknown_flag ∷ flags) o = none

-- The `errno`s of the calls that `main` makes at its start, where `none` is success, and the flags
-- of the two ends of the pipe of signals.
pub record Setup : Type 0 where
  pub daemonized : Option ℕ
  pub pid_written : Option ℕ
  pub piped : Option ℕ
  pub read_flags : Flags
  pub read_set : Option ℕ
  pub write_flags : Flags
  pub write_set : Option ℕ
  pub masked : Option ℕ
  pub installed : Option ℕ

-- `error("...: %s", strerror(errno))` and `exit(-1)` where a call fails.
abbrev pub unless : Platform → Bytes → Option ℕ → Outcome → Outcome
unless sys what none next = next
unless sys what (some errno) next = exited (what ++ codes ": " ++ sys.strerror errno)

-- The first watchers.
unfoldable pub launch : ConfFile → Result Update → Outcome
unfolding uncaught redundant
launch config (throws e) = uncaught e
launch config (ok u) = running (record {
  config = config;
  watchers = u.new_watchers;
  created = u.created;
  deleted = redundant u.old_watchers;
  detector = record { address_data = []; effects = [] };
  messages = [];
})

-- `main` behind the reading of the configuration.
unfoldable pub start_with : Platform → Creation → Setup → Result ConfFile → Outcome
unfolding launch uncaught update_watchers nonblock
start_with sys creation s (throws e) = uncaught e
start_with sys creation s (ok config) =
    unless sys (codes "pipe") s.piped
      (elim (nonblock sys s.read_flags s.read_set >>= λ f. nonblock sys s.write_flags s.write_set) [
        | throws e ↦ uncaught e
        | ok f ↦ unless sys (codes "sigprocmask") s.masked (
            unless sys (codes "sigaction") s.installed
              (launch config (update_watchers creation none config [] 0)))
      ])

-- `main` behind its options.
unfoldable pub start :
    Platform → Registry → (Bytes → Opening) → Creation → Setup → Options → Outcome
unfolding start_with
start sys registry fopen creation s o =
    let begin = start_with sys creation s (new_conf_file sys registry fopen o.conffile) in
    let recorded : Outcome = elim o.pidfile [
      | none ↦ begin
      | some path ↦ unless sys path s.pid_written begin
    ] in
    if o.background then unless sys (codes "daemon") s.daemonized recorded else recorded
