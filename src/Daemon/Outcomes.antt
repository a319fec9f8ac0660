-- ===== src/Daemon/Outcomes.antt =====
-- What holds of the state of `main` (src/blockad.cc) behind its start and behind a reload, if it
-- goes on.
use blockad.Common.{
  ℕ, ◌≡◌, refl, Bool, true, false, [], ◌∷◌, ◌++◌, Option, none, some, Bytes, codes, if◌then◌else◌,
  Exception, syntax_error, runtime_error, out_of_range, undefined, Result, ok, throws, ◌>>=◌,
}
use blockad.Platform.{Platform}
use blockad.BlockMethod.{Registry}
use blockad.StdioFile.{Opening}
use blockad.ConfFile.{ConfFile, new_conf_file}
use blockad.Nonblock.{nonblock}
use blockad.Daemon.{
  Update, Creation, Daemon, Outcome, running, exited, terminated, misbehaved, uncaught, redundant,
  adopt, reread, update_watchers,
}
use blockad.Daemon.Start.{Setup, unless, launch, start_with, start}

-- `P` holds of the state if `main` goes on.
abbrev pub Runs : (Daemon → Type 0) → Outcome → Type 0
Runs P (running d) = P d
Runs P _ = Unit

-- The state behind an update of the watchers, at the start and at a reload.
abbrev pub launched : ConfFile → Update → Daemon
launched config u = record {
  config = config;
  watchers = u.new_watchers;
  created = u.created;
  deleted = redundant u.old_watchers;
  detector = record { address_data = []; effects = [] };
  messages = [];
}

abbrev pub adopted : Daemon → ConfFile → Update → Daemon
adopted d config u = record d {
  config = config;
  watchers = u.new_watchers;
  created = u.created;
  deleted = d.deleted ++ redundant u.old_watchers;
}

module _ (P : Daemon → Type 0) where
  uncaught-Runs : (e : Exception) → Runs P (uncaught e)
  unfolding uncaught
  uncaught-Runs (syntax_error what) = tt
  uncaught-Runs (runtime_error what) = tt
  uncaught-Runs out_of_range = tt
  uncaught-Runs undefined = tt

  unless-Runs :
      (sys : Platform) (what : Bytes) (errno : Option ℕ) (next : Outcome)
      → Runs P next
      → Runs P (unless sys what errno next)
  unless-Runs sys what none next h = h
  unless-Runs sys what (some errno) next h = tt

  adopt-Runs :
      (d : Daemon) (config : ConfFile) (r : Result Update)
      → ((u : Update) → r ≡ ok u → P (adopted d config u))
      → Runs P (adopt d config r)
  unfolding adopt
  adopt-Runs d config (throws e) h = uncaught-Runs e
  adopt-Runs d config (ok u) h = h u refl

  launch-Runs :
      (config : ConfFile) (r : Result Update)
      → ((u : Update) → r ≡ ok u → P (launched config u))
      → Runs P (launch config r)
  unfolding launch
  launch-Runs config (throws e) h = uncaught-Runs e
  launch-Runs config (ok u) h = h u refl

  -- Behind the reading of a new configuration the state has a new one, or one message more.
  pub reread-Runs :
      (creation : Creation) (d : Daemon) (r : Result ConfFile)
      → ((config : ConfFile) (u : Update)
          → r ≡ ok config
          → update_watchers creation (some d.config) config d.watchers d.created ≡ ok u
          → P (adopted d config u))
      → ((what : Bytes) → P (record d { messages = d.messages ++ what ∷ [] }))
      → Runs P (reread creation d r)
  unfolding reread
  reread-Runs creation d (ok config) h k = adopt-Runs d config _ (λ u e. h config u refl e)
  reread-Runs creation d (throws (syntax_error what)) h k = k what
  reread-Runs creation d (throws (runtime_error what)) h k = k what
  reread-Runs creation d (throws out_of_range) h k = uncaught-Runs out_of_range
  reread-Runs creation d (throws undefined) h k = uncaught-Runs undefined

  start_with-Runs :
      (sys : Platform) (creation : Creation) (setup : Setup) (r : Result ConfFile)
      → ((config : ConfFile) (u : Update)
          → r ≡ ok config
          → update_watchers creation none config [] 0 ≡ ok u
          → P (launched config u))
      → Runs P (start_with sys creation setup r)
  unfolding start_with
  start_with-Runs sys creation setup (throws e) h = uncaught-Runs e
  start_with-Runs sys creation setup (ok config) h = unless-Runs sys (codes "pipe") setup.piped _ (
      masking (
        nonblock sys setup.read_flags setup.read_set >>= λ f.
        nonblock sys setup.write_flags setup.write_set))
    where
      begun : Outcome
      begun = unless sys (codes "sigprocmask") setup.masked (
          unless sys (codes "sigaction") setup.installed
            (launch config (update_watchers creation none config [] 0)))

      begun-Runs : Runs P begun
      begun-Runs = unless-Runs sys (codes "sigprocmask") setup.masked _ (
          unless-Runs sys (codes "sigaction") setup.installed _
            (launch-Runs config _ (λ u e. h config u refl e)))

      masking : (r : Result ℕ) → Runs P (elim r [ throws e ↦ uncaught e | ok f ↦ begun ])
      masking (throws e) = uncaught-Runs e
      masking (ok f) = begun-Runs

  -- Behind its start the state has the configuration that was read, and its watchers.
  pub start-Runs :
      (sys : Platform) (registry : Registry) (fopen : Bytes → Opening) (creation : Creation)
      (setup : Setup) (background : Bool) (debugging : Bool) (conffile : Bytes)
      (pidfile : Option Bytes)
      → ((config : ConfFile) (u : Update)
          → new_conf_file sys registry fopen conffile ≡ ok config
          → update_watchers creation none config [] 0 ≡ ok u
          → P (launched config u))
      → Runs P (
          start sys registry fopen creation setup (record {
            debugging = debugging;
            background = background;
            conffile = conffile;
            pidfile = pidfile;
          }))
  unfolding start
  start-Runs sys registry fopen creation setup background debugging conffile pidfile h =
      in_background background (recording pidfile)
    where
      begin : Outcome
      begin = start_with sys creation setup (new_conf_file sys registry fopen conffile)

      recorded : Option Bytes → Outcome
      recorded p = elim p [ none ↦ begin | some path ↦ unless sys path setup.pid_written begin ]

      recording : (p : Option Bytes) → Runs P (recorded p)
      recording none = start_with-Runs sys creation setup _ h
      recording (some path) =
          unless-Runs sys path setup.pid_written begin (start_with-Runs sys creation setup _ h)

      in_background :
          (b : Bool)
          → Runs P (recorded pidfile)
          → Runs P (
              if b
              then unless sys (codes "daemon") setup.daemonized (recorded pidfile)
              else recorded pidfile)
      in_background true k = unless-Runs sys (codes "daemon") setup.daemonized _ k
      in_background false k = k

pub Runs-running :
    (P : Daemon → Type 0) (o : Outcome) → ((d : Daemon) → o ≡ running d → P d) → Runs P o
Runs-running P (running d) h = h d refl
Runs-running P (exited message) h = tt
Runs-running P terminated h = tt
Runs-running P misbehaved h = tt
