-- ===== src/Daemon/Reach.antt =====
-- The states of `main` (src/blockad.cc), from its start over detections and reloads.
use blockad.Common.{
  ℕ, ◌≡◌, subst, List, [], none, some, Bytes, length, arith, ok, ◌+◌, ◌++◌, Holds_of_eq,
}
use blockad.Platform.{Platform, InetLaws}
use blockad.BlockMethod.{Registry}
use blockad.StdioFile.{Opening}
use blockad.ConfFile.{ConfFile, new_conf_file}
use blockad.ConfFile.Validity.{IsValid}
use blockad.ConfFile.Reading.{new_conf_file-IsValid}
use blockad.Detector.{Detector, Blocker, process_line}
use blockad.Detector.Addresses.{Keys}
use blockad.Detector.Keys.{process_line-Keys}
use blockad.Daemon.{
  Watcher, Watchers, redundant, Update, Creation, Daemon, running, reload, update_watchers,
}
use blockad.Daemon.Watchers.{present}
use blockad.Daemon.Ownership.{
  owned, owned-present-append, owned-redundant, born, IsShared, update_watchers-IsShared,
}
use blockad.Daemon.Outcomes.{Runs, launched, adopted, reread-Runs, start-Runs}
use blockad.Daemon.Start.{Setup, Options, start}

-- What holds of the state of `main` while it waits.
pub record IsWellFormed (sys : Platform) (d : Daemon) : Type 0 where
  pub config : IsValid sys d.config
  -- There are as many watchers as files, and no null pointer. Which file a watcher watches is not
  -- said: one that is re-used may watch another than the file at its index.
  pub watching :
      (ws : List Watcher) × (d.watchers ≡ present ws) × (length ws ≡ length d.config.files)
  -- Each watcher that has been created is in use or has been deleted, and that once; no other is.
  pub once : (n : ℕ) → owned n d.watchers + owned n (present d.deleted) ≡ born n 0 d.created
  -- The keys of the map are addresses.
  pub keys : Keys d.detector.address_data

once_shared :
    (watchers : Watchers) (deleted : List Watcher) (first m : ℕ) (u : Update)
    → ((n : ℕ) → owned n watchers + owned n (present deleted) ≡ born n 0 first)
    → IsShared watchers first m u
    → (n : ℕ)
    → owned n u.new_watchers + owned n (present (deleted ++ redundant u.old_watchers))
      ≡ born n 0 u.created
once_shared watchers deleted first m u h k n = ground (
  arith,
  h n,
  k.shared n,
  k.from_first,
  owned-present-append n deleted (redundant u.old_watchers),
  owned-redundant n u.old_watchers,
)

module _ (sys : Platform) (laws : InetLaws sys) (registry : Registry) (blocker : Blocker) where
  -- The states that `main` reaches. The file system and what else the system answers are of the
  -- moment.
  pub data Reach : Daemon → Type 0 where
    started :
        {d : Daemon} (fopen : Bytes → Opening) (creation : Creation) (setup : Setup) (o : Options)
        → start sys registry fopen creation setup o ≡ running d
        → Reach d
    detected :
        {d : Daemon} (clock : ℕ → ℕ) (line : Bytes) (detector : Detector)
        → Reach d
        → process_line sys blocker d.config clock line d.detector ≡ ok detector
        → Reach (record d { detector = detector })
    reloaded :
        {d d' : Daemon} (fopen : Bytes → Opening) (creation : Creation) (conffile : Bytes)
        → Reach d
        → reload sys registry fopen creation conffile d ≡ running d'
        → Reach d'

  launched-IsWellFormed :
      (fopen : Bytes → Opening) (creation : Creation) (conffile : Bytes) (config : ConfFile)
      (u : Update)
      → new_conf_file sys registry fopen conffile ≡ ok config
      → update_watchers creation none config [] 0 ≡ ok u
      → IsWellFormed sys (launched config u)
  launched-IsWellFormed fopen creation conffile config u e f =
      let shared = update_watchers-IsShared creation none config [] 0 f in
      record {
        config = new_conf_file-IsValid sys laws registry fopen conffile e;
        watching = shared.here;
        once = once_shared [] [] 0 (length config.files) u (λ n. ground arith) shared;
        keys = tt;
      }

  adopted-IsWellFormed :
      (fopen : Bytes → Opening) (creation : Creation) (conffile : Bytes) (d : Daemon)
      (config : ConfFile) (u : Update)
      → IsWellFormed sys d
      → new_conf_file sys registry fopen conffile ≡ ok config
      → update_watchers creation (some d.config) config d.watchers d.created ≡ ok u
      → IsWellFormed sys (adopted d config u)
  adopted-IsWellFormed fopen creation conffile d config u h e f =
      let shared =
        update_watchers-IsShared creation (some d.config) config d.watchers d.created f in
      record {
        config = new_conf_file-IsValid sys laws registry fopen conffile e;
        watching = shared.here;
        once = once_shared d.watchers d.deleted d.created (length config.files) u h.once shared;
        keys = h.keys;
      }

  -- On a platform whose inet_pton and inet_ntop keep their promises, `main` waits only in states
  -- with a valid configuration and as many watchers as it has files, in which no pointer is null,
  -- each watcher that has been created is in use or has been deleted, and that once, and the keys
  -- of the map are addresses.
  pub Reach-IsWellFormed : {d : Daemon} → Reach d → IsWellFormed sys d
  unfolding reload
  Reach-IsWellFormed (started fopen creation setup o e) = subst (Runs (IsWellFormed sys)) e (
      start-Runs (IsWellFormed sys) sys registry fopen creation setup o.background o.debugging
        o.conffile o.pidfile (launched-IsWellFormed fopen creation o.conffile))
  Reach-IsWellFormed (detected clock line detector r e) =
      let h = Reach-IsWellFormed r in
      record {
        config = h.config;
        watching = h.watching;
        once = h.once;
        keys =
            Holds_of_eq (λ x. Keys x.address_data)
              (process_line-Keys sys laws blocker _ clock line _ h.keys) e;
      }
  Reach-IsWellFormed (reloaded {d} fopen creation conffile r e) =
      let h = Reach-IsWellFormed r in
      subst (Runs (IsWellFormed sys)) e (
        reread-Runs (IsWellFormed sys) creation d (new_conf_file sys registry fopen conffile)
          (λ config u f g. adopted-IsWellFormed fopen creation conffile d config u h f g)
          (λ what. record {
            config = h.config;
            watching = h.watching;
            once = h.once;
            keys = h.keys;
          }))
