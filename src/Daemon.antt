-- ===== src/Daemon.antt =====
-- `updateWatchers` and the reloading of the configuration, of src/blockad.cc.
pub mod Watchers
pub mod Reload
pub mod Ownership
pub mod Start
pub mod Outcomes
pub mod Reach
pub mod Origins
pub mod Adoption
use blockad.Common.{
  ℕ, zero, suc, ◌+◌, Bool, true, false, List, [], ◌∷◌, ◌++◌, Option, none, some, Bytes, equal,
  length, get_elem?, set, if◌then◌else◌, Exception, syntax_error, runtime_error, out_of_range,
  undefined, Result, ok, throws, ◌>>=◌,
}
use blockad.Platform.{Platform}
use blockad.BlockMethod.{Registry}
use blockad.StdioFile.{Opening}
use blockad.ConfFile.{ConfFile, new_conf_file}
use blockad.Detector.{Detector}

-- A `BlockingWatcher`, told apart by the order of creation; `path` is the file that it watches.
pub record Watcher : Type 0 where
  pub serial : ℕ
  pub path : Bytes

-- A `std::vector<Watcher *>`, where `none` is a null pointer.
abbrev pub Watchers : Type 0
Watchers = List (Option Watcher)

-- The loop over `j` for one `i`, by the rounds left: the index of a watcher to re-use. The old
-- file at `i`, not at `j`, is compared.
unfoldable pub reuse_loop :
    ℕ → ℕ → ℕ → Bytes → List Bytes → Watchers → Result (Option (ℕ × Watcher))
reuse_loop zero j i file old_files old_watchers = ok none
reuse_loop (suc rounds) j i file old_files old_watchers =
    let next = reuse_loop rounds (suc j) i file old_files old_watchers in
    elim (get_elem? old_files i) [
      | none ↦ throws undefined
      | some old_file ↦
          if equal file old_file
          then elim (get_elem? old_watchers j) [
            | none ↦ throws undefined
            | some none ↦ next
            | some (some w) ↦ ok (some (j, w))
          ]
          else next
    ]

-- No old configuration is a null pointer.
unfoldable pub reusable : ℕ → Bytes → Option (List Bytes) → Watchers → Result (Option (ℕ × Watcher))
unfolding reuse_loop
reusable i file none old_watchers = ok none
reusable i file (some old_files) old_watchers =
    reuse_loop (length old_files) 0 i file old_files old_watchers

-- The vectors, and the number of watchers created so far.
pub record Update : Type 0 where
  pub old_watchers : Watchers
  pub new_watchers : Watchers
  pub created : ℕ

-- The constructor of a watcher, and `nonblock` on its descriptor, may throw.
abbrev pub Creation : Type 0
Creation = Bytes → Result (Unit {0})

unfoldable pub place : Creation → Bytes → Update → Option (ℕ × Watcher) → Result Update
place creation file u (some (j, w)) = ok (record u {
  old_watchers = set u.old_watchers j none;
  new_watchers = u.new_watchers ++ some w ∷ [];
})
place creation file u none = do
  _ ← creation file
  ok (record u {
    new_watchers = u.new_watchers ++ some (record { serial = u.created; path = file }) ∷ [];
    created = suc u.created;
  })

-- The loop over the new files from number `i` on.
unfoldable pub update_loop :
    Creation → ℕ → List Bytes → Option (List Bytes) → Update → Result Update
unfolding reusable place
update_loop creation i [] old_files u = ok u
update_loop creation i (file ∷ files) old_files u =
    (reusable i file old_files u.old_watchers >>= place creation file u) >>= λ u'.
    update_loop creation (suc i) files old_files u'

-- `updateWatchers` up to its last loop: the new vector, the old one with what is left to delete,
-- and the number created.
unfoldable pub update_watchers :
    Creation → Option ConfFile → ConfFile → Watchers → ℕ → Result Update
unfolding update_loop
update_watchers creation old_config new_config watchers created =
    update_loop creation 0 new_config.files
      (elim old_config [ none ↦ none | some c ↦ some c.files ])
      (record { old_watchers = watchers; new_watchers = []; created = created })

-- The state of `main` that outlives a turn of its outer loop.
pub record Daemon : Type 0 where
  pub config : ConfFile
  pub watchers : Watchers
  pub created : ℕ
  -- The watchers that have been deleted, the first one first.
  pub deleted : List Watcher
  pub detector : Detector
  pub messages : List Bytes

-- How a turn ends: the loop goes on, `exit(1)` after an `error` message, or `std::terminate`.
-- Undefined behaviour is kept apart.
pub data Outcome : Type 0 where
  running : Daemon → Outcome
  exited : Bytes → Outcome
  terminated : Outcome
  misbehaved : Outcome

-- The handler of `main` for what leaves the `try` block.
unfoldable pub uncaught : Exception → Outcome
uncaught (syntax_error what) = exited what
uncaught (runtime_error what) = exited what
uncaught out_of_range = terminated
uncaught undefined = misbehaved

-- The last loop of `updateWatchers`: the watchers that `delete` is called for, in order.
unfoldable pub redundant : Watchers → List Watcher
redundant [] = []
redundant (none ∷ ws) = redundant ws
redundant (some w ∷ ws) = w ∷ redundant ws

-- The configuration is read and the watchers are adjusted.
unfoldable pub adopt : Daemon → ConfFile → Result Update → Outcome
unfolding uncaught redundant
adopt d new_config (throws e) = uncaught e
adopt d new_config (ok u) = running (record d {
  config = new_config;
  watchers = u.new_watchers;
  created = u.created;
  deleted = d.deleted ++ redundant u.old_watchers;
})

-- The `catch(std::runtime_error &)` round the reading of the new configuration.
unfoldable pub reread : Creation → Daemon → Result ConfFile → Outcome
unfolding adopt update_watchers uncaught
reread creation d (ok new_config) =
    adopt d new_config (update_watchers creation (some d.config) new_config d.watchers d.created)
reread creation d (throws (syntax_error what)) =
    running (record d { messages = d.messages ++ what ∷ [] })
reread creation d (throws (runtime_error what)) =
    running (record d { messages = d.messages ++ what ∷ [] })
reread creation d (throws out_of_range) = uncaught out_of_range
reread creation d (throws undefined) = uncaught undefined

-- What `main` does after `SIGHUP`.
unfoldable pub reload :
    Platform → Registry → (Bytes → Opening) → Creation → Bytes → Daemon → Outcome
unfolding reread
reload sys registry fopen creation conffile d =
    reread creation d (new_conf_file sys registry fopen conffile)
