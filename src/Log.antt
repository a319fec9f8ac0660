-- ===== src/Log.antt =====
-- src/log.h and src/log.cc: messages, and where they are written. `printf` formatting stands where
-- a message is made.
use blockad.Common.{Bool, List, [], ◌∷◌, ◌++◌, Bytes, codes, if◌then◌else◌}

-- The priorities of <syslog.h> that are used.
pub data Level : Type 0 where
  log_err log_warning log_info log_debug : Level

-- What `vlog` points to.
pub data Sink : Type 0 where
  stderrlog vsyslog : Sink

-- What is written: characters to `stderr`, or a message to the system's log.
pub data Written : Type 0 where
  to_stderr : Bytes → Written
  to_syslog : Level → Bytes → Written

pub record Logger : Type 0 where
  pub vlog : Sink
  pub debugging : Bool

-- A message and its priority.
pub record Message : Type 0 where
  pub level : Level
  pub text : Bytes

abbrev pub pritab : Level → Bytes
pritab log_err = codes "ERROR"
pritab log_warning = codes "WARNING"
pritab log_info = codes "INFO"
pritab log_debug = codes "DEBUG"

unfoldable pub write_to : Sink → Level → Bytes → Written
write_to stderrlog level text = to_stderr (pritab level ++ codes ": " ++ text ++ b'\n' ∷ [])
write_to vsyslog level text = to_syslog level text

-- `info`, `error` and `warn`, and `debug`, which is written only while debugging.
unfoldable pub log : Logger → Message → List Written
unfolding write_to
log l m = elim m.level [
  | log_debug ↦ if l.debugging then write_to l.vlog log_debug m.text ∷ [] else []
  | level ↦ write_to l.vlog level m.text ∷ []
]

-- `useSyslog(ident)`
abbrev pub use_syslog : Logger → Logger
use_syslog l = record l { vlog = vsyslog }

abbrev pub info : Bytes → Message
info text = record { level = log_info; text = text }

abbrev pub error : Bytes → Message
error text = record { level = log_err; text = text }

abbrev pub warn : Bytes → Message
warn text = record { level = log_warning; text = text }

abbrev pub debug : Bytes → Message
debug text = record { level = log_debug; text = text }
