-- ===== src/Daemon/Adoption.antt =====
-- Reloading in `main` (src/blockad.cc), where the new configuration file is accepted.
use blockad.Platform.{Platform}
use blockad.ConfFile.{ConfFile}
use blockad.Daemon.{Watchers, Daemon}
use blockad.Daemon.Reach.{Reach}
