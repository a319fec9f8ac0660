-- ===== src/Tests/Data.antt =====
-- Addresses, configurations and watchers that the examples share.
use blockad.Common.{true, [], ◌∷◌, ◌++◌, none, some, Bytes, codes, replicate, ok}
use blockad.Platform.{Regmatch}
use blockad.Address.{Address, AddressPattern, build_mask}
use blockad.Lexer.{Location}
use blockad.BlockMethod.{hosts_deny, AppendAnswers}
use blockad.StdioFile.{Opening, opened}
use blockad.Regex.{Regex}
use blockad.ConfFile.{ConfFile}
use blockad.Detector.{Blocker, Detector}
use blockad.Daemon.{Watcher, Creation, Daemon}
use blockad.Tests.Sample.{shown}

abbrev pub home : Address
home = record { address = replicate 10 0 ++ 255 ∷ 255 ∷ 127 ∷ 0 ∷ 0 ∷ 1 ∷ [] }

abbrev pub away : Address
away = record { address = replicate 10 0 ++ 255 ∷ 255 ∷ 192 ∷ 0 ∷ 2 ∷ 9 ∷ [] }

abbrev pub far : Address
far = record { address = 32 ∷ 1 ∷ 13 ∷ 184 ∷ replicate 12 0 }

abbrev pub here : Location
here = record { path = codes "blockad.conf"; lineno = 1 }

-- 127.0.0.0/8
abbrev pub loopback : AddressPattern
loopback = record {
  network = replicate 10 0 ++ 255 ∷ 255 ∷ 127 ∷ 0 ∷ 0 ∷ 0 ∷ [];
  mask = build_mask 16 0 104;
}

abbrev pub group : Regex
group = record { pattern = codes "F(.*)"; cflags = 1 }

abbrev pub loaded : ConfFile
loaded = record {
  files = codes "/log" ∷ [];
  patterns = record { regex = group; capture = 1 } ∷ [];
  exempted = loopback ∷ [];
  rate_max = 1;
  rate_interval = 60;
  block = hosts_deny (codes "/deny");
  location = record { path = codes "blockad.conf"; lineno = 6 };
}

abbrev pub text : Bytes
text =
    codes "# blockad\nwatch /log\naddress 'F(.*)'\nrate 1/min\nexempt "
    ++ shown (127 ∷ 0 ∷ 0 ∷ 0 ∷ [])
    ++ codes "/8\nblock hosts.deny /deny"

abbrev pub on_disk : Bytes → Opening
on_disk path = opened (record { chars = text; failure = none })

abbrev pub successes : AppendAnswers
successes = record { opening = none; writing = none; closing = none }

abbrev pub blocker : Blocker
blocker method a = ok (true, [])

abbrev pub nobody : Detector
nobody = record { address_data = []; effects = [] }

abbrev pub log_line : Bytes
log_line = codes "F" ++ shown (192 ∷ 0 ∷ 2 ∷ 9 ∷ [])

abbrev pub unset : Regmatch
unset = record { rm_so = none; rm_eo = none }

abbrev pub creating : Creation
creating path = ok tt

abbrev pub watcher : Watcher
watcher = record { serial = 0; path = codes "/log" }

abbrev pub daemon : Daemon
daemon = record {
  config = loaded;
  watchers = some watcher ∷ [];
  created = 1;
  detector = nobody;
  deleted = [];
  messages = [];
}

abbrev pub loopback_text : Bytes
loopback_text = shown (127 ∷ 0 ∷ 0 ∷ 0 ∷ []) ++ codes "/8"
