-- ===== src/Daemon/Reload.antt =====
-- What `main` (src/blockad.cc) does with its state when it reads the configuration anew.
use blockad.Common.{
  ◌≡◌, refl, ap, ◌∙◌, List, [], ◌∷◌, ◌++◌, none, some, Bytes, IsByte, All, Exception, syntax_error,
  runtime_error, out_of_range, undefined, Result, ok, throws, ◌>>=◌,
}
use blockad.Platform.{Platform}
use blockad.BlockMethod.{Registry, BlockMethodType, find_type, create}
use blockad.Lexer.{Location, split_line}
use blockad.Lexer.RoundTrip.{escaped, split_line_trailing_backslash}
use blockad.StdioFile.{Opening, opened}
use blockad.StdioFile.Lines.{lines}
use blockad.ConfFile.{
  ConfFile, new_conf_file, block_default, defaults, parse, parse_line, parse_bits, next_line,
  located,
}
use blockad.ConfFile.Lines.{parse_lines, parse-parse_lines}
use blockad.Daemon.{
  Update, Creation, Daemon, Outcome, running, terminated, misbehaved, reread, adopt, uncaught,
  reload,
}

-- What a reload may do to the state of the daemon.
abbrev pub Reloaded : Daemon → Result ConfFile → Outcome → Type 0
Reloaded d (ok cf) (running d') =
    (d'.config ≡ cf) × (d'.detector ≡ d.detector) × (d'.messages ≡ d.messages)
Reloaded d (throws (syntax_error what)) (running d') =
    d' ≡ record d { messages = d.messages ++ what ∷ [] }
Reloaded d (throws (runtime_error what)) (running d') =
    d' ≡ record d { messages = d.messages ++ what ∷ [] }
Reloaded d (throws out_of_range) o = o ≡ terminated
Reloaded d (throws undefined) o = o ≡ misbehaved
Reloaded d (throws (syntax_error what)) o = ⊥
Reloaded d (throws (runtime_error what)) o = ⊥
Reloaded d (ok cf) o = Unit

adopt-Reloaded :
    (d : Daemon) (cf : ConfFile) (r : Result Update) → Reloaded d (ok cf) (adopt d cf r)
unfolding adopt uncaught
adopt-Reloaded d cf (ok u) = (refl, refl, refl)
adopt-Reloaded d cf (throws (syntax_error what)) = tt
adopt-Reloaded d cf (throws (runtime_error what)) = tt
adopt-Reloaded d cf (throws out_of_range) = tt
adopt-Reloaded d cf (throws undefined) = tt

reread-Reloaded :
    (creation : Creation) (d : Daemon) (r : Result ConfFile) → Reloaded d r (reread creation d r)
unfolding reread
reread-Reloaded creation d (ok cf) = adopt-Reloaded d cf _
reread-Reloaded creation d (throws (syntax_error what)) = refl
reread-Reloaded creation d (throws (runtime_error what)) = refl
reread-Reloaded creation d (throws out_of_range) = refl
reread-Reloaded creation d (throws undefined) = refl

-- A reload after which the daemon runs keeps the record of detections. If the new file was read
-- its configuration is the one in use; if it was refused with a `std::runtime_error`, the daemon
-- runs on with the old configuration and the old watchers, and the message is logged. A
-- `std::out_of_range` ends the process by `std::terminate`.
pub reload-Reloaded :
    (sys : Platform) (registry : Registry) (fopen : Bytes → Opening) (creation : Creation)
    (conffile : Bytes) (d : Daemon)
    → Reloaded d
        (new_conf_file sys registry fopen conffile)
        (reload sys registry fopen creation conffile d)
unfolding reload
reload-Reloaded sys registry fopen creation conffile d =
    reread-Reloaded creation d (new_conf_file sys registry fopen conffile)

module _ (sys : Platform) (registry : Registry) where
  parse_line-throws :
      (cf : ConfFile) (line : Bytes) {e : Exception}
      → split_line cf.location line ≡ throws e
      → parse_line sys registry cf line ≡ throws e
  unfolding parse_line
  parse_line-throws cf line e = ap (λ r. r >>= parse_bits sys registry cf) e

  out_of_range-located :
      (l : Location) {r : Result ConfFile}
      → r ≡ throws out_of_range
      → located l r ≡ throws out_of_range
  unfolding located
  out_of_range-located l e = rw e

  parse_lines_trailing :
      (cf : ConfFile) (w : Bytes) (rest : List Bytes)
      → All IsByte w
      → parse_lines sys registry cf ((b'"' ∷ escaped w (b'\\' ∷ [])) ∷ rest) ≡ throws out_of_range
  unfolding parse_lines
  parse_lines_trailing cf w rest h =
      ap (λ r. r >>= λ done. parse_lines sys registry done rest)
        (out_of_range-located (next_line cf).location (
          parse_line-throws (next_line cf) (b'"' ∷ escaped w (b'\\' ∷ []))
            (split_line_trailing_backslash (next_line cf).location w h)))

  new_conf_file-eq :
      (fopen : Bytes → Opening) (path : Bytes) {type : BlockMethodType}
      → find_type registry block_default ≡ some type
      → new_conf_file sys registry fopen path
        ≡ parse sys registry (defaults path (create type)) (fopen path)
  unfolding new_conf_file
  new_conf_file-eq fopen path e = rw (e, new_conf_file)

  -- Where the default block method is registered, a configuration file that can be read and whose
  -- first line is a double quote, the escaped form of some bytes and a backslash, with no close
  -- quote, ends the daemon when it is reloaded, although the line is only badly formed.
  pub reload_trailing_backslash :
      (fopen : Bytes → Opening) (creation : Creation) (conffile : Bytes) (d : Daemon)
      (type : BlockMethodType) (chars w : Bytes) (rest : List Bytes)
      → find_type registry block_default ≡ some type
      → fopen conffile ≡ opened (record { chars = chars; failure = none })
      → lines chars ≡ (b'"' ∷ escaped w (b'\\' ∷ [])) ∷ rest
      → All IsByte w
      → reload sys registry fopen creation conffile d ≡ terminated
  unfolding reload reread
  reload_trailing_backslash fopen creation conffile d type chars w rest t o l h =
      ap (reread creation d) (
        new_conf_file-eq fopen conffile t
        ∙ ap (parse sys registry (defaults conffile (create type))) o
        ∙ parse-parse_lines sys registry (defaults conffile (create type)) chars
        ∙ ap (parse_lines sys registry (defaults conffile (create type))) l
        ∙ parse_lines_trailing (defaults conffile (create type)) w rest h)
