-- ===== src/Execute.antt =====
-- src/execute.cc: running a command. The system's answers are arguments; the loops that go on while
-- they are interrupted are given the interruptions that come before the last answer.
pub mod Descriptors
pub mod Dump
use blockad.Common.{
  ℕ, zero, suc, ◌+◌, ◌-◌, ◌/◌, ◌%◌, Bool, true, false, not, ◌&&◌, ◌||◌, List, [], ◌∷◌, ◌++◌, map,
  Option, none, some, Bytes, codes, c_str, find, take, drop, length, get_or, ltb, ◌==◌,
  if◌then◌else◌, Exception, Result, ok, throws, ◌>>=◌,
}
use blockad.Platform.{Platform}
use blockad.IoError.{io_error, system_error}
use blockad.Log.{Message, info, error, debug}

-- The two descriptors of the pipe.
pub data End : Type 0 where
  read_end write_end : End

-- Whether the variables `p[0]` and `p[1]` hold a descriptor, and `pid` a process.
pub record Held : Type 0 where
  pub p0 : Bool
  pub p1 : Bool
  pub pid : Bool

pub data Call : Type 0 where
  closes : End → Call
  -- `waitpid(pid, NULL, WNOHANG)`
  reaps : Call
  logs : Message → Call

-- What the calls of `read` return: data, or `none` for `EINTR`; then the end of the file, or an
-- `errno`.
pub record Reads : Type 0 where
  pub chunks : List (Option Bytes)
  pub last : Option ℕ

-- What `waitpid` returns behind interruptions: a status, or an `errno`.
pub data Wait : Type 0 where
  exited : ℕ → Wait
  wait_failed : ℕ → Wait

pub record Answers : Type 0 where
  -- `errno` of `pipe`, of `fork` and of the parent's `close(p[1])`, if they fail
  pub pipe : Option ℕ
  pub fork : Option ℕ
  pub close : Option ℕ
  pub reads : Reads
  pub wait : Wait

-- `output.append(buffer, n)` for what was read.
unfoldable pub collect : List (Option Bytes) → Bytes
collect [] = []
collect (none ∷ chunks) = collect chunks
collect (some chunk ∷ chunks) = chunk ++ collect chunks

-- The last character is a newline.
unfoldable pub ends_line : Bytes → Bool
ends_line [] = false
ends_line (c ∷ []) = c == b'\n'
ends_line (c ∷ d ∷ text) = ends_line (d ∷ text)

-- `if(output.size() && output.at(output.size() - 1) != '\n') output += '\n';`
unfoldable pub terminate : Bytes → Bytes
unfolding ends_line
terminate output =
    if not (length output == 0) && not (ends_line output) then output ++ b'\n' ∷ [] else output

-- The loop that finds the lines, by the rounds left. A line with no newline would make it start
-- again from the beginning for ever, which is `none`.
unfoldable pub dump_loop : ℕ → Bytes → Option (List Bytes)
dump_loop fuel [] = some []
dump_loop zero (c ∷ text) = none
dump_loop (suc fuel) (c ∷ text) = elim (find b'\n' (c ∷ text)) [
  | none ↦ none
  | some nl ↦ elim (dump_loop fuel (drop (suc nl) (c ∷ text))) [
    | none ↦ none
    | some ls ↦ some (take nl (c ∷ text) ∷ ls)
  ]
]

unfoldable pub dump : Bytes → Option (List Bytes)
unfolding dump_loop terminate
dump output = dump_loop (length (terminate output)) (terminate output)

-- `%#x` of a number that is not 0.
hex_from : ℕ → ℕ → Bytes → Bytes
hex_from zero n out = out
hex_from (suc rounds) n out =
    let digits = (if ltb (n % 16) 10 then b'0' + n % 16 else b'a' + (n % 16 - 10)) ∷ out in
    let rest = hex_from rounds (n / 16) digits in if ltb n 16 then digits else rest

unfoldable pub hex : ℕ → Bytes
unfolding hex_from
hex n = codes "0x" ++ hex_from (suc n) n []

-- `info("%s: %.*s", argv[0], …)` for each line; the conversion ends at a NUL.
abbrev pub line_message : Bytes → Bytes → Message
line_message argv0 line = info (argv0 ++ codes ": " ++ c_str line)

-- What is logged of a command that failed.
unfoldable pub report : Bytes → ℕ → Bytes → Option (List Message)
unfolding dump hex
report argv0 ws output = if ws == 0 then some [] else elim (dump output) [
  | none ↦ none
  | some ls ↦
      some (
        map (line_message argv0) ls ++ error (argv0 ++ codes " exited with status " ++ hex ws) ∷ [])
]

-- `cmd`, the words with blanks between them.
unfoldable pub command_line : List Bytes → Bytes
command_line [] = []
command_line (word ∷ []) = word
command_line (word ∷ next ∷ words) = word ++ b' ' ∷ command_line (next ∷ words)

-- `catch(...)`
abbrev pub clean_up : Held → List Call
clean_up h =
    (if h.p0 then closes read_end ∷ [] else [])
    ++ (if h.p1 then closes write_end ∷ [] else [])
    ++ (if h.pid then reaps ∷ [] else [])

-- A result, or `none` for a loop that never ends, behind the calls that were made.
abbrev pub Run : Type 0
Run = Option (Result ℕ) × List Call

abbrev pub failed : Exception → Held → Run
failed e h = (some (throws e), clean_up h)

abbrev pub behind : List Call → Run → Run
behind calls r = (r.0, calls ++ r.1)

module _ (sys : Platform) (argv0 : Bytes) where
  -- Behind the reaping of the child.
  unfoldable pub finish : ℕ → Bytes → Run
  unfolding report
  finish ws output = elim (report argv0 ws output) [
    | none ↦ (none, [])
    | some messages ↦ (some (ok ws), map logs messages)
  ]

  unfoldable pub wait_child : Wait → Bytes → Run
  unfolding finish system_error
  wait_child (exited ws) output = finish ws output
  wait_child (wait_failed errno) output =
      failed (system_error sys (codes "waiting for subprocess") errno)
        (record { p0 = false; p1 = false; pid = true })

  unfoldable pub read_output : Reads → Wait → Run
  unfolding wait_child collect io_error
  read_output r w = elim r.last [
    | some errno ↦
        failed (io_error sys (codes "reading from pipe") errno)
          (record { p0 = true; p1 = false; pid = true })
    | none ↦ behind (closes read_end ∷ []) (wait_child w (collect r.chunks))
  ]

  -- The parent, behind `fork`.
  unfoldable pub parent : Answers → Run
  unfolding read_output io_error
  parent a = behind (closes write_end ∷ []) (elim a.close [
    | some errno ↦
        failed (io_error sys (codes "closing read end of pipe") errno)
          (record { p0 = true; p1 = true; pid = true })
    | none ↦ read_output a.reads a.wait
  ])

  unfoldable pub piped : Answers → Run
  unfolding parent system_error io_error
  piped a = elim a.pipe [
    | some errno ↦
        failed (io_error sys (codes "creating pipe") errno)
          (record { p0 = false; p1 = false; pid = false })
    | none ↦ elim a.fork [
      | some errno ↦
          failed (system_error sys (codes "creating subprocess") errno)
            (record { p0 = true; p1 = true; pid = false })
      | none ↦ parent a
    ]
  ]

-- `execute(command)`, whose words are C strings to `execvp`. No words at all fail an assertion.
unfoldable pub execute : Platform → List Bytes → Answers → Run
unfolding piped command_line
execute sys command a =
    behind (logs (debug (codes "execute: " ++ command_line (map c_str command))) ∷ [])
      (piped sys (c_str (get_or command 0 [])) a)

-- What the child does behind `fork`: it writes to `stderr` and exits, or becomes the program.
pub data Child : Type 0 where
  exits : Bytes → Child
  becomes : Bytes → List Bytes → Child

-- `plumbed` is whether `dup2` and `close` all succeed; the others are `errno`s.
unfoldable pub child : Platform → List Bytes → Bool → Option ℕ → Option ℕ → Child
child sys argv plumbed masked executed = if not plumbed then exits [] else elim masked [
  | some errno ↦ exits (codes "sigprocmask: " ++ sys.strerror errno ++ codes "\n")
  | none ↦ elim executed [
    | some errno ↦
        exits
          (codes "executing " ++ get_or argv 0 [] ++ codes ": " ++ sys.strerror errno ++ codes "\n")
    | none ↦ becomes (get_or argv 0 []) argv
  ]
]
