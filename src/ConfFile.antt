-- ===== src/ConfFile.antt =====
-- src/ConfFile.h and src/ConfFile.cc: the configuration and the parser of its file. An exception
-- out of `parseLine` ends the constructor, and the object goes with it, so that the model keeps
-- no state behind an exception.
pub mod Lines
pub mod Validity
pub mod Reading
pub mod Errors
pub mod Blame
use blockad.Common.{
  ℕ, zero, suc, ◌+◌, ◌*◌, Bool, true, false, not, ◌&&◌, ◌||◌, List, [], ◌∷◌, ◌++◌, Option, none,
  some, Bytes, codes, c_str, equal, length, get_or, ltb, ◌==◌, if◌then◌else◌, ℤ, pos, pos_part,
  ltb_ℤ, to_ulong, int_max, uint_max, Exception, syntax_error, runtime_error, out_of_range,
  undefined, Result, ok, throws, ◌>>=◌,
}
use blockad.Platform.{Platform}
use blockad.Strtol.{Strtol, strtol}
use blockad.Address.{AddressPattern, anything, assign_pattern}
use blockad.Lexer.{Location, syntax, split_line}
use blockad.BlockMethod.{BlockMethod, BlockMethodType, Registry, find_type, create, create_from}
use blockad.Regex.{Regex, compile, captures}
use blockad.StdioFile.{Stream, Opening, open_file, readline}

-- `ConfFile::Match`
pub record Match : Type 0 where
  pub regex : Regex
  pub capture : ℕ

pub record ConfFile : Type 0 where
  pub files : List Bytes
  pub patterns : List Match
  pub exempted : List AddressPattern
  pub rate_max : ℕ
  pub rate_interval : ℕ
  pub block : BlockMethod
  pub location : Location

-- `throw SyntaxError(this, s)`
abbrev pub refuse {ℓ} : {A : Type ℓ} → ConfFile → Bytes → Result A
refuse cf s = throws (syntax cf.location s)

unfoldable pub parse_watch : ConfFile → List Bytes → Result ConfFile
unfolding syntax
parse_watch cf bits =
    if ltb (length bits) 2
    then refuse cf (codes "missing argument to 'watch'")
    else if ltb 2 (length bits)
    then refuse cf (codes "excess arguments to 'watch'")
    else ok (record cf { files = cf.files ++ get_or bits 1 [] ∷ [] })

-- The strings that `strtol` set `errno` to `ERANGE` for are told apart first.
unfoldable pub capture_argument : Platform → ConfFile → Strtol → Result ℤ
unfolding syntax
capture_argument sys cf r =
    if r.erange
    then refuse cf (codes "invalid capture argument to 'address': " ++ sys.strerror 34)
    else if not r.converted
        || not (length r.end == 0)
        || ltb_ℤ r.value (pos 1)
        || ltb_ℤ (pos int_max) r.value
    then refuse cf (codes "invalid capture argument to 'address'")
    else ok r.value

unfoldable pub capture_number : Platform → ConfFile → List Bytes → Result ℤ
unfolding capture_argument
capture_number sys cf bits =
    if length bits == 3
    then capture_argument sys cf (strtol (c_str (get_or bits 2 [])))
    else ok (pos 1)

unfoldable pub add_match : Platform → ConfFile → Regex → ℤ → Result ConfFile
unfolding syntax
add_match sys cf r c =
    if captures sys r == 0
    then refuse cf (codes "no captures in regexp")
    else if ltb (captures sys r) (to_ulong c)
    then refuse cf (codes "capture out of range")
    else ok
        (record cf { patterns = cf.patterns ++ (record { regex = r; capture = pos_part c }) ∷ [] })

unfoldable pub parse_address : Platform → ConfFile → List Bytes → Result ConfFile
unfolding syntax capture_number add_match
parse_address sys cf bits =
    if ltb (length bits) 2
    then refuse cf (codes "missing argument to 'address'")
    else if ltb 3 (length bits)
    then refuse cf (codes "excess arguments to 'address'")
    else (do
      c ← capture_number sys cf bits
      r ← compile sys (get_or bits 1 []) 0 false
      add_match sys cf r c)

-- The interval behind the count.
unfoldable pub interval : Bytes → Option ℕ
interval end =
    if equal end (codes "/minute") || equal end (codes "/min")
    then some 60
    else if equal end (codes "/hour")
    then some (60 * 60)
    else if equal end (codes "/day")
    then some (60 * 60 * 24)
    else if equal end (codes "/week")
    then some (60 * 60 * 24 * 7)
    else none

unfoldable pub set_rate : Platform → ConfFile → Strtol → Result ConfFile
unfolding syntax interval
set_rate sys cf r =
    if r.erange
    then refuse cf (codes "invalid count for 'rate': " ++ sys.strerror 34)
    else if not r.converted || ltb_ℤ r.value (pos 1) || ltb uint_max (to_ulong r.value)
    then refuse cf (codes "invalid count for 'rate'")
    else elim (interval r.end) [
      | none ↦ refuse cf (codes "invalid interval for 'rate'")
      | some seconds ↦ ok (record cf { rate_max = pos_part r.value; rate_interval = seconds })
    ]

unfoldable pub parse_rate : Platform → ConfFile → List Bytes → Result ConfFile
unfolding syntax set_rate
parse_rate sys cf bits =
    if ltb (length bits) 2
    then refuse cf (codes "missing argument to 'rate'")
    else if ltb 2 (length bits)
    then refuse cf (codes "excess arguments to 'rate'")
    else set_rate sys cf (strtol (c_str (get_or bits 1 [])))

-- The pattern that the constructor fills has no value before; `anything` stands for it.
unfoldable pub add_exempted : ConfFile → AddressPattern × Result (Unit {0}) → Result ConfFile
add_exempted cf (p, ok _) = ok (record cf { exempted = cf.exempted ++ p ∷ [] })
add_exempted cf (p, throws e) = throws e

unfoldable pub parse_exempt : Platform → ConfFile → List Bytes → Result ConfFile
unfolding syntax add_exempted
parse_exempt sys cf bits =
    if ltb (length bits) 2
    then refuse cf (codes "missing argument to 'exempt'")
    else if ltb 2 (length bits)
    then refuse cf (codes "excess arguments to 'exempt'")
    else add_exempted cf (assign_pattern sys (get_or bits 1 []) anything)

unfoldable pub set_block : ConfFile → List Bytes → Option BlockMethodType → Result ConfFile
unfolding syntax
set_block cf bits none = refuse cf (codes "unknown block method '" ++ get_or bits 1 [] ++ codes "'")
set_block cf bits (some type) = do
  method ← create_from type cf.location bits
  ok (record cf { block = method })

unfoldable pub parse_block : Registry → ConfFile → List Bytes → Result ConfFile
unfolding syntax set_block
parse_block registry cf bits =
    if ltb (length bits) 2
    then refuse cf (codes "missing argument to 'block'")
    else set_block cf bits (find_type registry (get_or bits 1 []))

-- The chain of tests on the first word.
unfoldable pub parse_bits : Platform → Registry → ConfFile → List Bytes → Result ConfFile
unfolding parse_watch parse_address parse_rate parse_exempt parse_block syntax
parse_bits sys registry cf [] = ok cf
parse_bits sys registry cf (command ∷ args) =
    if equal command (codes "watch")
    then parse_watch cf (command ∷ args)
    else if equal command (codes "address")
    then parse_address sys cf (command ∷ args)
    else if equal command (codes "rate")
    then parse_rate sys cf (command ∷ args)
    else if equal command (codes "exempt")
    then parse_exempt sys cf (command ∷ args)
    else if equal command (codes "block")
    then parse_block registry cf (command ∷ args)
    else refuse cf (codes "unrecognized command '" ++ command ++ codes "'")

unfoldable pub parse_line : Platform → Registry → ConfFile → Bytes → Result ConfFile
unfolding parse_bits split_line
parse_line sys registry cf line = do
  bits ← split_line cf.location line
  parse_bits sys registry cf bits

-- The handlers of `parse`: a location is attached to the errors that have none, and what is no
-- `std::runtime_error` goes through.
unfoldable pub located : Location → Result ConfFile → Result ConfFile
unfolding syntax
located l (throws (runtime_error what)) = throws (syntax l what)
located l r = r

-- `++lineno`
abbrev pub next_line : ConfFile → ConfFile
next_line cf = record cf {
  location = record { path = cf.location.path; lineno = cf.location.lineno + 1 };
}

-- The loop of `parse`. Every turn reads a character, so the fuel of `parse` is never used up
-- (ConfFile/Lines).
unfoldable pub parse_loop : ℕ → Platform → Registry → ConfFile → Stream → Result ConfFile
unfolding located parse_line readline
parse_loop zero sys registry cf f = throws undefined
parse_loop (suc fuel) sys registry cf f = elim (readline sys cf.location.path f) [
  | throws e ↦ throws e
  | ok (there, line, rest) ↦
      let next = next_line cf in
      elim there [
        | false ↦ ok cf
        | true ↦ elim (located next.location (parse_line sys registry next line)) [
          | throws e ↦ throws e
          | ok done ↦ parse_loop fuel sys registry done (record f { chars = rest })
        ]
      ]
]

unfoldable pub parse : Platform → Registry → ConfFile → Opening → Result ConfFile
unfolding parse_loop open_file
parse sys registry cf opening = do
  f ← open_file sys cf.location.path opening
  parse_loop (suc (length f.chars)) sys registry cf f

abbrev pub rate_max_default : ℕ
rate_max_default = 5

abbrev pub rate_interval_default : ℕ
rate_interval_default = 60 * 60

abbrev pub block_default : Bytes
block_default = codes "iptables"

-- The members that the constructor sets before it calls `parse`, which sets `lineno`.
abbrev pub defaults : Bytes → BlockMethod → ConfFile
defaults path method = record {
  files = [];
  patterns = [];
  exempted = [];
  rate_max = rate_max_default;
  rate_interval = rate_interval_default;
  block = method;
  location = record { path = path; lineno = 0 };
}

-- `ConfFile(path)`, with `fopen` answering. A registry without the default method is a null
-- pointer that is followed.
unfoldable pub new_conf_file : Platform → Registry → (Bytes → Opening) → Bytes → Result ConfFile
unfolding parse create
new_conf_file sys registry fopen path = elim (find_type registry block_default) [
  | none ↦ throws undefined
  | some type ↦ parse sys registry (defaults path (create type)) (fopen path)
]
