-- ===== src/BlockMethod.antt =====
-- src/BlockMethod.h and src/BlockMethod.cc with the two block methods, src/hosts.deny.cc and
-- src/iptables.cc: the registry, the creation of a method from a directive, and the blocking of an
-- address. A subclass is a constructor; `execute` (src/execute.cc) and the file that is appended
-- to are seen through what they answer.
pub mod Registry
pub mod Blocking
use blockad.Common.{
  ℕ, zero, suc, ◌+◌, Bool, true, false, not, ◌&&◌, List, [], ◌∷◌, ◌++◌, Option, none, some, Bytes,
  codes, equal, length, ltb, ◌==◌, if◌then◌else◌, Exception, runtime_error, Result, ok, throws,
  ◌>>=◌, get_or,
}
use blockad.Platform.{Platform}
use blockad.Lexer.{Location, syntax}
use blockad.Address.{Address, is4, as4, as6, as_string}

-- `BlockIptables` and `BlockHostsDeny`, the latter with its member `path`.
pub data BlockMethod : Type 0 where
  iptables : BlockMethod
  hosts_deny : Bytes → BlockMethod

-- `BlockIptablesType` and `BlockHostsDenyType`.
pub data BlockMethodType : Type 0 where
  iptables_type hosts_deny_type : BlockMethodType

-- `BlockMethodType::registry`, a `std::map`.
abbrev pub Registry : Type 0
Registry = List (Bytes × BlockMethodType)

-- `registry->find(name)`
unfoldable pub find_type : Registry → Bytes → Option BlockMethodType
find_type [] name = none
find_type ((key, type) ∷ registry) name =
    if equal key name then some type else find_type registry name

-- `(*registry)[name] = this`, in the constructor of a `BlockMethodType`.
unfoldable pub register : Bytes → BlockMethodType → Registry → Registry
register name type [] = (name, type) ∷ []
register name type ((key, old) ∷ registry) =
    if equal key name then (key, type) ∷ registry else (key, old) ∷ register name type registry

abbrev pub path_default : Bytes
path_default = codes "/etc/hosts.deny"

-- The name that each type registers itself under.
abbrev pub type_name : BlockMethodType → Bytes
type_name iptables_type = codes "iptables"
type_name hosts_deny_type = codes "hosts.deny"

-- The registry when `main` starts, behind the constructors of the two static objects.
unfoldable pub static_registry : Registry
unfolding register
static_registry =
    register (type_name iptables_type) iptables_type
      (register (type_name hosts_deny_type) hosts_deny_type [])

-- `create()`
unfoldable pub create : BlockMethodType → BlockMethod
create iptables_type = iptables
create hosts_deny_type = hosts_deny path_default

-- `BlockMethodType::create(cf, bits)`, which `BlockIptablesType` inherits.
abbrev pub create_base : BlockMethodType → Location → List Bytes → Result BlockMethod
create_base type cf bits =
    if ltb 2 (length bits)
    then throws (syntax cf (codes "excess arguments to 'block'"))
    else ok (create type)

-- `create(cf, bits)`: that of the base class, and the override of `BlockHostsDenyType`.
unfoldable pub create_from : BlockMethodType → Location → List Bytes → Result BlockMethod
unfolding create syntax
create_from iptables_type cf bits = create_base iptables_type cf bits
create_from hosts_deny_type cf bits =
    if ltb 3 (length bits)
    then throws (syntax cf (codes "excess arguments to 'block hosts.deny'"))
    else if ltb 2 (length bits)
    then ok (hosts_deny (get_or bits 2 []))
    else ok (create hosts_deny_type)

-- What the kernel answers to one attempt to append a line: `IOError`, with its message, or success
-- at `fopen`, at `vfprintf` and at `fclose`.
pub record AppendAnswers : Type 0 where
  pub opening : Option Bytes
  pub writing : Option Bytes
  pub closing : Option Bytes

-- What a method does outside the process.
pub data Action : Type 0 where
  -- `execute(command)`
  command : List Bytes → Action
  -- the line reached the stream of the file
  append : Bytes → Bytes → Action
  -- `error("%s", e.what())`
  error_log : Bytes → Action

-- `StdioFile output(path, "a"); output.printf(…); output.close();` under `catch(IOError &)`.
unfoldable pub append_line : Bytes → Bytes → AppendAnswers → Bool × List Action
append_line path line w = elim w.opening [
  | some e ↦ (false, error_log e ∷ [])
  | none ↦ elim w.writing [
    | some e ↦ (false, error_log e ∷ [])
    | none ↦ elim w.closing [
      | some e ↦ (false, append path line ∷ error_log e ∷ [])
      | none ↦ (true, append path line ∷ [])
    ]
  ]
]

module _ (sys : Platform) where
  -- The line that `BlockHostsDeny::block` prints.
  unfoldable pub deny_line : Address → Result Bytes
  deny_line a =
      if is4 a
      then (do s ← as4 sys a; ok (codes "ALL: " ++ s ++ b'\n' ∷ []))
      else ok (codes "ALL: [" ++ as6 sys a ++ codes "]\n")

  -- The arguments that `BlockIptables::block` collects.
  unfoldable pub iptables_command : Address → Result (List Bytes)
  iptables_command a = do
    s ← as_string sys a
    ok (
        (if is4 a then codes "iptables" else codes "ip6tables")
        ∷ codes "-I"
        ∷ codes "INPUT"
        ∷ codes "-j"
        ∷ codes "REJECT"
        ∷ codes "-s"
        ∷ s
        ∷ [])

  -- `block(a)`: whether it succeeded, and what it did. `execute` answers with a wait status.
  unfoldable pub block :
      (List Bytes → Result ℕ) → AppendAnswers → BlockMethod → Address → Result (Bool × List Action)
  unfolding append_line deny_line iptables_command
  block execute files iptables a = do
    words ← iptables_command a
    status ← execute words
    ok (status == 0, command words ∷ [])
  block execute files (hosts_deny path) a = do line ← deny_line a; ok (append_line path line files)
