-- ===== src/ConfFile/Blame.antt =====
-- The errors of the directives of a configuration file, and of `parse` (src/ConfFile.cc).
use blockad.Common.{
  ◌+◌, ◌≡◌, ◌⊎◌, List, ◌∷◌, ◌++◌, Bytes, length, Exception, out_of_range, Result, ok, throws,
}
use blockad.Platform.{Platform}
use blockad.Strtol.{Strtol}
use blockad.Lexer.{Location, syntax, split_line}
use blockad.BlockMethod.{Registry}
use blockad.Regex.{Regex}
use blockad.ConfFile.{ConfFile, next_line, located, parse_line}
use blockad.Lexer.Unfinished.{IsUnfinished}
use blockad.ConfFile.Lines.{parse_lines}
use blockad.ConfFile.Errors.{Refuses}

-- A directive keeps the location, and its errors name it.
abbrev Keeps : ConfFile → Result ConfFile → Type 0
Keeps cf (ok done) = done.location ≡ cf.location
Keeps cf (throws e) = Refuses cf.location e

-- The error `e` of a line at `l`: a syntax error of that place, or the `out_of_range` that its
-- splitting throws, in which case the line ends in a backslash.
abbrev pub IsFaultOf : Location → Bytes → Exception → Type 0
IsFaultOf l line e =
    ((s : Bytes) × (e ≡ syntax l s))
    ⊎ ((e ≡ out_of_range) × (split_line l line ≡ throws out_of_range) × IsUnfinished line)

-- A line keeps the location, or is refused with an error of the place, with the location attached
-- to it.
abbrev Handles : ConfFile → Bytes → Result ConfFile → Type 0
Handles cf line (ok done) = done.location ≡ cf.location
Handles cf line (throws e) = IsFaultOf cf.location line e

module _ (sys : Platform) (registry : Registry) where
  -- An error `e` of the lines `ls`, read from `cf` on: the lines before one of them are accepted,
  -- that one is refused with `e`, and `e` is an error of its place.
  pub record IsErrorOf (cf : ConfFile) (ls : List Bytes) (e : Exception) : Type 0 where
    pub before : List Bytes
    pub line : Bytes
    pub behind : List Bytes
    pub listed : ls ≡ before ++ line ∷ behind
    pub done : ConfFile
    pub accepted : parse_lines sys registry cf before ≡ ok done
    pub refused :
        located (next_line done).location (parse_line sys registry (next_line done) line) ≡ throws e
    pub place :
        (next_line done).location
        ≡ record { path = cf.location.path; lineno = cf.location.lineno + length before + 1 }
    pub fault : IsFaultOf (next_line done).location line e
