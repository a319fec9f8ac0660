-- ===== src/Lexer.antt =====
-- The tokens of a configuration line: `splitLine`, `parseString` and `decodeHex` of
-- src/ConfFile.cc, and the message of a `SyntaxError`. A position in the line is the text from
-- there on. So `pos > line.size()` holds nowhere, and `line.at(line.size())` is the read that
-- throws `std::out_of_range`.
pub mod Errors
pub mod Fuel
pub mod Unfinished
pub mod RoundTrip
use blockad.Common.{
  ℕ, zero, suc, ◌+◌, ◌-◌, ◌*◌, ◌/◌, ◌%◌, Bool, not, ◌&&◌, ◌||◌, List, [], ◌∷◌, ◌++◌, Option, none,
  some, Bytes, codes, length, ltb, leb, ◌==◌, if◌then◌else◌, Exception, syntax_error, out_of_range,
  undefined, Result, ok, throws, ◌>>=◌,
}

-- Where the parser is: the members `path` and `lineno` of `ConfFile`.
pub record Location : Type 0 where
  pub path : Bytes
  pub lineno : ℕ

-- What `std::ostream` prints for a number; one digit for each round.
decimal_from : ℕ → ℕ → Bytes → Bytes
decimal_from zero n out = out
decimal_from (suc rounds) n out =
    let digits = (b'0' + n % 10) ∷ out in
    let rest = decimal_from rounds (n / 10) digits in if ltb n 10 then digits else rest

unfoldable pub decimal : ℕ → Bytes
unfolding decimal_from
decimal n = decimal_from (suc n) n []

-- `SyntaxError::format`
unfoldable pub format : Location → Bytes → Bytes
unfolding decimal
format cf s = cf.path ++ b':' ∷ (decimal cf.lineno ++ codes ": " ++ s)

-- `SyntaxError(this, s)`
unfoldable pub syntax : Location → Bytes → Exception
unfolding format
syntax cf s = syntax_error (format cf s)

abbrev pub is_xdigit : ℕ → Bool
is_xdigit c = leb b'0' c && leb c b'9' || leb b'a' c && leb c b'f' || leb b'A' c && leb c b'F'

abbrev pub is_octal : ℕ → Bool
is_octal c = leb b'0' c && leb c b'7'

unfoldable pub decode_hex : ℕ → ℕ
decode_hex c =
    if leb b'0' c && leb c b'9'
    then c - b'0'
    else if leb b'a' c && leb c b'f'
    then c - (b'a' - 10)
    else c - (b'A' - 10)

-- The escapes of one character.
unfoldable pub simple_escape : ℕ → Option ℕ
simple_escape c =
    if c == b'a'
    then some 7
    else if c == b'b'
    then some 8
    else if c == b't'
    then some 9
    else if c == b'n'
    then some 10
    else if c == b'v'
    then some 11
    else if c == b'f'
    then some 12
    else if c == b'r'
    then some 13
    else if c == b'\'' || c == b'"' || c == b'\\' || c == b'?'
    then some c
    else none

-- One turn of the loop of `parseString`: the literal is closed, or goes on, or is refused.
pub data Turn : Type 0 where
  closed : Bytes → Bytes → Turn
  more : Bytes → Bytes → Turn
  failed : Exception → Turn

unfoldable pub hex_escape : Location → Bytes → ℕ → Bytes → Turn
unfolding decode_hex syntax
hex_escape cf bit value [] = more (bit ++ value ∷ []) []
hex_escape cf bit value (c ∷ rest) =
    if not (is_xdigit c)
    then more (bit ++ value ∷ []) (c ∷ rest)
    else if ltb 255 (16 * value + decode_hex c)
    then failed (syntax cf (codes "hexadeciaml escape sequence out of range"))
    else hex_escape cf bit (16 * value + decode_hex c) rest

unfoldable pub octal_value : Location → Bytes → ℕ → Bytes → Turn
unfolding syntax
octal_value cf bit value rest =
    if ltb 255 value
    then failed (syntax cf (codes "octal escape sequence out of range"))
    else more (bit ++ value ∷ []) rest

unfoldable pub octal_third : Location → Bytes → ℕ → Bytes → Turn
unfolding octal_value
octal_third cf bit value [] = octal_value cf bit value []
octal_third cf bit value (c ∷ rest) =
    if is_octal c
    then octal_value cf bit (value * 8 + (c - b'0')) rest
    else octal_value cf bit value (c ∷ rest)

-- Two more digits at most.
unfoldable pub octal_escape : Location → Bytes → ℕ → Bytes → Turn
unfolding octal_third
octal_escape cf bit value [] = octal_value cf bit value []
octal_escape cf bit value (c ∷ rest) =
    if is_octal c
    then octal_third cf bit (value * 8 + (c - b'0')) rest
    else octal_value cf bit value (c ∷ rest)

-- Behind a backslash.
unfoldable pub escape : Location → Bytes → Bytes → Turn
unfolding simple_escape hex_escape octal_escape syntax
escape cf bit [] = failed out_of_range
escape cf bit (c ∷ rest) = elim (simple_escape c) [
  | some d ↦ more (bit ++ d ∷ []) rest
  | none ↦
      if c == b'x'
      then hex_escape cf bit 0 rest
      else if is_octal c
      then octal_escape cf bit (c - b'0') rest
      else failed (syntax cf (codes "unrecognized escape sequence"))
]

unfoldable pub string_turn : Location → ℕ → Bytes → Bytes → Turn
unfolding escape syntax
string_turn cf q bit [] = failed (syntax cf (codes "unterminated string literal"))
string_turn cf q bit (c ∷ rest) =
    if c == q
    then closed bit rest
    else if not (c == b'\\') || q == b'\''
    then more (bit ++ c ∷ []) rest
    else escape cf bit rest

-- The literal behind the quote `q`, and the text behind its close quote. Every turn reads a
-- character, so that the fuel of `parse_string` is never used up; `undefined`, which stands for
-- used up fuel, is none of the exceptions of the source.
unfoldable pub string_loop : ℕ → Location → ℕ → Bytes → Bytes → Result (Bytes × Bytes)
unfolding string_turn
string_loop zero cf q bit rest = throws undefined
string_loop (suc fuel) cf q bit rest = elim (string_turn cf q bit rest) [
  | closed done after ↦ ok (done, after)
  | more bit' rest' ↦ string_loop fuel cf q bit' rest'
  | failed e ↦ throws e
]

unfoldable pub parse_string : Location → ℕ → Bytes → Result (Bytes × Bytes)
unfolding string_loop
parse_string cf q rest = string_loop (suc (length rest)) cf q [] rest

-- An unquoted word goes on up to the next blank.
unfoldable pub word : Bytes → Bytes × Bytes
word [] = ([], [])
word (c ∷ rest) =
    let later = word rest in if c == b' ' then ([], c ∷ rest) else (c ∷ later.0, later.1)

-- A quoted word, behind its open quote `q`.
unfoldable pub split_quoted : Location → List Bytes → ℕ → Bytes → Result (List Bytes × Bytes)
split_quoted cf bits q rest = do (bit, rest') ← parse_string cf q rest; ok (bits ++ bit ∷ [], rest')

-- One turn of the loop of `splitLine`: the words so far and the text to go on with.
unfoldable pub split_turn : Location → List Bytes → ℕ → Bytes → Result (List Bytes × Bytes)
unfolding split_quoted word parse_string
split_turn cf bits c rest =
    if c == b'#'
    then ok (bits, [])
    else if c == b' '
    then ok (bits, rest)
    else if c == b'"' || c == b'\''
    then split_quoted cf bits c rest
    else ok (bits ++ (c ∷ (word rest).0) ∷ [], (word rest).1)

unfoldable pub split_loop : ℕ → Location → List Bytes → Bytes → Result (List Bytes)
unfolding split_turn
split_loop fuel cf bits [] = ok bits
split_loop zero cf bits (c ∷ rest) = throws undefined
split_loop (suc fuel) cf bits (c ∷ rest) = elim (split_turn cf bits c rest) [
  | ok (bits', rest') ↦ split_loop fuel cf bits' rest'
  | throws e ↦ throws e
]

unfoldable pub split_line : Location → Bytes → Result (List Bytes)
unfolding split_loop
split_line cf line = split_loop (length line) cf [] line
