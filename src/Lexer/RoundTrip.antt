-- ===== src/Lexer/RoundTrip.antt =====
-- A grammar of configuration lines, and `splitLine` (src/ConfFile.cc) on the lines of it.
use blockad.Common.{
  ℕ, zero, suc, ◌+◌, ◌/◌, ◌%◌, ◌≤◌, ◌<◌, ◌≡◌, ◌≢◌, refl, ◌∙◌, Bool, true, not, ◌&&◌, ◌||◌, List, [],
  ◌∷◌, ◌++◌, Bytes, IsByte, Lacks, All, length, length-append, arith, Exception, ok, throws,
  out_of_range, leb, ◌==◌, if◌then◌else◌, append_assoc, append-nil,
}
use blockad.Lexer.{
  Location, more, string_turn, string_loop, parse_string, word, split_quoted, split_turn,
  split_loop, split_line,
}

-- A byte as it may stand between double quotes: printable ASCII as it is, the quote and the
-- backslash behind a backslash, and any other in octal.
abbrev pub escaped_byte : ℕ → Bytes
escaped_byte b =
    if b == b'"' || b == b'\\'
    then b'\\' ∷ b ∷ []
    else if leb b' ' b && leb b b'~'
    then b ∷ []
    else b'\\' ∷ (b'0' + b / 64) ∷ (b'0' + b / 8 % 8) ∷ (b'0' + b % 8) ∷ []

abbrev pub escaped : Bytes → Bytes → Bytes
escaped [] rest = rest
escaped (b ∷ w) rest = escaped_byte b ++ escaped w rest

-- A character with which an unquoted word may begin.
abbrev pub is_bare : ℕ → Bool
is_bare c = not (c == b'#' || c == b' ' || c == b'"' || c == b'\'')

-- The lines that spell a list of words: words in single quotes, in double quotes or in none,
-- blanks, and at the end a comment.
pub data Spells : List Bytes → Bytes → Type 0 where
  finish : Spells [] []
  comment : (text : Bytes) → Spells [] (b'#' ∷ text)
  blank : {ws : List Bytes} {line : Bytes} → Spells ws line → Spells ws (b' ' ∷ line)
  single :
      {ws : List Bytes} {line : Bytes} (w : Bytes)
      → Lacks b'\'' w
      → Spells ws line
      → Spells (w ∷ ws) (b'\'' ∷ (w ++ b'\'' ∷ line))
  double :
      {ws : List Bytes} {line : Bytes} (w : Bytes)
      → All IsByte w
      → Spells ws line
      → Spells (w ∷ ws) (b'"' ∷ escaped w (b'"' ∷ line))
  bare :
      {ws : List Bytes} {line : Bytes} (c : ℕ) (w : Bytes)
      → is_bare c ≡ true
      → Lacks b' ' w
      → Spells ws line
      → Spells ((c ∷ w) ∷ ws) (c ∷ (w ++ b' ' ∷ line))
  bare_last : (c : ℕ) (w : Bytes) → is_bare c ≡ true → Lacks b' ' w → Spells ((c ∷ w) ∷ []) (c ∷ w)

module _ (cf : Location) where
  string_turn-escaped_byte :
      (bit : Bytes) (b : ℕ) (rest : Bytes)
      → IsByte b
      → string_turn cf b'"' bit (escaped_byte b ++ rest) ≡ more (bit ++ b ∷ []) rest
  unfolding string_turn
  string_turn-escaped_byte bit b rest h = ground arith

  string_loop_more :
      (fuel q : ℕ) (bit rest : Bytes) {b r : Bytes}
      → string_turn cf q bit rest ≡ more b r
      → string_loop (suc fuel) cf q bit rest ≡ string_loop fuel cf q b r
  unfolding string_loop
  string_loop_more fuel q bit rest e = rw (e, string_loop)

  escaped_byte-pos : (b : ℕ) (rest : Bytes) → length rest < length (escaped_byte b ++ rest)
  escaped_byte-pos b rest = ground arith

  close :
      (fuel : ℕ) (w rest : Bytes)
      → length (b'"' ∷ rest) < fuel
      → string_loop fuel cf b'"' w (b'"' ∷ rest) ≡ ok (w, rest)
  unfolding string_loop
  close zero w rest h = absurd (omega arith)
  close (suc fuel) w rest h = refl

  string_loop-escaped :
      (fuel : ℕ) (bit w rest : Bytes)
      → All IsByte w
      → length (escaped w rest) < fuel
      → (left : ℕ) × (length rest < left)
        × (string_loop fuel cf b'"' bit (escaped w rest) ≡ string_loop left cf b'"' (bit ++ w) rest)
  unfolding string_loop
  string_loop-escaped fuel bit [] rest h l = (fuel, l, rw append-nil)
  string_loop-escaped zero bit (b ∷ w) rest h l = absurd (omega arith)
  string_loop-escaped (suc fuel) bit (b ∷ w) rest h l =
      let (left, enough, later) =
        string_loop-escaped fuel (bit ++ b ∷ []) w rest h.1
          (omega (arith, escaped_byte-pos b (escaped w rest))) in
      (
        left,
        enough,
        string_loop_more fuel b'"' bit (escaped (b ∷ w) rest)
              (string_turn-escaped_byte bit b (escaped w rest) h.0)
            ∙ later
            ∙ rw append_assoc,
      )

  string_turn_single :
      (bit : Bytes) (b : ℕ) (rest : Bytes)
      → b ≢ b'\''
      → string_turn cf b'\'' bit (b ∷ rest) ≡ more (bit ++ b ∷ []) rest
  unfolding string_turn
  string_turn_single bit b rest h = ground arith

  string_loop_single :
      (fuel : ℕ) (bit w rest : Bytes)
      → Lacks b'\'' w
      → length w < fuel
      → string_loop fuel cf b'\'' bit (w ++ b'\'' ∷ rest) ≡ ok (bit ++ w, rest)
  unfolding string_loop
  string_loop_single zero bit w rest h l = absurd (omega arith)
  string_loop_single (suc fuel) bit [] rest h l = rw append-nil
  string_loop_single (suc fuel) bit (b ∷ w) rest h l =
      string_loop_more fuel b'\'' bit (b ∷ (w ++ b'\'' ∷ rest))
        (string_turn_single bit b (w ++ b'\'' ∷ rest) h.0)
      ∙ string_loop_single fuel (bit ++ b ∷ []) w rest h.1 (omega arith)
      ∙ rw append_assoc

  -- The text between single quotes is taken as it stands, backslashes and all.
  parse_string_single :
      (w rest : Bytes) → Lacks b'\'' w → parse_string cf b'\'' (w ++ b'\'' ∷ rest) ≡ ok (w, rest)
  unfolding parse_string
  parse_string_single w rest h =
      string_loop_single (suc (length (w ++ b'\'' ∷ rest))) [] w rest h
        (omega (arith, length-append w (b'\'' ∷ rest)))

  -- The escapes are undone.
  parse_string-escaped :
      (w rest : Bytes)
      → All IsByte w
      → parse_string cf b'"' (escaped w (b'"' ∷ rest)) ≡ ok (w, rest)
  unfolding parse_string
  parse_string-escaped w rest h =
      let (left, enough, e) =
        string_loop-escaped (suc (length (escaped w (b'"' ∷ rest)))) [] w (b'"' ∷ rest) h
          (omega arith) in
      e ∙ close left w rest enough

  split_quoted-eq :
      (bits : List Bytes) (q : ℕ) (text : Bytes) {w rest : Bytes}
      → parse_string cf q text ≡ ok (w, rest)
      → split_quoted cf bits q text ≡ ok (bits ++ w ∷ [], rest)
  unfolding split_quoted
  split_quoted-eq bits q text e = rw e

word_blank : (w line : Bytes) → Lacks b' ' w → word (w ++ b' ' ∷ line) ≡ (w, b' ' ∷ line)
unfolding word
word_blank [] line h = refl
word_blank (c ∷ w) line h = ground (arith, word_blank w line h.1)

word_last : (w : Bytes) → Lacks b' ' w → word w ≡ (w, [])
unfolding word
word_last [] h = refl
word_last (c ∷ w) h = ground (arith, word_last w h.1)

module _ (cf : Location) where
  split_turn_bare :
      (bits : List Bytes) (c : ℕ) (text : Bytes) {w rest : Bytes}
      → is_bare c ≡ true
      → word text ≡ (w, rest)
      → split_turn cf bits c text ≡ ok (bits ++ (c ∷ w) ∷ [], rest)
  unfolding split_turn
  split_turn_bare bits c text h e = rw e (ground arith)

  split_loop_turn :
      (fuel : ℕ) (bits : List Bytes) (c : ℕ) (rest : Bytes) {b : List Bytes} {r : Bytes}
      → split_turn cf bits c rest ≡ ok (b, r)
      → split_loop (suc fuel) cf bits (c ∷ rest) ≡ split_loop fuel cf b r
  unfolding split_loop
  split_loop_turn fuel bits c rest e = rw (e, split_loop)

  split_turn_single :
      (bits : List Bytes) (text : Bytes) {w rest : Bytes}
      → parse_string cf b'\'' text ≡ ok (w, rest)
      → split_turn cf bits b'\'' text ≡ ok (bits ++ w ∷ [], rest)
  unfolding split_turn
  split_turn_single bits text e = split_quoted-eq cf bits b'\'' text e

  split_turn_double :
      (bits : List Bytes) (text : Bytes) {w rest : Bytes}
      → parse_string cf b'"' text ≡ ok (w, rest)
      → split_turn cf bits b'"' text ≡ ok (bits ++ w ∷ [], rest)
  unfolding split_turn
  split_turn_double bits text e = split_quoted-eq cf bits b'"' text e

  length-escaped : (w rest : Bytes) → length rest ≤ length (escaped w rest)
  length-escaped [] rest = omega arith
  length-escaped (b ∷ w) rest =
      omega (arith, length-escaped w rest, escaped_byte-pos cf b (escaped w rest))

  split_loop-Spells :
      (fuel : ℕ) (bits : List Bytes) {ws : List Bytes} {line : Bytes}
      → Spells ws line
      → length line ≤ fuel
      → split_loop fuel cf bits line ≡ ok (bits ++ ws)
  unfolding split_loop
  split_loop-Spells zero bits finish l = rw append-nil
  split_loop-Spells (suc fuel) bits finish l = rw append-nil
  split_loop-Spells (suc fuel) bits (comment text) l =
      rw append-nil (unfold split_loop split_turn in ground arith)
  split_loop-Spells (suc fuel) bits (blank s) l = split_loop-Spells fuel bits s (omega arith)
  split_loop-Spells (suc fuel) bits (single {ws} {line} w h s) l =
      split_loop_turn fuel bits b'\'' (w ++ b'\'' ∷ line)
        (split_turn_single bits (w ++ b'\'' ∷ line) (parse_string_single cf w line h))
      ∙ split_loop-Spells fuel (bits ++ w ∷ []) s (omega (arith, length-append w (b'\'' ∷ line)))
      ∙ rw append_assoc
  split_loop-Spells (suc fuel) bits (double {ws} {line} w h s) l =
      split_loop_turn fuel bits b'"' (escaped w (b'"' ∷ line))
        (split_turn_double bits (escaped w (b'"' ∷ line)) (parse_string-escaped cf w line h))
      ∙ split_loop-Spells fuel (bits ++ w ∷ []) s (omega (arith, length-escaped w (b'"' ∷ line)))
      ∙ rw append_assoc
  split_loop-Spells (suc zero) bits (bare {ws} {line} c w h k s) l =
      absurd (omega (arith, length-append w (b' ' ∷ line)))
  split_loop-Spells (suc (suc fuel)) bits (bare {ws} {line} c w h k s) l =
      split_loop_turn (suc fuel) bits c (w ++ b' ' ∷ line)
        (split_turn_bare bits c (w ++ b' ' ∷ line) h (word_blank w line k))
      ∙ split_loop-Spells fuel (bits ++ (c ∷ w) ∷ []) s
          (omega (arith, length-append w (b' ' ∷ line)))
      ∙ rw append_assoc
  split_loop-Spells (suc fuel) bits (bare_last c w h k) l =
      split_loop_turn fuel bits c w (split_turn_bare bits c w h (word_last w k))
  split_loop-Spells zero bits s l = absurd (omega arith)

  -- `splitLine` reads every line of the grammar as the words that it spells: words in single
  -- quotes as they stand, words in double quotes with their escapes undone, whatever bytes they
  -- hold, and no word of a comment.
  pub split_line-Spells :
      {ws : List Bytes} {line : Bytes} → Spells ws line → split_line cf line ≡ ok ws
  unfolding split_line
  split_line-Spells {line} s = split_loop-Spells (length line) [] s (omega arith)

  past_end :
      (fuel : ℕ) (bit : Bytes)
      → 1 < fuel
      → string_loop fuel cf b'"' bit (b'\\' ∷ []) ≡ throws out_of_range
  unfolding string_loop
  past_end zero bit h = absurd (omega arith)
  past_end (suc zero) bit h = absurd (omega arith)
  past_end (suc (suc fuel)) bit h = refl

  split_quoted_throws :
      (text : Bytes) {e : Exception}
      → parse_string cf b'"' text ≡ throws e
      → split_loop (length (b'"' ∷ text)) cf [] (b'"' ∷ text) ≡ throws e
  unfolding split_loop split_turn split_quoted
  split_quoted_throws text e = ground (arith, e)

  -- A line whose last word is in double quotes and ends in a backslash, with no close quote,
  -- makes `splitLine` throw `std::out_of_range`, which is no `SyntaxError`.
  pub split_line_trailing_backslash :
      (w : Bytes)
      → All IsByte w
      → split_line cf (b'"' ∷ escaped w (b'\\' ∷ [])) ≡ throws out_of_range
  unfolding split_line
  split_line_trailing_backslash w h =
      let text = escaped w (b'\\' ∷ []) in
      let (left, enough, e) =
        string_loop-escaped cf (suc (length text)) [] w (b'\\' ∷ []) h (omega arith) in
      split_quoted_throws text (e ∙ past_end left w enough)
