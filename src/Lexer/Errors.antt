-- ===== src/Lexer/Errors.antt =====
-- The errors of `splitLine` and `parseString` (src/ConfFile.cc), and the location that they name.
use blockad.Common.{
  ℕ, zero, suc, ◌+◌, ◌-◌, ◌*◌, ◌≤◌, ◌<◌, ◌≡◌, refl, Bool, true, false, not, ◌||◌, List, [], ◌∷◌,
  ◌++◌, Option, none, some, Bytes, codes, length, ltb, ◌==◌, if◌then◌else◌, arith, Exception,
  syntax_error, runtime_error, out_of_range, undefined, Result, ok, throws, ◌>>=◌,
}
use blockad.Lexer.{
  Location, format, syntax, Turn, closed, more, failed, is_xdigit, is_octal, decode_hex, hex_escape,
  octal_value, octal_third, octal_escape, simple_escape, escape, string_turn, string_loop,
  parse_string, split_quoted, split_turn, split_loop, split_line, word,
}

-- What `splitLine` throws: a syntax error that begins with the location, or the `out_of_range` of
-- `line.at()`.
unfoldable pub Blames : Location → Exception → Type 0
Blames l (syntax_error what) = (s : Bytes) × (what ≡ format l s)
Blames l (runtime_error what) = ⊥
Blames l out_of_range = Unit
Blames l undefined = ⊥

-- What `splitLine` is to give for the rest of a line: words, or such an exception.
abbrev pub BlamesAt : Location → Result (List Bytes) → Type 0
BlamesAt l (ok a) = Unit
BlamesAt l (throws e) = Blames l e

-- A turn leaves fewer than `n` characters, or is refused so.
abbrev BlamesTurn : Location → ℕ → Turn → Type 0
BlamesTurn l n (closed bit rest) = length rest < n
BlamesTurn l n (more bit rest) = length rest < n
BlamesTurn l n (failed e) = Blames l e

-- A literal leaves fewer than `n` characters, or is refused so.
abbrev BlamesString : Location → ℕ → Result (Bytes × Bytes) → Type 0
BlamesString l n (ok (bit, rest)) = length rest < n
BlamesString l n (throws e) = Blames l e

-- A turn of `splitLine` leaves fewer than `n` characters, or is refused so.
abbrev BlamesSplit : Location → ℕ → Result (List Bytes × Bytes) → Type 0
BlamesSplit l n (ok (bits, rest)) = length rest < n
BlamesSplit l n (throws e) = Blames l e

BlamesString-later :
    (l : Location) (m n : ℕ) (r : Result (Bytes × Bytes))
    → m ≤ n
    → BlamesString l m r
    → BlamesString l n r
BlamesString-later l m n (ok (bit, rest)) h k = omega arith
BlamesString-later l m n (throws e) h k = k

pub syntax-Blames : (l : Location) (s : Bytes) → Blames l (syntax l s)
unfolding Blames syntax
syntax-Blames l s = (s, refl)

past_end-Blames : (l : Location) → Blames l out_of_range
unfolding Blames
past_end-Blames l = tt

if-BlamesSplit :
    (l : Location) (n : ℕ) (b : Bool) (r s : Result (List Bytes × Bytes))
    → BlamesSplit l n r
    → BlamesSplit l n s
    → BlamesSplit l n (if b then r else s)
if-BlamesSplit l n true r s h k = h
if-BlamesSplit l n false r s h k = k

if-BlamesTurn :
    (l : Location) (n : ℕ) (b : Bool) (r s : Turn)
    → BlamesTurn l n r
    → BlamesTurn l n s
    → BlamesTurn l n (if b then r else s)
if-BlamesTurn l n true r s h k = h
if-BlamesTurn l n false r s h k = k

module _ (l : Location) (n : ℕ) (bit : Bytes) where
  hex_escape-BlamesTurn :
      (value : ℕ) (text : Bytes) → length text < n → BlamesTurn l n (hex_escape l bit value text)
  unfolding hex_escape
  hex_escape-BlamesTurn value [] h = h
  hex_escape-BlamesTurn value (c ∷ rest) h = if-BlamesTurn l n (not (is_xdigit c)) _ _ h (
      if-BlamesTurn l n (ltb 255 (16 * value + decode_hex c)) _ _ (syntax-Blames l _)
        (hex_escape-BlamesTurn (16 * value + decode_hex c) rest (omega arith)))

  octal_value-BlamesTurn :
      (value : ℕ) (text : Bytes) → length text < n → BlamesTurn l n (octal_value l bit value text)
  unfolding octal_value
  octal_value-BlamesTurn value text h = if-BlamesTurn l n (ltb 255 value) _ _ (syntax-Blames l _) h

  octal_third-BlamesTurn :
      (value : ℕ) (text : Bytes) → length text < n → BlamesTurn l n (octal_third l bit value text)
  unfolding octal_third
  octal_third-BlamesTurn value [] h = octal_value-BlamesTurn value [] h
  octal_third-BlamesTurn value (c ∷ rest) h =
      if-BlamesTurn l n (is_octal c) _ _ (octal_value-BlamesTurn _ rest (omega arith))
        (octal_value-BlamesTurn value (c ∷ rest) h)

  octal_escape-BlamesTurn :
      (value : ℕ) (text : Bytes) → length text < n → BlamesTurn l n (octal_escape l bit value text)
  unfolding octal_escape
  octal_escape-BlamesTurn value [] h = octal_value-BlamesTurn value [] h
  octal_escape-BlamesTurn value (c ∷ rest) h =
      if-BlamesTurn l n (is_octal c) _ _ (octal_third-BlamesTurn _ rest (omega arith))
        (octal_value-BlamesTurn value (c ∷ rest) h)

  escape-BlamesTurn : (text : Bytes) → length text < n → BlamesTurn l n (escape l bit text)
  unfolding escape
  escape-BlamesTurn [] h = past_end-Blames l
  escape-BlamesTurn (c ∷ rest) h = by_simple (simple_escape c)
    where
      by_simple :
          (o : Option ℕ)
          → BlamesTurn l n (elim o [
            | some d ↦ more (bit ++ d ∷ []) rest
            | none ↦
                if c == b'x'
                then hex_escape l bit 0 rest
                else if is_octal c
                then octal_escape l bit (c - b'0') rest
                else failed (syntax l (codes "unrecognized escape sequence"))
          ])
      by_simple (some d) = omega arith
      by_simple none =
          if-BlamesTurn l n (c == b'x') _ _ (hex_escape-BlamesTurn 0 rest (omega arith)) (
            if-BlamesTurn l n (is_octal c) _ _ (octal_escape-BlamesTurn _ rest (omega arith))
              (syntax-Blames l _))

string_turn-BlamesTurn :
    (l : Location) (q : ℕ) (bit text : Bytes)
    → BlamesTurn l (length text) (string_turn l q bit text)
unfolding string_turn
string_turn-BlamesTurn l q bit [] = syntax-Blames l _
string_turn-BlamesTurn l q bit (c ∷ rest) =
    let n = suc (length rest) in
    if-BlamesTurn l n (c == q) _ _ (omega arith) (
      if-BlamesTurn l n (not (c == b'\\') || q == b'\'') _ _ (omega arith)
        (escape-BlamesTurn l n bit rest (omega arith)))

-- More fuel than characters is not used up.
string_loop-BlamesString :
    (fuel : ℕ) (l : Location) (q : ℕ) (bit text : Bytes)
    → length text < fuel
    → BlamesString l (length text) (string_loop fuel l q bit text)
unfolding string_loop
string_loop-BlamesString zero l q bit text h = absurd (omega arith)
string_loop-BlamesString (suc fuel) l q bit text h =
    by_turn (string_turn l q bit text) (string_turn-BlamesTurn l q bit text)
      (λ b r k. string_loop-BlamesString fuel l q b r (omega (arith, k)))
  where
    by_turn :
        (t : Turn)
        → BlamesTurn l (length text) t
        → ((b r : Bytes)
            → length r < length text
            → BlamesString l (length r) (string_loop fuel l q b r))
        → BlamesString l (length text) (elim t [
          | closed done after ↦ ok (done, after)
          | more bit' rest' ↦ string_loop fuel l q bit' rest'
          | failed e ↦ throws e
        ])
    by_turn (closed done after) k ih = k
    by_turn (more bit' rest') k ih =
        BlamesString-later l (length rest') (length text) _ (omega arith) (ih bit' rest' k)
    by_turn (failed e) k ih = k

split_quoted-BlamesSplit :
    (l : Location) (bits : List Bytes) (q : ℕ) (rest : Bytes)
    → BlamesSplit l (suc (length rest)) (split_quoted l bits q rest)
unfolding split_quoted parse_string
split_quoted-BlamesSplit l bits q rest =
    by_string (string_loop (suc (length rest)) l q [] rest)
      (string_loop-BlamesString (suc (length rest)) l q [] rest (omega arith))
  where
    by_string :
        (r : Result (Bytes × Bytes))
        → BlamesString l (length rest) r
        → BlamesSplit l (suc (length rest)) (r >>= λ (bit, rest'). ok (bits ++ bit ∷ [], rest'))
    by_string (ok (bit, rest')) k = omega arith
    by_string (throws e) k = k

word_shorter : (rest : Bytes) → length (word rest).1 ≤ length rest
unfolding word
word_shorter [] = omega arith
word_shorter (c ∷ rest) = ground (arith, word_shorter rest)

split_turn-BlamesSplit :
    (l : Location) (bits : List Bytes) (c : ℕ) (rest : Bytes)
    → BlamesSplit l (suc (length rest)) (split_turn l bits c rest)
unfolding split_turn
split_turn-BlamesSplit l bits c rest =
    let n = suc (length rest) in
    if-BlamesSplit l n (c == b'#') _ _ (omega arith) (
      if-BlamesSplit l n (c == b' ') _ _ (omega arith) (
        if-BlamesSplit l n (c == b'"' || c == b'\'') _ _ (split_quoted-BlamesSplit l bits c rest)
          (omega (arith, word_shorter rest))))

-- As much fuel as characters is not used up.
split_loop-BlamesAt :
    (fuel : ℕ) (l : Location) (bits : List Bytes) (text : Bytes)
    → length text ≤ fuel
    → BlamesAt l (split_loop fuel l bits text)
unfolding split_loop
split_loop-BlamesAt fuel l bits [] h = tt
split_loop-BlamesAt zero l bits (c ∷ rest) h = absurd (omega arith)
split_loop-BlamesAt (suc fuel) l bits (c ∷ rest) h =
    by_turn (split_turn l bits c rest) (split_turn-BlamesSplit l bits c rest)
      (λ b r k. split_loop-BlamesAt fuel l b r (omega (arith, k)))
  where
    by_turn :
        (t : Result (List Bytes × Bytes))
        → BlamesSplit l (suc (length rest)) t
        → ((b : List Bytes) (r : Bytes)
            → length r < suc (length rest)
            → BlamesAt l (split_loop fuel l b r))
        → BlamesAt l
            (elim t [ ok (bits', rest') ↦ split_loop fuel l bits' rest' | throws e ↦ throws e ])
    by_turn (ok (bits', rest')) k ih = ih bits' rest' k
    by_turn (throws e) k ih = k

-- Splitting any line ends, in words, in a syntax error of the line, or in `out_of_range`.
pub split_line-BlamesAt : (l : Location) (line : Bytes) → BlamesAt l (split_line l line)
unfolding split_line
split_line-BlamesAt l line = split_loop-BlamesAt (length line) l [] line (omega arith)
