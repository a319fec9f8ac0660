-- ===== src/Lexer/Unfinished.antt =====
-- When `splitLine` and `parseString` (src/ConfFile.cc) read past the end of the line.
use blockad.Common.{
  ℕ, zero, suc, ◌+◌, ◌-◌, ◌*◌, ◌≡◌, refl, sym, ap, subst, ◌∙◌, inl, inr, Bool, true, false, not,
  ◌||◌, List, [], ◌∷◌, ◌++◌, append_assoc, append-nil, Option, none, some, Bytes, codes, length,
  ltb, ◌==◌, if◌then◌else◌, arith, Exception, Bool-cases, syntax_error, runtime_error, out_of_range,
  undefined, Result, ok, throws, ◌>>=◌,
}
use blockad.Lexer.{
  Location, syntax, Turn, closed, more, failed, is_xdigit, is_octal, decode_hex, hex_escape,
  octal_value, octal_third, octal_escape, simple_escape, escape, string_turn, string_loop,
  parse_string, split_quoted, split_turn, split_loop, split_line, word,
}

-- The text ends with `rest`.
abbrev Tail : Bytes → Bytes → Type 0
Tail text rest = (p : Bytes) × (text ≡ p ++ rest)

-- The last character of the text is a backslash.
abbrev pub IsUnfinished : Bytes → Type 0
IsUnfinished text = Tail text (b'\\' ∷ [])

-- `out_of_range` is thrown for an unfinished escape only.
abbrev Marks : Bytes → Exception → Type 0
Marks text out_of_range = IsUnfinished text
Marks text (syntax_error what) = Unit
Marks text (runtime_error what) = Unit
Marks text undefined = Unit

abbrev MarksTurn : Bytes → Turn → Type 0
MarksTurn text (closed bit rest) = Tail text rest
MarksTurn text (more bit rest) = Tail text rest
MarksTurn text (failed e) = Marks text e

abbrev MarksString {ℓ} : {A : Type ℓ} → Bytes → Result (A × Bytes) → Type 0
MarksString text (ok (a, rest)) = Tail text rest
MarksString text (throws e) = Marks text e

abbrev MarksAt : Bytes → Result (List Bytes) → Type 0
MarksAt text (ok bits) = Unit
MarksAt text (throws e) = Marks text e

Tail-next : (text : Bytes) (c : ℕ) (rest : Bytes) → Tail text (c ∷ rest) → Tail text rest
Tail-next text c rest (p, e) = (p ++ c ∷ [], e ∙ sym (append_assoc p (c ∷ []) rest))

Tail-trans : (text rest last : Bytes) → Tail text rest → Tail rest last → Tail text last
Tail-trans text rest last (p, e) (q, f) =
    (p ++ q, e ∙ ap (λ r. p ++ r) f ∙ sym (append_assoc p q last))

Marks-before : (text rest : Bytes) (e : Exception) → Tail text rest → Marks rest e → Marks text e
Marks-before text rest out_of_range t m = Tail-trans text rest (b'\\' ∷ []) t m
Marks-before text rest (syntax_error what) t m = tt
Marks-before text rest (runtime_error what) t m = tt
Marks-before text rest undefined t m = tt

MarksString-before :
    {A : Type 0} (text rest : Bytes) (r : Result (A × Bytes))
    → Tail text rest
    → MarksString rest r
    → MarksString text r
MarksString-before text rest (ok (a, last)) t m = Tail-trans text rest last t m
MarksString-before text rest (throws e) t m = Marks-before text rest e t m

MarksAt-before :
    (text rest : Bytes) (r : Result (List Bytes)) → Tail text rest → MarksAt rest r → MarksAt text r
MarksAt-before text rest (ok bits) t m = tt
MarksAt-before text rest (throws e) t m = Marks-before text rest e t m

syntax-Marks : (text : Bytes) (l : Location) (s : Bytes) → Marks text (syntax l s)
unfolding syntax
syntax-Marks text l s = tt

if-MarksTurn :
    (text : Bytes) (b : Bool) (r s : Turn)
    → MarksTurn text r
    → MarksTurn text s
    → MarksTurn text (if b then r else s)
if-MarksTurn text true r s h k = h
if-MarksTurn text false r s h k = k

module _ (l : Location) (text : Bytes) (bit : Bytes) where
  hex_escape-MarksTurn :
      (value : ℕ) (rest : Bytes) → Tail text rest → MarksTurn text (hex_escape l bit value rest)
  unfolding hex_escape
  hex_escape-MarksTurn value [] h = h
  hex_escape-MarksTurn value (c ∷ rest) h = if-MarksTurn text (not (is_xdigit c)) _ _ h (
      if-MarksTurn text (ltb 255 (16 * value + decode_hex c)) _ _
        (syntax-Marks text l (codes "hexadeciaml escape sequence out of range"))
        (hex_escape-MarksTurn (16 * value + decode_hex c) rest (Tail-next text c rest h)))

  octal_value-MarksTurn :
      (value : ℕ) (rest : Bytes) → Tail text rest → MarksTurn text (octal_value l bit value rest)
  unfolding octal_value
  octal_value-MarksTurn value rest h =
      if-MarksTurn text (ltb 255 value) _ _
        (syntax-Marks text l (codes "octal escape sequence out of range")) h

  octal_third-MarksTurn :
      (value : ℕ) (rest : Bytes) → Tail text rest → MarksTurn text (octal_third l bit value rest)
  unfolding octal_third
  octal_third-MarksTurn value [] h = octal_value-MarksTurn value [] h
  octal_third-MarksTurn value (c ∷ rest) h =
      if-MarksTurn text (is_octal c) _ _ (octal_value-MarksTurn _ rest (Tail-next text c rest h))
        (octal_value-MarksTurn value (c ∷ rest) h)

  octal_escape-MarksTurn :
      (value : ℕ) (rest : Bytes) → Tail text rest → MarksTurn text (octal_escape l bit value rest)
  unfolding octal_escape
  octal_escape-MarksTurn value [] h = octal_value-MarksTurn value [] h
  octal_escape-MarksTurn value (c ∷ rest) h =
      if-MarksTurn text (is_octal c) _ _ (octal_third-MarksTurn _ rest (Tail-next text c rest h))
        (octal_value-MarksTurn value (c ∷ rest) h)

  escape-MarksTurn : (rest : Bytes) → Tail text (b'\\' ∷ rest) → MarksTurn text (escape l bit rest)
  unfolding escape
  escape-MarksTurn [] h = h
  escape-MarksTurn (c ∷ rest) h = by_simple (simple_escape c)
    where
      behind : Tail text rest
      behind = Tail-next text c rest (Tail-next text b'\\' (c ∷ rest) h)

      by_simple :
          (o : Option ℕ)
          → MarksTurn text (elim o [
            | some d ↦ more (bit ++ d ∷ []) rest
            | none ↦
                if c == b'x'
                then hex_escape l bit 0 rest
                else if is_octal c
                then octal_escape l bit (c - b'0') rest
                else failed (syntax l (codes "unrecognized escape sequence"))
          ])
      by_simple (some d) = behind
      by_simple none = if-MarksTurn text (c == b'x') _ _ (hex_escape-MarksTurn 0 rest behind) (
          if-MarksTurn text (is_octal c) _ _ (octal_escape-MarksTurn _ rest behind)
            (syntax-Marks text l (codes "unrecognized escape sequence")))

string_turn-MarksTurn :
    (l : Location) (q : ℕ) (bit text : Bytes) → MarksTurn text (string_turn l q bit text)
unfolding string_turn
string_turn-MarksTurn l q bit [] = syntax-Marks [] l (codes "unterminated string literal")
string_turn-MarksTurn l q bit (c ∷ rest) =
    if-MarksTurn (c ∷ rest) (c == q) _ _ (c ∷ [], refl)
      (elim (Bool-cases (c == b'\\')) [
        | inl y ↦ rw y (
            if-MarksTurn (c ∷ rest) (q == b'\'') _ _ (c ∷ [], refl)
              (escape-MarksTurn l (c ∷ rest) bit rest ([], ap (λ x. x ∷ rest) (ground (arith, y)))))
        | inr n ↦ rw n (c ∷ [], refl)
      ])

string_loop-MarksString :
    (fuel : ℕ) (l : Location) (q : ℕ) (bit text : Bytes)
    → MarksString text (string_loop fuel l q bit text)
unfolding string_loop
string_loop-MarksString zero l q bit text = tt
string_loop-MarksString (suc fuel) l q bit text =
    by_turn (string_turn l q bit text) (string_turn-MarksTurn l q bit text)
      (λ b r. string_loop-MarksString fuel l q b r)
  where
    by_turn :
        (t : Turn)
        → MarksTurn text t
        → ((b r : Bytes) → MarksString r (string_loop fuel l q b r))
        → MarksString {A = Bytes} text (elim t [
          | closed done after ↦ ok (done, after)
          | more bit' rest' ↦ string_loop fuel l q bit' rest'
          | failed e ↦ throws e
        ])
    by_turn (closed done after) k ih = k
    by_turn (more bit' rest') k ih = MarksString-before text rest' _ k (ih bit' rest')
    by_turn (failed e) k ih = k

split_quoted-MarksString :
    (l : Location) (bits : List Bytes) (q : ℕ) (rest : Bytes)
    → MarksString rest (split_quoted l bits q rest)
unfolding split_quoted parse_string
split_quoted-MarksString l bits q rest =
    by_string (string_loop (suc (length rest)) l q [] rest)
      (string_loop-MarksString (suc (length rest)) l q [] rest)
  where
    by_string :
        (r : Result (Bytes × Bytes))
        → MarksString rest r
        → MarksString {A = List Bytes} rest (r >>= λ (bit, rest'). ok (bits ++ bit ∷ [], rest'))
    by_string (ok (bit, rest')) k = k
    by_string (throws e) k = k

word-Tail : (rest : Bytes) → Tail rest (word rest).1
unfolding word
word-Tail [] = ([], refl)
word-Tail (c ∷ rest) = elim (Bool-cases (c == b' ')) [
  | inl y ↦ rw y ([], refl)
  | inr n ↦ rw n (Tail-trans (c ∷ rest) rest (word rest).1 (c ∷ [], refl) (word-Tail rest))
]

if-MarksString :
    (text : Bytes) (b : Bool) (r s : Result (List Bytes × Bytes))
    → MarksString text r
    → MarksString text s
    → MarksString text (if b then r else s)
if-MarksString text true r s h k = h
if-MarksString text false r s h k = k

split_turn-MarksString :
    (l : Location) (bits : List Bytes) (c : ℕ) (rest : Bytes)
    → MarksString rest (split_turn l bits c rest)
unfolding split_turn
split_turn-MarksString l bits c rest =
    if-MarksString rest (c == b'#') _ _ (rest, sym (append-nil rest))
      (if-MarksString rest (c == b' ') _ _ ([], refl)
        (if-MarksString rest (c == b'"' || c == b'\'') _ _ (split_quoted-MarksString l bits c rest)
          (word-Tail rest)))

split_loop-MarksAt :
    (fuel : ℕ) (l : Location) (bits : List Bytes) (text : Bytes)
    → MarksAt text (split_loop fuel l bits text)
unfolding split_loop
split_loop-MarksAt fuel l bits [] = tt
split_loop-MarksAt zero l bits (c ∷ rest) = tt
split_loop-MarksAt (suc fuel) l bits (c ∷ rest) =
    by_turn (split_turn l bits c rest) (split_turn-MarksString l bits c rest)
      (λ b r. split_loop-MarksAt fuel l b r)
  where
    by_turn :
        (t : Result (List Bytes × Bytes))
        → MarksString rest t
        → ((b : List Bytes) (r : Bytes) → MarksAt r (split_loop fuel l b r))
        → MarksAt
            (c ∷ rest)
            (elim t [ ok (bits', rest') ↦ split_loop fuel l bits' rest' | throws e ↦ throws e ])
    by_turn (ok (bits', rest')) k ih =
        MarksAt-before (c ∷ rest) rest' _ (Tail-trans (c ∷ rest) rest rest' (c ∷ [], refl) k)
          (ih bits' rest')
    by_turn (throws e) k ih = Marks-before (c ∷ rest) rest e (c ∷ [], refl) k

-- `splitLine` throws `out_of_range` only for a line whose last character is a backslash.
pub split_line-IsUnfinished :
    (l : Location) (line : Bytes) → split_line l line ≡ throws out_of_range → IsUnfinished line
unfolding split_line
split_line-IsUnfinished l line e =
    subst (MarksAt line) e (split_loop-MarksAt (length line) l [] line)
