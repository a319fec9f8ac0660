-- ===== src/Lexer/Fuel.antt =====
-- Every turn of the loops of `parseString` and `splitLine` (src/ConfFile.cc) reads a character and
-- yields bytes, so that the fuel of the model is never used up.
use blockad.Common.{
  ℕ, zero, suc, ◌+◌, ◌-◌, ◌*◌, ◌≤◌, ◌<◌, ◌≡◌, refl, inl, inr, List, [], ◌∷◌, ◌++◌, some, Bytes,
  IsByte, All, All-append, length, arith, Exception, Result, ok, throws, Option-cases,
}
use blockad.Lexer.Errors.{Blames, BlamesAt, split_line-BlamesAt}
use blockad.Lexer.{
  Location, Turn, closed, more, failed, decode_hex, simple_escape, hex_escape, octal_value,
  octal_third, octal_escape, escape, string_turn, string_loop, parse_string, word, split_quoted,
  split_turn, split_loop, split_line,
}

-- A turn that starts before `n` characters leaves fewer, and every text of it consists of bytes.
abbrev pub Reads : ℕ → Turn → Type 0
Reads n (closed bit rest) = (length rest < n) × All IsByte bit × All IsByte rest
Reads n (more bit rest) = (length rest < n) × All IsByte bit × All IsByte rest
Reads n (failed e) = Unit

snoc-IsByte : (bit : Bytes) (b : ℕ) → All IsByte bit → IsByte b → All IsByte (bit ++ b ∷ [])
snoc-IsByte bit b h k = All-append IsByte bit (b ∷ []) h (k, tt)

-- What a loop returns leaves fewer than `n` characters.
abbrev pub Leaves : ℕ → Result (Bytes × Bytes) → Type 0
Leaves n (ok (bit, rest)) = (length rest < n) × All IsByte bit × All IsByte rest
Leaves n (throws e) = Unit

module _ (cf : Location) (bit : Bytes) (hb : All IsByte bit) where
  hex_escape-Reads :
      (n value : ℕ) (rest : Bytes)
      → IsByte value
      → All IsByte rest
      → length rest < n
      → Reads n (hex_escape cf bit value rest)
  unfolding hex_escape
  hex_escape-Reads n value [] hv hr l = (l, snoc-IsByte bit value hb hv, tt)
  hex_escape-Reads n value (c ∷ rest) hv hr l =
      ground
        (arith, snoc-IsByte bit value hb hv, hex_escape-Reads n (16 * value + decode_hex c) rest)

  octal_value-Reads :
      (n value : ℕ) (rest : Bytes)
      → All IsByte rest
      → length rest < n
      → Reads n (octal_value cf bit value rest)
  unfolding octal_value
  octal_value-Reads n value rest hr l = ground (arith, snoc-IsByte bit value hb)

  octal_third-Reads :
      (n value : ℕ) (rest : Bytes)
      → All IsByte rest
      → length rest < n
      → Reads n (octal_third cf bit value rest)
  unfolding octal_third
  octal_third-Reads n value [] hr l = octal_value-Reads n value [] hr l
  octal_third-Reads n value (c ∷ rest) hr l = ground (
    arith,
    octal_value-Reads n (value * 8 + (c - b'0')) rest hr.1 (omega arith),
    octal_value-Reads n value (c ∷ rest) hr l,
  )

  octal_escape-Reads :
      (n value : ℕ) (rest : Bytes)
      → All IsByte rest
      → length rest < n
      → Reads n (octal_escape cf bit value rest)
  unfolding octal_escape
  octal_escape-Reads n value [] hr l = octal_value-Reads n value [] hr l
  octal_escape-Reads n value (c ∷ rest) hr l = ground (
    arith,
    octal_third-Reads n (value * 8 + (c - b'0')) rest hr.1 (omega arith),
    octal_value-Reads n value (c ∷ rest) hr l,
  )

  simple_escape-IsByte : (c : ℕ) {d : ℕ} → IsByte c → simple_escape c ≡ some d → IsByte d
  unfolding simple_escape
  simple_escape-IsByte c h e = ground arith

  escape-Reads :
      (n : ℕ) (rest : Bytes) → All IsByte rest → length rest < n → Reads n (escape cf bit rest)
  unfolding escape
  escape-Reads n [] hr l = tt
  escape-Reads n (c ∷ rest) hr l = elim (Option-cases (simple_escape c)) [
    | inl e ↦
        rw (e, escape)
          (ground (
            arith,
            hex_escape-Reads n 0 rest (omega arith) hr.1 (omega arith),
            octal_escape-Reads n (c - b'0') rest hr.1 (omega arith),
          ))
    | inr (d, e) ↦
        rw (e, escape) (omega arith, snoc-IsByte bit d hb (simple_escape-IsByte c hr.0 e), hr.1)
  ]

  string_turn-Reads :
      (q : ℕ) (rest : Bytes) → All IsByte rest → Reads (length rest) (string_turn cf q bit rest)
  unfolding string_turn
  string_turn-Reads q [] hr = tt
  string_turn-Reads q (c ∷ rest) hr =
      ground
        (arith, snoc-IsByte bit c hb hr.0, escape-Reads (suc (length rest)) rest hr.1 (omega arith))

Leaves-mono : (m n : ℕ) (r : Result (Bytes × Bytes)) → m ≤ n → Leaves m r → Leaves n r
Leaves-mono m n (ok (bit, rest)) h l = (omega arith, l.1, l.2)
Leaves-mono m n (throws e) h l = tt

module _ (cf : Location) (q : ℕ) where
  -- The loop by what its first turn does.
  string_loop_rule {κ} :
      (P : Result (Bytes × Bytes) → Type κ) (fuel : ℕ) (bit rest : Bytes)
      → All IsByte bit
      → All IsByte rest
      → ((b r : Bytes)
          → string_turn cf q bit rest ≡ closed b r
          → Reads (length rest) (closed b r)
          → P (ok (b, r)))
      → ((b r : Bytes)
          → string_turn cf q bit rest ≡ more b r
          → Reads (length rest) (more b r)
          → P (string_loop fuel cf q b r))
      → ((e : Exception) → string_turn cf q bit rest ≡ failed e → P (throws e))
      → P (string_loop (suc fuel) cf q bit rest)
  unfolding string_loop
  string_loop_rule P fuel bit rest hb hr at_close at_more at_failure =
      go (string_turn cf q bit rest) refl (string_turn-Reads cf bit hb q rest hr)
    where
      go :
          (t : Turn)
          → string_turn cf q bit rest ≡ t
          → Reads (length rest) t
          → P (string_loop (suc fuel) cf q bit rest)
      go (closed b r) e h = rw (e, string_loop) (at_close b r e h)
      go (more b r) e h = rw (e, string_loop) (at_more b r e h)
      go (failed x) e h = rw (e, string_loop) (at_failure x e)

  string_loop-Leaves :
      (fuel : ℕ) (bit rest : Bytes)
      → All IsByte bit
      → All IsByte rest
      → Leaves (length rest) (string_loop fuel cf q bit rest)
  unfolding string_loop
  string_loop-Leaves zero bit rest hb hr = tt
  string_loop-Leaves (suc fuel) bit rest hb hr =
      string_loop_rule (Leaves (length rest)) fuel bit rest hb hr (λ b r e h. h)
        (λ b r e h.
          Leaves-mono (length r) (length rest) _ (omega arith)
            (string_loop-Leaves fuel b r h.1 h.2))
        (λ e _. tt)

  -- More fuel than characters is enough.
  pub string_loop_enough :
      (f g : ℕ) (bit rest : Bytes)
      → All IsByte bit
      → All IsByte rest
      → length rest < f
      → length rest < g
      → string_loop f cf q bit rest ≡ string_loop g cf q bit rest
  unfolding string_loop
  string_loop_enough zero g bit rest hb hr hf hg = absurd (omega arith)
  string_loop_enough (suc f) zero bit rest hb hr hf hg = absurd (omega arith)
  string_loop_enough (suc f) (suc g) bit rest hb hr hf hg =
      string_loop_rule (λ r. r ≡ string_loop (suc g) cf q bit rest) f bit rest hb hr
        (λ b r e h. rw (e, string_loop))
        (λ b r e h.
          rw (e, string_loop) (string_loop_enough f g b r h.1 h.2 (omega arith) (omega arith)))
        (λ x e. rw (e, string_loop))

  pub parse_string-Leaves :
      (rest : Bytes) → All IsByte rest → Leaves (length rest) (parse_string cf q rest)
  unfolding parse_string
  parse_string-Leaves rest hr = string_loop-Leaves (suc (length rest)) [] rest tt hr

word-IsByte :
    (rest : Bytes)
    → All IsByte rest
    → All IsByte (word rest).0 × All IsByte (word rest).1 × (length (word rest).1 ≤ length rest)
unfolding word
word-IsByte [] h = (tt, tt, omega arith)
word-IsByte (c ∷ rest) h = ground (arith, word-IsByte rest h.1)

-- What a turn of `splitLine` leaves: words of bytes, and fewer than `n` characters.
abbrev pub Splits : ℕ → Result (List Bytes × Bytes) → Type 0
Splits n (ok (bits, rest)) = (length rest < n) × All (All IsByte) bits × All IsByte rest
Splits n (throws e) = Unit

abbrev Words : Result (List Bytes) → Type 0
Words (ok bits) = All (All IsByte) bits
Words (throws e) = Unit

module _ (cf : Location) where
  split_quoted-Splits :
      (bits : List Bytes) (q : ℕ) (rest : Bytes)
      → All (All IsByte) bits
      → All IsByte rest
      → Splits (suc (length rest)) (split_quoted cf bits q rest)
  unfolding split_quoted
  split_quoted-Splits bits q rest hb hr =
      go (parse_string cf q rest) refl (parse_string-Leaves cf q rest hr)
    where
      go :
          (r : Result (Bytes × Bytes))
          → parse_string cf q rest ≡ r
          → Leaves (length rest) r
          → Splits (suc (length rest)) (split_quoted cf bits q rest)
      go (ok (b, r)) e h =
          rw (e, split_quoted)
            (omega arith, All-append (All IsByte) bits (b ∷ []) hb (h.1, tt), h.2)
      go (throws x) e h = rw (e, split_quoted) tt

  split_turn-Splits :
      (bits : List Bytes) (c : ℕ) (rest : Bytes)
      → All (All IsByte) bits
      → IsByte c
      → All IsByte rest
      → Splits (suc (length rest)) (split_turn cf bits c rest)
  unfolding split_turn
  split_turn-Splits bits c rest hb hc hr =
      let words = word-IsByte rest hr in
      ground (
        arith,
        split_quoted-Splits bits c rest hb hr,
        words,
        All-append (All IsByte) bits ((c ∷ (word rest).0) ∷ []) hb ((hc, words.0), tt),
      )

  split_loop_rule {κ} :
      (P : Result (List Bytes) → Type κ) (fuel : ℕ) (bits : List Bytes) (c : ℕ) (rest : Bytes)
      → All (All IsByte) bits
      → All IsByte (c ∷ rest)
      → ((b : List Bytes) (r : Bytes)
          → split_turn cf bits c rest ≡ ok (b, r)
          → Splits (length (c ∷ rest)) (ok (b, r))
          → P (split_loop fuel cf b r))
      → ((e : Exception) → split_turn cf bits c rest ≡ throws e → P (throws e))
      → P (split_loop (suc fuel) cf bits (c ∷ rest))
  unfolding split_loop
  split_loop_rule P fuel bits c rest hb hr at_more at_failure =
      go (split_turn cf bits c rest) refl (split_turn-Splits bits c rest hb hr.0 hr.1)
    where
      go :
          (t : Result (List Bytes × Bytes))
          → split_turn cf bits c rest ≡ t
          → Splits (suc (length rest)) t
          → P (split_loop (suc fuel) cf bits (c ∷ rest))
      go (ok (b, r)) e h = rw (e, split_loop) (at_more b r e h)
      go (throws x) e h = rw (e, split_loop) (at_failure x e)

  -- As much fuel as characters is enough.
  pub split_loop_enough :
      (f g : ℕ) (bits : List Bytes) (rest : Bytes)
      → All (All IsByte) bits
      → All IsByte rest
      → length rest ≤ f
      → length rest ≤ g
      → split_loop f cf bits rest ≡ split_loop g cf bits rest
  unfolding split_loop
  split_loop_enough zero zero bits rest hb hr hf hg = refl
  split_loop_enough (suc f) g bits [] hb hr hf hg = ground arith
  split_loop_enough zero (suc g) bits [] hb hr hf hg = refl
  split_loop_enough zero (suc g) bits (c ∷ rest) hb hr hf hg = absurd (omega arith)
  split_loop_enough (suc f) zero bits (c ∷ rest) hb hr hf hg = absurd (omega arith)
  split_loop_enough (suc f) (suc g) bits (c ∷ rest) hb hr hf hg =
      split_loop_rule (λ r. r ≡ split_loop (suc g) cf bits (c ∷ rest)) f bits c rest hb hr
        (λ b r e h.
          rw (e, split_loop) (split_loop_enough f g b r h.1 h.2 (omega arith) (omega arith)))
        (λ x e. rw (e, split_loop))

  split_loop-Words :
      (fuel : ℕ) (bits : List Bytes) (rest : Bytes)
      → All (All IsByte) bits
      → All IsByte rest
      → Words (split_loop fuel cf bits rest)
  unfolding split_loop
  split_loop-Words zero bits [] hb hr = hb
  split_loop-Words (suc fuel) bits [] hb hr = hb
  split_loop-Words zero bits (c ∷ rest) hb hr = tt
  split_loop-Words (suc fuel) bits (c ∷ rest) hb hr =
      split_loop_rule Words fuel bits c rest hb hr (λ b r e h. split_loop-Words fuel b r h.1 h.2)
        (λ e _. tt)

  -- What splitting ends with: words of bytes, or an exception that the code throws, which is a
  -- syntax error of the line or `out_of_range`.
  abbrev pub Ends : Result (List Bytes) → Type 0
  Ends (ok bits) = All (All IsByte) bits
  Ends (throws e) = Blames cf e

  Words-Ends : (r : Result (List Bytes)) → Words r → BlamesAt cf r → Ends r
  Words-Ends (ok bits) h k = h
  Words-Ends (throws e) h k = k

  -- For a line of bytes the loop of `splitLine` ends before any fuel that is at least the line's
  -- length: it does not end with used up fuel, but with words that consist of bytes, escapes
  -- included, or with an exception of the source, a syntax error of the line or `out_of_range`.
  pub split_line_fuel :
      (fuel : ℕ) (line : Bytes)
      → All IsByte line
      → length line ≤ fuel
      → (split_loop fuel cf [] line ≡ split_line cf line) × Ends (split_line cf line)
  unfolding split_line
  split_line_fuel fuel line h enough = (
    split_loop_enough fuel (length line) [] line tt h enough (omega arith),
    Words-Ends (split_line cf line) (split_loop-Words (length line) [] line tt h)
        (split_line-BlamesAt cf line),
  )
