-- ===== src/StdioFile/Lines.antt =====
-- `StdioFile::readline` (src/StdioFile.cc) against the lines of a text.
use blockad.Common.{
  ℕ, suc, ◌≤◌, ◌<◌, ◌≡◌, refl, inl, inr, Bool, true, false, List, [], ◌∷◌, ◌++◌, none, Bytes,
  length, ◌==◌, if◌then◌else◌, arith, Result, ok, throws, append_assoc, append-nil, Bool-cases,
}
use blockad.Platform.{Platform}
use blockad.StdioFile.{readline_loop, readline}

abbrev pub prepend : ℕ → List Bytes → List Bytes
prepend c [] = (c ∷ []) ∷ []
prepend c (l ∷ ls) = (c ∷ l) ∷ ls

-- The lines of a text: each newline ends one, and what stands behind the last newline is one too
-- unless it is empty.
unfoldable pub lines : Bytes → List Bytes
lines [] = []
lines (c ∷ rest) = if c == b'\n' then [] ∷ lines rest else prepend c (lines rest)

-- The lines when `line` has been read of the first.
abbrev pub begun : Bytes → List Bytes → List Bytes
begun [] ls = ls
begun (c ∷ line) [] = (c ∷ line) ∷ []
begun (c ∷ line) (l ∷ ls) = (c ∷ (line ++ l)) ∷ ls

begun_newline : (line : Bytes) (ls : List Bytes) → begun line ([] ∷ ls) ≡ line ∷ ls
begun_newline [] ls = refl
begun_newline (c ∷ line) ls = rw append-nil

begun-concat :
    (line : Bytes) (c : ℕ) (ls : List Bytes) → begun (line ++ c ∷ []) ls ≡ begun line (prepend c ls)
begun-concat [] c [] = refl
begun-concat [] c (l ∷ ls) = refl
begun-concat (d ∷ line) c [] = refl
begun-concat (d ∷ line) c (l ∷ ls) = rw append_assoc

-- What `readline` returns for the text `chars` of which `line` has been read.
abbrev pub ReadsLine : ℕ → List Bytes → Result (Bool × Bytes × Bytes) → Type 0
ReadsLine n ls (ok (true, line, rest)) = (ls ≡ line ∷ lines rest) × (length rest ≤ n)
ReadsLine n ls (ok (false, line, rest)) = ls ≡ []
ReadsLine n ls (throws e) = ⊥

ReadsLine-mono :
    (m n : ℕ) (ls : List Bytes) (r : Result (Bool × Bytes × Bytes))
    → m ≤ n
    → ReadsLine m ls r
    → ReadsLine n ls r
ReadsLine-mono m n ls (ok (true, line, rest)) h r = (r.0, omega arith)
ReadsLine-mono m n ls (ok (false, line, rest)) h r = r
ReadsLine-mono m n ls (throws e) h r = r

module _ (sys : Platform) (path : Bytes) where
  readline_loop-ReadsLine :
      (line chars : Bytes)
      → ReadsLine (length chars) (begun line (lines chars)) (readline_loop sys path none line chars)
  unfolding readline_loop lines
  readline_loop-ReadsLine [] [] = ground arith
  readline_loop-ReadsLine (c ∷ line) [] = ground arith
  readline_loop-ReadsLine line (c ∷ rest) = elim (Bool-cases (c == b'\n')) [
    | inl e ↦ rw e (rw begun_newline (refl, omega arith))
    | inr e ↦ rw e (
        rw (← begun-concat) (
          ReadsLine-mono (length rest) (suc (length rest)) _ _ (omega arith)
            (readline_loop-ReadsLine (line ++ c ∷ []) rest)))
  ]

-- What `readline` returns for a text with `ls` lines and `n` characters: at a line, that line,
-- with the others behind it in fewer characters; at the end, that there is none.
abbrev pub NextLine : ℕ → List Bytes → Result (Bool × Bytes × Bytes) → Type 0
NextLine n ls (ok (true, line, rest)) = (ls ≡ line ∷ lines rest) × (length rest < n)
NextLine n ls (ok (false, line, rest)) = ls ≡ []
NextLine n ls (throws e) = ⊥

NextLine-next :
    (n : ℕ) (ls : List Bytes) (r : Result (Bool × Bytes × Bytes))
    → ReadsLine n ls r
    → NextLine (suc n) ls r
NextLine-next n ls (ok (true, line, rest)) r = (r.0, omega arith)
NextLine-next n ls (ok (false, line, rest)) r = r
NextLine-next n ls (throws e) r = r

module _ (sys : Platform) (path : Bytes) where
  -- `readline` on a stream with no read error takes the first line of what is left, without its
  -- newline, and says that there is none exactly when nothing is left.
  pub readline-NextLine :
      (chars : Bytes)
      → NextLine
          (length chars)
          (lines chars)
          (readline sys path (record { chars = chars; failure = none }))
  unfolding readline lines
  readline-NextLine [] = ground arith
  readline-NextLine (c ∷ rest) = elim (Bool-cases (c == b'\n')) [
    | inl e ↦ rw (e, readline_loop) (refl, omega arith)
    | inr e ↦
        rw (e, readline_loop)
          (NextLine-next (length rest) _ _ (readline_loop-ReadsLine sys path (c ∷ []) rest))
  ]
