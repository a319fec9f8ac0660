-- ===== src/ConfFile/Lines.antt =====
-- `ConfFile::parse` (src/ConfFile.cc) as a fold over the lines of the file.
use blockad.Common.{
  ℕ, zero, suc, ◌<◌, ◌≡◌, refl, Bool, true, false, List, [], ◌∷◌, none, Bytes, length, arith,
  Result, ok, throws, ◌>>=◌,
}
use blockad.Platform.{Platform}
use blockad.BlockMethod.{Registry}
use blockad.StdioFile.{opened, readline}
use blockad.StdioFile.Lines.{lines, NextLine, readline-NextLine}
use blockad.ConfFile.{ConfFile, next_line, located, parse_line, parse_loop, parse}

-- The lines in turn, each with its number, until one is refused.
unfoldable pub parse_lines : Platform → Registry → ConfFile → List Bytes → Result ConfFile
parse_lines sys registry cf [] = ok cf
parse_lines sys registry cf (line ∷ ls) =
    located (next_line cf).location (parse_line sys registry (next_line cf) line) >>= λ done.
    parse_lines sys registry done ls

module _ (sys : Platform) (registry : Registry) where
  parse_loop-turn :
      (fuel : ℕ) (cf : ConfFile) (chars : Bytes)
      → ((done : ConfFile) (rest : Bytes)
          → length rest < length chars
          → parse_loop fuel sys registry done (record { chars = rest; failure = none })
            ≡ parse_lines sys registry done (lines rest))
      → parse_loop (suc fuel) sys registry cf (record { chars = chars; failure = none })
        ≡ parse_lines sys registry cf (lines chars)
  unfolding parse_loop parse_lines
  parse_loop-turn fuel cf chars ih =
      go (readline sys cf.location.path (record { chars = chars; failure = none })) refl
        (readline-NextLine sys cf.location.path chars)
    where
      at_line :
          (r : Result ConfFile) (line rest : Bytes)
          → located (next_line cf).location (parse_line sys registry (next_line cf) line) ≡ r
          → lines chars ≡ line ∷ lines rest
          → length rest < length chars
          → readline sys cf.location.path (record { chars = chars; failure = none })
            ≡ ok (true, line, rest)
          → parse_loop (suc fuel) sys registry cf (record { chars = chars; failure = none })
            ≡ parse_lines sys registry cf (lines chars)
      at_line (ok done) line rest e l n r =
          rw (r, parse_loop)
            (rw (l, parse_lines) (rw (e, parse_loop, parse_lines) (ih done rest n)))
      at_line (throws x) line rest e l n r =
          rw (r, parse_loop) (rw (l, parse_lines) (rw (e, parse_loop, parse_lines)))

      go :
          (r : Result (Bool × Bytes × Bytes))
          → readline sys cf.location.path (record { chars = chars; failure = none }) ≡ r
          → NextLine (length chars) (lines chars) r
          → parse_loop (suc fuel) sys registry cf (record { chars = chars; failure = none })
            ≡ parse_lines sys registry cf (lines chars)
      go (ok (true, line, rest)) r h = at_line _ line rest refl h.0 h.1 r
      go (ok (false, line, rest)) r h = rw (r, parse_loop) (rw h)
      go (throws x) r h = absurd h

  -- With more fuel than characters, the loop of `parse` over a file that is read without errors
  -- does with the lines of the text, in turn, what `parseLine` does with one.
  pub parse_loop-parse_lines :
      (fuel : ℕ) (cf : ConfFile) (chars : Bytes)
      → length chars < fuel
      → parse_loop fuel sys registry cf (record { chars = chars; failure = none })
        ≡ parse_lines sys registry cf (lines chars)
  parse_loop-parse_lines zero cf chars h = absurd (omega arith)
  parse_loop-parse_lines (suc fuel) cf chars h =
      parse_loop-turn fuel cf chars
        (λ done rest n. parse_loop-parse_lines fuel done rest (omega arith))

  pub parse-parse_lines :
      (cf : ConfFile) (chars : Bytes)
      → parse sys registry cf (opened (record { chars = chars; failure = none }))
        ≡ parse_lines sys registry cf (lines chars)
  unfolding parse
  parse-parse_lines cf chars = parse_loop-parse_lines (suc (length chars)) cf chars (omega arith)
