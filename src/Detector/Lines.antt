-- ===== src/Detector/Lines.antt =====
-- What a line of a logfile means to `processLine` (src/blockad.cc): the detection of one address,
-- or nothing.
use blockad.Common.{
  ℕ, suc, ◌+◌, ◌≡◌, ◌≢◌, refl, ap, ◌∙◌, List, [], ◌∷◌, ◌++◌, Bytes, c_str, All, length, arith, ok,
  throws, Exception, ◌>>=◌, bind_cong, bind_ok,
}
use blockad.Platform.{Platform, Regmatch, InetLaws, IsBytes}
use blockad.Address.{Address, assign, as_string}
use blockad.Regex.{default_nmatches}
use blockad.ConfFile.{ConfFile, Match}
use blockad.Detector.{Blocker, Detector, detected_address, process_patterns, process_line}
use blockad.Detector.Captures.{
  span, process_pattern_unmatched, process_pattern-detected_address, process_pattern_no_address,
}

module _ (sys : Platform) where
  -- What `regexec` says of a pattern and a line.
  abbrev pub outcome : Match → Bytes → ℕ × List Regmatch
  outcome m line = sys.regexec m.regex.pattern m.regex.cflags (c_str line) default_nmatches 0

  abbrev pub IsUnmatched : Bytes → Match → Type 0
  IsUnmatched line m = (outcome m line).0 ≢ 0

  -- One pattern of the list matches the line, with the printed address in its capture group.
  pub record Detects (patterns : List Match) (line : Bytes) (a : Address) : Type 0 where
    pub before : List Match
    pub pattern : Match
    pub behind : List Match
    pub listed : patterns ≡ before ++ pattern ∷ behind
    pub unmatched_before : All (IsUnmatched line) before
    pub unmatched_behind : All (IsUnmatched line) behind
    pub groups_before : List Regmatch
    pub groups_behind : List Regmatch
    pub start : Bytes
    pub text : Bytes
    pub rest : Bytes
    pub matched : outcome pattern line ≡ (0, groups_before ++ span start text ∷ groups_behind)
    pub captured : length groups_before ≡ pattern.capture
    pub composed : line ≡ start ++ (text ++ rest)
    pub bytes : IsBytes 16 a.address
    pub printed : as_string sys a ≡ ok text

  -- The first pattern that matches the line has a text in its capture group for which `Address`
  -- throws.
  pub record Refuses (patterns : List Match) (line : Bytes) (x : Exception) : Type 0 where
    pub before : List Match
    pub pattern : Match
    pub behind : List Match
    pub listed : patterns ≡ before ++ pattern ∷ behind
    pub unmatched_before : All (IsUnmatched line) before
    pub groups_before : List Regmatch
    pub groups_behind : List Regmatch
    pub start : Bytes
    pub text : Bytes
    pub rest : Bytes
    pub matched : outcome pattern line ≡ (0, groups_before ++ span start text ∷ groups_behind)
    pub captured : length groups_before ≡ pattern.capture
    pub composed : line ≡ start ++ (text ++ rest)
    pub refused : assign sys text ≡ throws x

module _ (sys : Platform) (blocker : Blocker) (config : ConfFile) (clock : ℕ → ℕ) where
  process_patterns_unmatched :
      (i : ℕ) (patterns more : List Match) (line : Bytes) (d : Detector)
      → All (IsUnmatched sys line) patterns
      → process_patterns sys blocker config clock i (patterns ++ more) line d
        ≡ process_patterns sys blocker config clock (i + length patterns) more line d
  unfolding process_patterns
  process_patterns_unmatched i [] more line d h =
      ap (λ k. process_patterns sys blocker config clock k more line d) (omega arith)
  process_patterns_unmatched i (m ∷ patterns) more line d h =
      ap (λ r. r >>= process_patterns sys blocker config clock (suc i) (patterns ++ more) line)
        (process_pattern_unmatched sys blocker config clock i m line d (outcome sys m line).0
          (outcome sys m line).1 refl h.0)
      ∙ process_patterns_unmatched (suc i) patterns more line d h.1
      ∙ ap (λ k. process_patterns sys blocker config clock k more line d) (omega arith)

  process_patterns_none :
      (i : ℕ) (patterns : List Match) (line : Bytes) (d : Detector)
      → All (IsUnmatched sys line) patterns
      → process_patterns sys blocker config clock i patterns line d ≡ ok d
  unfolding process_patterns
  process_patterns_none i [] line d h = refl
  process_patterns_none i (m ∷ patterns) line d h =
      ap (λ r. r >>= process_patterns sys blocker config clock (suc i) patterns line)
        (process_pattern_unmatched sys blocker config clock i m line d (outcome sys m line).0
          (outcome sys m line).1 refl h.0)
      ∙ process_patterns_none (suc i) patterns line d h.1

  -- A line that no pattern matches changes nothing.
  pub process_line_unmatched :
      (line : Bytes) (d : Detector)
      → All (IsUnmatched sys line) config.patterns
      → process_line sys blocker config clock line d ≡ ok d
  unfolding process_line
  process_line_unmatched line d h = process_patterns_none 0 config.patterns line d h

  -- Where inet_pton and inet_ntop keep their promises, a line that one pattern of the configuration
  -- matches, with a printed address in the capture group, and no other pattern does, is one
  -- detection of that address, at the time that the clock shows while the pattern is at work.
  pub process_line-detected_address :
      (line : Bytes) (a : Address) (d : Detector)
      → InetLaws sys
      → (D : Detects sys config.patterns line a)
      → process_line sys blocker config clock line d
        ≡ detected_address blocker config (clock (length D.before)) a d
  unfolding process_line process_patterns
  process_line-detected_address line a d laws D =
      ap (λ patterns. process_patterns sys blocker config clock 0 patterns line d) D.listed
      ∙ process_patterns_unmatched 0 D.before (D.pattern ∷ D.behind) line d D.unmatched_before
      ∙ ap (λ k. process_patterns sys blocker config clock k (D.pattern ∷ D.behind) line d)
          (omega arith)
      ∙ ap
          (λ r.
            r >>= process_patterns sys blocker config clock (suc (length D.before)) D.behind line)
          (process_pattern-detected_address sys blocker config clock (length D.before) D.pattern
            line d laws D.groups_before D.groups_behind D.start D.text D.rest a D.matched D.captured
            D.composed D.bytes D.printed)
      ∙ bind_cong (detected_address blocker config (clock (length D.before)) a d) _ ok
          (λ d'. process_patterns_none (suc (length D.before)) D.behind line d' D.unmatched_behind)
      ∙ bind_ok (detected_address blocker config (clock (length D.before)) a d)

  -- A line whose first matching pattern captures no address makes `processLine` throw.
  pub process_line-throws :
      (line : Bytes) (x : Exception) (d : Detector)
      → Refuses sys config.patterns line x
      → process_line sys blocker config clock line d ≡ throws x
  unfolding process_line process_patterns
  process_line-throws line x d r =
      ap (λ patterns. process_patterns sys blocker config clock 0 patterns line d) r.listed
      ∙ process_patterns_unmatched 0 r.before (r.pattern ∷ r.behind) line d r.unmatched_before
      ∙ ap
          (λ p.
            p
            >>= process_patterns sys blocker config clock (suc (0 + length r.before)) r.behind line)
          (process_pattern_no_address sys blocker config clock (0 + length r.before) r.pattern line
            d r.groups_before r.groups_behind r.start r.text r.rest x r.matched r.captured
            r.composed r.refused)
