-- ===== src/Detector/Captures.antt =====
-- From the match of a pattern to the detected address: `processLine` of src/blockad.cc.
use blockad.Common.{
  ℕ, ◌+◌, ◌-◌, ◌≤◌, ◌≡◌, ◌≢◌, refl, ap, subst, ◌∙◌, List, ◌∷◌, ◌++◌, none, some, Bytes, c_str,
  length, length-append, All, get_elem?, take_exact, drop_exact, arith, Exception, out_of_range,
  undefined, ok, throws, ◌>>=◌,
}
use blockad.Platform.{Platform, Regmatch, InetLaws, IsBytes}
use blockad.Address.{Address, assign, as_string}
use blockad.Address.Text.{assign-as_string}
use blockad.Regex.{Regex, default_nmatches, is_unused, strip}
use blockad.Regex.Matches.{IsUnused, strip_past, strip_used, execute_matched}
use blockad.Regex
use blockad.ConfFile.{ConfFile, Match}
use blockad.Detector.{
  Blocker, Detector, capture_string, capture_text, detected_address, process_pattern,
}

-- An entry that spans `text` in `before ++ text ++ after`.
abbrev pub span : Bytes → Bytes → Regmatch
span before text = record {
  rm_so = some (length before);
  rm_eo = some (length before + length text);
}

capture_string_slice :
    (before text after : Bytes)
    → capture_string
        (before ++ (text ++ after))
        (length before)
        (some (length before + length text))
      ≡ ok text
unfolding capture_string
capture_string_slice before text after =
    rw (drop_exact before (text ++ after), tail_length)
      (rw (take_exact text after) (ground (arith, length-append before (text ++ after))))
  where
    tail_length : length before + length text - length before ≡ length text
    tail_length = omega arith

capture_text_missing :
    (line : Bytes) (matches : List Regmatch) (n : ℕ)
    → get_elem? matches n ≡ none
    → capture_text line matches n ≡ throws undefined
unfolding capture_text
capture_text_missing line matches n e = rw (e, capture_text)

capture_text_unset :
    (line : Bytes) (matches : List Regmatch) (n : ℕ) (m : Regmatch)
    → get_elem? matches n ≡ some m
    → m.rm_so ≡ none
    → capture_text line matches n ≡ throws out_of_range
unfolding capture_text
capture_text_unset line matches n m e u = rw (e, capture_text) (rw (u, capture_text))

capture_text-span :
    (line : Bytes) (matches : List Regmatch) (n : ℕ) (before text after : Bytes)
    → get_elem? matches n ≡ some (span before text)
    → line ≡ before ++ (text ++ after)
    → capture_text line matches n ≡ ok text
unfolding capture_text
capture_text-span line matches n before text after e s =
    rw (e, capture_text) (rw s (capture_string_slice before text after))

module _ (sys : Platform) (blocker : Blocker) (config : ConfFile) (clock : ℕ → ℕ) (i : ℕ)
    (m : Match) (line : Bytes) (d : Detector) where
  -- A pattern that does not match changes nothing.
  pub process_pattern_unmatched :
      (rc : ℕ) (ms : List Regmatch)
      → sys.regexec m.regex.pattern m.regex.cflags (c_str line) default_nmatches 0 ≡ (rc, ms)
      → rc ≢ 0
      → process_pattern sys blocker config clock i m line d ≡ ok d
  unfolding process_pattern Regex.execute
  process_pattern_unmatched rc ms e n = ground (arith, e, n)

  process_pattern_matched :
      (ms : List Regmatch)
      → sys.regexec m.regex.pattern m.regex.cflags (c_str line) default_nmatches 0 ≡ (0, ms)
      → process_pattern sys blocker config clock i m line d ≡ (
          capture_text line (strip ms) m.capture >>= λ text.
          assign sys text >>= λ a. detected_address blocker config (clock i) a d)
  unfolding process_pattern
  process_pattern_matched ms e = rw (execute_matched sys m.regex line 0 default_nmatches ms e)

  -- A line that matches a pattern whose capture group took no part in the match, and no group
  -- behind it did, or whose number is past the entries that `regexec` fills, makes `processLine`
  -- read past the end of the vector of matches.
  pub process_pattern_past_end :
      (us vs : List Regmatch)
      → sys.regexec m.regex.pattern m.regex.cflags (c_str line) default_nmatches 0 ≡ (0, us ++ vs)
      → All IsUnused vs
      → length us ≤ m.capture
      → process_pattern sys blocker config clock i m line d ≡ throws undefined
  process_pattern_past_end us vs e h l =
      process_pattern_matched (us ++ vs) e
      ∙ ap
          (λ r.
            r >>= λ text. assign sys text >>= λ a. detected_address blocker config (clock i) a d)
          (capture_text_missing line (strip (us ++ vs)) m.capture (strip_past us vs m.capture h l))

  -- A line that matches a pattern whose capture group took no part in the match, though one behind
  -- it did, makes `processLine` throw `std::out_of_range`.
  process_pattern_unset :
      (us vs : List Regmatch) (v : Regmatch)
      → sys.regexec m.regex.pattern m.regex.cflags (c_str line) default_nmatches 0 ≡ (0, us ++ vs)
      → get_elem? (strip (us ++ vs)) m.capture ≡ some v
      → v.rm_so ≡ none
      → process_pattern sys blocker config clock i m line d ≡ throws out_of_range
  process_pattern_unset us vs v e g n =
      process_pattern_matched (us ++ vs) e
      ∙ ap
          (λ r.
            r >>= λ text. assign sys text >>= λ a. detected_address blocker config (clock i) a d)
          (capture_text_unset line (strip (us ++ vs)) m.capture v g n)

  -- A line that matches, with `text` in the capture group, gives `text` to `assign`.
  process_pattern_captured :
      (us vs : List Regmatch) (before text after : Bytes)
      → sys.regexec m.regex.pattern m.regex.cflags (c_str line) default_nmatches 0
        ≡ (0, us ++ span before text ∷ vs)
      → length us ≡ m.capture
      → line ≡ before ++ (text ++ after)
      → process_pattern sys blocker config clock i m line d
        ≡ (assign sys text >>= λ a. detected_address blocker config (clock i) a d)
  process_pattern_captured us vs before text after e l s =
      process_pattern_matched (us ++ span before text ∷ vs) e
      ∙ ap (λ r. r >>= λ t. assign sys t >>= λ a. detected_address blocker config (clock i) a d)
          (capture_text-span line (strip (us ++ span before text ∷ vs)) m.capture before text after
            (subst
              (λ n. get_elem? (strip (us ++ span before text ∷ vs)) n ≡ some (span before text)) l
              (strip_used us vs (span before text) refl))
            s)

  -- A line that matches a pattern, with an address as `asString` prints it in the capture group,
  -- is for that pattern a detection of that address, at the time that the clock shows.
  pub process_pattern-detected_address :
      InetLaws sys
      → (us vs : List Regmatch) (before text after : Bytes) (a : Address)
      → sys.regexec m.regex.pattern m.regex.cflags (c_str line) default_nmatches 0
        ≡ (0, us ++ span before text ∷ vs)
      → length us ≡ m.capture
      → line ≡ before ++ (text ++ after)
      → IsBytes 16 a.address
      → as_string sys a ≡ ok text
      → process_pattern sys blocker config clock i m line d
        ≡ detected_address blocker config (clock i) a d
  process_pattern-detected_address laws us vs before text after a e l s h printed =
      let (t, printed', read) = assign-as_string sys laws a h in
      let there : assign sys text ≡ ok a = ground (arith, printed, printed', read) in
      process_pattern_captured us vs before text after e l s ∙ rw there

  -- A line that matches a pattern, with a text in the capture group that is no address, makes
  -- `processLine` throw what `Address` throws.
  pub process_pattern_no_address :
      (us vs : List Regmatch) (before text after : Bytes) (x : Exception)
      → sys.regexec m.regex.pattern m.regex.cflags (c_str line) default_nmatches 0
        ≡ (0, us ++ span before text ∷ vs)
      → length us ≡ m.capture
      → line ≡ before ++ (text ++ after)
      → assign sys text ≡ throws x
      → process_pattern sys blocker config clock i m line d ≡ throws x
  process_pattern_no_address us vs before text after x e l s refused =
      process_pattern_captured us vs before text after e l s ∙ rw refused
