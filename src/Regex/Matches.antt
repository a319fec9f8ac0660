-- ===== src/Regex/Matches.antt =====
-- The entries that `Regex::execute` (src/Regex.cc) leaves in its vector of matches.
use blockad.Common.{
  ℕ, zero, suc, ◌≤◌, ◌≡◌, refl, ap, true, false, List, [], ◌∷◌, ◌++◌, none, some, Bytes, c_str, All,
  length, get_elem?, arith,
}
use blockad.Platform.{Platform, Regmatch}
use blockad.Regex.{Regex, is_unused, keep, strip, execute}

abbrev pub IsUnused : Regmatch → Type 0
IsUnused m = is_unused m ≡ true

strip_unused : (vs : List Regmatch) → All IsUnused vs → strip vs ≡ []
unfolding strip
strip_unused [] h = refl
strip_unused (v ∷ vs) h = rw (strip_unused vs h.1) (ground (arith, h.0))

strip-append : (us vs : List Regmatch) → All IsUnused vs → strip (us ++ vs) ≡ strip us
unfolding strip
strip-append [] vs h = strip_unused vs h
strip-append (u ∷ us) vs h = ap (keep u) (strip-append us vs h)

length-keep : (m : Regmatch) (ms : List Regmatch) → length (keep m ms) ≤ suc (length ms)
length-keep m [] = ground arith
length-keep m (k ∷ ks) = omega arith

length-strip : (ms : List Regmatch) → length (strip ms) ≤ length ms
unfolding strip
length-strip [] = omega arith
length-strip (m ∷ ms) = omega (arith, length-keep m (strip ms), length-strip ms)

get_elem?_past {ℓ} : {A : Type ℓ} (xs : List A) (i : ℕ) → length xs ≤ i → get_elem? xs i ≡ none
get_elem?_past [] i h = refl
get_elem?_past (x ∷ xs) zero h = absurd (omega arith)
get_elem?_past (x ∷ xs) (suc i) h = get_elem?_past xs i (omega arith)

-- No entry is left from where all entries are unused.
pub strip_past :
    (us vs : List Regmatch) (i : ℕ)
    → All IsUnused vs
    → length us ≤ i
    → get_elem? (strip (us ++ vs)) i ≡ none
strip_past us vs i h l =
    rw (strip-append us vs h) (get_elem?_past (strip us) i (omega (arith, length-strip us)))

get_elem?-keep :
    (m : Regmatch) (ms : List Regmatch) → is_unused m ≡ false → get_elem? (keep m ms) 0 ≡ some m
get_elem?-keep m [] h = ground (arith, h)
get_elem?-keep m (k ∷ ks) h = refl

keep-suc :
    (m k : Regmatch) (ms : List Regmatch) (i : ℕ)
    → get_elem? ms i ≡ some k
    → get_elem? (keep m ms) (suc i) ≡ some k
keep-suc m k [] i h = ground (arith, h)
keep-suc m k (x ∷ xs) i h = h

-- A used entry stays where it is.
pub strip_used :
    (us vs : List Regmatch) (m : Regmatch)
    → is_unused m ≡ false
    → get_elem? (strip (us ++ m ∷ vs)) (length us) ≡ some m
unfolding strip
strip_used [] vs m h = get_elem?-keep m (strip vs) h
strip_used (u ∷ us) vs m h = keep-suc u m (strip (us ++ m ∷ vs)) (length us) (strip_used us vs m h)

module _ (sys : Platform) (r : Regex) (s : Bytes) (eflags nmatch : ℕ) where
  -- On a match, `execute` returns 0 and the entries of `regexec` without the unused ones at the
  -- end.
  pub execute_matched :
      (ms : List Regmatch)
      → sys.regexec r.pattern r.cflags (c_str s) nmatch eflags ≡ (0, ms)
      → execute sys r s eflags nmatch ≡ (0, strip ms)
  unfolding execute
  execute_matched ms e = ground (arith, e)
