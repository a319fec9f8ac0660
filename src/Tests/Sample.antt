-- ===== src/Tests/Sample.antt =====
-- A concrete C library and kernel, on which the theorems are run. Its texts of addresses are
-- simpler than those of inet_ntop(3): one character for each byte, behind a colon for IPv6.
use blockad.Common.{
  ℕ, suc, ◌+◌, ◌-◌, ◌≡◌, refl, ap, true, ◌&&◌, List, [], ◌∷◌, map, Option, none, some, Bytes, codes,
  find_first, All, IsByte, Lacks, length, leb, ltb, ◌==◌, if◌then◌else◌, arith, inl, inr,
  Option-cases,
}
use blockad.Platform.{Platform, Regmatch, InetLaws, IsBytes}

abbrev pub shown : Bytes → Bytes
shown = map (λ b. b + 97)

unfoldable pub read : Bytes → Option Bytes
read [] = some []
read (c ∷ s) = elim (read s) [
  | none ↦ none
  | some a ↦ if leb 97 c && ltb c 353 then some ((c - 97) ∷ a) else none
]

unfoldable pub read_exactly : ℕ → Bytes → Option Bytes
unfolding read
read_exactly n s = if length s == n then read s else none

unfoldable pub read6 : Bytes → Option Bytes
unfolding read_exactly
read6 [] = none
read6 (c ∷ s) = if c == b':' then read_exactly 16 s else none

abbrev pub until_newline : Bytes → ℕ
until_newline [] = 0
until_newline (c ∷ s) = let n = until_newline s in if c == b'\n' then 0 else suc n

-- One group of the pattern: what is behind the first character on the line, if that is an `F`.
abbrev pub run : Bytes → ℕ × List Regmatch
run [] = (1, [])
run (c ∷ s) =
    if c == b'F'
    then (
      0,
      record { rm_so = some 0; rm_eo = some (suc (length s)) }
          ∷ record { rm_so = some 1; rm_eo = some (suc (until_newline s)) }
          ∷ record { rm_so = none; rm_eo = none }
          ∷ [],
    )
    else (1, [])

abbrev pub groups : Bytes → ℕ
groups [] = 0
groups (c ∷ s) = let n = groups s in if c == b'(' then suc n else n

unfoldable pub sample : Platform
unfolding read_exactly read6
sample = record {
  pton4 = read_exactly 4;
  pton6 = read6;
  ntop4 = shown;
  ntop6 = λ a. b':' ∷ shown a;
  strerror = λ errno. codes "Error";
  regcomp = λ pattern cflags. if length pattern == 0 then 14 else 0;
  re_nsub = λ pattern cflags. groups pattern;
  regexec = λ pattern cflags s nmatch eflags. run s;
  regerror = λ rc. codes "Empty (sub)expression";
}

read-IsBytes : (s a : Bytes) → read s ≡ some a → IsBytes (length s) a
unfolding read
read-IsBytes [] a e = ground arith
read-IsBytes (c ∷ s) a e = elim (Option-cases (read s)) [
  | inl n ↦ ground (arith, n)
  | inr (b, y) ↦ ground (arith, y, read-IsBytes s b y)
]

read-shown : (a : Bytes) → All IsByte a → read (shown a) ≡ some a
unfolding read
read-shown [] h = refl
read-shown (b ∷ a) h = ground (arith, read-shown a h.1)

length-shown : (a : Bytes) → length (shown a) ≡ length a
length-shown [] = refl
length-shown (b ∷ a) = ap suc (length-shown a)

shown-Lacks : (c : ℕ) (a : Bytes) → ltb c 97 ≡ true → Lacks c (shown a)
shown-Lacks c [] h = tt
shown-Lacks c (b ∷ a) h = ground (arith, shown-Lacks c a h)

read_exactly-IsBytes : (n : ℕ) (s a : Bytes) → read_exactly n s ≡ some a → IsBytes n a
unfolding read_exactly
read_exactly-IsBytes n s a e = ground (arith, read-IsBytes s a)

read_exactly-shown : (n : ℕ) (a : Bytes) → IsBytes n a → read_exactly n (shown a) ≡ some a
unfolding read_exactly
read_exactly-shown n a h = ground (arith, read-shown a h.1, length-shown a)

read6-IsBytes : (s a : Bytes) → read6 s ≡ some a → IsBytes 16 a
unfolding read6 sample
read6-IsBytes [] a e = ground arith
read6-IsBytes (c ∷ s) a e = ground (arith, read_exactly-IsBytes 16 s a)

pub sample-InetLaws : InetLaws sample
unfolding read6 sample
sample-InetLaws = record {
  pton4-IsBytes = read_exactly-IsBytes 4;
  pton6-IsBytes = read6-IsBytes;
  pton4-ntop4 = read_exactly-shown 4;
  pton6-ntop6 = read_exactly-shown 16;
  ntop4_plain = λ a. (shown-Lacks 0 a refl, shown-Lacks b':' a refl);
  ntop6_plain = λ a. (omega arith, shown-Lacks 0 a refl);
  ntop6_colon = λ a e. ground (arith, e, find_first b':' [] (shown a) tt);
}
