-- ===== src/Strtol.antt =====
-- `strtol(s, &end, 10)` of the C standard library, as far as the program uses it: a C string in,
-- the value, the rest of the text from `end` on, and what it does to `errno`.
pub mod Bounds
use blockad.Common.{
  ℕ, zero, suc, ◌+◌, ◌-◌, ◌*◌, ◌<◌, ◌≤◌, ◌≡◌, ◌≢◌, refl, Bool, true, false, not, ◌&&◌, ◌||◌, List,
  [], ◌∷◌, ◌++◌, Bytes, ltb, leb, ◌==◌, if◌then◌else◌, ℤ, pos, negsuc, long_max, arith, All,
}

-- `end == s` exactly when nothing was converted.
pub record Strtol : Type 0 where
  pub value : ℤ
  pub end : Bytes
  pub converted : Bool
  pub erange : Bool

abbrev pub is_space : ℕ → Bool
is_space c = c == b' ' || leb 9 c && leb c 13

abbrev pub is_digit : ℕ → Bool
is_digit c = leb b'0' c && leb c b'9'

unfoldable pub skip_spaces : Bytes → Bytes
skip_spaces [] = []
skip_spaces (c ∷ cs) = if is_space c then skip_spaces cs else c ∷ cs

-- The digits at the front, most significant first, and what follows them.
unfoldable pub digits_from : ℕ → Bytes → ℕ × Bytes
digits_from acc [] = (acc, [])
digits_from acc (c ∷ cs) =
    let rest = digits_from (acc * 10 + (c - b'0')) cs in if is_digit c then rest else (acc, c ∷ cs)

-- `-n`
abbrev pub negated : ℕ → ℤ
negated zero = pos 0
negated (suc n) = negsuc n

-- The value with its sign, held to the range of `long`.
unfoldable pub signed : Bool → ℕ × Bytes → Strtol
signed false (n, rest) = record {
  value = if ltb long_max n then pos long_max else pos n;
  end = rest;
  converted = true;
  erange = ltb long_max n;
}
signed true (n, rest) = record {
  value = if ltb (suc long_max) n then negsuc long_max else negated n;
  end = rest;
  converted = true;
  erange = ltb (suc long_max) n;
}

-- Digits are wanted at the front of `cs`; without them `end` is the whole text `s`.
unfoldable pub number : Bytes → Bool → Bytes → Strtol
unfolding signed digits_from
number s minus [] = record { value = pos 0; end = s; converted = false; erange = false }
number s minus (c ∷ cs) =
    if is_digit c
    then signed minus (digits_from 0 (c ∷ cs))
    else record { value = pos 0; end = s; converted = false; erange = false }

unfoldable pub after_spaces : Bytes → Bytes → Strtol
unfolding number
after_spaces s [] = number s false []
after_spaces s (c ∷ cs) =
    if c == b'-'
    then number s true cs
    else if c == b'+'
    then number s false cs
    else number s false (c ∷ cs)

unfoldable pub strtol : Bytes → Strtol
unfolding skip_spaces after_spaces
strtol s = after_spaces s (skip_spaces s)
