-- ===== src/Strtol/Bounds.antt =====
-- The range of what `strtol` returns.
use blockad.Common.{ℕ, zero, suc, ◌≤◌, Bool, true, false, [], ◌∷◌, Bytes, pos_part, long_max, arith}
use blockad.Strtol.{strtol, signed, number, after_spaces, digits_from, skip_spaces}

signed_bound : (minus : Bool) (d : ℕ × Bytes) → pos_part (signed minus d).value ≤ long_max
unfolding signed
signed_bound true (zero, rest) = ground arith
signed_bound true (suc n, rest) = ground arith
signed_bound false (n, rest) = ground arith

number_bound : (s : Bytes) (minus : Bool) (t : Bytes) → pos_part (number s minus t).value ≤ long_max
unfolding number
number_bound s minus [] = omega arith
number_bound s minus (c ∷ cs) = ground (arith, signed_bound minus (digits_from 0 (c ∷ cs)))

after_spaces_bound : (s t : Bytes) → pos_part (after_spaces s t).value ≤ long_max
unfolding after_spaces
after_spaces_bound s [] = number_bound s false []
after_spaces_bound s (c ∷ cs) =
    ground (arith, number_bound s true cs, number_bound s false cs, number_bound s false (c ∷ cs))

-- `strtol` returns a `long`.
pub strtol_bound : (s : Bytes) → pos_part (strtol s).value ≤ long_max
unfolding strtol
strtol_bound s = after_spaces_bound s (skip_spaces s)
