-- ===== src/Common/Bits.antt =====
-- A byte under the masks that keep its first bits.
use Prim.Native.Nat.{ℕ, zero, suc, ◌-◌, ◌*◌, ◌/◌, ◌%◌, ◌^◌, ◌<◌, bit_and}
use mathlib.Core.Path.{◌≡◌, refl}
use mathlib.Core.Bool.{Bool, true, ◌&&◌}
use mathlib.Core.Logic.{◌⊎◌}
use native.Mathlib.Omega.{arith}
use blockad.Common.Tests.{◌==◌, ==_iff}

-- A Boolean test at every number below `n`.
check_below : ℕ → (ℕ → Bool) → Bool
check_below zero p = true
check_below (suc n) p = p n && check_below n p

check_below_sound : (n : ℕ) (p : ℕ → Bool) (x : ℕ) → check_below n p ≡ true → x < n → p x ≡ true
unfolding check_below
check_below_sound zero p x h lt = absurd (omega arith)
check_below_sound (suc n) p x h lt = ground (arith, check_below_sound n p x)

-- The byte whose first `j` bits are ones: `(uint8_t)(0xFF << (8 - j))`.
abbrev pub ones : ℕ → ℕ
ones j = (255 * 2 ^ (8 - j)) % 256

keeps : ℕ → ℕ → Bool
keeps j a = bit_and a (ones j) == a / 2 ^ (8 - j) * 2 ^ (8 - j)

keeps_table : check_below 9 (λ j. check_below 256 (keeps j)) ≡ true
unfolding check_below keeps
keeps_table = refl

-- Masking with `ones j` clears the last `8 - j` bits.
pub bit_and-ones : (j a : ℕ) → j < 9 → a < 256 → bit_and a (ones j) ≡ a / 2 ^ (8 - j) * 2 ^ (8 - j)
unfolding keeps
bit_and-ones j a hj ha = (==_iff _ _).0 (
    check_below_sound 256 (keeps j) a
      (check_below_sound 9 (λ j. check_below 256 (keeps j)) j keeps_table hj) ha)

pub small_cases :
    (j : ℕ)
    → j < 9
    → (j ≡ 0) ⊎ (j ≡ 1) ⊎ (j ≡ 2) ⊎ (j ≡ 3) ⊎ (j ≡ 4) ⊎ (j ≡ 5) ⊎ (j ≡ 6) ⊎ (j ≡ 7) ⊎ (j ≡ 8)
small_cases j h = omega arith
