-- ===== src/Loop/Timeout.antt =====
-- The last argument of `select` in `main` (src/blockad.cc), by the operators of src/timeval.h.
use blockad.Common.{ℕ, zero, suc, ◌+◌, ◌-◌, ◌*◌, ◌<◌, ◌≡◌, inl, inr, ltb, arith, pos, Bool-cases}
use blockad.Timeval.{Timeval, ◌-timeval◌, time_sub}
use blockad.Loop.{delta}

-- A time behind 1970, as `gettimeofday` reports it.
abbrev pub clock : ℕ → ℕ → Timeval
clock s u = record { tv_sec = pos s; tv_usec = pos u }

abbrev pub micros : ℕ → ℕ → ℕ
micros s u = 1000000 * s + u

-- `d` is the time `n` microseconds, in its normal form.
abbrev pub Lasts : ℕ → Timeval → Type 0
Lasts n d = (s : ℕ) × (u : ℕ) × (d ≡ clock s u) × (u < 1000000) × (micros s u ≡ n)

-- For a clock with less than a million microseconds, the time that `main` waits is written with
-- less than a million microseconds, and is the time that is left until `limit`, or none at all when
-- `limit` has come.
pub delta-Lasts :
    (limit s u : ℕ) → u < 1000000 → Lasts (micros limit 0 - micros s u) (delta limit (clock s u))
unfolding delta time_sub ◌-timeval◌
delta-Lasts limit s zero h = elim (Bool-cases (ltb limit s)) [
  | inl e ↦ (0, 0, ground (arith, e), omega arith, ground (arith, e))
  | inr e ↦ (limit - s, 0, ground (arith, e), omega arith, ground (arith, e))
]
delta-Lasts limit s (suc u) h = elim (Bool-cases (ltb s limit)) [
  | inl e ↦ (limit - s - 1, 1000000 - suc u, ground (arith, e), omega arith, ground (arith, e))
  | inr e ↦ (0, 0, ground (arith, e), omega arith, ground (arith, e))
]
