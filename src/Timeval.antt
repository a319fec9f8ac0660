-- ===== src/Timeval.antt =====
-- src/timeval.h: times of <sys/time.h> and times in seconds. The numbers do not wrap: their
-- overflow is undefined.
use blockad.Common.{
  Bool, true, false, ◌&&◌, not, if◌then◌else◌, ℤ, pos, equal_ℤ, ltb_ℤ, add_ℤ, ◌-ℤ◌,
}

-- `struct timeval`
pub record Timeval : Type 0 where
  pub tv_sec : ℤ
  pub tv_usec : ℤ

-- The borrow of a subtraction.
abbrev pub borrow : Timeval → Timeval
borrow r =
    if ltb_ℤ r.tv_usec (pos 0)
    then record { tv_sec = r.tv_sec -ℤ pos 1; tv_usec = add_ℤ r.tv_usec (pos 1000000) }
    else r

infixl 65 ◌-timeval◌
unfoldable pub ◌-timeval◌ : Timeval → Timeval → Timeval
a -timeval b = borrow (record { tv_sec = a.tv_sec -ℤ b.tv_sec; tv_usec = a.tv_usec -ℤ b.tv_usec })

-- `operator-` of a time in seconds and a `struct timeval`.
unfoldable pub time_sub : ℤ → Timeval → Timeval
unfolding ◌-timeval◌
time_sub a b = record { tv_sec = a; tv_usec = pos 0 } -timeval b

-- `operator<` of two `struct timeval`.
unfoldable pub timeval_lt : Timeval → Timeval → Bool
timeval_lt a b =
    if ltb_ℤ a.tv_sec b.tv_sec
    then true
    else if equal_ℤ a.tv_sec b.tv_sec && ltb_ℤ a.tv_usec b.tv_usec
    then true
    else false

-- `operator<` and `operator>=` with a time in seconds.
abbrev pub timeval_lt_time : Timeval → ℤ → Bool
timeval_lt_time a b = if ltb_ℤ a.tv_sec b then true else false

abbrev pub timeval_ge_time : Timeval → ℤ → Bool
timeval_ge_time a b = if not (ltb_ℤ a.tv_sec b) then true else false
