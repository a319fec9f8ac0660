-- ===== src/Loop/Signals.antt =====
-- src/blockad.cc: the pipe by which `sighup_handler` tells `main` of a signal. The signal is
-- blocked but in `select`, and the pipe does not block: a byte that it has no room for is lost.
use blockad.Common.{
  ℕ, zero, suc, ◌+◌, ◌-◌, ◌*◌, ◌≤◌, ◌<◌, ◌≡◌, ◌∙◌, if◌then◌else◌, ltb, arith, min, inl, inr,
  Bool-cases,
}

-- The bytes in the pipe behind a signal, where it has room for `capacity`.
unfoldable pub sighup_handler : ℕ → ℕ → ℕ
sighup_handler capacity pending = if ltb pending capacity then suc pending else pending

-- The bytes behind a number of signals.
unfoldable pub signal_all : ℕ → ℕ → ℕ → ℕ
unfolding sighup_handler
signal_all capacity zero pending = pending
signal_all capacity (suc n) pending = signal_all capacity n (sighup_handler capacity pending)

-- `read(signal_pipe[0], drain, sizeof drain)`
unfoldable pub drain : ℕ → ℕ
drain pending = pending - 4

-- How often `main` reads the configuration for the bytes in the pipe if no more signals come, in so
-- many turns: a turn ends the inner loop if there are bytes.
unfoldable pub reloads : ℕ → ℕ → ℕ
unfolding drain
reloads zero pending = 0
reloads (suc turns) pending =
    let rest = reloads turns (drain pending) in if ltb 0 pending then suc rest else 0

-- The bytes behind these turns.
unfoldable pub drained : ℕ → ℕ → ℕ
unfolding drain
drained zero pending = pending
drained (suc turns) pending = drained turns (drain pending)

signal_all-min :
    (capacity n pending : ℕ)
    → pending ≤ capacity
    → signal_all capacity n pending ≡ min (pending + n) capacity
unfolding signal_all sighup_handler
signal_all-min capacity zero pending h = omega arith
signal_all-min capacity (suc n) pending h = elim (Bool-cases (ltb pending capacity)) [
  | inl e ↦ rw (e, signal_all-min capacity n (suc pending) (ground (arith, e))) (omega arith)
  | inr e ↦ rw (e, signal_all-min capacity n pending h) (ground (arith, e))
]

reloads_bounds :
    (turns pending : ℕ)
    → pending ≤ 4 * turns
    → (pending ≤ 4 * reloads turns pending)
      × (4 * reloads turns pending ≤ pending + 3)
      × (drained turns pending ≡ 0)
unfolding reloads drained drain
reloads_bounds zero pending h = (omega arith, omega arith, omega arith)
reloads_bounds (suc turns) pending h =
    let (lower, upper, empty) = reloads_bounds turns (pending - 4) (omega arith) in
    elim (Bool-cases (ltb 0 pending)) [
      | inl e ↦ (ground (arith, e, lower), ground (arith, e, upper), empty)
      | inr e ↦ (ground (arith, e, lower), ground (arith, e, upper), empty)
    ]

-- However many `SIGHUP`s arrive while `main` waits with an empty pipe of signals, and however much
-- the pipe holds: if it holds anything, at least one reading of the configuration follows and no
-- more than signals came, one for each four bytes that the pipe could take and one for the rest,
-- after which the pipe is empty.
pub reloads-signal_all :
    (capacity n turns : ℕ)
    → 0 < capacity
    → 0 < n
    → min n capacity ≤ 4 * turns
    → (0 < reloads turns (signal_all capacity n 0))
      × (reloads turns (signal_all capacity n 0) ≤ n)
      × (min n capacity ≤ 4 * reloads turns (signal_all capacity n 0))
      × (4 * reloads turns (signal_all capacity n 0) ≤ min n capacity + 3)
      × (drained turns (signal_all capacity n 0) ≡ 0)
reloads-signal_all capacity n turns c s h =
    let came : signal_all capacity n 0 ≡ min n capacity =
      signal_all-min capacity n 0 (omega arith) ∙ omega arith in
    let (lower, upper, empty) = reloads_bounds turns (min n capacity) h in
    rw came (omega (arith, lower), omega (arith, lower, upper), lower, upper, empty)
