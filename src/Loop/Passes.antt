-- ===== src/Loop/Passes.antt =====
-- src/blockad.cc with src/PollingWatcher.cc: a turn of the inner loop of `main` as one pass over
-- the lines that its watchers find.
use blockad.Common.{
  ℕ, suc, ◌+◌, ◌≡◌, refl, sym, ap, ◌∙◌, inl, inr, List, [], ◌∷◌, ◌++◌, Option, none, Bytes, ℤ,
  if◌then◌else◌, Result, ok, ◌>>=◌, Bool-cases, bind_assoc, bind_cong,
}
use blockad.Platform.{Platform}
use blockad.LogFile.{Identity, Reading, Polling, opened_as}
use blockad.LogFile.Turn.{turn_lines, now_open, process_all, process_all-append, work-passes}
use blockad.Timeval.{Timeval}
use blockad.Loop.{
  Polled, PollAnswers, polling, is_due, check_one, check, Selected, selected, TurnAnswers, after,
  turn, is_set, wait_for, waits,
}

-- What a watcher finds when it works, where files can be opened and read.
pub record Found : Type 0 where
  pub now : ℕ
  pub stat : Option Identity
  pub more : Reading
  pub anew : Reading
  pub id : Identity

abbrev pub asked : Found → PollAnswers
asked f = record { now = f.now; stat = f.stat; more = f.more; opening = opened_as f.id f.anew }

pub record IsReadable (f : Found) : Type 0 where
  pub more : f.more.failure ≡ none
  pub anew : f.anew.failure ≡ none

-- The lines that it hands over.
abbrev pub lines_of : Found → Polled → List Bytes
lines_of f w = (turn_lines w.state f.stat f.more f.anew).1

-- The watcher afterwards.
abbrev pub polled_after : Found → Polled → Polled
polled_after f w = record w {
  state = record {
    open_as = now_open w.state f.stat f.id;
    line = (turn_lines w.state f.stat f.more f.anew).0;
    next = f.now + 1;
  };
}

-- The lines are processed, and `v` is what is left.
abbrev pub hands :
    {S : Type 0} (process : Bytes → S → Result S) {V : Type 0} → V → List Bytes → S → Result (V × S)
hands process v lines s = process_all process lines s >>= λ s'. ok (v, s')

module _ (sys : Platform) {S : Type 0} (process : Bytes → S → Result S) (fds : List ℤ)
    (now : Timeval) (found : ℕ → Found) where
  -- The lines that the watchers that are due hand over, in the order of the watchers.
  abbrev pub due_lines : ℕ → List Polled → List Bytes
  due_lines i [] = []
  due_lines i (w ∷ ws) =
      (if is_due (polling sys process) fds now w then lines_of (found i) w else [])
      ++ due_lines (suc i) ws

  abbrev pub all_after : ℕ → List Polled → List Polled
  all_after i [] = []
  all_after i (w ∷ ws) =
      (if is_due (polling sys process) fds now w then polled_after (found i) w else w)
      ∷ all_after (suc i) ws

  work_found :
      (i : ℕ) (w : Polled) (s : S)
      → IsReadable (found i)
      → (polling sys process).work (asked (found i)) w s
        ≡ hands process (polled_after (found i) w) (lines_of (found i) w) s
  work_found i w s r =
      ap
        (λ (q : Result (Polling × S)).
          q >>= λ (x : Polling × S). ok (record w { state = x.0 }, x.1))
        (work-passes sys w.path process (found i).now (found i).stat (found i).more (found i).anew
          (found i).id w.state s r.more r.anew)
      ∙ bind_assoc (process_all process (lines_of (found i) w) s) _ _

  check_one-hands :
      (i : ℕ) (w : Polled) (s : S)
      → IsReadable (found i)
      → check_one (polling sys process) fds now (asked (found i)) w s
        ≡ hands process
            (if is_due (polling sys process) fds now w then polled_after (found i) w else w)
            (if is_due (polling sys process) fds now w then lines_of (found i) w else [])
            s
  unfolding check_one
  check_one-hands i w s r = elim (Bool-cases (is_due (polling sys process) fds now w)) [
    | inl e ↦ rw e (work_found i w s r)
    | inr e ↦ rw e
  ]

  hands-hands :
      {V U X : Type 0} (v : V) (u : U) (f : V → U → X) (a b : List Bytes) (s : S)
      → (hands process v a s >>= λ (x : V × S).
          hands process u b x.1 >>= λ (y : U × S). ok (f x.0 y.0, y.1))
        ≡ hands process (f v u) (a ++ b) s
  hands-hands v u f a b s =
      bind_assoc (process_all process a s) _ _
      ∙ bind_cong (process_all process a s) _ _ (λ t. bind_assoc (process_all process b t) _ _)
      ∙ sym (bind_assoc (process_all process a s) (process_all process b) _)
      ∙ ap (λ (q : Result S). q >>= λ t. ok (f v u, t)) (sym (process_all-append process a b s))

  check-hands :
      (i : ℕ) (ws : List Polled) (s : S)
      → ((k : ℕ) → IsReadable (found k))
      → check (polling sys process) fds now (λ k. asked (found k)) i ws s
        ≡ hands process (all_after i ws) (due_lines i ws) s
  unfolding check
  check-hands i [] s r = refl
  check-hands i (w ∷ ws) s r =
      ap
        (λ (q : Result (Polled × S)). q >>= λ (x : Polled × S).
          check (polling sys process) fds now (λ k. asked (found k)) (suc i) ws x.1
          >>= λ (y : List Polled × S). ok (x.0 ∷ y.0, y.1))
        (check_one-hands i w s (r i))
      ∙ bind_cong (hands process _ _ s) _ _ (λ x.
        ap (λ (q : Result (List Polled × S)). q >>= λ (y : List Polled × S). ok (x.0 ∷ y.0, y.1))
          (check-hands (suc i) ws x.1 r))
      ∙ hands-hands (if is_due (polling sys process) fds now w then polled_after (found i) w else w)
          (all_after (suc i) ws) (λ v vs. v ∷ vs)
          (if is_due (polling sys process) fds now w then lines_of (found i) w else [])
          (due_lines (suc i) ws) s

-- The answers of a turn in which no call fails.
abbrev pub smooth :
    (ℤ → List ℤ → Option Timeval → Selected)
    → (before now : Timeval) → (ℕ → Found)
    → TurnAnswers PollAnswers
smooth selecting before now found = record {
  unblocking = none;
  before = before;
  selecting = selecting;
  blocking = none;
  now = now;
  works = λ k. asked (found k);
}

-- Whatever `processLine` does and however many watchers poll their files, where no call fails and
-- the files can be opened and read, a turn of the inner loop behind `select` is one pass over the
-- lines that the watchers that are due find, in the order of the watchers, until `processLine`
-- throws; whether it is the last turn is told by the pipe of signals only.
pub turn-hands :
    (sys : Platform) {S : Type 0} (process : Bytes → S → Result S) (signal_fd : ℤ)
    (selecting : ℤ → List ℤ → Option Timeval → Selected) (before now : Timeval) (found : ℕ → Found)
    (fds : List ℤ) (ws : List Polled) (s : S)
    → ((k : ℕ) → IsReadable (found k))
    → wait_for (smooth selecting before now found) (waits (polling sys process) signal_fd ws)
      ≡ selected fds
    → turn sys (polling sys process) signal_fd (smooth selecting before now found) ws s
      ≡ after (is_set signal_fd fds) (
          hands process
            (all_after sys process fds now found 0 ws)
            (due_lines sys process fds now found 0 ws)
            s)
unfolding turn
turn-hands sys process signal_fd selecting before now found fds ws s r woken =
    rw woken (ap (after (is_set signal_fd fds)) (check-hands sys process fds now found 0 ws s r))
