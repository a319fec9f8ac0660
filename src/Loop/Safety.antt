-- ===== src/Loop/Safety.antt =====
-- What the turns of the inner loop of `main` (src/blockad.cc) leave true, if `processLine` does.
use blockad.Common.{
  ℕ, suc, Bool, true, false, List, [], ◌∷◌, ◌++◌, Option, none, some, codes, ◌==◌, if◌then◌else◌, ℤ,
  Result, ok, throws, Holds, Holds-bind, Holds-ok, Holds-if,
}
use blockad.Platform.{Platform}
use blockad.Timeval.{Timeval}
use blockad.Loop.{
  Implementation, is_due, check_one, check, Selected, select_failed, selected, TurnAnswers, Turn,
  again, signalled, exits, threw, after, turn, is_set, wait_for, waits, eintr,
}

-- The work of a watcher leaves `P` true of what the watchers share, unless it throws.
pub record IsSafe {A W S : Type 0} (P : S → Type 0) (impl : Implementation A W S) : Type 0 where
  pub work : (a : A) (w : W) (s : S) → P s → Holds (λ (x : W × S). P x.1) (impl.work a w s)

-- A turn after which the daemon runs on, for another turn or for a new configuration, has left `Q`
-- true of the watchers and of what they share.
abbrev pub Ends : {W S : Type 0} → (List W × S → Type 0) → Turn W S → Type 0
Ends Q (again ws s) = Q (ws, s)
Ends Q (signalled ws s) = Q (ws, s)
Ends Q (exits message) = Unit
Ends Q (threw e) = Unit

-- What they share only.
abbrev pub Leaves : {W S : Type 0} → (S → Type 0) → Turn W S → Type 0
Leaves P t = Ends (λ x. P x.1) t

module _ {A W S : Type 0} (Q : List W × S → Type 0) (impl : Implementation A W S) where
  after-Ends : (b : Bool) (r : Result (List W × S)) → Holds Q r → Ends Q (after b r)
  unfolding Holds
  after-Ends b (throws e) h = tt
  after-Ends true (ok (ws, s)) h = h
  after-Ends false (ok (ws, s)) h = h

  if-Ends : (b : Bool) (t u : Turn W S) → Ends Q t → Ends Q u → Ends Q (if b then t else u)
  if-Ends true t u h k = h
  if-Ends false t u h k = k

  -- What holds before a turn and behind the loop that lets the watchers work holds behind the turn.
  pub turn-Ends :
      (sys : Platform) (signal_fd : ℤ) (a : TurnAnswers A) (ws : List W) (s : S)
      → Q (ws, s)
      → ((fds : List ℤ) → Holds Q (check impl fds a.now a.works 0 ws s))
      → Ends Q (turn sys impl signal_fd a ws s)
  unfolding turn
  turn-Ends sys signal_fd a ws s h k =
      unblocked a.unblocking a.blocking (wait_for a (waits impl signal_fd ws))
    where
      answered :
          (r : Selected)
          → Ends Q (elim r [
            | select_failed errno ↦
                if errno == eintr
                then again ws s
                else exits (codes "select: " ++ sys.strerror errno)
            | selected fds ↦ after (is_set signal_fd fds) (check impl fds a.now a.works 0 ws s)
          ])
      answered (select_failed errno) =
          if-Ends (errno == eintr) (again ws s) (exits (codes "select: " ++ sys.strerror errno)) h
            tt
      answered (selected fds) =
          after-Ends (is_set signal_fd fds) (check impl fds a.now a.works 0 ws s) (k fds)

      unblocked :
          (u b : Option ℕ) (r : Selected)
          → Ends Q (elim u [
            | some errno ↦ exits (codes "sigprocmask: " ++ sys.strerror errno)
            | none ↦ elim b [
              | some errno ↦ exits (codes "sigprocmask: " ++ sys.strerror errno)
              | none ↦ elim r [
                | select_failed errno ↦
                    if errno == eintr
                    then again ws s
                    else exits (codes "select: " ++ sys.strerror errno)
                | selected fds ↦ after (is_set signal_fd fds) (check impl fds a.now a.works 0 ws s)
              ]
            ]
          ])
      unblocked (some u) b r = tt
      unblocked none (some b) r = tt
      unblocked none none r = answered r

module _ {A W S : Type 0} (P : S → Type 0) (impl : Implementation A W S)
    (safe : IsSafe P impl) where
  check_one-Safe :
      (fds : List ℤ) (now : Timeval) (a : A) (w : W) (s : S)
      → P s
      → Holds (λ (x : W × S). P x.1) (check_one impl fds now a w s)
  unfolding check_one
  check_one-Safe fds now a w s h =
      Holds-if (λ (x : W × S). P x.1) (is_due impl fds now w) (impl.work a w s) (ok (w, s))
        (safe.work a w s h) (Holds-ok (λ (x : W × S). P x.1) (w, s) h)

  check-Safe :
      (fds : List ℤ) (now : Timeval) (answers : ℕ → A) (i : ℕ) (ws : List W) (s : S)
      → P s
      → Holds (λ (x : List W × S). P x.1) (check impl fds now answers i ws s)
  unfolding check
  check-Safe fds now answers i [] s h = Holds-ok (λ (x : List W × S). P x.1) ([], s) h
  check-Safe fds now answers i (w ∷ ws) s h =
      Holds-bind (λ (x : W × S). P x.1) (λ (x : List W × S). P x.1)
        (check_one impl fds now (answers i) w s) _ (check_one-Safe fds now (answers i) w s h)
        (λ x k.
          Holds-bind (λ (x : List W × S). P x.1) (λ (x : List W × S). P x.1)
            (check impl fds now answers (suc i) ws x.1) _
            (check-Safe fds now answers (suc i) ws x.1 k)
            (λ y l. Holds-ok (λ (x : List W × S). P x.1) (x.0 ∷ y.0, y.1) l))

  -- Where the work of the watchers leaves `P` true of what they share, so does a turn after which
  -- the daemon runs on, whatever the system answers.
  pub turn-Leaves :
      (sys : Platform) (signal_fd : ℤ) (a : TurnAnswers A) (ws : List W) (s : S)
      → P s
      → Leaves P (turn sys impl signal_fd a ws s)
  turn-Leaves sys signal_fd a ws s h =
      turn-Ends (λ x. P x.1) impl sys signal_fd a ws s h
        (λ fds. check-Safe fds a.now a.works 0 ws s h)
