-- ===== src/Loop/Waiting.antt =====
-- The inner loop of `main` (src/blockad.cc) over watchers that poll.
use blockad.Common.{
  ℕ, suc, ◌+◌, ◌≤◌, ◌<◌, ◌≡◌, refl, sym, ap, ◌∙◌, inl, inr, ◌⊎◌, true, ltb, arith, ℤ, pos_part,
  List, [], ◌∷◌, ◌++◌, length, Option, none, some, Bytes, All, Result, ok, ◌>>=◌, Bool-cases,
  bind_assoc, bind_cong, bind_ok,
}
use blockad.Platform.{Platform}
use blockad.Timeval.{Timeval}
use blockad.LogFile.{pollfd}
use blockad.Loop.{
  Implementation, Polled, PollAnswers, polling, Waits, time_max, delta, timeout, is_set, gather,
  waits, is_due, check_one, check, selected, TurnAnswers, wait_for, after, turn,
}
use blockad.Loop.Timeout.{clock, micros, delta-Lasts}

module _ {A W S : Type 0} (impl : Implementation A W S) (fds : List ℤ) (now : Timeval)
    (answers : ℕ → A) where
  -- The work of one watcher and then the loop over those behind it.
  abbrev served : ℕ → W → List W → S → Result (List W × S)
  served i w post s = do
    (w', s') ← impl.work (answers i) w s
    (post', s'') ← check impl fds now answers (suc i) post s'
    ok (w' ∷ post', s'')

  -- The same behind the loop over the watchers `pre`.
  abbrev pub around : List W → W → List W → S → Result (List W × S)
  around pre w post s = do
    (pre', s') ← check impl fds now answers 0 pre s
    (rest', s'') ← served (length pre) w post s'
    ok (pre' ++ rest', s'')

  check-append :
      (i n : ℕ) (pre rest : List W) (s : S)
      → i + length pre ≡ n
      → check impl fds now answers i (pre ++ rest) s ≡ (
          check impl fds now answers i pre s >>= λ (x : List W × S).
          check impl fds now answers n rest x.1 >>= λ (y : List W × S). ok (x.0 ++ y.0, y.1))
  unfolding check
  check-append i n [] rest s e =
      ap (λ k. check impl fds now answers k rest s) (omega arith)
      ∙ sym (bind_ok (check impl fds now answers n rest s))
  check-append i n (p ∷ pre) rest s e =
      bind_cong (check_one impl fds now (answers i) p s) _ _ (λ x.
        ap (λ (r : Result (List W × S)). r >>= λ (y : List W × S). ok (x.0 ∷ y.0, y.1))
          (check-append (suc i) n pre rest x.1 (omega arith))
        ∙ bind_assoc (check impl fds now answers (suc i) pre x.1) _ _
        ∙ bind_cong (check impl fds now answers (suc i) pre x.1) _ _
            (λ y. bind_assoc (check impl fds now answers n rest y.1) _ _))
      ∙ sym (
          bind_assoc (check_one impl fds now (answers i) p s) _ _
          ∙ bind_cong (check_one impl fds now (answers i) p s) _ _
              (λ x. bind_assoc (check impl fds now answers (suc i) pre x.1) _ _))

  check-served :
      (i : ℕ) (w : W) (post : List W) (s : S)
      → is_due impl fds now w ≡ true
      → check impl fds now answers i (w ∷ post) s ≡ served i w post s
  unfolding check check_one
  check-served i w post s e = rw e

module _ (sys : Platform) {S : Type 0} (process : Bytes → S → Result S) where
  -- The least of `limit` and the times of the watchers.
  abbrev earliest : ℕ → List Polled → ℕ
  earliest limit [] = limit
  earliest limit (w ∷ ws) = earliest (pollfd w.state limit) ws

  gather-earliest :
      (ws : List Polled) (g : Waits)
      → gather (polling sys process) ws g ≡ record g { limit = earliest g.limit ws }
  unfolding gather
  gather-earliest [] g = refl
  gather-earliest (w ∷ ws) g = gather-earliest ws (record g { limit = pollfd w.state g.limit })

  earliest_bound : (limit : ℕ) (ws : List Polled) → earliest limit ws ≤ limit
  unfolding pollfd
  earliest_bound limit [] = omega arith
  earliest_bound limit (w ∷ ws) = ground (arith, earliest_bound (pollfd w.state limit) ws)

  abbrev Among : ℕ → List Polled → Type 0
  Among next ws =
      (pre : List Polled) × (w : Polled) × (post : List Polled) × (ws ≡ pre ++ w ∷ post)
      × (w.state.next ≡ next)

  Among-cons : {next : ℕ} {ws : List Polled} (w : Polled) → Among next ws → Among next (w ∷ ws)
  Among-cons w (pre, v, post, e, n) = (w ∷ pre, v, post, ap (◌∷◌ w) e, n)

  earliest_cases :
      (limit : ℕ) (ws : List Polled) → (earliest limit ws ≡ limit) ⊎ Among (earliest limit ws) ws
  unfolding pollfd
  earliest_cases limit [] = inl refl
  earliest_cases limit (w ∷ ws) = elim (Bool-cases (ltb w.state.next limit)) [
    | inl e ↦ rw e (elim (earliest_cases w.state.next ws) [
      | inl same ↦ inr ([], w, ws, refl, sym same)
      | inr among ↦ inr (Among-cons w among)
    ])
    | inr e ↦ rw e (elim (earliest_cases limit ws) [
      | inl same ↦ inl same
      | inr among ↦ inr (Among-cons w among)
    ])
  ]

  earliest-Among :
      (limit : ℕ) (ws : List Polled) → earliest limit ws < limit → Among (earliest limit ws) ws
  earliest-Among limit ws h = elim (earliest_cases limit ws) [
    | inl same ↦ absurd (omega arith)
    | inr among ↦ among
  ]

  is_due_at :
      (w : Polled) (fds : List ℤ) (s u : ℕ)
      → w.state.next ≤ s
      → w.state.next < time_max
      → is_due (polling sys process) fds (clock s u) w ≡ true
  unfolding is_due pollfd
  is_due_at w fds s u h k = ground arith

  timeout-delta :
      (limit : ℕ) (now : Timeval) → limit < time_max → timeout limit now ≡ some (delta limit now)
  unfolding timeout
  timeout-delta limit now h = ground arith

  -- How long `select` waits at most.
  abbrev pub duration : Option Timeval → ℕ
  duration none = 0
  duration (some d) = micros (pos_part d.tv_sec) (pos_part d.tv_usec)

  waited :
      (limit s u s' u' : ℕ)
      → limit < time_max
      → u < 1000000
      → u' < 1000000
      → micros s u + duration (timeout limit (clock s u)) ≤ micros s' u'
      → limit ≤ s'
  waited limit s u s' u' k h h' l =
      let (d, m, e, _, n) = delta-Lasts limit s u h in
      let exact : duration (timeout limit (clock s u)) ≡ micros d m =
        ap duration (timeout-delta limit (clock s u) k ∙ ap some e) in
      omega (arith, exact, n, l)

  limit-earliest :
      (signal_fd : ℤ) (ws : List Polled)
      → (waits (polling sys process) signal_fd ws).limit ≡ earliest time_max ws
  limit-earliest signal_fd ws = ap (λ (g : Waits). g.limit) (gather-earliest ws _)

  due-around :
      (fds : List ℤ) (now : Timeval) (answers : ℕ → PollAnswers) (pre post : List Polled)
      (w : Polled) (st : S)
      → is_due (polling sys process) fds now w ≡ true
      → check (polling sys process) fds now answers 0 (pre ++ w ∷ post) st
        ≡ around (polling sys process) fds now answers pre w post st
  due-around fds now answers pre post w st e =
      check-append (polling sys process) fds now answers 0 (length pre) pre (w ∷ post) st
        (omega arith)
      ∙ bind_cong (check (polling sys process) fds now answers 0 pre st) _ _ (λ x.
        ap (λ (r : Result (List Polled × S)). r >>= λ (y : List Polled × S). ok (x.0 ++ y.0, y.1))
          (check-served (polling sys process) fds now answers (length pre) w post x.1 e))

  earliest_first :
      (limit : ℕ) (w : Polled) (ws : List Polled) → earliest limit (w ∷ ws) ≤ w.state.next
  unfolding pollfd
  earliest_first limit w ws = ground (arith, earliest_bound (pollfd w.state limit) ws)

  earliest_least :
      (limit n : ℕ) (ws : List Polled) → n ≤ earliest limit ws → All (λ w. n ≤ w.state.next) ws
  earliest_least limit n [] h = tt
  earliest_least limit n (w ∷ ws) h =
      (omega (arith, h, earliest_first limit w ws), earliest_least (pollfd w.state limit) n ws h)

  -- Where the system's calls succeed, the clocks have less than a million microseconds, the first
  -- watcher has a time before the last time there is, and `select` returns no earlier than the time
  -- that it is given allows, a turn lets a watcher work whose time is the earliest of all, between
  -- the watchers before it and those behind it.
  pub turn-around :
      (a : TurnAnswers PollAnswers) (signal_fd : ℤ) (w : Polled) (ws : List Polled) (st : S)
      (fds : List ℤ) (s u s' u' : ℕ)
      → a.unblocking ≡ none
      → a.blocking ≡ none
      → a.before ≡ clock s u
      → a.now ≡ clock s' u'
      → u < 1000000
      → u' < 1000000
      → w.state.next < time_max
      → wait_for a (waits (polling sys process) signal_fd (w ∷ ws)) ≡ selected fds
      → micros s u
          + duration (timeout (waits (polling sys process) signal_fd (w ∷ ws)).limit (clock s u))
        ≤ micros s' u'
      → (pre : List Polled) × (v : Polled) × (post : List Polled) × (w ∷ ws ≡ pre ++ v ∷ post)
        × All (λ x. v.state.next ≤ x.state.next) (w ∷ ws)
        × (turn sys (polling sys process) signal_fd a (w ∷ ws) st
            ≡ after
                (is_set signal_fd fds)
                (around (polling sys process) fds a.now a.works pre v post st))
  unfolding turn
  turn-around a signal_fd w ws st fds s u s' u' un bl be af h h' k sel l =
      let same = limit-earliest signal_fd (w ∷ ws) in
      let first = earliest_first time_max w ws in
      let (pre, v, post, e, n) = earliest-Among time_max (w ∷ ws) (omega arith) in
      let come : (waits (polling sys process) signal_fd (w ∷ ws)).limit ≤ s' =
        waited _ s u s' u' (omega (arith, same, first, k)) h h' l in
      let due =
        is_due_at v fds s' u' (omega (arith, same, n, come)) (omega (arith, same, n, first, k)) in
      (
        pre,
        v,
        post,
        e,
        earliest_least time_max v.state.next (w ∷ ws) (omega arith),
        rw (un, bl, sel)
            (ap
                (λ t.
                  after (is_set signal_fd fds)
                    (check (polling sys process) fds a.now a.works 0 t st))
                e
              ∙ ap (after (is_set signal_fd fds))
                  (due-around fds a.now a.works pre post v st (rw (af, due)))),
      )
