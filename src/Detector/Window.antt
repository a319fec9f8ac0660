-- ===== src/Detector/Window.antt =====
-- The sliding window of `detectedAddress` (src/blockad.cc), which forgets old detections, against
-- a monitor that remembers all of them.
use blockad.Common.{
  ℕ, ◌+◌, ◌≤◌, ◌≡◌, refl, sym, ap, subst, ◌∙◌, inl, inr, Bool, true, false, not, ◌&&◌, List, [],
  ◌∷◌, ◌++◌, length, All, All-append, ltb, if◌then◌else◌, arith, ok, Bool-cases,
}
use native.Mathlib.Nat.{le_refl}
use blockad.Address.{Address}
use blockad.BlockMethod.{Action}
use blockad.ConfFile.{ConfFile}
use blockad.Detector.{
  AddressData, Blocker, Effect, blocking, block_failed, actions, block_address, strip_old,
  check_rate, observe,
}

-- The times that are at most `interval` before `now`.
abbrev pub within : ℕ → ℕ → List ℕ → List ℕ
within interval now [] = []
within interval now (t ∷ times) =
    if ltb (t + interval) now then within interval now times else t ∷ within interval now times

abbrev pub Ascending : List ℕ → Type 0
Ascending [] = Unit
Ascending (t ∷ times) = All (λ u. t ≤ u) times × Ascending times

within_kept :
    (interval now t : ℕ) (times : List ℕ)
    → now ≤ t + interval
    → All (λ u. t ≤ u) times
    → within interval now times ≡ times
within_kept interval now t [] h a = refl
within_kept interval now t (u ∷ times) h a = ground (arith, within_kept interval now t times h a.1)

-- Times that come in order are dropped from the front only.
strip_old-within :
    (interval now : ℕ) (times : List ℕ)
    → Ascending times
    → strip_old now interval times ≡ within interval now times
unfolding strip_old
strip_old-within interval now [] a = refl
strip_old-within interval now (t ∷ times) a =
    ground (arith, strip_old-within interval now times a.1, within_kept interval now t times)

within-within :
    (interval last now : ℕ) (times : List ℕ)
    → last ≤ now
    → within interval now (within interval last times) ≡ within interval now times
within-within interval last now [] h = refl
within-within interval last now (t ∷ times) h =
    ground (arith, within-within interval last now times h)

within-concat :
    (interval now : ℕ) (times : List ℕ)
    → within interval now (times ++ now ∷ []) ≡ within interval now times ++ now ∷ []
within-concat interval now [] = ground arith
within-concat interval now (t ∷ times) = ground (arith, within-concat interval now times)

All-within :
    (P : ℕ → Type 0) (interval now : ℕ) (times : List ℕ)
    → All P times
    → All P (within interval now times)
All-within P interval now [] h = tt
All-within P interval now (t ∷ times) h = ground (arith, All-within P interval now times h.1)

within-Ascending :
    (interval now : ℕ) (times : List ℕ) → Ascending times → Ascending (within interval now times)
within-Ascending interval now [] h = tt
within-Ascending interval now (t ∷ times) h =
    ground (
      arith,
      within-Ascending interval now times h.1,
      All-within (λ u. t ≤ u) interval now times h.0,
    )

Ascending-concat :
    (now : ℕ) (times : List ℕ)
    → All (λ u. u ≤ now) times
    → Ascending times
    → Ascending (times ++ now ∷ [])
Ascending-concat now [] l a = (tt, tt)
Ascending-concat now (t ∷ times) l a =
    (All-append (λ u. t ≤ u) times (now ∷ []) a.0 (l.0, tt), Ascending-concat now times l.1 a.1)

All-le_mono :
    (last now : ℕ) (times : List ℕ)
    → last ≤ now
    → All (λ u. u ≤ last) times
    → All (λ u. u ≤ now) times
All-le_mono last now [] h l = tt
All-le_mono last now (t ∷ times) h l = (omega arith, All-le_mono last now times h l.1)

-- All detections of an address until it was blocked, and whether it was.
pub record Monitor : Type 0 where
  pub seen : List ℕ
  pub is_blocked : Bool

-- The rate is exceeded: more than `rate_max` of the detections are at most `rate_interval` old.
abbrev pub exceeds : ConfFile → ℕ → List ℕ → Bool
exceeds config now seen = ltb config.rate_max (length (within config.rate_interval now seen))

-- A detection at `now`; `done` is whether a blocking would succeed.
abbrev pub monitor : ConfFile → Bool → ℕ → Monitor → Monitor
monitor config done now m = if m.is_blocked then m else record {
  seen = m.seen ++ now ∷ [];
  is_blocked = exceeds config now (m.seen ++ now ∷ []) && done;
}

-- `ad` holds of the monitor's detections those in the window that ends at the last one.
pub record Tracks (config : ConfFile) (last : ℕ) (ad : AddressData) (m : Monitor) : Type 0 where
  pub same : ad.blocked ≡ m.is_blocked
  pub windowed : m.is_blocked ≡ false → ad.times ≡ within config.rate_interval last m.seen
  pub ascending : Ascending m.seen
  pub past : All (λ u. u ≤ last) m.seen

module _ (blocker : Blocker) (config : ConfFile) (a : Address) (done : Bool) (acts : List Action)
    (answer : blocker config.block a ≡ ok (done, acts)) where
  -- What a detection does outside: a blocking is tried exactly when the address is not blocked yet
  -- and the rate is exceeded.
  pub tries : ℕ → Monitor → List Effect
  tries now m =
      if not m.is_blocked && exceeds config now (m.seen ++ now ∷ [])
      then blocking a ∷ (actions a acts ++ (if done then [] else block_failed a ∷ []))
      else []

  pub check_rate-eq :
      (times : List ℕ)
      → check_rate blocker config a times ≡ (
          if ltb config.rate_max (length times)
          then ok (
            record { times = times; blocked = done },
            blocking a ∷ (actions a acts ++ (if done then [] else block_failed a ∷ [])),
          )
          else ok (record { times = times; blocked = false }, []))
  unfolding check_rate block_address
  check_rate-eq times = rw answer

  observe_unblocked :
      (now : ℕ) (ad : AddressData)
      → ad.blocked ≡ false
      → observe blocker config now a ad
        ≡ check_rate blocker config a (strip_old now config.rate_interval ad.times ++ now ∷ [])
  unfolding observe
  observe_unblocked now ad b = ground (arith, b)

  observe_blocked :
      (now : ℕ) (ad : AddressData)
      → ad.blocked ≡ true
      → observe blocker config now a ad ≡ ok (ad, [])
  unfolding observe
  observe_blocked now ad b = ground (arith, b)

  -- The data after a detection of an address that is not blocked.
  abbrev next_data : ℕ → AddressData → Monitor → AddressData
  next_data now ad m = record {
    times = strip_old now config.rate_interval ad.times ++ now ∷ [];
    blocked = exceeds config now (m.seen ++ now ∷ []) && done;
  }

  window_next :
      (last now : ℕ) (ad : AddressData) (m : Monitor)
      → last ≤ now
      → Tracks config last ad m
      → m.is_blocked ≡ false
      → strip_old now config.rate_interval ad.times ++ now ∷ []
        ≡ within config.rate_interval now (m.seen ++ now ∷ [])
  window_next last now ad m h t b =
      let i = config.rate_interval in
      rw (within-concat i now m.seen, t.windowed b)
        (rw (
          strip_old-within i now (within i last m.seen)
              (within-Ascending i last m.seen t.ascending),
          within-within i last now m.seen h,
        ))

  check_rate-tries :
      (now : ℕ) (ad : AddressData) (m : Monitor)
      → m.is_blocked ≡ false
      → strip_old now config.rate_interval ad.times ++ now ∷ []
        ≡ within config.rate_interval now (m.seen ++ now ∷ [])
      → check_rate blocker config a (strip_old now config.rate_interval ad.times ++ now ∷ [])
        ≡ ok (next_data now ad m, tries now m)
  unfolding tries
  check_rate-tries now ad m b w =
      check_rate-eq (strip_old now config.rate_interval ad.times ++ now ∷ []) ∙ ground (arith, b, w)

  blocked-Tracks :
      (last now : ℕ) (ad : AddressData) (m : Monitor)
      → last ≤ now
      → m.is_blocked ≡ true
      → Tracks config last ad m
      → Tracks config now ad m
  blocked-Tracks last now ad m h b t = record {
    same = t.same;
    windowed = λ n. ground (arith, b, n);
    ascending = t.ascending;
    past = All-le_mono last now m.seen h t.past;
  }

  -- While the clock does not go back and a blocking has an answer, a detection keeps the data of an
  -- address in step with a monitor that remembers every detection, and does outside exactly what
  -- the monitor tells: it tries to block the address if it is not blocked and more than `rate_max`
  -- of its detections, this one included, are at most `rate_interval` old, and does nothing else.
  pub observe-Tracks :
      (last now : ℕ) (ad : AddressData) (m : Monitor)
      → last ≤ now
      → Tracks config last ad m
      → (ad' : AddressData) × (observe blocker config now a ad ≡ ok (ad', tries now m))
        × Tracks config now ad' (monitor config done now m)
  observe-Tracks last now ad m h t = elim (Bool-cases m.is_blocked) [
    | inl b ↦
        let still : monitor config done now m ≡ m = ground (arith, b) in
        let silent : tries now m ≡ [] = unfold tries in ground (arith, b) in
        (
          ad,
          observe_blocked now ad (t.same ∙ b) ∙ ap (λ e. ok (ad, e)) (sym silent),
          subst (Tracks config now ad) (sym still) (blocked-Tracks last now ad m h b t),
        )
    | inr b ↦
        let w = window_next last now ad m h t b in
        let step : monitor config done now m ≡ record {
          seen = m.seen ++ now ∷ [];
          is_blocked = exceeds config now (m.seen ++ now ∷ []) && done;
        } =
          ground (arith, b) in
        (
          next_data now ad m,
          observe_unblocked now ad (t.same ∙ b) ∙ check_rate-tries now ad m b w,
          subst (Tracks config now (next_data now ad m)) (sym step) (record {
            same = refl;
            windowed = λ _. w;
            ascending =
                Ascending-concat now m.seen (All-le_mono last now m.seen h t.past) t.ascending;
            past =
                All-append (λ u. u ≤ now) m.seen (now ∷ []) (All-le_mono last now m.seen h t.past)
                  (le_refl now, tt);
          }),
        )
  ]
