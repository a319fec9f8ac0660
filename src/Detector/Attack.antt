-- ===== src/Detector/Attack.antt =====
-- The rate of `detectedAddress` (src/blockad.cc): an address that is detected too often is blocked.
use blockad.Common.{
  ℕ, suc, ◌+◌, ◌≤◌, ◌<◌, ◌≡◌, refl, sym, ap, subst, ◌∙◌, inl, inr, ◌⊎◌, Bool, true, false, List, [],
  ◌∷◌, ◌++◌, length, leb, ltb, if◌then◌else◌, arith, Result, ok, Bool-cases,
}
use mathlib.Core.Bool.{false≢true}
use blockad.Address.{Address}
use blockad.Address.Order.{equivalent, equivalent_iff}
use blockad.BlockMethod.{Action}
use blockad.ConfFile.{ConfFile}
use blockad.Detector.{
  AddressData, Blocker, Effect, strip_old, check_rate, observe, entry, store, is_exempted, Detector,
  detected_address,
}
use blockad.Detector.Window.{check_rate-eq}
use blockad.Detector.Addresses.{IsAddress, Keys, store-Keys, entry-store, detect_all}

-- How many of the times are `first` or later.
abbrev pub since : ℕ → List ℕ → ℕ
since first [] = 0
since first (t ∷ times) = (if leb first t then 1 else 0) + since first times

-- How many of the detections are of the address.
abbrev pub detections : Address → List (ℕ × Address) → ℕ
detections a [] = 0
detections a ((now, b) ∷ events) = (if equivalent b a then 1 else 0) + detections a events

-- All times are at most `interval` behind `first`.
abbrev pub IsBurst : ℕ → ℕ → List (ℕ × Address) → Type 0
IsBurst first interval [] = Unit
IsBurst first interval ((now, a) ∷ events) =
    (first ≤ now) × (now ≤ first + interval) × IsAddress a × IsBurst first interval events

since_le : (first : ℕ) (times : List ℕ) → since first times ≤ length times
since_le first [] = omega arith
since_le first (t ∷ times) = ground (arith, since_le first times)

since-snoc :
    (first now : ℕ) (times : List ℕ)
    → first ≤ now
    → since first (times ++ now ∷ []) ≡ suc (since first times)
since-snoc first now [] h = ground arith
since-snoc first now (t ∷ times) h = ground (arith, since-snoc first now times h)

since-strip_old :
    (first now interval : ℕ) (times : List ℕ)
    → now ≤ first + interval
    → since first (strip_old now interval times) ≡ since first times
unfolding strip_old
since-strip_old first now interval [] h = refl
since-strip_old first now interval (t ∷ times) h =
    ground (arith, since-strip_old first now interval times h)

-- The address is blocked, or `k` of its detections since `first` are remembered, too few to block
-- it.
abbrev Counts : ConfFile → ℕ → ℕ → AddressData → Type 0
Counts config first k ad =
    (ad.blocked ≡ true) ⊎ ((k ≤ since first ad.times) × (k ≤ config.rate_max))

-- What `check_rate` gives, by whether the rate is exceeded and whether the blocking succeeds.
abbrev rated : Bool → List ℕ → Bool → List Effect → AddressData × List Effect
rated exceeded times done effects = (
  record { times = times; blocked = if exceeded then done else false },
  if exceeded then effects else [],
)

rated_if :
    (exceeded : Bool) (times : List ℕ) (done : Bool) (effects : List Effect)
    (r s : Result (AddressData × List Effect))
    → r ≡ ok (rated true times done effects)
    → s ≡ ok (rated false times done effects)
    → (if exceeded then r else s) ≡ ok (rated exceeded times done effects)
rated_if true times done effects r s e f = e
rated_if false times done effects r s e f = f

module _ (blocker : Blocker) (config : ConfFile) (answer : (a : Address) → Bool × List Action)
    (answers : (a : Address) → blocker config.block a ≡ ok (answer a)) where
  check_rate-ok :
      (a : Address) (times : List ℕ)
      → (ad : AddressData) × (effects : List Effect) × (check_rate blocker config a times
          ≡ ok (ad, effects))
        × (ad.times ≡ times)
        × (ad.blocked ≡ (if ltb config.rate_max (length times) then (answer a).0 else false))
  check_rate-ok a times =
      let exceeded = ltb config.rate_max (length times) in
      (
        _,
        _,
        check_rate-eq blocker config a (answer a).0 (answer a).1 (answers a) times
            ∙ rated_if exceeded times (answer a).0 _ _ _ refl refl,
        refl,
        refl,
      )

  observe-ok :
      (now : ℕ) (a : Address) (ad : AddressData)
      → (ad' : AddressData) × (effects : List Effect) × (observe blocker config now a ad
          ≡ ok (ad', effects))
  unfolding observe
  observe-ok now a ad = elim (Bool-cases ad.blocked) [
    | inl b ↦ (ad, [], ground (arith, b))
    | inr b ↦
        let (ad', effects, same, _, _) =
          check_rate-ok a (strip_old now config.rate_interval ad.times ++ now ∷ []) in
        (ad', effects, rw b same)
  ]

  observe-Counts :
      (first now k : ℕ) (a : Address) (ad : AddressData)
      → (answer a).0 ≡ true
      → first ≤ now
      → now ≤ first + config.rate_interval
      → Counts config first k ad
      → (ad' : AddressData) × (effects : List Effect) × (observe blocker config now a ad
          ≡ ok (ad', effects))
        × Counts config first (1 + k) ad'
  unfolding observe
  observe-Counts first now k a ad done h l c = elim (Bool-cases ad.blocked) [
    | inl b ↦ (ad, [], ground (arith, b), inl b)
    | inr b ↦
        let times = strip_old now config.rate_interval ad.times ++ now ∷ [] in
        let (ad', effects, same, seen, marked) = check_rate-ok a times in
        (
          ad',
          effects,
          rw b same,
          elim c [
            | inl y ↦ absurd (false≢true (sym b ∙ y))
            | inr (enough, few) ↦
                let counted : since first times ≡ suc (since first ad.times) =
                  since-snoc first now (strip_old now config.rate_interval ad.times) h
                  ∙ ap suc (since-strip_old first now config.rate_interval ad.times l) in
                elim (Bool-cases (ltb config.rate_max (length times))) [
                  | inl e ↦ inl (marked ∙ rw e done)
                  | inr e ↦ inr (
                    subst (λ ts. 1 + k ≤ since first ts) (sym seen) (omega (arith, counted)),
                    ground (arith, e, since_le first times, counted, enough),
                  )
                ]
          ],
        )
  ]

  -- The data of `a` behind a detection of `b`.
  detected_address-Counts :
      (first now k : ℕ) (a b : Address) (d : Detector)
      → (answer a).0 ≡ true
      → is_exempted config.exempted a ≡ false
      → first ≤ now
      → now ≤ first + config.rate_interval
      → IsAddress a
      → IsAddress b
      → Keys d.address_data
      → Counts config first k (entry a d.address_data)
      → (d' : Detector) × (detected_address blocker config now b d ≡ ok d')
        × Keys d'.address_data
        × Counts config first ((if equivalent b a then 1 else 0) + k) (entry a d'.address_data)
  unfolding detected_address
  detected_address-Counts first now k a b d done spared h l ha hb keys c =
      elim (Bool-cases (equivalent b a)) [
        | inl q ↦
            let same : b ≡ a = (equivalent_iff b a (hb ∙ sym ha)).0 q in
            let (ad, effects, seen, c') =
              observe-Counts first now k a (entry a d.address_data) done h l c in
            (
              record { address_data = store a ad d.address_data; effects = d.effects ++ effects },
              rw (same, spared, seen),
              store-Keys a ad d.address_data ha keys,
              rw
                  (
                    q,
                    entry-store a a ad d.address_data ha ha keys,
                    subst (λ z. equivalent z a ≡ true) same q,
                  )
                  c',
            )
        | inr q ↦ elim (Bool-cases (is_exempted config.exempted b)) [
          | inl x ↦ (
            d,
            rw x,
            keys,
            rw q (subst (λ n. Counts config first n (entry a d.address_data)) (omega arith) c),
          )
          | inr x ↦
              let (ad, effects, seen) = observe-ok now b (entry b d.address_data) in
              (
                record { address_data = store b ad d.address_data; effects = d.effects ++ effects },
                rw (x, seen),
                store-Keys b ad d.address_data hb keys,
                rw (entry-store b a ad d.address_data hb ha keys, q)
                    (subst (λ n. Counts config first n (entry a d.address_data)) (omega arith) c),
              )
        ]
      ]

  detect_all-Counts :
      (first : ℕ) (a : Address) (events : List (ℕ × Address)) (k : ℕ) (d : Detector)
      → (answer a).0 ≡ true
      → is_exempted config.exempted a ≡ false
      → IsBurst first config.rate_interval events
      → IsAddress a
      → Keys d.address_data
      → Counts config first k (entry a d.address_data)
      → (d' : Detector) × (detect_all blocker config events d ≡ ok d')
        × Counts config first (detections a events + k) (entry a d'.address_data)
  detect_all-Counts first a [] k d done spared burst ha keys c =
      (d, refl, subst (λ n. Counts config first n (entry a d.address_data)) (omega arith) c)
  detect_all-Counts first a ((now, b) ∷ events) k d done spared (h, l, hb, burst) ha keys c =
      let (d', here, keys', c') =
        detected_address-Counts first now k a b d done spared h l ha hb keys c in
      let (e, later, c'') = detect_all-Counts first a events _ d' done spared burst ha keys' c' in
      (
        e,
        rw here later,
        subst (λ n. Counts config first n (entry a e.address_data)) (omega arith) c'',
      )

  -- Where every blocking has an answer, that of the address `a` is a success and `a` is not
  -- exempted: whatever the table of addresses was, if more than `rate_max` of the detections are of
  -- `a` and all fall within `rate_interval`, then they go through, and `a` is marked as blocked.
  pub detect_all-blocked :
      (first : ℕ) (a : Address) (events : List (ℕ × Address)) (d : Detector)
      → (answer a).0 ≡ true
      → is_exempted config.exempted a ≡ false
      → IsBurst first config.rate_interval events
      → IsAddress a
      → Keys d.address_data
      → config.rate_max < detections a events
      → (d' : Detector) × (detect_all blocker config events d ≡ ok d')
        × ((entry a d'.address_data).blocked ≡ true)
  detect_all-blocked first a events d done spared burst ha keys many =
      let (d', run, c) =
        detect_all-Counts first a events 0 d done spared burst ha keys
          (inr (omega arith, omega arith)) in
      (d', run, elim c [ inl y ↦ y | inr (_, few) ↦ absurd (omega (arith, few, many)) ])
