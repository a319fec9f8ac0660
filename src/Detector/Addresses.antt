-- ===== src/Detector/Addresses.antt =====
-- The map of addresses of `detectedAddress` (src/blockad.cc): each address is judged by its own
-- detections, and an exempted one not at all.
use blockad.Common.{
  ℕ, ◌≤◌, ◌≡◌, refl, sym, ap, subst, ◌∙◌, inl, inr, Bool, true, false, List, [], ◌∷◌, ◌++◌, length,
  if◌then◌else◌, arith, Result, ok, ◌>>=◌, Bool-cases,
}
use mathlib.Core.Bool.{false≢true}
use native.Mathlib.Nat.{le_refl, le_trans}
use blockad.Address.{Address}
use blockad.Address.Order.{equivalent, equivalent_iff}
use blockad.BlockMethod.{Action}
use blockad.ConfFile.{ConfFile}
use blockad.Detector.{
  AddressData, Blocker, AddressMap, entry, store, is_exempted, Detector, detected_address,
}
use blockad.Detector.Window.{Monitor, monitor, Tracks, tries, observe-Tracks}

-- An address has 16 bytes.
abbrev pub IsAddress : Address → Type 0
IsAddress a = length a.address ≡ 16

-- Every key of the map is an address.
abbrev pub Keys : AddressMap → Type 0
Keys [] = Unit
Keys ((a, ad) ∷ m) = IsAddress a × Keys m

pub store-Keys :
    (a : Address) (ad : AddressData) (m : AddressMap) → IsAddress a → Keys m → Keys (store a ad m)
unfolding store
store-Keys a ad [] h k = (h, tt)
store-Keys a ad ((b, old) ∷ m) h k = ground (arith, store-Keys a ad m h k.1)

-- Distinct addresses have distinct entries.
pub entry-store :
    (a b : Address) (ad : AddressData) (m : AddressMap)
    → IsAddress a
    → IsAddress b
    → Keys m
    → entry b (store a ad m) ≡ (if equivalent a b then ad else entry b m)
unfolding entry store
entry-store a b ad [] ha hb k = refl
entry-store a b ad ((c, old) ∷ m) ha hb k = ground (
  arith,
  entry-store a b ad m ha hb k.1,
  equivalent_iff c a (k.0 ∙ sym ha),
  equivalent_iff c b (k.0 ∙ sym hb),
  equivalent_iff a b (ha ∙ sym hb),
)

equivalent_self : (a : Address) → equivalent a a ≡ true
equivalent_self a = (equivalent_iff a a refl).1 refl

-- Detections in turn, each with its time.
abbrev pub detect_all : Blocker → ConfFile → List (ℕ × Address) → Detector → Result Detector
detect_all blocker config [] d = ok d
detect_all blocker config ((now, a) ∷ events) d =
    detected_address blocker config now a d >>= λ d'. detect_all blocker config events d'

-- The times do not fall, from `last` on.
abbrev pub InOrder : ℕ → List (ℕ × Address) → Type 0
InOrder last [] = Unit
InOrder last ((now, a) ∷ events) = (last ≤ now) × IsAddress a × InOrder now events

-- What one address makes of the events: its monitor sees those that are its own.
abbrev pub own : ConfFile → Bool → Address → List (ℕ × Address) → Monitor → Monitor
own config done a [] m = m
own config done a ((now, b) ∷ events) m =
    own config done a events (if equivalent b a then monitor config done now m else m)

-- The data of `a` is in step with a monitor.
abbrev pub Follows : ConfFile → ℕ → Address → Detector → Monitor → Type 0
Follows config last a d m = (l : ℕ) × (l ≤ last) × Tracks config l (entry a d.address_data) m

module _ (blocker : Blocker) (config : ConfFile) (answer : (a : Address) → Bool × List Action)
    (answers : (a : Address) → blocker config.block a ≡ ok (answer a)) where
  -- Every address that is not exempted is in step with its monitor.
  abbrev pub AllFollow : ℕ → Detector → (Address → Monitor) → Type 0
  AllFollow last d monitors =
      Keys d.address_data
      × ((a : Address)
          → IsAddress a
          → is_exempted config.exempted a ≡ false
          → Follows config last a d (monitors a))

  abbrev pub step_monitors : ℕ → Address → (Address → Monitor) → Address → Monitor
  step_monitors now b monitors a =
      if equivalent b a then monitor config (answer a).0 now (monitors a) else monitors a

  -- An exempted address is no other's.
  exempt-Follows :
      (last now : ℕ) (b a : Address) (d : Detector) (monitors : Address → Monitor)
      → last ≤ now
      → IsAddress b
      → IsAddress a
      → is_exempted config.exempted b ≡ true
      → is_exempted config.exempted a ≡ false
      → Follows config last a d (monitors a)
      → Follows config now a d (step_monitors now b monitors a)
  exempt-Follows last now b a d monitors h hb ha x n (l, hl, t) =
      elim (Bool-cases (equivalent b a)) [
        | inl q ↦ absurd (
            false≢true (
              sym n
              ∙ ap (is_exempted config.exempted) (sym ((equivalent_iff b a (hb ∙ sym ha)).0 q))
              ∙ x))
        | inr q ↦ rw q (l, le_trans hl h, t)
      ]

  stored-Follows :
      (last now : ℕ) (b a : Address) (d e : Detector) (ad : AddressData)
      (monitors : Address → Monitor)
      → last ≤ now
      → IsAddress b
      → IsAddress a
      → Keys d.address_data
      → e.address_data ≡ store b ad d.address_data
      → Tracks config now ad (monitor config (answer b).0 now (monitors b))
      → Follows config last a d (monitors a)
      → Follows config now a e (step_monitors now b monitors a)
  stored-Follows last now b a d e ad monitors h hb ha k s t' (l, hl, t) =
      elim (Bool-cases (equivalent b a)) [
        | inl q ↦
            rw (s, entry-store b a ad d.address_data hb ha k, q)
              (
                now,
                le_refl now,
                subst (λ z. Tracks config now ad (monitor config (answer z).0 now (monitors z)))
                    ((equivalent_iff b a (hb ∙ sym ha)).0 q) t',
              )
        | inr q ↦ rw (s, entry-store b a ad d.address_data hb ha k, q) (l, le_trans hl h, t)
      ]

  detected_address-AllFollow :
      (last now : ℕ) (b : Address) (d : Detector) (monitors : Address → Monitor)
      → last ≤ now
      → IsAddress b
      → AllFollow last d monitors
      → (d' : Detector) × (detected_address blocker config now b d ≡ ok d')
        × AllFollow now d' (step_monitors now b monitors)
  unfolding detected_address
  detected_address-AllFollow last now b d monitors h hb (keys, follow) =
      elim (Bool-cases (is_exempted config.exempted b)) [
        | inl x ↦ (
          d,
          ground (arith, x),
          (keys, λ a ha n. exempt-Follows last now b a d monitors h hb ha x n (follow a ha n)),
        )
        | inr x ↦
            let (l, hl, t) = follow b hb x in
            let (ad, seen, t') =
              observe-Tracks blocker config b (answer b).0 (answer b).1 (answers b) l now _
                (monitors b) (le_trans hl h) t in
            let effects =
              d.effects
              ++ tries blocker config b (answer b).0 (answer b).1 (answers b) now (monitors b) in
            let d' : Detector = record {
              address_data = store b ad d.address_data;
              effects = effects;
            } in
            (
              d',
              rw (x, seen),
              (
                store-Keys b ad d.address_data hb keys,
                λ a ha n.
                    stored-Follows last now b a d d' ad monitors h hb ha keys refl t'
                      (follow a ha n),
              ),
            )
      ]

  detect_all-AllFollow :
      (last : ℕ) (events : List (ℕ × Address)) (d : Detector) (monitors : Address → Monitor)
      → InOrder last events
      → AllFollow last d monitors
      → (d' : Detector) × (detect_all blocker config events d ≡ ok d')
        × ((a : Address)
            → IsAddress a
            → is_exempted config.exempted a ≡ false
            → (entry a d'.address_data).blocked
              ≡ (own config (answer a).0 a events (monitors a)).is_blocked)
  detect_all-AllFollow last [] d monitors o (keys, follow) =
      (d, refl, λ a ha n. (follow a ha n).2.same)
  detect_all-AllFollow last ((now, b) ∷ events) d monitors (h, hb, o) inv =
      let (d', done, inv') = detected_address-AllFollow last now b d monitors h hb inv in
      let (e, later, judged) =
        detect_all-AllFollow now events d' (step_monitors now b monitors) o inv' in
      (e, rw done later, judged)

  nothing_seen :
      AllFollow 0
        (record { address_data = []; effects = [] })
        (λ _. record { seen = []; is_blocked = false })
  unfolding entry
  nothing_seen = (
    tt,
    λ a ha n.
        (0, le_refl 0, record { same = refl; windowed = λ _. refl; ascending = tt; past = tt }),
  )

  -- Where every blocking has an answer, from an empty table on, whatever addresses are detected at
  -- times that do not fall: every address that is not exempted is marked as blocked exactly if the
  -- monitor that remembers all detections of this address, and nothing else, says that it is.
  pub detect_all-own :
      (events : List (ℕ × Address)) (a : Address)
      → InOrder 0 events
      → IsAddress a
      → is_exempted config.exempted a ≡ false
      → (d : Detector) × (detect_all blocker config events
            (record { address_data = []; effects = [] })
          ≡ ok d)
        × ((entry a d.address_data).blocked
            ≡ (own config
                (answer a).0
                a
                events
                (record { seen = []; is_blocked = false })).is_blocked)
  detect_all-own events a o ha n =
      let (d, run, judged) =
        detect_all-AllFollow 0 events (record { address_data = []; effects = [] })
          (λ _. record { seen = []; is_blocked = false }) o nothing_seen in
      (d, run, judged a ha n)
