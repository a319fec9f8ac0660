-- ===== src/Detector/Keys.antt =====
-- The keys of the map of `detectedAddress` (src/blockad.cc) are addresses.
use blockad.Common.{
  ℕ, suc, ◌≡◌, List, [], ◌∷◌, none, Bytes, ok, ◌==◌, Holds, Holds-bind, Holds-any, Holds-ok,
  Holds-if, Holds_by_eq, length,
}
use blockad.Platform.{Platform, InetLaws}
use blockad.Address.{Address, assign, convert}
use blockad.Address.Matching.{convert-IsBytes}
use blockad.Regex.{default_nmatches}
use blockad.Regex
use blockad.ConfFile.{ConfFile, Match}
use blockad.Detector.{
  Blocker, observe, entry, is_exempted, Detector, detected_address, capture_text, process_pattern,
  process_patterns, process_line,
}
use blockad.Detector.Addresses.{IsAddress, Keys, store-Keys}

abbrev HasKeys : Detector → Type 0
HasKeys d = Keys d.address_data

module _ (sys : Platform) (laws : InetLaws sys) where
  assign-IsAddress : (s : Bytes) → Holds IsAddress (assign sys s)
  unfolding assign
  assign-IsAddress s =
      Holds-bind (λ (x : Bytes × ℕ). length x.0 ≡ 16) IsAddress (convert sys s 0 none) _
        (Holds_by_eq (λ (x : Bytes × ℕ). length x.0 ≡ 16) (convert sys s 0 none)
          (λ x e. (convert-IsBytes sys laws s 0 none e).0))
        (λ x h. Holds-ok IsAddress (record { address = x.0 }) h)

  module _ (blocker : Blocker) (config : ConfFile) where
    detected_address-Keys :
        (now : ℕ) (a : Address) (d : Detector)
        → IsAddress a
        → HasKeys d
        → Holds HasKeys (detected_address blocker config now a d)
    unfolding detected_address
    detected_address-Keys now a d ha h =
        Holds-if HasKeys (is_exempted config.exempted a) (ok d) _ (Holds-ok HasKeys d h) (
          Holds-bind (λ _. Unit {0}) HasKeys (observe blocker config now a (entry a d.address_data))
            _ (Holds-any (observe blocker config now a (entry a d.address_data)))
            (λ r _. Holds-ok HasKeys _ (store-Keys a r.0 d.address_data ha h)))

    module _ (clock : ℕ → ℕ) where
      process_pattern-Keys :
          (i : ℕ) (m : Match) (line : Bytes) (d : Detector)
          → HasKeys d
          → Holds HasKeys (process_pattern sys blocker config clock i m line d)
      unfolding process_pattern
      process_pattern-Keys i m line d h =
          let (rc, matches) = Regex.execute sys m.regex line 0 default_nmatches in
          Holds-if HasKeys (rc == 0) _ _
            (Holds-bind (λ _. Unit {0}) HasKeys (capture_text line matches m.capture) _
              (Holds-any (capture_text line matches m.capture))
              (λ text _.
                Holds-bind IsAddress HasKeys (assign sys text) _ (assign-IsAddress text)
                  (λ a ha. detected_address-Keys (clock i) a d ha h)))
            (Holds-ok HasKeys d h)

      process_patterns-Keys :
          (i : ℕ) (patterns : List Match) (line : Bytes) (d : Detector)
          → HasKeys d
          → Holds HasKeys (process_patterns sys blocker config clock i patterns line d)
      unfolding process_patterns
      process_patterns-Keys i [] line d h = Holds-ok HasKeys d h
      process_patterns-Keys i (m ∷ patterns) line d h =
          Holds-bind HasKeys HasKeys (process_pattern sys blocker config clock i m line d) _
            (process_pattern-Keys i m line d h)
            (λ d' k. process_patterns-Keys (suc i) patterns line d' k)

      -- Where inet_pton keeps its promises, `processLine` adds no key that is no address.
      pub process_line-Keys :
          (line : Bytes) (d : Detector)
          → Keys d.address_data
          → Holds HasKeys (process_line sys blocker config clock line d)
      unfolding process_line
      process_line-Keys line d h = process_patterns-Keys 0 config.patterns line d h
