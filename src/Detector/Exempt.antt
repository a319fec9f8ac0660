-- ===== src/Detector/Exempt.antt =====
-- The exemption list in `detectedAddress` and its callers (src/blockad.cc).
use blockad.Common.{
  ℕ, suc, ◌≡◌, ap, ◌∙◌, append_assoc, inl, inr, Bool, true, false, List, [], ◌∷◌, ◌++◌, Bytes, All,
  All-append, if◌then◌else◌, Bool-cases, ◌==◌, Holds, Holds-bind, Holds-any, Holds-ok, Holds-if,
  length, ltb,
}
use blockad.Platform.{Platform}
use blockad.Address.{Address, assign}
use blockad.BlockMethod.{Action}
use blockad.Regex.{default_nmatches}
use blockad.Regex
use blockad.ConfFile.{ConfFile, Match}
use blockad.Detector.{
  AddressData, Blocker, Effect, blocking, action, block_failed, actions, block_address, check_rate,
  observe, entry, strip_old, is_exempted, Detector, detected_address, capture_text, process_pattern,
  process_patterns, process_line,
}

-- An effect that has nothing to do with the blocking of an exempted address: neither the message
-- that it begins, nor a command run or a line written for it, nor the message that it has failed.
abbrev pub Spares : ConfFile → Effect → Type 0
Spares config (blocking a) = is_exempted config.exempted a ≡ false
Spares config (action a act) = is_exempted config.exempted a ≡ false
Spares config (block_failed a) = is_exempted config.exempted a ≡ false

-- Behind `effects`, no effect blocks an exempted address.
abbrev pub Adds : ConfFile → List Effect → Detector → Type 0
Adds config effects d = (new : List Effect) × (d.effects ≡ effects ++ new) × All (Spares config) new

actions-Spares :
    (config : ConfFile) (a : Address) (acts : List Action)
    → is_exempted config.exempted a ≡ false
    → All (Spares config) (actions a acts)
unfolding actions
actions-Spares config a [] n = tt
actions-Spares config a (act ∷ acts) n = (n, actions-Spares config a acts n)

module _ (blocker : Blocker) (config : ConfFile) where
  block_address-Spares :
      (a : Address)
      → is_exempted config.exempted a ≡ false
      → Holds (λ r. All (Spares config) r.1) (block_address blocker config a)
  unfolding block_address Holds
  block_address-Spares a n =
      Holds-bind (λ _. Unit {0}) (λ r. All (Spares config) r.1) (blocker config.block a) _
        (Holds-any (blocker config.block a))
        (λ r _. (
          n,
          All-append (Spares config) (actions a r.1) (if r.0 then [] else block_failed a ∷ [])
              (actions-Spares config a r.1 n) (failure r.0),
        ))
    where
      failure : (done : Bool) → All (Spares config) (if done then [] else block_failed a ∷ [])
      failure true = tt
      failure false = (n, tt)

  check_rate-Spares :
      (a : Address) (times : List ℕ)
      → is_exempted config.exempted a ≡ false
      → Holds (λ r. All (Spares config) r.1) (check_rate blocker config a times)
  unfolding check_rate
  check_rate-Spares a times n =
      Holds-if (λ r. All (Spares config) r.1) (ltb config.rate_max (length times)) _ _
        (Holds-bind (λ r. All (Spares config) r.1) (λ r. All (Spares config) r.1)
          (block_address blocker config a) _ (block_address-Spares a n)
          (λ r h. Holds-ok (λ r. All (Spares config) r.1) _ h))
        (Holds-ok (λ r. All (Spares config) r.1) _ tt)

  observe-Spares :
      (now : ℕ) (a : Address) (ad : AddressData)
      → is_exempted config.exempted a ≡ false
      → Holds (λ r. All (Spares config) r.1) (observe blocker config now a ad)
  unfolding observe
  observe-Spares now a ad n =
      Holds-if (λ r. All (Spares config) r.1) ad.blocked _ _
        (Holds-ok (λ r. All (Spares config) r.1) _ tt)
        (check_rate-Spares a (strip_old now config.rate_interval ad.times ++ now ∷ []) n)

  detected_address-Adds :
      (effects : List Effect) (now : ℕ) (a : Address) (d : Detector)
      → Adds config effects d
      → Holds (Adds config effects) (detected_address blocker config now a d)
  unfolding detected_address
  detected_address-Adds effects now a d (new, e, s) =
      elim (Bool-cases (is_exempted config.exempted a)) [
        | inl x ↦ rw (x, detected_address) (Holds-ok (Adds config effects) d (new, e, s))
        | inr n ↦
            rw (n, detected_address)
              (Holds-bind (λ r. All (Spares config) r.1) (Adds config effects)
                (observe blocker config now a (entry a d.address_data)) _
                (observe-Spares now a (entry a d.address_data) n)
                (λ r h. Holds-ok (Adds config effects) _ (
                  new ++ r.1,
                  ap (λ es. es ++ r.1) e ∙ append_assoc effects new r.1,
                  All-append (Spares config) new r.1 s h,
                )))
      ]

module _ (sys : Platform) (blocker : Blocker) (config : ConfFile) (clock : ℕ → ℕ)
    (effects : List Effect) where
  process_pattern-Adds :
      (i : ℕ) (m : Match) (line : Bytes) (d : Detector)
      → Adds config effects d
      → Holds (Adds config effects) (process_pattern sys blocker config clock i m line d)
  unfolding process_pattern
  process_pattern-Adds i m line d s =
      let (rc, matches) = Regex.execute sys m.regex line 0 default_nmatches in
      Holds-if (Adds config effects) (rc == 0) _ _
        (Holds-bind (λ _. Unit {0}) (Adds config effects) (capture_text line matches m.capture) _
          (Holds-any (capture_text line matches m.capture))
          (λ text _.
            Holds-bind (λ _. Unit {0}) (Adds config effects) (assign sys text) _
              (Holds-any (assign sys text))
              (λ a _. detected_address-Adds blocker config effects (clock i) a d s)))
        (Holds-ok (Adds config effects) d s)

  process_patterns-Adds :
      (i : ℕ) (patterns : List Match) (line : Bytes) (d : Detector)
      → Adds config effects d
      → Holds (Adds config effects) (process_patterns sys blocker config clock i patterns line d)
  unfolding process_patterns
  process_patterns-Adds i [] line d s = Holds-ok (Adds config effects) d s
  process_patterns-Adds i (m ∷ patterns) line d s =
      Holds-bind (Adds config effects) (Adds config effects)
        (process_pattern sys blocker config clock i m line d) _ (process_pattern-Adds i m line d s)
        (λ d' h. process_patterns-Adds (suc i) patterns line d' h)

  -- Whatever a line holds, `processLine` adds only effects that spare exempted addresses.
  pub process_line-Adds :
      (line : Bytes) (d : Detector)
      → Adds config effects d
      → Holds (Adds config effects) (process_line sys blocker config clock line d)
  unfolding process_line
  process_line-Adds line d s = process_patterns-Adds 0 config.patterns line d s
