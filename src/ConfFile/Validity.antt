-- ===== src/ConfFile/Validity.antt =====
-- What holds of every configuration that `ConfFile` (src/ConfFile.cc) reads.
use blockad.Common.{
  ℕ, ◌≤◌, ◌≡◌, refl, ◌⊎◌, inl, inr, Bool, true, false, not, ◌||◌, List, [], ◌∷◌, Option, none, some,
  Bytes, codes, c_str, find, equal, get_or, All, All-append, length, ltb, ◌==◌, if◌then◌else◌,
  ltb_ℤ, pos, ℤ, negsuc, pos_part, int_max, uint_max, long_max, arith, Exception, Result, ok,
  throws, Holds, Holds-bind, Holds-any, Holds-ok, Holds-throws, Holds-if, Holds-guard, Option-cases,
  Bool-cases,
}
use blockad.Platform.{Platform, InetLaws, IsBytes}
use blockad.Strtol.Bounds.{strtol_bound}
use blockad.Strtol.{Strtol, strtol}
use blockad.Address.{AddressPattern, anything, assign_pattern, build_mask}
use blockad.Address.Matching.{assign_pattern-Assigned, convert-IsBytes}
use blockad.Lexer.{Location, split_line}
use blockad.BlockMethod.{BlockMethodType, Registry, find_type, create_from}
use blockad.Regex.{Regex, captures, compile}
use blockad.ConfFile.{
  Match, ConfFile, located, parse_line, parse_bits, parse_watch, parse_address, parse_rate,
  parse_exempt, parse_block, capture_argument, capture_number, add_match, set_rate, interval,
  add_exempted, set_block,
}

-- The capture that a pattern names is one of its regular expression.
abbrev pub IsMatch : Platform → Match → Type 0
IsMatch sys m = (1 ≤ m.capture) × (m.capture ≤ captures sys m.regex) × (m.capture ≤ int_max)

-- A pattern has a network and the mask of a prefix.
pub record IsPattern (p : AddressPattern) : Type 0 where
  pub network : IsBytes 16 p.network
  pub size : ℕ
  pub size_bound : size ≤ 128
  pub masked : p.mask ≡ build_mask 16 0 size

abbrev pub IsInterval : ℕ → Type 0
IsInterval n = (n ≡ 60) ⊎ (n ≡ 3600) ⊎ (n ≡ 86400) ⊎ (n ≡ 604800)

pub record IsValid (sys : Platform) (cf : ConfFile) : Type 0 where
  pub patterns : All (IsMatch sys) cf.patterns
  pub exempted : All IsPattern cf.exempted
  pub rate_pos : 1 ≤ cf.rate_max
  pub rate_bound : cf.rate_max ≤ uint_max
  pub interval_known : IsInterval cf.rate_interval

interval-IsInterval : (end : Bytes) {n : ℕ} → interval end ≡ some n → IsInterval n
unfolding interval
interval-IsInterval end e = ground arith

abbrev IsCapture : ℤ → Type 0
IsCapture c = (n : ℕ) × (c ≡ pos n) × (1 ≤ n) × (n ≤ int_max)

in_range-IsCapture : (c : ℤ) → ltb_ℤ c (pos 1) ≡ false → ltb_ℤ (pos int_max) c ≡ false → IsCapture c
in_range-IsCapture (pos n) h k = (n, refl, ground arith, ground arith)
in_range-IsCapture (negsuc n) h k = absurd (ground arith)

-- The ladder of `capture_argument`, with its tests as variables.
guarded-IsCapture :
    (c : ℤ) (x y : Exception) (a b d low high : Bool)
    → ltb_ℤ c (pos 1) ≡ low
    → ltb_ℤ (pos int_max) c ≡ high
    → Holds IsCapture (if a then throws x else if b || d || low || high then throws y else ok c)
unfolding Holds
guarded-IsCapture c x y false false false false false l h = in_range-IsCapture c l h
guarded-IsCapture c x y true b d low high l h = tt
guarded-IsCapture c x y false true d low high l h = tt
guarded-IsCapture c x y false false true low high l h = tt
guarded-IsCapture c x y false false false true high l h = tt
guarded-IsCapture c x y false false false false true l h = tt

module _ (sys : Platform) where
  set_rate-IsValid :
      (cf : ConfFile) (r : Strtol)
      → pos_part r.value ≤ long_max
      → IsValid sys cf
      → Holds (IsValid sys) (set_rate sys cf r)
  unfolding Holds set_rate
  set_rate-IsValid cf r b v = elim (Option-cases (interval r.end)) [
    | inl e ↦ rw (e, set_rate) (ground arith)
    | inr (n, e) ↦ rw (e, set_rate) (ground (arith, interval-IsInterval r.end e))
  ]

  capture_argument-IsCapture :
      (cf : ConfFile) (r : Strtol) → Holds IsCapture (capture_argument sys cf r)
  unfolding Holds capture_argument
  capture_argument-IsCapture cf r =
      guarded-IsCapture r.value _ _ r.erange (not r.converted) (not (length r.end == 0)) _ _ refl
        refl

  add_match-IsValid :
      (cf : ConfFile) (r : Regex) (c : ℤ)
      → IsCapture c
      → IsValid sys cf
      → Holds (IsValid sys) (add_match sys cf r c)
  unfolding Holds add_match
  add_match-IsValid cf r c (n, e, h, k) v = rw e (
      ground (
        arith,
        All-append (IsMatch sys) cf.patterns (record { regex = r; capture = n } ∷ []) v.patterns,
      ))

  capture_number-IsCapture :
      (cf : ConfFile) (bits : List Bytes) → Holds IsCapture (capture_number sys cf bits)
  unfolding Holds capture_number
  capture_number-IsCapture cf bits = elim (Bool-cases (length bits == 3)) [
    | inl e ↦
        rw (e, capture_number) (capture_argument-IsCapture cf (strtol (c_str (get_or bits 2 []))))
    | inr e ↦ rw (e, capture_number) (1, refl, omega arith, omega arith)
  ]

  parse_watch-IsValid :
      (cf : ConfFile) (bits : List Bytes)
      → IsValid sys cf
      → Holds (IsValid sys) (parse_watch cf bits)
  unfolding Holds parse_watch
  parse_watch-IsValid cf bits v = ground arith

  parse_address-IsValid :
      (cf : ConfFile) (bits : List Bytes)
      → IsValid sys cf
      → Holds (IsValid sys) (parse_address sys cf bits)
  unfolding parse_address
  parse_address-IsValid cf bits v = Holds-guard (IsValid sys) (ltb (length bits) 2) _ _ (
      Holds-guard (IsValid sys) (ltb 3 (length bits)) _ _ (
        Holds-bind IsCapture (IsValid sys) (capture_number sys cf bits) _
          (capture_number-IsCapture cf bits)
          (λ c hc.
            Holds-bind (λ _. Unit {0}) (IsValid sys) (compile sys (get_or bits 1 []) 0 false) _
              (Holds-any (compile sys (get_or bits 1 []) 0 false))
              (λ r _. add_match-IsValid cf r c hc v))))

  parse_rate-IsValid :
      (cf : ConfFile) (bits : List Bytes)
      → IsValid sys cf
      → Holds (IsValid sys) (parse_rate sys cf bits)
  unfolding Holds parse_rate
  parse_rate-IsValid cf bits v =
      let text = c_str (get_or bits 1 []) in
      ground (arith, set_rate-IsValid cf (strtol text) (strtol_bound text) v)

  set_block-IsValid :
      (cf : ConfFile) (bits : List Bytes) (type : Option BlockMethodType)
      → IsValid sys cf
      → Holds (IsValid sys) (set_block cf bits type)
  unfolding Holds set_block
  set_block-IsValid cf bits none v = tt
  set_block-IsValid cf bits (some type) v =
      Holds-bind (λ _. Unit {0}) (IsValid sys) (create_from type cf.location bits) _
        (Holds-any (create_from type cf.location bits))
        (λ method _. record {
          patterns = v.patterns;
          exempted = v.exempted;
          rate_pos = v.rate_pos;
          rate_bound = v.rate_bound;
          interval_known = v.interval_known;
        })

  parse_block-IsValid :
      (registry : Registry) (cf : ConfFile) (bits : List Bytes)
      → IsValid sys cf
      → Holds (IsValid sys) (parse_block registry cf bits)
  unfolding parse_block
  parse_block-IsValid registry cf bits v =
      Holds-guard (IsValid sys) _ _ _
        (set_block-IsValid cf bits (find_type registry (get_or bits 1 [])) v)

module _ (sys : Platform) (laws : InetLaws sys) (registry : Registry) where
  add_exempted-IsValid :
      (cf : ConfFile) (s : Bytes) (r : AddressPattern × Result (Unit {0}))
      → assign_pattern sys s anything ≡ r
      → IsValid sys cf
      → Holds (IsValid sys) (add_exempted cf r)
  unfolding Holds add_exempted
  add_exempted-IsValid cf s (p, throws x) e v = tt
  add_exempted-IsValid cf s (p, ok u) e v =
      let found = assign_pattern-Assigned sys s anything p e in
      record {
        patterns = v.patterns;
        exempted = All-append IsPattern cf.exempted (p ∷ []) v.exempted (
          record {
            network = convert-IsBytes sys laws s 0 (find b'/' s) found.converted;
            size = found.size;
            size_bound = found.size_bound;
            masked = found.masked;
          },
          tt,
        );
        rate_pos = v.rate_pos;
        rate_bound = v.rate_bound;
        interval_known = v.interval_known;
      }

  parse_exempt-IsValid :
      (cf : ConfFile) (bits : List Bytes)
      → IsValid sys cf
      → Holds (IsValid sys) (parse_exempt sys cf bits)
  unfolding parse_exempt
  parse_exempt-IsValid cf bits v = Holds-guard (IsValid sys) (ltb (length bits) 2) _ _ (
      Holds-guard (IsValid sys) (ltb 2 (length bits)) _ _
        (add_exempted-IsValid cf (get_or bits 1 []) _ refl v))

  parse_bits-IsValid :
      (cf : ConfFile) (bits : List Bytes)
      → IsValid sys cf
      → Holds (IsValid sys) (parse_bits sys registry cf bits)
  unfolding parse_bits
  parse_bits-IsValid cf [] v = Holds-ok (IsValid sys) cf v
  parse_bits-IsValid cf (command ∷ args) v =
      let bits = command ∷ args in
      Holds-if (IsValid sys) (equal command (codes "watch")) _ _ (parse_watch-IsValid sys cf bits v)
        (Holds-if (IsValid sys) (equal command (codes "address")) _ _
          (parse_address-IsValid sys cf bits v)
          (Holds-if (IsValid sys) (equal command (codes "rate")) _ _
            (parse_rate-IsValid sys cf bits v)
            (Holds-if (IsValid sys) (equal command (codes "exempt")) _ _
              (parse_exempt-IsValid cf bits v)
              (Holds-if (IsValid sys) (equal command (codes "block")) _ _
                (parse_block-IsValid sys registry cf bits v) (Holds-throws (IsValid sys) _)))))

  pub parse_line-IsValid :
      (cf : ConfFile) (line : Bytes)
      → IsValid sys cf
      → Holds (IsValid sys) (parse_line sys registry cf line)
  unfolding parse_line
  parse_line-IsValid cf line v =
      Holds-bind (λ _. Unit {0}) (IsValid sys) (split_line cf.location line) _
        (Holds-any (split_line cf.location line)) (λ bits _. parse_bits-IsValid cf bits v)

  pub located-Holds :
      (l : Location) (r : Result ConfFile)
      → Holds (IsValid sys) r
      → Holds (IsValid sys) (located l r)
  unfolding Holds located
  located-Holds l (ok cf) h = h
  located-Holds l (throws (Exception.runtime_error what)) h = tt
  located-Holds l (throws _) h = tt
