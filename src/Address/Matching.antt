-- ===== src/Address/Matching.antt =====
-- What an `AddressPattern` matches, from the text that it is read from (src/Address.cc).
use blockad.Common.{
  ℕ, ◌+◌, ◌≤◌, ◌≡◌, refl, ◌↔◌, inl, inr, true, ◌∷◌, ◌++◌, Option, none, some, Bytes, IsByte, c_str,
  find, drop, replicate, arith, Result, ok, throws, Option-cases, All-append,
}
use blockad.Platform.{Platform, InetLaws, IsBytes}
use blockad.Strtol.{Strtol, strtol}
use blockad.Address.{
  Address, AddressPattern, convert, convert_text, substring, assign_pattern, store_network,
  store_mask, mask_bits, checked_size, build_mask, matches,
}
use blockad.Address.Mask.{bits, Agrees, matches_bytes-Agrees}

mapped-IsBytes : (a : Bytes) → IsBytes 4 a → IsBytes 16 (replicate 10 0 ++ 255 ∷ 255 ∷ a)
mapped-IsBytes a (l, h) = (
  omega arith,
  All-append IsByte (replicate 10 0) (255 ∷ 255 ∷ a) (omega arith) (omega arith, (omega arith, h)),
)

module _ (sys : Platform) (laws : InetLaws sys) where
  convert_text-IsBytes :
      (s a : Bytes) (version : ℕ) → convert_text sys s ≡ ok (a, version) → IsBytes 16 a
  unfolding convert_text
  convert_text-IsBytes s a version e = elim (Option-cases (find b':' s)) [
    | inl f ↦ elim (Option-cases (sys.pton4 (c_str s))) [
      | inl n ↦ ground arith
      | inr (b, y) ↦ ground (arith, mapped-IsBytes b (laws.pton4-IsBytes _ b y))
    ]
    | inr (i, f) ↦ elim (Option-cases (sys.pton6 (c_str s))) [
      | inl n ↦ ground arith
      | inr (b, y) ↦ ground (arith, laws.pton6-IsBytes _ b y)
    ]
  ]

  -- Every address that is read has 16 bytes.
  pub convert-IsBytes :
      (s : Bytes) (start : ℕ) (n : Option ℕ) {a : Bytes} {version : ℕ}
      → convert sys s start n ≡ ok (a, version)
      → IsBytes 16 a
  unfolding convert
  convert-IsBytes s start n e = convert_text-IsBytes (substring s start n) _ _ e

checked_size_bound :
    (sys : Platform) (version : ℕ) (r : Strtol) (k : ℕ)
    → checked_size sys version r ≡ ok k
    → k ≤ 128
unfolding checked_size
checked_size_bound sys version r k e = ground arith

mask_bits_bound :
    (sys : Platform) (s : Bytes) (slash : Option ℕ) (version k : ℕ)
    → mask_bits sys s slash version ≡ ok k
    → k ≤ 128
unfolding mask_bits
mask_bits_bound sys s none version k e = ground arith
mask_bits_bound sys s (some i) version k e =
    checked_size_bound sys version (strtol (c_str (drop (i + 1) s))) k e

-- What a successful `AddressPattern::assign` leaves behind.
pub record Assigned (sys : Platform) (s : Bytes) (q : AddressPattern) : Type 0 where
  pub version : ℕ
  pub size : ℕ
  pub converted : convert sys s 0 (find b'/' s) ≡ ok (q.network, version)
  pub sized : mask_bits sys s (find b'/' s) version ≡ ok size
  pub size_bound : size ≤ 128
  pub masked : q.mask ≡ build_mask 16 0 size

store_mask-Assigned :
    (p q : AddressPattern) (r : Result ℕ)
    → store_mask p r ≡ (q, ok tt)
    → (k : ℕ) × (r ≡ ok k) × (q.network ≡ p.network) × (q.mask ≡ build_mask 16 0 k)
unfolding store_mask
store_mask-Assigned p q (throws x) e = ground arith
store_mask-Assigned p q (ok k) e = (k, refl, ground arith, ground arith)

store_network-Assigned :
    (sys : Platform) (s : Bytes) (p q : AddressPattern) (r : Result (Bytes × ℕ))
    → convert sys s 0 (find b'/' s) ≡ r
    → store_network sys s p r ≡ (q, ok tt)
    → Assigned sys s q
unfolding store_network
store_network-Assigned sys s p q (throws x) c e = ground arith
store_network-Assigned sys s p q (ok (a, version)) c e =
    let (k, sized, same, masked) = store_mask-Assigned (record p { network = a }) q _ e in
    record {
      version = version;
      size = k;
      converted = ground arith;
      sized = sized;
      size_bound = mask_bits_bound sys s (find b'/' s) version k sized;
      masked = masked;
    }

pub assign_pattern-Assigned :
    (sys : Platform) (s : Bytes) (p q : AddressPattern)
    → assign_pattern sys s p ≡ (q, ok tt)
    → Assigned sys s q
unfolding assign_pattern
assign_pattern-Assigned sys s p q e = store_network-Assigned sys s p q _ refl e

-- A pattern that `assign` has read from a text matches an address exactly when the two agree on
-- the first `size` bits and the bits of the network behind those are all 0.
pub matches-Agrees :
    (sys : Platform)
    → InetLaws sys
    → (s : Bytes) (p q : AddressPattern) (a : Address) → assign_pattern sys s p ≡ (q, ok tt)
    → IsBytes 16 a.address
    → (found : Assigned sys s q) × ((matches q a ≡ true)
        ↔ Agrees found.size (bits a.address) (bits q.network))
unfolding matches
matches-Agrees sys laws s p q a e h =
    let found = assign_pattern-Assigned sys s p q e in
    let read = convert-IsBytes sys laws s 0 (find b'/' s) found.converted in
    (
      found,
      rw (found.masked, ← h.0)
          (matches_bytes-Agrees found.size a.address q.network (omega (arith, h.0, read.0)) h.1
            read.1),
    )
