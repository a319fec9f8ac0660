-- ===== src/Address/Exact.antt =====
-- `AddressPattern` (src/Address.cc) of a text without a netmask.
use blockad.Common.{
  ℕ, ◌≡◌, refl, sym, ap, subst, ◌∙◌, ◌↔◌, true, [], ◌∷◌, none, Bytes, IsByte, All, find, length,
  replicate, bit_and, bit_and-ones, arith, ok,
}
use blockad.Platform.{Platform, InetLaws, IsBytes}
use blockad.Address.{
  Address, AddressPattern, convert, assign, assign_pattern, mask_bits, build_mask, matches,
  matches_bytes,
}
use blockad.Address.Matching.{convert-IsBytes, assign_pattern-Assigned}

full-bit_and : (a : ℕ) → IsByte a → bit_and a 255 ≡ a
full-bit_and a h = bit_and-ones 8 a (omega arith) h ∙ omega arith

matches_bytes_full :
    (a n : Bytes)
    → length a ≡ length n
    → All IsByte a
    → (matches_bytes a (replicate (length a) 255) n ≡ true) ↔ (a ≡ n)
unfolding matches_bytes
matches_bytes_full [] [] l h = (λ _. refl, λ _. refl)
matches_bytes_full [] (y ∷ n) l h = absurd (omega arith)
matches_bytes_full (x ∷ a) [] l h = absurd (omega arith)
matches_bytes_full (x ∷ a) (y ∷ n) l h =
    rw (full-bit_and x h.0) (ground (arith, matches_bytes_full a n (omega arith) h.1))

full_mask : build_mask 16 0 128 ≡ replicate 16 255
unfolding build_mask
full_mask = refl

no_netmask :
    (sys : Platform) (s : Bytes) (version size : ℕ)
    → mask_bits sys s none version ≡ ok size
    → size ≡ 128
unfolding mask_bits
no_netmask sys s version size e = ground (arith, e)

assign_of_convert :
    (sys : Platform) (s a : Bytes) (version : ℕ)
    → convert sys s 0 none ≡ ok (a, version)
    → assign sys s ≡ ok (record { address = a })
unfolding assign
assign_of_convert sys s a version e = rw e

matches_full :
    (q : AddressPattern) (a : Address)
    → IsBytes 16 a.address
    → length q.network ≡ 16
    → q.mask ≡ replicate (length a.address) 255
    → (matches q a ≡ true) ↔ (a.address ≡ q.network)
unfolding matches
matches_full q a h l m =
    subst (λ mask. (matches_bytes a.address mask q.network ≡ true) ↔ (a.address ≡ q.network))
      (sym m) (matches_bytes_full a.address q.network (h.0 ∙ sym l) h.1)

-- A pattern that is read from a text with no slash matches one address and no other: the one that
-- `Address::assign` reads from the same text.
pub matches-assign :
    (sys : Platform)
    → InetLaws sys
    → (s : Bytes) (p q : AddressPattern) (a : Address) → find b'/' s ≡ none
    → assign_pattern sys s p ≡ (q, ok tt)
    → IsBytes 16 a.address
    → (b : Address) × (assign sys s ≡ ok b) × ((matches q a ≡ true) ↔ (a.address ≡ b.address))
matches-assign sys laws s p q a slash e h =
    let found = assign_pattern-Assigned sys s p q e in
    let converted =
      subst (λ o. convert sys s 0 o ≡ ok (q.network, found.version)) slash found.converted in
    let sized = subst (λ o. mask_bits sys s o found.version ≡ ok found.size) slash found.sized in
    let read = convert-IsBytes sys laws s 0 none converted in
    (
      record { address = q.network },
      assign_of_convert sys s q.network found.version converted,
      matches_full q a h read.0 (
          found.masked
          ∙ ap (λ k. build_mask 16 0 k) (no_netmask sys s found.version found.size sized)
          ∙ full_mask
          ∙ ap (λ n. replicate n 255) (sym h.0)),
    )
