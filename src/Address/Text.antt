-- ===== src/Address/Text.antt =====
-- Printing an address and reading it back (src/Address.cc).
use blockad.Common.{
  ℕ, zero, suc, ◌≡◌, inl, inr, true, [], ◌∷◌, ◌++◌, Bytes, IsByte, All, find-Lacks, c_str-Lacks,
  drop, length, replicate, arith, ok, Bool-cases, length-drop,
}
use blockad.Platform.{Platform, InetLaws, IsBytes}
use blockad.Address.{Address, convert, convert_text, substring, assign, as_string, is4}

All-drop : (n : ℕ) (a : Bytes) → All IsByte a → All IsByte (drop n a)
All-drop zero a h = h
All-drop (suc n) [] h = h
All-drop (suc n) (x ∷ a) h = All-drop n a h.1

is4-mapped :
    (a : Bytes)
    → length a ≡ 16
    → is4 (record { address = a }) ≡ true
    → a ≡ replicate 10 0 ++ 255 ∷ 255 ∷ drop 12 a
unfolding is4
is4-mapped (a0 ∷ a1 ∷ a2 ∷ a3 ∷ a4 ∷ a5 ∷ a6 ∷ a7 ∷ a8 ∷ a9 ∷ a10 ∷ a11 ∷ a) l h = ground arith
is4-mapped _ l h = absurd (omega arith)

last_four : (a : Bytes) → IsBytes 16 a → IsBytes 4 (drop 12 a)
last_four a h = (omega (arith, length-drop 12 a, h.0), All-drop 12 a h.1)

module _ (sys : Platform) (laws : InetLaws sys) where
  -- An address that is printed by `asString` is read back by `assign`, whether it is printed in
  -- the IPv4 form or in the IPv6 form.
  pub assign-as_string :
      (a : Address)
      → IsBytes 16 a.address
      → (s : Bytes) × (as_string sys a ≡ ok s) × (assign sys s ≡ ok a)
  unfolding as_string assign convert substring convert_text
  assign-as_string a h = elim (Bool-cases (is4 a)) [
    | inl y ↦
        let text = sys.ntop4 (drop 12 a.address) in
        (
          text,
          ground arith,
          ground (
            arith,
            find-Lacks b':' text (laws.ntop4_plain (drop 12 a.address)).1,
            c_str-Lacks text (laws.ntop4_plain (drop 12 a.address)).0,
            laws.pton4-ntop4 (drop 12 a.address) (last_four a.address h),
            is4-mapped a.address h.0 y,
          ),
        )
    | inr n ↦
        let text = sys.ntop6 a.address in
        (
          text,
          ground arith,
          ground (
            arith,
            laws.ntop6_colon a.address,
            c_str-Lacks text (laws.ntop6_plain a.address),
            laws.pton6-ntop6 a.address h,
          ),
        )
  ]
