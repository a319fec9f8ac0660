-- ===== src/Address/Mask.antt =====
-- The netmask that `AddressPattern::assign` builds (src/Address.cc), byte by byte and bit by bit.
use blockad.Common.{
  ℕ, zero, suc, ◌+◌, ◌-◌, ◌/◌, ◌%◌, ◌<◌, ◌≡◌, refl, ap₂, ◌↔◌, true, List, [], ◌∷◌, ◌++◌, Bytes,
  IsByte, All, take, drop, length, min, bit_and, ones, bit_and-ones, arith, All-append, All-split,
  take-append, drop-append, append-injective, length-take,
}
use blockad.Address.{mask_byte, build_mask, matches_bytes}

-- The bits of a byte, the most significant first.
abbrev pub byte_bits : ℕ → List ℕ
byte_bits b =
    b / 128 % 2
    ∷ b / 64 % 2
    ∷ b / 32 % 2
    ∷ b / 16 % 2
    ∷ b / 8 % 2
    ∷ b / 4 % 2
    ∷ b / 2 % 2
    ∷ b % 2
    ∷ []

-- The bits of an array of bytes, in network order.
abbrev pub bits : Bytes → List ℕ
bits [] = []
bits (b ∷ bs) = byte_bits b ++ bits bs

abbrev pub AllZero : List ℕ → Type 0
AllZero = All (λ b. b ≡ 0)

mask_byte_first : (k : ℕ) → mask_byte k 0 ≡ ones (min k 8)
mask_byte_first k = ground arith

mask_byte_next : (k n : ℕ) → mask_byte k (n + 1) ≡ mask_byte (k - 8) n
mask_byte_next k n = ground arith

pub build_mask_next : (rounds n k : ℕ) → build_mask rounds (n + 1) k ≡ build_mask rounds n (k - 8)
unfolding build_mask
build_mask_next zero n k = refl
build_mask_next (suc rounds) n k = ap₂ ◌∷◌ (mask_byte_next k n) (build_mask_next rounds (n + 1) k)

-- The first byte of the mask keeps eight bits at most, and the others what is left.
pub build_mask_first :
    (rounds k : ℕ) → build_mask (suc rounds) 0 k ≡ ones (min k 8) ∷ build_mask rounds 0 (k - 8)
unfolding build_mask
build_mask_first rounds k = ap₂ ◌∷◌ (mask_byte_first k) (build_mask_next rounds 0 k)

-- A byte under `ones j` is `n` exactly when the first `j` bits agree and the others of `n` are 0.
byte_agrees :
    (j a n : ℕ)
    → j < 9
    → IsByte a
    → IsByte n
    → (bit_and a (ones j) ≡ n)
      ↔ (take j (byte_bits a) ≡ take j (byte_bits n)) × AllZero (drop j (byte_bits n))
byte_agrees (suc (suc (suc (suc (suc (suc (suc (suc zero)))))))) a n hj ha hn =
    rw (bit_and-ones 8 a hj ha) (λ h. ground arith, λ h. ground arith)
byte_agrees j a n hj ha hn = rw (bit_and-ones j a hj ha) (λ h. ground arith, λ h. ground arith)

-- The first `k` bits of `xs` and `ys` agree, and the others of `ys` are 0.
abbrev pub Agrees : ℕ → List ℕ → List ℕ → Type 0
Agrees k xs ys = (take k xs ≡ take k ys) × AllZero (drop k ys)

Agrees-append :
    (k : ℕ) (xs us ys vs : List ℕ)
    → length xs ≡ length ys
    → Agrees k (xs ++ us) (ys ++ vs)
      ↔ Agrees (min k (length xs)) xs ys × Agrees (k - length xs) us vs
Agrees-append k xs us ys vs l =
    rw (take-append k xs us, take-append k ys vs, drop-append k ys vs, l)
      (
        (λ h.
            let (heads, tails) =
              append-injective (take (min k (length ys)) xs) _ _ _ (same_length l) h.0 in
            let (zeros, others) = All-split (λ b. b ≡ 0) (drop (min k (length ys)) ys) _ h.1 in
            ((heads, zeros), (tails, others))),
        (λ h. (ap₂ ◌++◌ h.0.0 h.1.0, All-append (λ b. b ≡ 0) _ _ h.0.1 h.1.1)),
      )
  where
    same_length :
        length xs ≡ length ys
        → length (take (min k (length ys)) xs) ≡ length (take (min k (length ys)) ys)
    same_length e =
        omega (arith, length-take (min k (length ys)) xs, length-take (min k (length ys)) ys)

nothing_left : (k : ℕ) → Agrees k [] []
nothing_left zero = (refl, tt)
nothing_left (suc k) = (refl, tt)

-- A masked array equals the network exactly when the bits under the mask agree and the rest of
-- the network is 0.
pub matches_bytes-Agrees :
    (k : ℕ) (a n : Bytes)
    → length a ≡ length n
    → All IsByte a
    → All IsByte n
    → (matches_bytes a (build_mask (length a) 0 k) n ≡ true) ↔ Agrees k (bits a) (bits n)
unfolding matches_bytes
matches_bytes-Agrees k [] [] l ha hn = (λ _. nothing_left k, λ _. refl)
matches_bytes-Agrees k [] (y ∷ n) l ha hn = absurd (omega arith)
matches_bytes-Agrees k (x ∷ a) [] l ha hn = absurd (omega arith)
matches_bytes-Agrees k (x ∷ a) (y ∷ n) l ha hn =
    let byte = byte_agrees (min k 8) x y (omega arith) ha.0 hn.0 in
    let rest = matches_bytes-Agrees (k - 8) a n (omega arith) ha.1 hn.1 in
    let both = Agrees-append k (byte_bits x) (bits a) (byte_bits y) (bits n) refl in
    rw (build_mask_first (length a) k) (
      (λ h. both.1 (byte.0 (ground arith), rest.0 (ground arith))),
      (λ h. let (here, later) = both.0 h in ground (arith, byte.1 here, rest.1 later)),
    )
