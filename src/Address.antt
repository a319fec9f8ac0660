-- ===== src/Address.antt =====
-- src/Address.h and src/Address.cc: addresses and the patterns that match them.
pub mod Mask
pub mod Matching
pub mod Exact
pub mod Order
pub mod Text
use blockad.Common.{
  ℕ, suc, ◌+◌, ◌-◌, ◌/◌, ◌%◌, Bool, true, false, not, ◌&&◌, ◌||◌, List, [], ◌∷◌, ◌++◌, Option, none,
  some, Bytes, codes, c_str, find, take, drop, get_or, length, replicate, ltb, ◌==◌, if◌then◌else◌,
  ltb_ℤ, pos, pos_part, bit_and, Result, ok, throws, runtime_error, ◌>>=◌, ones,
}
use blockad.Platform.{Platform}
use blockad.Strtol.{Strtol, strtol}

-- `struct in6_addr`: 16 bytes, in network order.
pub record Address : Type 0 where
  pub address : Bytes

abbrev pub invalid_address : Bytes
invalid_address = codes "Invalid address"

abbrev pub invalid_address_pattern : Bytes
invalid_address_pattern = codes "Invalid address pattern"

-- `Address()`: the address `::`.
abbrev pub unspecified : Address
unspecified = record { address = replicate 16 0 }

-- `std::string s(ss, pos, n)` behind the clamp of `n`; no `n` is `npos`.
unfoldable pub substring : Bytes → ℕ → Option ℕ → Bytes
substring ss start none = drop start ss
substring ss start (some n) =
    take (if ltb (length ss - start) n then length ss - start else n) (drop start ss)

module _ (sys : Platform) where
  -- Reads `s` by the syntax that a colon tells: the address and 6 or 4.
  unfoldable pub convert_text : Bytes → Result (Bytes × ℕ)
  convert_text s = elim (find b':' s) [
    | some _ ↦ elim (sys.pton6 (c_str s)) [
      | none ↦ throws (runtime_error invalid_address)
      | some a ↦ ok (a, 6)
    ]
    | none ↦ elim (sys.pton4 (c_str s)) [
      | none ↦ throws (runtime_error invalid_address)
      | some a ↦ ok (replicate 10 0 ++ 255 ∷ 255 ∷ a, 4)
    ]
  ]

  unfoldable pub convert : Bytes → ℕ → Option ℕ → Result (Bytes × ℕ)
  unfolding convert_text
  convert ss start n = convert_text (substring ss start n)

  -- The version is 4 or 6, so that the test for a negative one never holds.
  unfoldable pub assign : Bytes → Result Address
  assign s = do (a, version) ← convert s 0 none; ok (record { address = a })

unfoldable pub all_zero : ℕ → Bytes → Bool
all_zero ℕ.zero a = true
all_zero (suc n) [] = true
all_zero (suc n) (b ∷ a) = if not (b == 0) then false else all_zero n a

unfoldable pub is4 : Address → Bool
unfolding all_zero
is4 a =
    if not (all_zero 10 a.address)
    then false
    else get_or a.address 10 0 == 0xFF && get_or a.address 11 0 == 0xFF

module _ (sys : Platform) where
  unfoldable pub as4 : Address → Result Bytes
  as4 a =
      if not (is4 a)
      then throws (runtime_error invalid_address)
      else ok (sys.ntop4 (drop 12 a.address))

  unfoldable pub as6 : Address → Bytes
  as6 a = sys.ntop6 a.address

  unfoldable pub as_string : Address → Result Bytes
  unfolding as4 as6
  as_string a = if is4 a then as4 a else ok (as6 a)

-- `memcmp(a, b, n) < 0`
unfoldable pub memcmp_lt : Bytes → Bytes → Bool
memcmp_lt (x ∷ a) (y ∷ b) = if x == y then memcmp_lt a b else ltb x y
memcmp_lt _ _ = false

unfoldable pub lt : Address → Address → Bool
unfolding memcmp_lt
lt a b = memcmp_lt a.address b.address

pub record AddressPattern : Type 0 where
  pub network : Bytes
  pub mask : Bytes

-- `AddressPattern()`
abbrev pub anything : AddressPattern
anything = record { network = replicate 16 0; mask = replicate 16 0 }

-- The netmask size behind a `/`, checked against the syntax of the address; 96 more bits are
-- those of the prefix that maps an IPv4 address.
unfoldable pub checked_size : Platform → ℕ → Strtol → Result ℕ
checked_size sys version r =
    if r.erange
    then throws (runtime_error (invalid_address_pattern ++ codes ": " ++ sys.strerror 34))
    else if not r.converted || not (length r.end == 0) || ltb_ℤ r.value (pos 0)
    then throws (runtime_error invalid_address_pattern)
    else if version == 4
    then if ltb 32 (pos_part r.value)
      then throws (runtime_error invalid_address_pattern)
      else ok (pos_part r.value + 96)
    else if ltb 128 (pos_part r.value)
    then throws (runtime_error invalid_address_pattern)
    else ok (pos_part r.value)

unfoldable pub mask_bits : Platform → Bytes → Option ℕ → ℕ → Result ℕ
unfolding checked_size
mask_bits sys s none version = ok 128
mask_bits sys s (some slash) version =
    checked_size sys version (strtol (c_str (drop (slash + 1) s)))

abbrev pub mask_byte : ℕ → ℕ → ℕ
mask_byte k n = if ltb n (k / 8) then 0xFF else if n == k / 8 then ones (k % 8) else 0

-- The bytes `n`, `n + 1`, … of the mask, as many as there are rounds left.
unfoldable pub build_mask : ℕ → ℕ → ℕ → Bytes
build_mask ℕ.zero n k = []
build_mask (suc rounds) n k = mask_byte k n ∷ build_mask rounds (n + 1) k

-- The two stores of `AddressPattern::assign`: a bad netmask is found after the first of them.
unfoldable pub store_mask : AddressPattern → Result ℕ → AddressPattern × Result (Unit {0})
unfolding build_mask
store_mask p (throws e) = (p, throws e)
store_mask p (ok k) = (record p { mask = build_mask 16 0 k }, ok tt)

unfoldable pub store_network :
    Platform → Bytes → AddressPattern → Result (Bytes × ℕ) → AddressPattern × Result (Unit {0})
unfolding store_mask mask_bits
store_network sys s p (throws e) = (p, throws e)
store_network sys s p (ok (a, version)) =
    store_mask (record p { network = a }) (mask_bits sys s (find b'/' s) version)

unfoldable pub assign_pattern :
    Platform → Bytes → AddressPattern → AddressPattern × Result (Unit {0})
unfolding store_network
assign_pattern sys s p = store_network sys s p (convert sys s 0 (find b'/' s))

-- One round for each byte of the three arrays.
unfoldable pub matches_bytes : Bytes → Bytes → Bytes → Bool
matches_bytes (a ∷ a_s) (m ∷ m_s) (n ∷ n_s) =
    if not (bit_and a m == n) then false else matches_bytes a_s m_s n_s
matches_bytes _ _ _ = true

unfoldable pub matches : AddressPattern → Address → Bool
unfolding matches_bytes
matches p a = matches_bytes a.address p.mask p.network

-- `matches(const std::string &)`
unfoldable pub matches_text : Platform → AddressPattern → Bytes → Result Bool
matches_text sys p s = do a ← assign sys s; ok (matches p a)
