-- ===== src/ConfFile/Errors.antt =====
-- The errors of the directives (src/ConfFile.cc) and of `AddressPattern` (src/Address.cc), and the
-- location that they name.
use blockad.Common.{
  ℕ, ◌+◌, ◌≡◌, refl, Bool, true, false, not, ◌||◌, ◌∷◌, ◌++◌, Option, none, some, Bytes, c_str,
  find, length, drop, replicate, pos_part, ltb, ◌==◌, if◌then◌else◌, ltb_ℤ, pos, Exception,
  syntax_error, runtime_error, out_of_range, undefined, Result, ok, throws, ◌>>=◌,
}
use blockad.Platform.{Platform}
use blockad.Strtol.{Strtol, strtol}
use blockad.Address.{
  AddressPattern, assign_pattern, convert_text, convert, substring, checked_size, mask_bits,
  store_mask, store_network, invalid_address,
}
use blockad.Lexer.{Location, format, syntax}

-- What a directive throws: a syntax error that begins with the location, or a runtime_error, which
-- names none.
unfoldable pub Refuses : Location → Exception → Type 0
Refuses l (syntax_error what) = (s : Bytes) × (what ≡ format l s)
Refuses l (runtime_error what) = Unit
Refuses l out_of_range = ⊥
Refuses l undefined = ⊥

abbrev pub RefusesAt {ℓ} : {A : Type ℓ} → Location → Result A → Type 0
RefusesAt l (ok a) = Unit
RefusesAt l (throws e) = Refuses l e

pub syntax-Refuses : (l : Location) (s : Bytes) → Refuses l (syntax l s)
unfolding Refuses syntax
syntax-Refuses l s = (s, refl)

pub bind-RefusesAt :
    {A B : Type 0} (l : Location) (m : Result A) (f : A → Result B)
    → RefusesAt l m
    → ((a : A) → RefusesAt l (f a))
    → RefusesAt l (m >>= f)
bind-RefusesAt l (ok a) f h k = k a
bind-RefusesAt l (throws e) f h k = h

pub if-RefusesAt :
    {A : Type 0} (l : Location) (b : Bool) (r s : Result A)
    → RefusesAt l r
    → RefusesAt l s
    → RefusesAt l (if b then r else s)
if-RefusesAt l true r s h k = h
if-RefusesAt l false r s h k = k

-- The exceptions of `AddressPattern` have no location.
convert_text-RefusesAt :
    (sys : Platform) (l : Location) (s : Bytes) → RefusesAt l (convert_text sys s)
unfolding convert_text Refuses
convert_text-RefusesAt sys l s = by_colon (find b':' s)
  where
    read4 :
        (o : Option Bytes)
        → RefusesAt {A = Bytes × ℕ} l (elim o [
          | none ↦ throws (runtime_error invalid_address)
          | some a ↦ ok (replicate 10 0 ++ 255 ∷ 255 ∷ a, 4)
        ])
    read4 none = tt
    read4 (some a) = tt

    read6 :
        (o : Option Bytes)
        → RefusesAt {A = Bytes × ℕ} l
            (elim o [ none ↦ throws (runtime_error invalid_address) | some a ↦ ok (a, 6) ])
    read6 none = tt
    read6 (some a) = tt

    by_colon :
        (o : Option ℕ)
        → RefusesAt {A = Bytes × ℕ} l (elim o [
          | some _ ↦ elim (sys.pton6 (c_str s)) [
            | none ↦ throws (runtime_error invalid_address)
            | some a ↦ ok (a, 6)
          ]
          | none ↦ elim (sys.pton4 (c_str s)) [
            | none ↦ throws (runtime_error invalid_address)
            | some a ↦ ok (replicate 10 0 ++ 255 ∷ 255 ∷ a, 4)
          ]
        ])
    by_colon (some i) = read6 (sys.pton6 (c_str s))
    by_colon none = read4 (sys.pton4 (c_str s))

checked_size-RefusesAt :
    (sys : Platform) (l : Location) (version : ℕ) (r : Strtol)
    → RefusesAt l (checked_size sys version r)
unfolding checked_size Refuses
checked_size-RefusesAt sys l version r = if-RefusesAt l r.erange _ _ tt (
    if-RefusesAt l (not r.converted || not (length r.end == 0) || ltb_ℤ r.value (pos 0)) _ _ tt (
      if-RefusesAt l (version == 4) _ _ (if-RefusesAt l (ltb 32 (pos_part r.value)) _ _ tt tt)
        (if-RefusesAt l (ltb 128 (pos_part r.value)) _ _ tt tt)))

mask_bits-RefusesAt :
    (sys : Platform) (l : Location) (s : Bytes) (o : Option ℕ) (version : ℕ)
    → RefusesAt l (mask_bits sys s o version)
unfolding mask_bits
mask_bits-RefusesAt sys l s none version = tt
mask_bits-RefusesAt sys l s (some slash) version =
    checked_size-RefusesAt sys l version (strtol (c_str (drop (slash + 1) s)))

store_mask-RefusesAt :
    (l : Location) (p : AddressPattern) (r : Result ℕ)
    → RefusesAt l r
    → RefusesAt l (store_mask p r).1
unfolding store_mask
store_mask-RefusesAt l p (ok k) h = tt
store_mask-RefusesAt l p (throws e) h = h

store_network-RefusesAt :
    (sys : Platform) (l : Location) (s : Bytes) (p : AddressPattern) (r : Result (Bytes × ℕ))
    → RefusesAt l r
    → RefusesAt l (store_network sys s p r).1
unfolding store_network
store_network-RefusesAt sys l s p (ok (a, version)) h =
    store_mask-RefusesAt l (record p { network = a }) _
      (mask_bits-RefusesAt sys l s (find b'/' s) version)
store_network-RefusesAt sys l s p (throws e) h = h

pub assign_pattern-RefusesAt :
    (sys : Platform) (l : Location) (s : Bytes) (p : AddressPattern)
    → RefusesAt l (assign_pattern sys s p).1
unfolding assign_pattern convert
assign_pattern-RefusesAt sys l s p =
    store_network-RefusesAt sys l s p _ (convert_text-RefusesAt sys l (substring s 0 (find b'/' s)))
