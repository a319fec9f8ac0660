-- ===== src/Common/Lists.antt =====
-- Lists measured by the native numbers, and predicates over their entries.
use Prim.Native.Nat.{ℕ, zero, suc, ◌+◌, ◌-◌, min}
use mathlib.Core.Path.{◌≡◌, refl, ap}
use mathlib.Core.List.{List, [], ◌∷◌, ◌++◌}
use mathlib.Core.Option.{Option, none, some}
use native.Mathlib.Omega.{arith}

module _ {ℓ} {A : Type ℓ} where
  abbrev pub length : List A → ℕ
  length [] = 0
  length (x ∷ xs) = suc (length xs)

  abbrev pub get_elem? : List A → ℕ → Option A
  get_elem? [] i = none
  get_elem? (x ∷ xs) zero = some x
  get_elem? (x ∷ xs) (suc i) = get_elem? xs i

  abbrev pub get_or : List A → ℕ → A → A
  get_or [] i d = d
  get_or (x ∷ xs) zero d = x
  get_or (x ∷ xs) (suc i) d = get_or xs i d

  -- A write out of bounds changes nothing.
  abbrev pub set : List A → ℕ → A → List A
  set [] i v = []
  set (x ∷ xs) zero v = v ∷ xs
  set (x ∷ xs) (suc i) v = x ∷ set xs i v

  abbrev pub take : ℕ → List A → List A
  take zero xs = []
  take (suc n) [] = []
  take (suc n) (x ∷ xs) = x ∷ take n xs

  abbrev pub drop : ℕ → List A → List A
  drop zero xs = xs
  drop (suc n) [] = []
  drop (suc n) (x ∷ xs) = drop n xs

  abbrev pub replicate : ℕ → A → List A
  replicate zero a = []
  replicate (suc n) a = a ∷ replicate n a

  pub length-append : (xs ys : List A) → length (xs ++ ys) ≡ length xs + length ys
  length-append [] ys = omega arith
  length-append (x ∷ xs) ys = omega (arith, length-append xs ys)

  pub take_all : (xs : List A) → take (length xs) xs ≡ xs
  take_all [] = refl
  take_all (x ∷ xs) = ap (◌∷◌ x) (take_all xs)

  pub take_exact : (xs ys : List A) → take (length xs) (xs ++ ys) ≡ xs
  take_exact [] ys = refl
  take_exact (x ∷ xs) ys = ap (◌∷◌ x) (take_exact xs ys)

  pub drop_exact : (xs ys : List A) → drop (length xs) (xs ++ ys) ≡ ys
  drop_exact [] ys = refl
  drop_exact (x ∷ xs) ys = drop_exact xs ys

  pub length-drop : (n : ℕ) (xs : List A) → length (drop n xs) ≡ length xs - n
  length-drop zero xs = omega arith
  length-drop (suc n) [] = omega arith
  length-drop (suc n) (x ∷ xs) = omega (arith, length-drop n xs)

  pub length-take : (n : ℕ) (xs : List A) → length (take n xs) ≡ min n (length xs)
  length-take zero xs = omega arith
  length-take (suc n) [] = omega arith
  length-take (suc n) (x ∷ xs) = omega (arith, length-take n xs)

zero_sub : (n : ℕ) → 0 - n ≡ 0
zero_sub n = omega arith

min_zero : (n : ℕ) → min 0 n ≡ 0
min_zero n = omega arith

sub_zero : (n : ℕ) → suc n - 0 ≡ suc n
sub_zero n = omega arith

min-zero : (n : ℕ) → min (suc n) 0 ≡ 0
min-zero n = omega arith

sub_suc : (m n : ℕ) → suc m - suc n ≡ m - n
sub_suc m n = omega arith

min-suc : (m n : ℕ) → min (suc m) (suc n) ≡ suc (min m n)
min-suc m n = omega arith

module _ {ℓ} {A : Type ℓ} where
  pub take-append :
      (k : ℕ) (xs ys : List A)
      → take k (xs ++ ys) ≡ take (min k (length xs)) xs ++ take (k - length xs) ys
  take-append zero [] ys = refl
  take-append (suc k) [] ys = rw (sub_zero k, min-zero k)
  take-append zero (x ∷ xs) ys = rw (min_zero (length (x ∷ xs)), zero_sub (length (x ∷ xs)))
  take-append (suc k) (x ∷ xs) ys =
      rw (min-suc k (length xs), sub_suc k (length xs), take-append k xs ys)

  pub drop-append :
      (k : ℕ) (xs ys : List A)
      → drop k (xs ++ ys) ≡ drop (min k (length xs)) xs ++ drop (k - length xs) ys
  drop-append zero [] ys = refl
  drop-append (suc k) [] ys = rw (sub_zero k, min-zero k)
  drop-append zero (x ∷ xs) ys = rw (min_zero (length (x ∷ xs)), zero_sub (length (x ∷ xs)))
  drop-append (suc k) (x ∷ xs) ys =
      rw (min-suc k (length xs), sub_suc k (length xs), drop-append k xs ys)

  pub append-injective :
      (xs ys us vs : List A) → length xs ≡ length us → xs ++ ys ≡ us ++ vs → (xs ≡ us) × (ys ≡ vs)
  append-injective [] ys [] vs l e = (refl, e)
  append-injective [] ys (u ∷ us) vs l e = absurd (omega arith)
  append-injective (x ∷ xs) ys [] vs l e = absurd (omega arith)
  append-injective (x ∷ xs) ys (u ∷ us) vs l e = ground (arith, append-injective xs ys us vs)

module _ {ℓ κ} {A : Type ℓ} where
  -- Every entry satisfies `P`.
  abbrev pub All : (A → Type κ) → List A → Type κ
  All P [] = Unit
  All P (x ∷ xs) = P x × All P xs

  pub All-append : (P : A → Type κ) (xs ys : List A) → All P xs → All P ys → All P (xs ++ ys)
  All-append P [] ys hx hy = hy
  All-append P (x ∷ xs) ys hx hy = (hx.0, All-append P xs ys hx.1 hy)

  pub All-split : (P : A → Type κ) (xs ys : List A) → All P (xs ++ ys) → All P xs × All P ys
  All-split P [] ys h = (tt, h)
  All-split P (x ∷ xs) ys h = let (l, r) = All-split P xs ys h.1 in ((h.0, l), r)
