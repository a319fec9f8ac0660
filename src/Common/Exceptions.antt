-- ===== src/Common/Exceptions.antt =====
-- What a C++ function can do instead of returning.
use mathlib.Core.Path.{◌≡◌, refl}
use blockad.Common.Strings.{Bytes}

-- `ConfFile::SyntaxError` and the other classes below `std::runtime_error` carry what `what()`
-- returns. `std::out_of_range` is no `std::runtime_error`. `undefined` is undefined behaviour.
pub data Exception : Type 0 where
  syntax_error : Bytes → Exception
  runtime_error : Bytes → Exception
  out_of_range : Exception
  undefined : Exception

pub data Result {ℓ} (A : Type ℓ) : Type ℓ where
  ok : A → Result A
  throws : Exception → Result A

-- What runs behind a call that may throw.
infixl 5 ◌>>=◌
abbrev pub ◌>>=◌ {ℓ κ} :
    {A : Type ℓ} {B : Type κ} (called : Result A) (next : A → Result B) → Result B
ok value >>= next = next value
throws x >>= next = throws x

-- The call before a result returned.
pub >>=-eq-ok {ℓ κ} :
    {A : Type ℓ} {B : Type κ} (called : Result A) (next : A → Result B) {result : B}
    → (called >>= next) ≡ ok result
    → (value : A) × (called ≡ ok value) × (next value ≡ ok result)
>>=-eq-ok (ok value) next h = (value, refl, h)
>>=-eq-ok (throws x) next h = cc

-- Calls in a row, however they are grouped.
pub bind_assoc {ℓ κ μ} :
    {A : Type ℓ} {B : Type κ} {C : Type μ} (m : Result A) (f : A → Result B) (g : B → Result C)
    → ((m >>= f) >>= g) ≡ (m >>= λ a. f a >>= g)
bind_assoc (ok a) f g = refl
bind_assoc (throws e) f g = refl

pub bind_cong {ℓ κ} :
    {A : Type ℓ} {B : Type κ} (m : Result A) (f g : A → Result B)
    → ((a : A) → f a ≡ g a)
    → (m >>= f) ≡ (m >>= g)
bind_cong (ok a) f g h = h a
bind_cong (throws e) f g h = refl

pub bind_ok {ℓ} : {A : Type ℓ} (m : Result A) → (m >>= ok) ≡ m
bind_ok (ok a) = refl
bind_ok (throws e) = refl
