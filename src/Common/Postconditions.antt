-- ===== src/Common/Postconditions.antt =====
-- Postconditions of what may throw.
use mathlib.Core.Bool.{Bool, true, false}
use mathlib.Core.Path.{◌≡◌, refl}
use blockad.Common.Exceptions.{Exception, Result, ok, throws, ◌>>=◌}
use blockad.Common.Tests.{if◌then◌else◌}

-- A result satisfies `P` if it is no exception.
unfoldable pub Holds : {A : Type 0} → (A → Type 0) → Result A → Type 0
Holds P (ok a) = P a
Holds P (throws e) = Unit

pub Holds-bind :
    {A B : Type 0} (P : A → Type 0) (Q : B → Type 0) (m : Result A) (f : A → Result B)
    → Holds P m
    → ((a : A) → P a → Holds Q (f a))
    → Holds Q (m >>= f)
unfolding Holds
Holds-bind P Q (ok a) f h k = k a h
Holds-bind P Q (throws e) f h k = tt

pub Holds-any : {A : Type 0} (m : Result A) → Holds (λ _. Unit {0}) m
unfolding Holds
Holds-any (ok a) = tt
Holds-any (throws e) = tt

pub Holds-ok : {A : Type 0} (P : A → Type 0) (a : A) → P a → Holds P (ok a)
unfolding Holds
Holds-ok P a h = h

pub Holds-throws : {A : Type 0} (P : A → Type 0) (e : Exception) → Holds P (throws e)
unfolding Holds
Holds-throws P e = tt

pub Holds-if :
    {A : Type 0} (P : A → Type 0) (b : Bool) (r s : Result A)
    → Holds P r
    → Holds P s
    → Holds P (if b then r else s)
unfolding Holds
Holds-if P true r s h k = h
Holds-if P false r s h k = k

pub Holds-guard :
    {A : Type 0} (P : A → Type 0) (b : Bool) (x : Exception) (r : Result A)
    → Holds P r
    → Holds P (if b then throws x else r)
unfolding Holds
Holds-guard P true x r h = tt
Holds-guard P false x r h = h

pub Holds_of_eq : {A : Type 0} (P : A → Type 0) {r : Result A} {a : A} → Holds P r → r ≡ ok a → P a
unfolding Holds
Holds_of_eq P h e = rw e at h

pub Holds_by_eq :
    {A : Type 0} (P : A → Type 0) (r : Result A) → ((a : A) → r ≡ ok a → P a) → Holds P r
unfolding Holds
Holds_by_eq P (ok a) h = h a refl
Holds_by_eq P (throws e) h = tt

pub Holds_weaken :
    {A : Type 0} (P Q : A → Type 0) (r : Result A) → Holds P r → ((a : A) → P a → Q a) → Holds Q r
unfolding Holds
Holds_weaken P Q (ok a) h k = k a h
Holds_weaken P Q (throws e) h k = tt
