-- ===== src/BlockMethod/Registry.antt =====
-- The registry of block methods (src/BlockMethod.cc).
use blockad.Common.{
  ◌≡◌, false, inl, inr, [], ◌∷◌, none, some, Bytes, equal, equal_iff, if◌then◌else◌, Bool-cases,
  arith,
}
use blockad.BlockMethod.{BlockMethodType, Registry, find_type, register}

-- A type is found under the name that it was registered under, and every other name finds what it
-- found before.
find_type-register :
    (registry : Registry) (name wanted : Bytes) (type : BlockMethodType)
    → find_type (register name type registry) wanted
      ≡ (if equal name wanted then some type else find_type registry wanted)
unfolding find_type register
find_type-register [] name wanted type = λ i. if equal name wanted then some type else none
find_type-register ((key, old) ∷ registry) name wanted type = elim (Bool-cases (equal key name)) [
  | inl y ↦ elim (Bool-cases (equal key wanted)) [
    | inl z ↦ ground (arith, equal_iff key name, equal_iff key wanted, equal_iff name wanted)
    | inr z ↦ ground (arith, equal_iff key name, equal_iff key wanted, equal_iff name wanted)
  ]
  | inr n ↦ ground (
    arith,
    equal_iff key name,
    equal_iff key wanted,
    equal_iff name wanted,
    find_type-register registry name wanted type,
  )
]

-- The order in which the static objects register themselves does not matter: two types with
-- different names are found the same way whichever was registered first.
find_type-register_comm :
    (registry : Registry) (m n wanted : Bytes) (s t : BlockMethodType)
    → equal m n ≡ false
    → find_type (register m s (register n t registry)) wanted
      ≡ find_type (register n t (register m s registry)) wanted
find_type-register_comm registry m n wanted s t h = ground (
  arith,
  find_type-register (register n t registry) m wanted s,
  find_type-register registry n wanted t,
  find_type-register (register m s registry) n wanted t,
  find_type-register registry m wanted s,
  equal_iff m n,
  equal_iff m wanted,
  equal_iff n wanted,
)
