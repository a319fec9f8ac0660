-- ===== src/Address/Order.antt =====
-- `Address::operator<` (src/Address.h), the order of the keys of a `std::map<Address, …>`.
use blockad.Common.{
  ◌≡◌, ◌≢◌, Bool-cases, ◌↔◌, ◌⊎◌, inl, inr, refl, Bool, true, false, not, ◌&&◌, [], ◌∷◌, Bytes,
  length, arith,
}
use blockad.Address.{Address, lt, memcmp_lt}

memcmp_lt_irrefl : (a : Bytes) → memcmp_lt a a ≡ false
unfolding memcmp_lt
memcmp_lt_irrefl [] = refl
memcmp_lt_irrefl (x ∷ a) = ground (arith, memcmp_lt_irrefl a)

memcmp_lt_trans :
    (a b c : Bytes)
    → length a ≡ length b
    → length b ≡ length c
    → memcmp_lt a b ≡ true
    → memcmp_lt b c ≡ true
    → memcmp_lt a c ≡ true
unfolding memcmp_lt
memcmp_lt_trans (x ∷ a) (y ∷ b) (z ∷ c) k l p q = ground (arith, memcmp_lt_trans a b c)
memcmp_lt_trans _ _ _ k l p q = ground arith

memcmp_lt_total :
    (a b : Bytes) → length a ≡ length b → (memcmp_lt a b ≡ false) → (memcmp_lt b a ≡ false) → a ≡ b
unfolding memcmp_lt
memcmp_lt_total [] [] l p q = refl
memcmp_lt_total (x ∷ a) (y ∷ b) l p q = ground (arith, memcmp_lt_total a b)
memcmp_lt_total _ _ l p q = absurd (omega arith)

memcmp_lt_asymm : (a b : Bytes) → memcmp_lt a b ≡ true → memcmp_lt b a ≡ false
unfolding memcmp_lt
memcmp_lt_asymm (x ∷ a) (y ∷ b) p = ground (arith, memcmp_lt_asymm a b)
memcmp_lt_asymm _ _ p = ground arith

-- Of two addresses of one length exactly one of three is true: the one is before the other by
-- `operator<`, they are equal, or the other is before the one.
pub lt_trichotomy :
    (a b : Address)
    → length a.address ≡ length b.address
    → ((lt a b ≡ true) × (a ≢ b) × (lt b a ≡ false))
      ⊎ ((lt a b ≡ false) × (a ≡ b) × (lt b a ≡ false))
      ⊎ ((lt a b ≡ false) × (a ≢ b) × (lt b a ≡ true))
unfolding lt
lt_trichotomy a b l = elim (Bool-cases (lt a b)) [
  | inl p ↦ inl (
    p,
    (λ e. ground (arith, e, memcmp_lt_irrefl a.address)),
    memcmp_lt_asymm a.address b.address p,
  )
  | inr p ↦ elim (Bool-cases (lt b a)) [
    | inl q ↦ inr (inr (p, (λ e. ground (arith, e, memcmp_lt_irrefl a.address)), q))
    | inr q ↦ inr (inl (p, ground (arith, memcmp_lt_total a.address b.address l p q), q))
  ]
]

-- `operator<` is transitive on addresses of one length.
lt_trans :
    (a b c : Address)
    → length a.address ≡ length b.address
    → length b.address ≡ length c.address
    → lt a b ≡ true
    → lt b c ≡ true
    → lt a c ≡ true
unfolding lt
lt_trans a b c k l p q = memcmp_lt_trans a.address b.address c.address k l p q

-- The keys that a `std::map` takes for one: neither is before the other.
unfoldable pub equivalent : Address → Address → Bool
equivalent a b = not (lt a b) && not (lt b a)

pub equivalent_iff :
    (a b : Address) → length a.address ≡ length b.address → (equivalent a b ≡ true) ↔ (a ≡ b)
unfolding equivalent
equivalent_iff a b l = ground (arith, lt_trichotomy a b l)
