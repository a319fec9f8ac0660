-- ===== src/LogFile/Paths.antt =====
-- `getDirName` and `getBaseName` (src/WatcherImplementation.cc).
use blockad.Common.{
  ℕ, suc, ◌+◌, ◌≡◌, refl, sym, ap, ap₂, ◌∙◌, ◌⊎◌, inl, inr, [], ◌∷◌, ◌++◌, Option, none, some,
  Bytes, codes, Lacks, length, take, drop, ◌==◌, if◌then◌else◌, arith, Bool-cases,
}
use blockad.LogFile.{rfind, get_dir_name, get_base_name}

-- What an answer of `rfind(c)` says of the text.
abbrev pub Found : ℕ → Bytes → Option ℕ → Type 0
Found c s none = Lacks c s
Found c s (some i) =
    (before : Bytes) × (after : Bytes) × (s ≡ before ++ c ∷ after)
    × (length before ≡ i)
    × Lacks c after

rfind_step :
    (c x : ℕ) (s : Bytes) (r : Option ℕ)
    → Found c s r
    → Found c (x ∷ s) (elim r [ some i ↦ some (suc i) | none ↦ if x == c then some 0 else none ])
rfind_step c x s (some i) (before, after, e, l, h) =
    (x ∷ before, after, ap (λ t. x ∷ t) e, ap suc l, h)
rfind_step c x s none h = elim (Bool-cases (x == c)) [
  | inl e ↦ rw e ([], s, ground (arith, e), refl, h)
  | inr e ↦ rw e (ground (arith, e), h)
]

pub rfind-Found : (c : ℕ) (s : Bytes) → Found c s (rfind c s)
unfolding rfind
rfind-Found c [] = tt
rfind-Found c (x ∷ s) = rfind_step c x s (rfind c s) (rfind-Found c s)

take_behind :
    (before : Bytes) (c : ℕ) (after : Bytes)
    → take (suc (length before)) (before ++ c ∷ after) ≡ before ++ c ∷ []
take_behind [] c after = refl
take_behind (x ∷ before) c after = ap (λ t. x ∷ t) (take_behind before c after)

drop_behind :
    (before : Bytes) (c : ℕ) (after : Bytes)
    → drop (suc (length before)) (before ++ c ∷ after) ≡ after
drop_behind [] c after = refl
drop_behind (x ∷ before) c after = drop_behind before c after

add_one : (n : ℕ) → n + 1 ≡ suc n
add_one n = omega arith

-- The two names of a path with a slash at `i`.
get_dir_name_at : (p : Bytes) (i : ℕ) → rfind b'/' p ≡ some i → get_dir_name p ≡ take (suc i) p
unfolding get_dir_name
get_dir_name_at p i e = rw (get_dir_name, e) (ap (λ n. take n p) (add_one i))

get_base_name_at : (p : Bytes) (i : ℕ) → rfind b'/' p ≡ some i → get_base_name p ≡ drop (suc i) p
unfolding get_base_name
get_base_name_at p i e = rw (get_base_name, e) (ap (λ n. drop n p) (add_one i))

-- A path is its directory name, which ends in a slash, and then its base name, which has none; or
-- it has no slash, and is its own base name in the directory `.`.
get_dir_name-get_base_name :
    (p : Bytes)
    → ((d : Bytes) × (b : Bytes) × (get_dir_name p ≡ d ++ b'/' ∷ [])
        × (get_base_name p ≡ b)
        × (p ≡ d ++ b'/' ∷ b)
        × Lacks b'/' b)
      ⊎ ((get_dir_name p ≡ codes ".") × (get_base_name p ≡ p) × Lacks b'/' p)
unfolding get_dir_name get_base_name
get_dir_name-get_base_name p = names (rfind b'/' p) refl (rfind-Found b'/' p)
  where
    names :
        (r : Option ℕ)
        → rfind b'/' p ≡ r
        → Found b'/' p r
        → ((d : Bytes) × (b : Bytes) × (get_dir_name p ≡ d ++ b'/' ∷ [])
            × (get_base_name p ≡ b)
            × (p ≡ d ++ b'/' ∷ b)
            × Lacks b'/' b)
          ⊎ ((get_dir_name p ≡ codes ".") × (get_base_name p ≡ p) × Lacks b'/' p)
    names none e h = inr (rw (get_dir_name, e), rw (get_base_name, e), h)
    names (some i) e (d, b, s, l, h) = inl (
      d,
      b,
      get_dir_name_at p i e ∙ ap₂ (λ n t. take (suc n) t) (sym l) s ∙ take_behind d b'/' b,
      get_base_name_at p i e ∙ ap₂ (λ n t. drop (suc n) t) (sym l) s ∙ drop_behind d b'/' b,
      s,
      h,
    )
