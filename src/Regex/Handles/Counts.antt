-- ===== src/Regex/Handles/Counts.antt =====
-- The counts of the handles against those that `Regex` (src/Regex.cc) keeps.
use blockad.Common.{
  ℕ, zero, suc, ◌+◌, ◌-◌, ◌≤◌, ◌<◌, ◌≡◌, ◌≢◌, refl, sym, ap, subst, inl, inr, Bool, List, [], ◌∷◌,
  ◌++◌, Option, none, some, Bytes, get_or, set, length, ◌==◌, bit_or, if◌then◌else◌, arith, Result,
  ok, Bool-cases,
}
use blockad.Platform.{Platform}
use blockad.Regex.{reg_extended}
use blockad.Regex.Handles.{
  CompiledRegex, Memory, Heap, write, creg, release, retain, drop_old, construct, copy, assign,
  destroy, install, compile,
}

-- The pointers to `p` in a handle, and in all of them.
abbrev pub points : ℕ → Option ℕ → ℕ
points p none = 0
points p (some q) = if p == q then 1 else 0

abbrev pub count : ℕ → List (Option ℕ) → ℕ
count p [] = 0
count p (h ∷ hs) = points p h + count p hs

-- An object is allocated exactly as long as it has handles, and keeps their number.
abbrev pub Agrees : Option CompiledRegex → ℕ → Type 0
Agrees none n = n ≡ 0
Agrees (some c) n = (c.refcount ≡ n) × (1 ≤ n)

pub record IsCounted (h : Heap) : Type 0 where
  pub counted : (p : ℕ) → Agrees (h.memory p) (count p h.handles)
  pub fresh : (p : ℕ) → h.next ≤ p → count p h.handles ≡ 0

count-append :
    (p : ℕ) (hs : List (Option ℕ)) (h : Option ℕ) → count p (hs ++ h ∷ []) ≡ count p hs + points p h
count-append p [] h = omega arith
count-append p (k ∷ hs) h = omega (arith, count-append p hs h)

pub count-set :
    (p : ℕ) (hs : List (Option ℕ)) (i : ℕ) (h : Option ℕ)
    → i < length hs
    → count p (set hs i h) + points p (get_or hs i none) ≡ count p hs + points p h
count-set p [] i h l = absurd (omega arith)
count-set p (k ∷ hs) zero h l = omega arith
count-set p (k ∷ hs) (suc i) h l = omega (arith, count-set p hs i h (omega arith))

pub points-le : (p : ℕ) (hs : List (Option ℕ)) (i : ℕ) → points p (get_or hs i none) ≤ count p hs
points-le p [] i = omega arith
points-le p (k ∷ hs) zero = omega arith
points-le p (k ∷ hs) (suc i) = omega (arith, points-le p hs i)

points-le_two :
    (p : ℕ) (hs : List (Option ℕ)) (i j : ℕ)
    → i ≢ j
    → points p (get_or hs i none) + points p (get_or hs j none) ≤ count p hs
points-le_two p [] i j n = omega arith
points-le_two p (k ∷ hs) zero zero n = absurd (n refl)
points-le_two p (k ∷ hs) zero (suc j) n = omega (arith, points-le p hs j)
points-le_two p (k ∷ hs) (suc i) zero n = omega (arith, points-le p hs i)
points-le_two p (k ∷ hs) (suc i) (suc j) n =
    omega (arith, points-le_two p hs i j (λ e. n (ap suc e)))

pub points_self : (p : ℕ) → points p (some p) ≡ 1
points_self p = ground arith

-- The counts `n` of all addresses.
abbrev Counts : Memory → (ℕ → ℕ) → Type 0
Counts m n = (p : ℕ) → Agrees (m p) (n p)

pub Agrees-allocated :
    (o : Option CompiledRegex) (n : ℕ) → Agrees o n → 1 ≤ n → (c : CompiledRegex) × (o ≡ some c)
Agrees-allocated none n a h = absurd (omega arith)
Agrees-allocated (some c) n a h = (c, refl)

release-Counts :
    (h : Option ℕ) (m : Memory) (n : ℕ → ℕ)
    → Counts m n
    → ((p : ℕ) → points p h ≤ n p)
    → (m' : Memory) × (release h m ≡ ok m') × Counts m' (λ p. n p - points p h)
unfolding release
release-Counts none m n k b = (m, refl, λ p. subst (Agrees (m p)) (omega arith) (k p))
release-Counts (some q) m n k b =
    let (c, e) = Agrees-allocated (m q) (n q) (k q) (omega (arith, b q, points_self q)) in
    let here : Agrees (some c) (n q) = subst (λ o. Agrees o (n q)) e (k q) in
    elim (Bool-cases (c.refcount == 1)) [
      | inl y ↦ (write m q none, ground (arith, e, y), λ p. ground (arith, k p, here, y))
      | inr y ↦ (
        write m q (some (record c { refcount = c.refcount - 1 })),
        ground (arith, e, y),
        λ p. ground (arith, k p, here, y),
      )
    ]

retain-Counts :
    (h : Option ℕ) (m : Memory) (n : ℕ → ℕ)
    → Counts m n
    → ((p : ℕ) → points p h ≤ n p)
    → (m' : Memory) × (retain h m ≡ ok m') × Counts m' (λ p. n p + points p h)
unfolding retain
retain-Counts none m n k b = (m, refl, λ p. subst (Agrees (m p)) (omega arith) (k p))
retain-Counts (some q) m n k b =
    let (c, e) = Agrees-allocated (m q) (n q) (k q) (omega (arith, b q, points_self q)) in
    let here : Agrees (some c) (n q) = subst (λ o. Agrees o (n q)) e (k q) in
    (
      write m q (some (record c { refcount = c.refcount + 1 })),
      ground (arith, e),
      λ p. ground (arith, k p, here),
    )

pub copy-IsCounted :
    (that : ℕ) (h : Heap) → IsCounted h → (h' : Heap) × (copy that h ≡ ok h') × IsCounted h'
unfolding copy
copy-IsCounted that h k =
    let n : ℕ → ℕ = λ p. count p h.handles in
    let (m, e, c) =
      retain-Counts (creg h that) h.memory n k.counted (λ p. points-le p h.handles that) in
    (
      record h { handles = h.handles ++ creg h that ∷ []; memory = m },
      rw e,
      record {
        counted = λ p. subst (Agrees (m p)) (sym (count-append p h.handles (creg h that))) (c p);
        fresh = λ p l. omega (
          arith,
          count-append p h.handles (creg h that),
          k.fresh p l,
          points-le p h.handles that,
        );
      },
    )

pub construct-IsCounted : (h : Heap) → IsCounted h → IsCounted (construct h)
construct-IsCounted h k = record {
  counted =
      λ p. subst (Agrees (h.memory p)) (omega (arith, count-append p h.handles none)) (k.counted p);
  fresh = λ p l. omega (arith, count-append p h.handles none, k.fresh p l);
}

pub destroy-IsCounted :
    (this : ℕ) (h : Heap)
    → this < length h.handles
    → IsCounted h
    → (h' : Heap) × (destroy this h ≡ ok h') × IsCounted h'
unfolding destroy
destroy-IsCounted this h l k =
    let n : ℕ → ℕ = λ p. count p h.handles in
    let (m, e, c) =
      release-Counts (creg h this) h.memory n k.counted (λ p. points-le p h.handles this) in
    (
      record h { handles = set h.handles this none; memory = m },
      rw e,
      record {
        counted =
            λ p. subst (Agrees (m p)) (omega (arith, count-set p h.handles this none l)) (c p);
        fresh = λ p b. omega (arith, count-set p h.handles this none l, k.fresh p b);
      },
    )

pub assign-IsCounted :
    (this that : ℕ) (h : Heap)
    → this < length h.handles
    → IsCounted h
    → (h' : Heap) × (assign this that h ≡ ok h') × IsCounted h'
unfolding assign
assign-IsCounted this that h l k = elim (Bool-cases (this == that)) [
  | inl y ↦ (h, rw y, k)
  | inr y ↦
      let n : ℕ → ℕ = λ p. count p h.handles in
      let apart : this ≢ that = ground (arith, y) in
      let (m, e, c) =
        release-Counts (creg h this) h.memory n k.counted (λ p. points-le p h.handles this) in
      let (m', e', c') =
        retain-Counts (creg h that) m (λ p. n p - points p (creg h this)) c
          (λ p. omega (arith, points-le_two p h.handles this that apart)) in
      (
        record h { handles = set h.handles this (creg h that); memory = m' },
        rw (y, e, e'),
        record {
          counted = λ p.
              subst (Agrees (m' p))
                (omega
                  (arith, count-set p h.handles this (creg h that) l, points-le p h.handles this))
                (c' p);
          fresh = λ p b. omega (
            arith,
            count-set p h.handles this (creg h that) l,
            k.fresh p b,
            points-le p h.handles that,
          );
        },
      )
]

install-IsCounted :
    (sys : Platform) (this : ℕ) (regex : Bytes) (flags : ℕ) (h : Heap)
    → this < length h.handles
    → creg h this ≡ none
    → IsCounted h
    → IsCounted (install sys this regex flags h).0
unfolding install
install-IsCounted sys this regex flags h l e k = record {
  counted = λ p. ground (arith, k.counted p, k.fresh p, moved p);
  fresh = λ p b. ground (arith, k.fresh p, moved p);
}
  where
    moved :
        (p : ℕ)
        → count p (set h.handles this (some h.next)) ≡ count p h.handles + points p (some h.next)
    moved p = omega (arith, count-set p h.handles this (some h.next) l, ap (points p) e)

-- A compilation in a `Regex` that holds nothing.
pub compile-IsCounted :
    (sys : Platform) (this : ℕ) (regex : Bytes) (cflags : ℕ) (basic : Bool) (h : Heap)
    → this < length h.handles
    → creg h this ≡ none
    → IsCounted h
    → (r : Heap × Result (Unit {0})) × (compile sys this regex cflags basic h ≡ ok r)
      × IsCounted r.0
unfolding compile drop_old
compile-IsCounted sys this regex cflags basic h l e k =
    let flags = if basic then cflags else bit_or cflags reg_extended in
    (install sys this regex flags h, rw e refl, install-IsCounted sys this regex flags h l e k)
