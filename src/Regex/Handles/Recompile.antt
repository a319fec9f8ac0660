-- ===== src/Regex/Handles/Recompile.antt =====
-- `Regex::compile` (src/Regex.cc) on a `Regex` that holds an object already.
use blockad.Common.{
  ℕ, ◌+◌, ◌≤◌, ◌<◌, ◌≡◌, ◌≢◌, ap, subst, ◌∙◌, ◌⊎◌, inl, inr, Bool, Option, none, some, Bytes, set,
  length, ◌==◌, bit_or, if◌then◌else◌, arith, Result, ok, Bool-cases,
}
use blockad.Platform.{Platform}
use blockad.Regex.{reg_extended}
use blockad.Regex.Handles.{CompiledRegex, Memory, Heap, write, creg, drop_old, install, compile}
use blockad.Regex.Handles.Counts.{
  points, count, Agrees, IsCounted, Agrees-allocated, count-set, points-le, points_self,
}

-- The object at `p` is out of reach but allocated, or freed though a handle points to it.
abbrev pub IsBroken : ℕ → Heap → Type 0
IsBroken p h =
    ((c : CompiledRegex) × (h.memory p ≡ some c) × (count p h.handles ≡ 0))
    ⊎ ((h.memory p ≡ none) × (1 ≤ count p h.handles))

install-IsBroken :
    (sys : Platform) (this : ℕ) (regex : Bytes) (flags p : ℕ) (h : Heap) (m : Memory)
    → this < length h.handles
    → creg h this ≡ some p
    → p ≢ h.next
    → (1 ≤ count p h.handles)
    → ((c : CompiledRegex) × (m p ≡ some c) × (count p h.handles ≡ 1))
      ⊎ ((m p ≡ none) × (2 ≤ count p h.handles))
    → IsBroken p (install sys this regex flags (record h { memory = m })).0
unfolding install
install-IsBroken sys this regex flags p h m l e n b o = elim o [
  | inl (c, f, one) ↦ inl (c, ground (arith, f), omega (arith, moved))
  | inr (f, two) ↦ inr (ground (arith, f), omega (arith, moved))
]
  where
    moved : count p (set h.handles this (some h.next)) + 1 ≡ count p h.handles
    moved = omega (
      arith,
      count-set p h.handles this (some h.next) l,
      ap (points p) e,
      points_self p,
      elsewhere,
    )
      where
        elsewhere : points p (some h.next) ≡ 0
        elsewhere = ground (arith, n)

pub compile-drop_old :
    (sys : Platform) (this : ℕ) (regex : Bytes) (cflags : ℕ) (basic : Bool) (h : Heap) {m : Memory}
    → drop_old (creg h this) h.memory ≡ ok m
    → compile sys this regex cflags basic h
      ≡ ok (
          install sys this regex
            (if basic then cflags else bit_or cflags reg_extended)
            (record h { memory = m }))
unfolding compile
compile-drop_old sys this regex cflags basic h e = rw e

drop_old-write :
    (o : Option ℕ) (p : ℕ) (m : Memory) (c : CompiledRegex)
    → o ≡ some p
    → m p ≡ some c
    → drop_old o m ≡ (
        if c.refcount == 1
        then ok (write m p (some (record c { refcount = 0 })))
        else ok (write m p none))
unfolding drop_old
drop_old-write o p m c e f = rw e (rw (drop_old, f))

-- Where the counts are right, `compile` on a `Regex` that has an object does not keep them so: if
-- that was the only handle of the object, the object stays allocated for ever, and if it was not,
-- the object is freed under the others.
pub compile-IsBroken :
    (sys : Platform) (this : ℕ) (regex : Bytes) (cflags : ℕ) (basic : Bool) (h : Heap) (p : ℕ)
    → this < length h.handles
    → creg h this ≡ some p
    → IsCounted h
    → (r : Heap × Result (Unit {0})) × (compile sys this regex cflags basic h ≡ ok r)
      × IsBroken p r.0
compile-IsBroken sys this regex cflags basic h p l e k =
    let flags = if basic then cflags else bit_or cflags reg_extended in
    let used : 1 ≤ count p h.handles =
      omega (arith, points-le p h.handles this, ap (points p) e, points_self p) in
    let (c, f) = Agrees-allocated (h.memory p) (count p h.handles) (k.counted p) used in
    let here : Agrees (some c) (count p h.handles) =
      subst (λ o. Agrees o (count p h.handles)) f (k.counted p) in
    let apart : p ≢ h.next = λ q. omega (arith, used, k.fresh p (omega (arith, q))) in
    let dropped = drop_old-write (creg h this) p h.memory c e f in
    elim (Bool-cases (c.refcount == 1)) [
      | inl y ↦
          let m = write h.memory p (some (record c { refcount = 0 })) in
          (
            install sys this regex flags (record h { memory = m }),
            compile-drop_old sys this regex cflags basic h (dropped ∙ rw y),
            install-IsBroken sys this regex flags p h m l e apart used
                (inl (record c { refcount = 0 }, ground arith, ground (arith, y, here))),
          )
      | inr y ↦
          let m = write h.memory p none in
          (
            install sys this regex flags (record h { memory = m }),
            compile-drop_old sys this regex cflags basic h (dropped ∙ rw y),
            install-IsBroken sys this regex flags p h m l e apart used
                (inr (ground arith, ground (arith, y, here))),
          )
    ]
