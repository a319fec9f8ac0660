-- ===== src/Regex/Handles/Lifetimes.antt =====
-- The heaps that a program reaches whose calls of `compile` are on `Regex`es that hold nothing, and
-- whose constructors that compile do not throw.
use blockad.Common.{
  ℕ, ◌≤◌, ◌<◌, ◌≡◌, refl, ap, subst, Bool, [], none, some, Bytes, length, arith, Result, ok,
}
use blockad.Platform.{Platform}
use blockad.Regex.Handles.{
  CompiledRegex, Heap, creg, construct, copy, assign, destroy, compile, contents,
  construct_compiled,
}
use blockad.Regex.Handles.Constructor.{construct_compiled-IsCounted}
use blockad.Regex.Handles.Counts.{
  points, count, Agrees-allocated, IsCounted, points-le, points_self, construct-IsCounted,
  copy-IsCounted, assign-IsCounted, destroy-IsCounted, compile-IsCounted,
}

abbrev pub empty : Heap
empty = record { handles = []; memory = λ p. none; next = 0 }

pub data Reach (sys : Platform) : Heap → Type 0 where
  start : Reach sys empty
  constructed : {h : Heap} → Reach sys h → Reach sys (construct h)
  built :
      {h h' : Heap} (regex : Bytes) (cflags : ℕ) (basic : Bool)
      → Reach sys h
      → construct_compiled sys regex cflags basic h ≡ ok (h', ok tt)
      → Reach sys h'
  copied : {h h' : Heap} (that : ℕ) → Reach sys h → copy that h ≡ ok h' → Reach sys h'
  assigned :
      {h h' : Heap} (this that : ℕ)
      → Reach sys h
      → this < length h.handles
      → assign this that h ≡ ok h'
      → Reach sys h'
  destroyed :
      {h h' : Heap} (this : ℕ)
      → Reach sys h
      → this < length h.handles
      → destroy this h ≡ ok h'
      → Reach sys h'
  compiled :
      {h h' : Heap} {thrown : Result (Unit {0})} (this : ℕ) (regex : Bytes) (cflags : ℕ)
      (basic : Bool)
      → Reach sys h
      → this < length h.handles
      → creg h this ≡ none
      → compile sys this regex cflags basic h ≡ ok (h', thrown)
      → Reach sys h'

result_of : {A : Type 0} {r : Result A} {a b : A} → r ≡ ok a → r ≡ ok b → a ≡ b
result_of e f = cc

-- However `Regex`es are constructed by default, by copying, or by compiling a pattern that
-- compiles, are assigned and destroyed, and are compiled while they hold nothing: an object is
-- allocated exactly as long as there is a `Regex` that points to
-- it, and its reference count is their number.
pub Reach-IsCounted : {sys : Platform} {h : Heap} → Reach sys h → IsCounted h
Reach-IsCounted start = record { counted = λ p. refl; fresh = λ p l. refl }
Reach-IsCounted (constructed {h} r) = construct-IsCounted h (Reach-IsCounted r)
Reach-IsCounted {sys} (built {h} regex cflags basic r e) =
    construct_compiled-IsCounted sys regex cflags basic h (Reach-IsCounted r) e
Reach-IsCounted (copied {h} that r e) =
    let (h', f, k) = copy-IsCounted that h (Reach-IsCounted r) in subst IsCounted (result_of f e) k
Reach-IsCounted (assigned {h} this that r l e) =
    let (h', f, k) = assign-IsCounted this that h l (Reach-IsCounted r) in
    subst IsCounted (result_of f e) k
Reach-IsCounted (destroyed {h} this r l e) =
    let (h', f, k) = destroy-IsCounted this h l (Reach-IsCounted r) in
    subst IsCounted (result_of f e) k
Reach-IsCounted {sys} (compiled {h} this regex cflags basic r l n e) =
    let (h', f, k) = compile-IsCounted sys this regex cflags basic h l n (Reach-IsCounted r) in
    subst (λ (x : Heap × Result (Unit {0})). IsCounted x.0) (result_of f e) k

-- In every heap that is reached by constructing `Regex`es by default, by copying or by compiling a
-- pattern that compiles, assigning and destroying them, and compiling those that hold nothing, no
-- operation reads or writes a freed object: copying, assigning and destroying succeed, and a
-- `Regex` that points to an object can be executed.
pub Reach-safe :
    {sys : Platform} {h : Heap} (this that p : ℕ)
    → Reach sys h
    → this < length h.handles
    → creg h this ≡ some p
    → ((c : CompiledRegex) × (contents this h ≡ ok c))
      × ((h' : Heap) × (copy this h ≡ ok h'))
      × ((h' : Heap) × (assign this that h ≡ ok h'))
      × ((h' : Heap) × (destroy this h ≡ ok h'))
unfolding contents
Reach-safe {sys} {h} this that p r l e =
    let k = Reach-IsCounted r in
    let used : 1 ≤ count p h.handles =
      omega (arith, points-le p h.handles this, ap (points p) e, points_self p) in
    let (c, f) = Agrees-allocated (h.memory p) (count p h.handles) (k.counted p) used in
    let (a, a', _) = copy-IsCounted this h k in
    let (b, b', _) = assign-IsCounted this that h l k in
    let (d, d', _) = destroy-IsCounted this h l k in
    ((c, rw (contents, e) (rw f)), (a, a'), (b, b'), (d, d'))
