-- ===== src/Regex/Handles.antt =====
-- src/Regex_.h and src/Regex.cc: `Regex` objects as handles of counted `CompiledRegex` objects.
pub mod Counts
pub mod Recompile
pub mod Lifetimes
pub mod Constructor
use blockad.Common.{
  ℕ, ◌+◌, ◌-◌, Bool, List, [], ◌∷◌, ◌++◌, Option, none, some, Bytes, c_str, get_or, set, length,
  ◌==◌, if◌then◌else◌, bit_or, Exception, runtime_error, undefined, Result, ok, throws, ◌>>=◌,
}
use blockad.Platform.{Platform}
use blockad.Regex.{Regex, reg_extended}
use blockad.Regex

-- `compiled` is what `regcomp` was given, once it has succeeded. A count below 1 is never
-- decremented (Regex/Handles/Counts), so that a natural number serves for the `int`.
pub record CompiledRegex : Type 0 where
  pub refcount : ℕ
  pub cflags : ℕ
  pub compiled : Option Bytes

-- The objects by their addresses; `none` is an address that is not allocated.
abbrev pub Memory : Type 0
Memory = ℕ → Option CompiledRegex

-- The member `creg` of each `Regex` in the order of construction; `none` is a null pointer, and
-- stands for a `Regex` that has been destroyed too. Addresses from `next` on are unused.
pub record Heap : Type 0 where
  pub handles : List (Option ℕ)
  pub memory : Memory
  pub next : ℕ

abbrev pub write : Memory → ℕ → Option CompiledRegex → Memory
write m p c q = if q == p then c else m q

abbrev pub creg : Heap → ℕ → Option ℕ
creg h i = get_or h.handles i none

-- `if(creg && --creg->refcount == 0) delete creg;`
unfoldable pub release : Option ℕ → Memory → Result Memory
release none m = ok m
release (some p) m = elim (m p) [
  | none ↦ throws undefined
  | some c ↦
      if c.refcount == 1
      then ok (write m p none)
      else ok (write m p (some (record c { refcount = c.refcount - 1 })))
]

-- `if(creg) ++creg->refcount;`
unfoldable pub retain : Option ℕ → Memory → Result Memory
retain none m = ok m
retain (some p) m = elim (m p) [
  | none ↦ throws undefined
  | some c ↦ ok (write m p (some (record c { refcount = c.refcount + 1 })))
]

-- What `compile` does first: `if(creg && --creg->refcount) delete creg;`
unfoldable pub drop_old : Option ℕ → Memory → Result Memory
drop_old none m = ok m
drop_old (some p) m = elim (m p) [
  | none ↦ throws undefined
  | some c ↦
      if c.refcount == 1
      then ok (write m p (some (record c { refcount = 0 })))
      else ok (write m p none)
]

-- `Regex()`
abbrev pub construct : Heap → Heap
construct h = record h { handles = h.handles ++ none ∷ [] }

-- `Regex(that)`
unfoldable pub copy : ℕ → Heap → Result Heap
unfolding retain
copy that h = do
  m ← retain (creg h that) h.memory
  ok (record h { handles = h.handles ++ creg h that ∷ []; memory = m })

-- `operator=(that)`
unfoldable pub assign : ℕ → ℕ → Heap → Result Heap
unfolding release retain
assign this that h = if this == that then ok h else (do
  m ← release (creg h this) h.memory
  m' ← retain (creg h that) m
  ok (record h { handles = set h.handles this (creg h that); memory = m' }))

-- `~Regex()`
unfoldable pub destroy : ℕ → Heap → Result Heap
unfolding release
destroy this h = do
  m ← release (creg h this) h.memory
  ok (record h { handles = set h.handles this none; memory = m })

-- What `execute` and `captures` read: a null pointer and a freed object are not to be read.
unfoldable pub contents : ℕ → Heap → Result CompiledRegex
contents this h = elim (creg h this) [
  | none ↦ throws undefined
  | some p ↦ elim (h.memory p) [ none ↦ throws undefined | some c ↦ ok c ]
]

module _ (sys : Platform) where
  -- The second half of `compile`: the new object, and whether `regcomp` accepts the pattern.
  unfoldable pub install : ℕ → Bytes → ℕ → Heap → Heap × Result (Unit {0})
  install this regex cflags h =
      let rc = sys.regcomp (c_str regex) cflags in
      let done = if rc == 0 then some (c_str regex) else none in
      (
        record {
          handles = set h.handles this (some h.next);
          memory =
              write h.memory h.next
                (some (record { refcount = 1; cflags = cflags; compiled = done }));
          next = h.next + 1;
        },
        if rc == 0 then ok tt else throws (runtime_error (sys.regerror rc)),
      )

  -- `compile(regex, cflags, basic)`, and the exception that it throws with the object in place.
  unfoldable pub compile : ℕ → Bytes → ℕ → Bool → Heap → Result (Heap × Result (Unit {0}))
  unfolding drop_old install
  compile this regex cflags basic h = do
    m ← drop_old (creg h this) h.memory
    ok (
        install this regex (if basic then cflags else bit_or cflags reg_extended)
          (record h { memory = m }))

  -- What is left behind the body of a constructor: if it throws there is no object, and no
  -- destructor is called.
  abbrev pub constructed : List (Option ℕ) → Heap × Result (Unit {0}) → Heap × Result (Unit {0})
  constructed before (h, ok done) = (h, ok done)
  constructed before (h, throws e) = (record h { handles = before }, throws e)

  -- `Regex(regex, cflags, basic)`
  unfoldable pub construct_compiled : Bytes → ℕ → Bool → Heap → Result (Heap × Result (Unit {0}))
  unfolding compile
  construct_compiled regex cflags basic h = do
    compiled ← compile (length h.handles) regex cflags basic (construct h)
    ok (constructed h.handles compiled)
