-- ===== src/StdioFile/Handles/Ownership.antt =====
-- The streams of `StdioFile` objects (src/StdioFile.cc) and who closes them.
use blockad.Common.{
  ℕ, ◌+◌, ◌≡◌, refl, sym, ap, ◌∙◌, List, [], ◌∷◌, ◌++◌, Option, none, some, Bytes, ltb, ◌==◌,
  if◌then◌else◌, arith, ok, throws,
}
use blockad.Platform.{Platform}
use blockad.StdioFile.Handles.{
  File, Called, construct, drop_stream, fopen_into, open_path, close, printf, behind, write_file,
}

-- How often the stream `n` is closed in a list of calls, and whether an object holds it.
abbrev pub closings : ℕ → List ℕ → ℕ
closings n [] = 0
closings n (k ∷ ks) = (if n == k then 1 else 0) + closings n ks

abbrev pub holds : ℕ → Option ℕ → ℕ
holds n none = 0
holds n (some k) = if n == k then 1 else 0

-- Whether the stream `n` has been opened.
abbrev pub opened : ℕ → ℕ → ℕ
opened n next = if ltb n next then 1 else 0

-- Each stream that has been opened is held or has been closed, once.
pub record IsOwned (f : File) : Type 0 where
  pub owned : (n : ℕ) → closings n f.closed + holds n f.fp ≡ opened n f.next

pub closings-append :
    (n : ℕ) (ks : List ℕ) (k : ℕ) → closings n (ks ++ k ∷ []) ≡ closings n ks + holds n (some k)
closings-append n [] k = omega arith
closings-append n (j ∷ ks) k = omega (arith, closings-append n ks k)

-- An object that lets go of its stream has closed it.
drop_stream-closings :
    (n : ℕ) (path : Bytes) (fp : Option ℕ) (next : ℕ) (closed : List ℕ)
    → closings n
        (drop_stream (record { path = path; fp = fp; next = next; closed = closed })).closed
      ≡ closings n closed + holds n fp
drop_stream-closings n path none next closed = omega arith
drop_stream-closings n path (some k) next closed = closings-append n closed k

drop_stream_kept :
    (path : Bytes) (fp : Option ℕ) (next : ℕ) (closed : List ℕ)
    → (let f = drop_stream (record { path = path; fp = fp; next = next; closed = closed }) in
        (f.fp ≡ none) × (f.next ≡ next))
drop_stream_kept path none next closed = (refl, refl)
drop_stream_kept path (some k) next closed = (refl, refl)

module _ (sys : Platform) where
  fopen_into-IsOwned :
      (path : Bytes) (answer : Option ℕ) (f : File)
      → ((n : ℕ) → closings n f.closed ≡ opened n f.next)
      → IsOwned (fopen_into sys path answer f).0
  unfolding fopen_into
  fopen_into-IsOwned path none f h = record { owned = λ n. ground (arith, h n) }
  fopen_into-IsOwned path (some errno) f h = record { owned = λ n. omega (arith, h n) }

  open_path-IsOwned :
      (path : Bytes) (answer : Option ℕ) (f : File)
      → IsOwned f
      → IsOwned (open_path sys path answer f).0
  unfolding open_path
  open_path-IsOwned path answer f h = fopen_into-IsOwned path answer (drop_stream f) (λ n.
      drop_stream-closings n f.path f.fp f.next f.closed
      ∙ h.owned n
      ∙ ap (opened n) (sym (drop_stream_kept f.path f.fp f.next f.closed).1))

  close-IsOwned :
      (answer : Option ℕ) (path : Bytes) (fp : Option ℕ) (next : ℕ) (closed : List ℕ)
      → IsOwned (record { path = path; fp = fp; next = next; closed = closed })
      → IsOwned (close sys answer (record { path = path; fp = fp; next = next; closed = closed })).0
  unfolding close
  close-IsOwned answer path none next closed h = h
  close-IsOwned answer path (some k) next closed h = record {
    owned = λ n. omega (arith, h.owned n, closings-append n closed k);
  }

  printf-IsOwned :
      (answer : Option ℕ) (path : Bytes) (fp : Option ℕ) (next : ℕ) (closed : List ℕ)
      → IsOwned (record { path = path; fp = fp; next = next; closed = closed })
      → IsOwned
          (printf sys answer (record { path = path; fp = fp; next = next; closed = closed })).0
  unfolding printf
  printf-IsOwned answer path none next closed h = h
  printf-IsOwned answer path (some k) next closed h = h

  -- An object that has been constructed, and what has been called on it, returned or thrown.
  pub data Reach : File → Type 0 where
    constructed : Reach (construct 0 [])
    opened_path :
        {f : File} (path : Bytes) (answer : Option ℕ)
        → Reach f
        → Reach (open_path sys path answer f).0
    printed : {f : File} (answer : Option ℕ) → Reach f → Reach (printf sys answer f).0
    closed : {f : File} (answer : Option ℕ) → Reach f → Reach (close sys answer f).0

  Reach-IsOwned : {f : File} → Reach f → IsOwned f
  Reach-IsOwned constructed = record { owned = λ n. ground arith }
  Reach-IsOwned (opened_path {f} path answer r) = open_path-IsOwned path answer f (Reach-IsOwned r)
  Reach-IsOwned (printed {f} answer r) =
      printf-IsOwned answer f.path f.fp f.next f.closed (Reach-IsOwned r)
  Reach-IsOwned (closed {f} answer r) =
      close-IsOwned answer f.path f.fp f.next f.closed (Reach-IsOwned r)

  IsOwned-closings :
      (f : File)
      → IsOwned f
      → (n : ℕ) → closings n (drop_stream f).closed ≡ opened n (drop_stream f).next
  IsOwned-closings f h n =
      drop_stream-closings n f.path f.fp f.next f.closed
      ∙ h.owned n
      ∙ ap (opened n) (sym (drop_stream_kept f.path f.fp f.next f.closed).1)

  behind-IsOwned :
      (c : Called) (next : File → Called)
      → IsOwned c.0
      → ((f : File) → IsOwned f → IsOwned (next f).0)
      → IsOwned (behind sys c next).0
  behind-IsOwned (f, ok u) next h k = k f h
  behind-IsOwned (f, throws e) next h k = h

  -- Whatever is called on a `StdioFile`, in whatever order, and whichever calls fail: when it has
  -- been destroyed every stream that was opened has been closed, once. So it is with the file that
  -- a block method writes, which is destroyed where its block is left.
  pub Reach-closings :
      {f : File} (path : Bytes) (opening writing closing : Option ℕ) (n : ℕ)
      → Reach f
      → (closings n (drop_stream f).closed ≡ opened n (drop_stream f).next)
        × (closings n (write_file sys path opening writing closing 0 []).0.closed
            ≡ opened n (write_file sys path opening writing closing 0 []).0.next)
  unfolding write_file
  Reach-closings {f} path opening writing closing n r = (
    IsOwned-closings f (Reach-IsOwned r) n,
    IsOwned-closings _
        (behind-IsOwned
          (behind sys (open_path sys path opening (construct 0 [])) (printf sys writing))
          (close sys closing)
          (behind-IsOwned (open_path sys path opening (construct 0 [])) (printf sys writing)
            (open_path-IsOwned path opening (construct 0 []) (Reach-IsOwned constructed))
            (λ g k. printf-IsOwned writing g.path g.fp g.next g.closed k))
          (λ g k. close-IsOwned closing g.path g.fp g.next g.closed k))
        n,
  )
