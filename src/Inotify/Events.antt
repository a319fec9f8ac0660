-- ===== src/Inotify/Events.antt =====
-- The buffer of `InotifyWatcher::work` (src/InotifyWatcher.cc) against the events in it.
use blockad.Common.{
  ℕ, zero, suc, ◌+◌, ◌-◌, ◌/◌, ◌%◌, ◌≤◌, ◌<◌, ◌≡◌, refl, ap, ◌∙◌, List, [], ◌∷◌, ◌++◌, some, Bytes,
  All, length, length-append, take_exact, drop_exact, ltb-false, arith, ℤ, pos, negsuc, Result, ok,
  ◌>>=◌, bind_cong,
}
use blockad.Platform.{Platform}
use blockad.Inotify.{Event, le32, int32, cut, take_event, Inotify, Answers, handle, work_loop, work}

abbrev pub put32 : ℕ → Bytes → Bytes
put32 n rest = n % 256 ∷ n / 256 % 256 ∷ n / 65536 % 256 ∷ n / 16777216 % 256 ∷ rest

abbrev pub unsigned : ℤ → ℕ
unsigned (pos n) = n
unsigned (negsuc n) = 4294967295 - n

abbrev pub Fits : ℤ → Type 0
Fits (pos n) = n < 2147483648
Fits (negsuc n) = n < 2147483648

-- An event that the kernel can write.
pub record IsEvent (e : Event) : Type 0 where
  pub wd : Fits e.wd
  pub mask : e.mask < 4294967296
  pub cookie : e.cookie < 4294967296
  pub name : length e.name < 4294967296

-- The bytes of an event, before those that follow.
abbrev pub encode : Event → Bytes → Bytes
encode e rest =
    put32 (unsigned e.wd) (put32 e.mask (put32 e.cookie (put32 (length e.name) (e.name ++ rest))))

abbrev pub encode_all : List Event → Bytes
encode_all [] = []
encode_all (e ∷ es) = encode e (encode_all es)

le32-put32 : (n : ℕ) (rest : Bytes) → n < 4294967296 → le32 (put32 n rest) ≡ n
le32-put32 n rest h = omega arith

int32-unsigned : (z : ℤ) → Fits z → int32 (unsigned z) ≡ z
int32-unsigned (pos n) h = ground arith
int32-unsigned (negsuc n) h = ground arith

unsigned_bound : (z : ℤ) → Fits z → unsigned z < 4294967296
unsigned_bound (pos n) h = omega arith
unsigned_bound (negsuc n) h = omega arith

cut-event :
    (sys : Platform) (e : Event) (rest : Bytes) (n wd mask cookie len : ℕ)
    → n ≡ 16 + length (e.name ++ rest)
    → int32 wd ≡ e.wd
    → mask ≡ e.mask
    → cookie ≡ e.cookie
    → len ≡ length e.name
    → cut sys n wd mask cookie len (e.name ++ rest) ≡ ok (e, rest)
unfolding cut
cut-event sys e rest n wd mask cookie len a b c d l = rw (
  a,
  l,
  ltb-false (16 + length (e.name ++ rest)) 16 (omega arith),
  ltb-false (16 + length (e.name ++ rest)) (16 + length e.name)
      (omega (arith, length-append e.name rest)),
  take_exact e.name rest,
  drop_exact e.name rest,
  b,
  c,
  d,
)

take_event-encode :
    (sys : Platform) (e : Event) (rest : Bytes)
    → IsEvent e
    → take_event sys (encode e rest) ≡ ok (e, rest)
unfolding take_event
take_event-encode sys e rest h =
    cut-event sys e rest (length (encode e rest)) _ _ _ _ (omega arith)
      (ap int32 (le32-put32 (unsigned e.wd) [] (unsigned_bound e.wd h.wd))
        ∙ int32-unsigned e.wd h.wd)
      (le32-put32 e.mask [] h.mask) (le32-put32 e.cookie [] h.cookie)
      (le32-put32 (length e.name) [] h.name)

length-encode : (e : Event) (rest : Bytes) → length rest + 16 ≤ length (encode e rest)
length-encode e rest = omega (arith, length-append e.name rest)

module _ (sys : Platform) (path : Bytes) {S : Type 0} (process : Bytes → S → Result S)
    (answers : ℕ → Answers) where
  -- The events in turn, those from number `i` on.
  abbrev pub handle_all : ℕ → List Event → Inotify × S → Result (Inotify × S)
  handle_all i [] x = ok x
  handle_all i (e ∷ es) x = handle sys path process (answers i) e x >>= handle_all (suc i) es

  work_loop-event :
      (fuel i : ℕ) (e : Event) (rest : Bytes) (x : Inotify × S)
      → IsEvent e
      → work_loop sys path process (suc fuel) answers i (encode e rest) x ≡ (
          handle sys path process (answers i) e x
          >>= work_loop sys path process fuel answers (suc i) rest)
  unfolding work_loop
  work_loop-event fuel i e rest x h = rw (take_event-encode sys e rest h)

  work_loop-handle_all :
      (fuel i : ℕ) (es : List Event) (x : Inotify × S)
      → All IsEvent es
      → length (encode_all es) ≤ fuel
      → work_loop sys path process fuel answers i (encode_all es) x ≡ handle_all i es x
  unfolding work_loop
  work_loop-handle_all fuel i [] x h l = refl
  work_loop-handle_all zero i (e ∷ es) x h l =
      absurd (omega (arith, l, length-encode e (encode_all es)))
  work_loop-handle_all (suc fuel) i (e ∷ es) x h l =
      work_loop-event fuel i e (encode_all es) x h.0
      ∙ bind_cong (handle sys path process (answers i) e x) _ _ (λ y.
        work_loop-handle_all fuel (suc i) es y h.1
          (omega (arith, l, length-encode e (encode_all es))))

  -- A buffer that holds events, however many and whatever their names, is handled event by event,
  -- in their order, with the descriptors, masks and names that the kernel wrote; the loop ends
  -- with the last of them.
  pub work-handle_all :
      (es : List Event) (errno : ℕ) (x : Inotify × S)
      → All IsEvent es
      → work sys path process answers (some (encode_all es)) errno x ≡ handle_all 0 es x
  unfolding work
  work-handle_all es errno x h =
      work_loop-handle_all (length (encode_all es)) 0 es x h (omega arith)
