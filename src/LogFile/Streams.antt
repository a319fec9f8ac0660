-- ===== src/LogFile/Streams.antt =====
-- src/Watcher.cc, src/WatcherImplementation.cc, src/PollingWatcher.cc and src/InotifyWatcher.cc:
-- the stream and the descriptor of a watcher, over its life.
use blockad.Common.{
  ℕ, suc, ◌+◌, ◌≡◌, refl, ap, ◌∙◌, Bool, true, false, List, [], ◌∷◌, ◌++◌, Option, none, some,
  if◌then◌else◌, arith, ℤ,
}
use blockad.Inotify.{is_wd}
use blockad.StdioFile.Handles.Ownership.{closings, holds, opened, closings-append}

-- `fp` of a watcher as the number of its stream, and of the process: the streams below `next` have
-- been opened, `closed` are the calls of `fclose` and `fds_closed` those of `close`.
pub record Owner : Type 0 where
  pub fp : Option ℕ
  pub next : ℕ
  pub closed : List ℕ
  pub fds_closed : List ℤ

-- What `WatcherImplementation(path, watcher)` leaves.
abbrev pub construct : Owner
construct = record { fp = none; next = 0; closed = []; fds_closed = [] }

-- The stream in `openFile()`, by whether `fopen` succeeds.
unfoldable pub open_stream : Bool → Owner → Owner
open_stream succeeds o = elim o.fp [
  | none ↦ if succeeds then record o { fp = some o.next; next = suc o.next } else o
  | some n ↦ o
]

-- The stream in `closeFile()`, by whether it gets as far as `fclose`: `processLine` and
-- `inotify_rm_watch` come first.
unfoldable pub close_stream : Bool → Owner → Owner
close_stream reached o = elim o.fp [
  | none ↦ o
  | some n ↦ if reached then record o { fp = none; closed = o.closed ++ n ∷ [] } else o
]

-- `if(fp) fclose(fp);` of a destructor, which leaves `fp` as it is.
unfoldable pub fclose_fp : Owner → Owner
fclose_fp o = elim o.fp [ none ↦ o | some n ↦ record o { closed = o.closed ++ n ∷ [] } ]

-- `~PollingWatcher()` and then that of the base class.
unfoldable pub destroy_polling : Owner → Owner
unfolding fclose_fp
destroy_polling o = fclose_fp (fclose_fp o)

-- `~InotifyWatcher()` and then that of the base class.
unfoldable pub destroy_inotify : ℤ → Owner → Owner
unfolding fclose_fp
destroy_inotify ifd o =
    fclose_fp (if is_wd ifd then record o { fds_closed = o.fds_closed ++ ifd ∷ [] } else o)

-- The calls of `openFile` and `closeFile` in the life of a watcher.
pub data Call : Type 0 where
  opening closing : Bool → Call

unfoldable pub lives : List Call → Owner → Owner
unfolding open_stream close_stream
lives [] o = o
lives (opening succeeds ∷ calls) o = lives calls (open_stream succeeds o)
lives (closing reached ∷ calls) o = lives calls (close_stream reached o)

-- Each stream that has been opened is held or has been closed, once, and no descriptor is closed.
pub record IsKept (fp : Option ℕ) (next : ℕ) (closed : List ℕ) (fds_closed : List ℤ) : Type 0 where
  pub kept : (n : ℕ) → closings n closed + holds n fp ≡ opened n next
  pub fds : fds_closed ≡ []

abbrev Keeps : Owner → Type 0
Keeps o = IsKept o.fp o.next o.closed o.fds_closed

opened_next : (n next : ℕ) → opened n (suc next) ≡ opened n next + holds n (some next)
opened_next n next = ground arith

open_stream-Keeps :
    (b : Bool) (fp : Option ℕ) (next : ℕ) (closed : List ℕ) (fds : List ℤ)
    → IsKept fp next closed fds
    → Keeps (open_stream b (record { fp = fp; next = next; closed = closed; fds_closed = fds }))
unfolding open_stream
open_stream-Keeps b (some k) next closed fds h = h
open_stream-Keeps false none next closed fds h = h
open_stream-Keeps true none next closed fds h = record {
  kept = λ n. omega (arith, h.kept n, opened_next n next);
  fds = h.fds;
}

close_stream-Keeps :
    (b : Bool) (fp : Option ℕ) (next : ℕ) (closed : List ℕ) (fds : List ℤ)
    → IsKept fp next closed fds
    → Keeps (close_stream b (record { fp = fp; next = next; closed = closed; fds_closed = fds }))
unfolding close_stream
close_stream-Keeps b none next closed fds h = h
close_stream-Keeps false (some k) next closed fds h = h
close_stream-Keeps true (some k) next closed fds h = record {
  kept = λ n. omega (arith, h.kept n, closings-append n closed k);
  fds = h.fds;
}

lives-Keeps : (calls : List Call) (o : Owner) → Keeps o → Keeps (lives calls o)
unfolding lives
lives-Keeps [] o h = h
lives-Keeps (opening b ∷ calls) o h =
    lives-Keeps calls (open_stream b o) (open_stream-Keeps b o.fp o.next o.closed o.fds_closed h)
lives-Keeps (closing b ∷ calls) o h =
    lives-Keeps calls (close_stream b o) (close_stream-Keeps b o.fp o.next o.closed o.fds_closed h)

fclose_fp-closings :
    (n : ℕ) (fp : Option ℕ) (next : ℕ) (closed : List ℕ) (fds : List ℤ)
    → (let o = fclose_fp (record { fp = fp; next = next; closed = closed; fds_closed = fds }) in
        (closings n o.closed ≡ closings n closed + holds n fp) × (o.fp ≡ fp) × (o.fds_closed ≡ fds))
unfolding fclose_fp
fclose_fp-closings n none next closed fds = (omega arith, refl, refl)
fclose_fp-closings n (some k) next closed fds = (closings-append n closed k, refl, refl)

destroy_polling-closings :
    (n : ℕ) (o : Owner)
    → closings n (destroy_polling o).closed ≡ closings n o.closed + holds n o.fp + holds n o.fp
unfolding destroy_polling
destroy_polling-closings n o =
    let once = fclose_fp o in
    let (first, same, _) = fclose_fp-closings n o.fp o.next o.closed o.fds_closed in
    let (second, _, _) = fclose_fp-closings n once.fp once.next once.closed once.fds_closed in
    second ∙ omega (arith, first, ap (holds n) same)

destroy_inotify-closings :
    (n : ℕ) (ifd : ℤ) (o : Owner)
    → is_wd ifd ≡ true
    → (closings n (destroy_inotify ifd o).closed ≡ closings n o.closed + holds n o.fp)
      × ((destroy_inotify ifd o).fds_closed ≡ o.fds_closed ++ ifd ∷ [])
unfolding destroy_inotify
destroy_inotify-closings n ifd o e =
    let (first, _, fds) = fclose_fp-closings n o.fp o.next o.closed (o.fds_closed ++ ifd ∷ []) in
    rw e (first, fds)

-- However often the file of a watcher is opened and closed, and wherever that fails: the destructor
-- of an `InotifyWatcher` leaves each stream that it has opened closed exactly once, and its
-- descriptor; that of a `PollingWatcher` closes a stream that is still open twice, and only that.
pub destroy-closings :
    (calls : List Call) (ifd : ℤ) (n : ℕ)
    → is_wd ifd ≡ true
    → (closings n (destroy_inotify ifd (lives calls construct)).closed
        ≡ opened n (lives calls construct).next)
      × ((destroy_inotify ifd (lives calls construct)).fds_closed ≡ ifd ∷ [])
      × (closings n (destroy_polling (lives calls construct)).closed
          ≡ opened n (lives calls construct).next + holds n (lives calls construct).fp)
destroy-closings calls ifd n e =
    let o = lives calls construct in
    let h = lives-Keeps calls construct (record { kept = λ k. ground arith; fds = refl }) in
    let (once, fds) = destroy_inotify-closings n ifd o e in
    (
      once ∙ h.kept n,
      fds ∙ ap (λ f. f ++ ifd ∷ []) h.fds,
      destroy_polling-closings n o ∙ omega (arith, h.kept n),
    )
