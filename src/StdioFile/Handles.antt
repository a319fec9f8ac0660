-- ===== src/StdioFile/Handles.antt =====
-- src/StdioFile.h and src/StdioFile.cc: `StdioFile` objects as owners of streams, and what
-- `BlockHostsDeny::block` (src/hosts.deny.cc) does with one.
pub mod Ownership
use blockad.Common.{
  ℕ, suc, ◌+◌, Bool, true, false, List, [], ◌∷◌, ◌++◌, Option, none, some, Bytes, codes, Exception,
  runtime_error, undefined, Result, ok, throws, ◌>>=◌,
}
use blockad.Platform.{Platform}
use blockad.IoError.{io_error_at}

-- The members of a `StdioFile`, `fp` as the number of the stream, and of the process: the streams
-- below `next` have been opened, and `closed` are the calls of `fclose`.
pub record File : Type 0 where
  pub path : Bytes
  pub fp : Option ℕ
  pub next : ℕ
  pub closed : List ℕ

-- What a call does: the state that it leaves, and whether it returns or throws.
abbrev pub Called : Type 0
Called = File × Result (Unit {0})

-- `StdioFile()`, in a process that has opened `next` streams.
abbrev pub construct : ℕ → List ℕ → File
construct next closed = record { path = []; fp = none; next = next; closed = closed }

-- `if(fp) fclose(fp);`
abbrev pub drop_stream : File → File
drop_stream f = elim f.fp [
  | none ↦ f
  | some n ↦ record f { fp = none; closed = f.closed ++ n ∷ [] }
]

module _ (sys : Platform) where
  -- `fp = fopen(path, mode); if(!fp) throw IOError(...)`, with the `errno` of a failure.
  unfoldable pub fopen_into : Bytes → Option ℕ → File → Called
  unfolding io_error_at
  fopen_into path none f = (record f { path = path; fp = some f.next; next = suc f.next }, ok tt)
  fopen_into path (some errno) f =
      (record f { path = path; fp = none }, throws (io_error_at sys (codes "opening") path errno))

  -- `open(path, mode)`; `StdioFile(path, mode)` is the same of an object that is new.
  unfoldable pub open_path : Bytes → Option ℕ → File → Called
  unfolding fopen_into
  open_path path answer f = fopen_into path answer (drop_stream f)

  -- `close()`. With no stream, `fclose` is called with a null pointer.
  unfoldable pub close : Option ℕ → File → Called
  unfolding io_error_at
  close answer f = elim f.fp [
    | none ↦ (f, throws undefined)
    | some n ↦ (
      record f { fp = none; closed = f.closed ++ n ∷ [] },
      elim answer [
        | none ↦ ok tt
        | some errno ↦ throws (io_error_at sys (codes "closing") f.path errno)
      ],
    )
  ]

  -- `printf(...)`, with the `errno` of a failure of `vfprintf`.
  unfoldable pub printf : Option ℕ → File → Called
  unfolding io_error_at
  printf answer f = elim f.fp [
    | none ↦ (f, throws undefined)
    | some n ↦ (
      f,
      elim answer [
        | none ↦ ok tt
        | some errno ↦ throws (io_error_at sys (codes "writing") f.path errno)
      ],
    )
  ]

  -- The next statement, unless the last one threw.
  abbrev pub behind : Called → (File → Called) → Called
  behind (f, ok _) next = next f
  behind (f, throws e) next = (f, throws e)

  -- The body of the `try` block, with the destructor of `output` where the block is left. If the
  -- constructor throws there is no object, and no stream.
  unfoldable pub write_file : Bytes → (opening writing closing : Option ℕ) → ℕ → List ℕ → Called
  unfolding open_path close printf
  write_file path opening writing closing next closed =
      let (f, r) =
        behind (behind (open_path path opening (construct next closed)) (printf writing))
          (close closing) in
      (drop_stream f, r)
