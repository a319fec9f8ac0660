-- ===== src/ConfFile/Reading.antt =====
-- The constructor of `ConfFile` (src/ConfFile.cc): what it returns, and on which files.
use blockad.Common.{
  ℕ, zero, suc, ◌≡◌, refl, inl, inr, Bool, true, false, Bytes, length, arith, Result, ok, throws,
  Holds, Holds-bind, Holds-any, Holds-ok, Holds-throws, Holds_of_eq, undefined, Option-cases,
}
use blockad.Platform.{Platform, InetLaws}
use blockad.BlockMethod.{Registry, BlockMethod, find_type, create}
use blockad.StdioFile.{Stream, Opening, readline, open_file}
use blockad.ConfFile.{
  ConfFile, next_line, located, parse_line, parse_loop, parse, defaults, block_default,
  new_conf_file,
}
use blockad.ConfFile.Validity.{IsValid, parse_line-IsValid, located-Holds}

module _ (sys : Platform) (laws : InetLaws sys) (registry : Registry) where
  next_line-IsValid : (cf : ConfFile) → IsValid sys cf → IsValid sys (next_line cf)
  next_line-IsValid cf v = record {
    patterns = v.patterns;
    exempted = v.exempted;
    rate_pos = v.rate_pos;
    rate_bound = v.rate_bound;
    interval_known = v.interval_known;
  }

  parse_loop-IsValid :
      (fuel : ℕ) (cf : ConfFile) (f : Stream)
      → IsValid sys cf
      → Holds (IsValid sys) (parse_loop fuel sys registry cf f)
  unfolding parse_loop
  parse_loop-IsValid zero cf f v = Holds-throws (IsValid sys) _
  parse_loop-IsValid (suc fuel) cf f v =
      go (readline sys cf.location.path f) refl (parse_loop-IsValid fuel)
    where
      at_line :
          (r : Result ConfFile) (line rest : Bytes)
          → located (next_line cf).location (parse_line sys registry (next_line cf) line) ≡ r
          → readline sys cf.location.path f ≡ ok (true, line, rest)
          → ((done : ConfFile) (g : Stream)
              → IsValid sys done
              → Holds (IsValid sys) (parse_loop fuel sys registry done g))
          → Holds (IsValid sys) r
          → Holds (IsValid sys) (parse_loop (suc fuel) sys registry cf f)
      at_line (ok done) line rest e r later h =
          rw (r, parse_loop) (rw (e, parse_loop) (later done _ (unfold Holds in h)))
      at_line (throws x) line rest e r later h = rw (r, parse_loop) (rw (e, parse_loop) h)

      go :
          (r : Result (Bool × Bytes × Bytes))
          → readline sys cf.location.path f ≡ r
          → ((done : ConfFile) (g : Stream)
              → IsValid sys done
              → Holds (IsValid sys) (parse_loop fuel sys registry done g))
          → Holds (IsValid sys) (parse_loop (suc fuel) sys registry cf f)
      go (ok (true, line, rest)) r later = at_line _ line rest refl r later (
          located-Holds sys laws registry (next_line cf).location
            (parse_line sys registry (next_line cf) line)
            (parse_line-IsValid sys laws registry (next_line cf) line (next_line-IsValid cf v)))
      go (ok (false, line, rest)) r later = rw (r, parse_loop) (Holds-ok (IsValid sys) cf v)
      go (throws x) r later = rw (r, parse_loop) (Holds-throws (IsValid sys) x)

  defaults-IsValid : (path : Bytes) (method : BlockMethod) → IsValid sys (defaults path method)
  defaults-IsValid path method = record {
    patterns = tt;
    exempted = tt;
    rate_pos = omega arith;
    rate_bound = omega arith;
    interval_known = inr (inl refl);
  }

  parse-IsValid :
      (cf : ConfFile) (o : Opening) → IsValid sys cf → Holds (IsValid sys) (parse sys registry cf o)
  unfolding parse
  parse-IsValid cf o v =
      Holds-bind (λ _. Unit {0}) (IsValid sys) (open_file sys cf.location.path o) _
        (Holds-any (open_file sys cf.location.path o))
        (λ f _. parse_loop-IsValid (suc (length f.chars)) cf f v)

  all_files :
      (fopen : Bytes → Opening) (path : Bytes)
      → Holds (IsValid sys) (new_conf_file sys registry fopen path)
  unfolding new_conf_file
  all_files fopen path = elim (Option-cases (find_type registry block_default)) [
    | inl e ↦ rw (e, new_conf_file) (Holds-throws (IsValid sys) undefined)
    | inr (type, e) ↦
        rw (e, new_conf_file)
          (parse-IsValid (defaults path (create type)) (fopen path)
            (defaults-IsValid path (create type)))
  ]

  -- Every configuration that `ConfFile(path)` returns, from whatever file, is valid: each pattern
  -- names a capture that its regular expression has, each exemption is a network of 16 bytes with
  -- the mask of a prefix, the rate is at least 1 and fits an `unsigned`, and the interval is a
  -- minute, an hour, a day or a week.
  pub new_conf_file-IsValid :
      (fopen : Bytes → Opening) (path : Bytes) {cf : ConfFile}
      → new_conf_file sys registry fopen path ≡ ok cf
      → IsValid sys cf
  new_conf_file-IsValid fopen path e = Holds_of_eq (IsValid sys) (all_files fopen path) e
