-- ===== src/Regex/Handles/Constructor.antt =====
-- The constructor of `Regex` (src/Regex.cc) that compiles.
use blockad.Common.{
  sym, ◌∙◌, Exception, zero, suc, throws, runtime_error, ℕ, ◌<◌, ◌≡◌, refl, ap, subst, Bool, List,
  [], ◌∷◌, ◌++◌, Option, none, some, Bytes, c_str, get_or, length, bit_or, if◌then◌else◌, arith,
  Result, ok, ◌>>=◌,
}
use blockad.Platform.{Platform}
use blockad.Regex.{reg_extended}
use blockad.Regex.Handles.{
  CompiledRegex, Heap, construct, install, compile, drop_old, constructed, construct_compiled,
}
use blockad.Regex.Handles.Counts.{count, IsCounted, construct-IsCounted, compile-IsCounted}
use blockad.Regex.Handles.Recompile.{compile-drop_old}

new_last :
    (hs : List (Option ℕ))
    → (get_or (hs ++ none ∷ []) (length hs) none ≡ none) × (length hs < length (hs ++ none ∷ []))
new_last [] = (refl, omega arith)
new_last (h ∷ hs) = let (e, l) = new_last hs in (ground (arith, e), omega (arith, l))

result_of : {A : Type 0} {r : Result A} {a b : A} → r ≡ ok a → r ≡ ok b → a ≡ b
result_of e f = cc

module _ (sys : Platform) (regex : Bytes) (cflags : ℕ) (basic : Bool) (h : Heap) where
  abbrev pub flags : ℕ
  flags = if basic then cflags else bit_or cflags reg_extended

  compile_new :
      compile sys (length h.handles) regex cflags basic (construct h)
      ≡ ok (install sys (length h.handles) regex flags (construct h))
  unfolding drop_old
  compile_new =
      compile-drop_old sys (length h.handles) regex cflags basic (construct h)
        (ap (λ o. drop_old o h.memory) (new_last h.handles).0)

  -- What the constructor is to leave, by the result of regcomp: no exception and the counts right,
  -- or the exception with its message, the `Regex`es there were, and an object that none of them
  -- points to.
  abbrev pub Left : ℕ → Heap × Result (Unit {0}) → Type 0
  Left zero (h', r) = (r ≡ ok tt) × IsCounted h'
  Left (suc e) (h', r) =
      (r ≡ throws (runtime_error (sys.regerror (suc e))))
      × (h'.handles ≡ h.handles)
      × ((c : CompiledRegex) × (h'.memory h.next ≡ some c))
      × (count h.next h'.handles ≡ 0)

  constructed-ok : (x : Heap × Result (Unit {0})) → x.1 ≡ ok tt → constructed sys h.handles x ≡ x
  constructed-ok (h', ok done) e = refl
  constructed-ok (h', throws f) e = absurd (cc)

  constructed-throws :
      (x : Heap × Result (Unit {0})) (f : Exception)
      → x.1 ≡ throws f
      → constructed sys h.handles x ≡ (record x.0 { handles = h.handles }, throws f)
  constructed-throws (h', ok done) f e = absurd (cc)
  constructed-throws (h', throws g) f e = cc

  installed-Left :
      (rc : ℕ)
      → sys.regcomp (c_str regex) flags ≡ rc
      → IsCounted h
      → IsCounted (install sys (length h.handles) regex flags (construct h)).0
      → Left rc
          (constructed sys h.handles (install sys (length h.handles) regex flags (construct h)))
  unfolding install
  installed-Left zero e k counted =
      let done =
        constructed-ok (install sys (length h.handles) regex flags (construct h))
          (ground (arith, e)) in
      (ap (λ x. x.1) done ∙ ground (arith, e), subst (λ x. IsCounted x.0) (sym done) counted)
  installed-Left (suc n) e k counted =
      rw
        (constructed-throws (install sys (length h.handles) regex flags (construct h))
          (runtime_error (sys.regerror (suc n))) (ground (arith, e)))
        (
          refl,
          refl,
          (record { refcount = 1; cflags = flags; compiled = none }, ground (arith, e)),
          k.fresh h.next (omega arith),
        )

  -- Where the counts are right, the constructor throws nothing and leaves them right if regcomp
  -- compiles the pattern. If regcomp fails, it throws the message of the failure, and leaves the
  -- `CompiledRegex` that it has allocated in place, with no `Regex` that points to it.
  pub construct_compiled-Left :
      IsCounted h
      → (r : Heap × Result (Unit {0})) × (construct_compiled sys regex cflags basic h ≡ ok r)
        × Left (sys.regcomp (c_str regex) flags) r
  unfolding construct_compiled
  construct_compiled-Left k =
      let (none_yet, inside) = new_last h.handles in
      let (r, e, counted) =
        compile-IsCounted sys (length h.handles) regex cflags basic (construct h) inside none_yet
          (construct-IsCounted h k) in
      let same = result_of e compile_new in
      (
        constructed sys h.handles (install sys (length h.handles) regex flags (construct h)),
        ap (λ x. x >>= λ c. ok (constructed sys h.handles c)) compile_new,
        installed-Left (sys.regcomp (c_str regex) flags) refl k
            (subst (λ (x : Heap × Result (Unit {0})). IsCounted x.0) same counted),
      )

  -- Where the constructor does not throw, the counts are right behind it.
  pub construct_compiled-IsCounted :
      {h' : Heap}
      → IsCounted h
      → construct_compiled sys regex cflags basic h ≡ ok (h', ok tt)
      → IsCounted h'
  construct_compiled-IsCounted {h'} k e =
      let (r, f, left) = construct_compiled-Left k in
      built (sys.regcomp (c_str regex) flags)
        (subst (Left (sys.regcomp (c_str regex) flags)) (result_of f e) left)
    where
      built : (rc : ℕ) → Left rc (h', ok tt) → IsCounted h'
      built zero (_, counted) = counted
      built (suc n) (thrown, _, _, _) = absurd (cc)
