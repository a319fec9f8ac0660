-- ===== src/Daemon/Origins.antt =====
-- `updateWatchers` (src/blockad.cc): where the watcher at each index of the new vector comes from.
use blockad.Common.{
  ℕ, zero, suc, ◌≤◌, ◌≡◌, refl, ap, subst, sym, ◌∙◌, append_assoc, append-nil, inl, inr, ◌⊎◌, false,
  List, [], ◌∷◌, ◌++◌, Option, none, some, Bytes, equal, equal_iff, equal_refl, length, get_elem?,
  set, arith, ok, ◌>>=◌, Option-cases, Bool-cases, Holds, Holds-bind, Holds-ok, Holds-any,
  Holds_weaken, Holds_by_eq, Holds_of_eq,
}
use blockad.ConfFile.{ConfFile}
use blockad.Daemon.{
  Watcher, Watchers, reuse_loop, reusable, Update, Creation, place, update_loop, update_watchers,
}
use blockad.Daemon.Ownership.{reusable-get_elem?}

-- The old configuration has the file at the index.
abbrev pub IsOldFile : Option (List Bytes) → ℕ → Bytes → Type 0
IsOldFile none i file = ⊥
IsOldFile (some old_files) i file = get_elem? old_files i ≡ some file

module _ (watchers : Watchers) (first : ℕ) (old_files : Option (List Bytes)) where
  -- A watcher that has been created for the file.
  abbrev pub IsNew : Bytes → Watcher → Type 0
  IsNew file w = (first ≤ w.serial) × (w.path ≡ file)

  -- A watcher of the old vector, where the old configuration had the file at the same index.
  abbrev pub IsKept : ℕ → Bytes → Watcher → Type 0
  IsKept i file w = IsOldFile old_files i file × ((j : ℕ) × (get_elem? watchers j ≡ some (some w)))

  -- The watchers for the files from number `i` on.
  abbrev pub AllOriginate : ℕ → List Bytes → Watchers → Type 0
  AllOriginate i [] [] = Unit
  AllOriginate i [] (w ∷ ws) = ⊥
  AllOriginate i (file ∷ files) [] = ⊥
  AllOriginate i (file ∷ files) (none ∷ ws) = ⊥
  AllOriginate i (file ∷ files) (some w ∷ ws) =
      (IsNew file w ⊎ IsKept i file w) × AllOriginate (suc i) files ws

  -- What is left of the old vector stands where it stood.
  record Rests (u : Update) : Type 0 where
    left :
        (j : ℕ) (w : Watcher)
        → get_elem? u.old_watchers j ≡ some (some w)
        → get_elem? watchers j ≡ some (some w)
    since : first ≤ u.created

  -- One more watcher at the end.
  Adds : ℕ → Bytes → Update → Update → Type 0
  Adds i file u u' =
      ((w : Watcher) × (u'.new_watchers ≡ u.new_watchers ++ some w ∷ [])
        × (IsNew file w ⊎ IsKept i file w))
      × Rests u'

  reuse_loop-IsOldFile :
      (rounds j i : ℕ) (file : Bytes) (files : List Bytes) (old_watchers : Watchers)
      {r : ℕ × Watcher}
      → reuse_loop rounds j i file files old_watchers ≡ ok (some r)
      → get_elem? files i ≡ some file
  unfolding reuse_loop
  reuse_loop-IsOldFile zero j i file files old_watchers e = absurd (cc)
  reuse_loop-IsOldFile (suc rounds) j i file files old_watchers e =
      elim (Option-cases (get_elem? files i)) [
        | inl f ↦ absurd (ground (arith, e, f))
        | inr (old, f) ↦ elim (Bool-cases (equal file old)) [
          | inl same ↦ f ∙ ap some (sym ((equal_iff file old).0 same))
          | inr other ↦
              reuse_loop-IsOldFile rounds (suc j) i file files old_watchers
                (rw (f, other, reuse_loop) at e)
        ]
      ]

  get_elem?-set :
      (ws : Watchers) (j k : ℕ) {w : Watcher}
      → get_elem? (set ws j none) k ≡ some (some w)
      → get_elem? ws k ≡ some (some w)
  get_elem?-set [] j k e = e
  get_elem?-set (v ∷ ws) zero zero e = absurd (cc)
  get_elem?-set (v ∷ ws) zero (suc k) e = e
  get_elem?-set (v ∷ ws) (suc j) zero e = e
  get_elem?-set (v ∷ ws) (suc j) (suc k) e = get_elem?-set ws j k e

  place-Adds :
      (creation : Creation) (i : ℕ) (file : Bytes) (u : Update) (r : Option (ℕ × Watcher))
      → ((j : ℕ) (w : Watcher)
          → r ≡ some (j, w)
          → IsOldFile old_files i file × (get_elem? u.old_watchers j ≡ some (some w)))
      → Rests u
      → Holds (Adds i file u) (place creation file u r)
  unfolding place Adds
  place-Adds creation i file u (some (j, w)) f h =
      let (same, there) = f j w refl in
      Holds-ok (Adds i file u) _ (
        (w, refl, inr (same, (j, h.left j w there))),
        record { left = λ k v e. h.left k v (get_elem?-set u.old_watchers j k e); since = h.since },
      )
  place-Adds creation i file u none f h =
      Holds-bind (λ _. Unit {0}) (Adds i file u) (creation file) _ (Holds-any (creation file))
        (λ _ _. Holds-ok (Adds i file u) _ (
          (_, refl, inl (h.since, refl)),
          record { left = h.left; since = omega (arith, h.since) },
        ))

  reusable-IsOldFile :
      (i : ℕ) (file : Bytes) (old_watchers : Watchers) {r : ℕ × Watcher}
      → reusable i file old_files old_watchers ≡ ok (some r)
      → IsOldFile old_files i file
  unfolding reusable
  reusable-IsOldFile i file old_watchers {r} e = by_old old_files e
    where
      by_old :
          (o : Option (List Bytes))
          → reusable i file o old_watchers ≡ ok (some r)
          → IsOldFile o i file
      by_old none e = absurd (cc)
      by_old (some files) e = reuse_loop-IsOldFile (length files) 0 i file files old_watchers e

  -- The watchers that the loop adds.
  Follows : ℕ → List Bytes → Update → Update → Type 0
  Follows i files u u' =
      (ws : Watchers) × (u'.new_watchers ≡ u.new_watchers ++ ws) × AllOriginate i files ws

  update_loop-Follows :
      (creation : Creation) (i : ℕ) (files : List Bytes) (u : Update)
      → Rests u
      → Holds (Follows i files u) (update_loop creation i files old_files u)
  unfolding update_loop Follows Adds
  update_loop-Follows creation i [] u h =
      Holds-ok (Follows i [] u) u ([], sym (append-nil u.new_watchers), tt)
  update_loop-Follows creation i (file ∷ files) u h =
      Holds-bind (Adds i file u) (Follows i (file ∷ files) u)
        (reusable i file old_files u.old_watchers >>= place creation file u) _
        (Holds-bind
          (λ r.
            (j : ℕ) (w : Watcher)
            → r ≡ some (j, w)
            → IsOldFile old_files i file × (get_elem? u.old_watchers j ≡ some (some w)))
          (Adds i file u) (reusable i file old_files u.old_watchers) _
          (Holds_by_eq _ (reusable i file old_files u.old_watchers) (λ r e j w f. (
            reusable-IsOldFile i file u.old_watchers (e ∙ ap ok f),
            reusable-get_elem? i file old_files u.old_watchers (e ∙ ap ok f),
          )))
          (λ r f. place-Adds creation i file u r f h))
        (λ u' ((w, same, origin), h').
          Holds_weaken (Follows (suc i) files u') (Follows i (file ∷ files) u)
            (update_loop creation (suc i) files old_files u')
            (update_loop-Follows creation (suc i) files u' h')
            (λ u'' (ws, more, later). (
              some w ∷ ws,
              more ∙ ap (λ vs. vs ++ ws) same ∙ append_assoc u.new_watchers (some w ∷ []) ws,
              (origin, later),
            )))

abbrev pub files_of : Option ConfFile → Option (List Bytes)
files_of old_config = elim old_config [ none ↦ none | some c ↦ some c.files ]

-- Whatever the configurations and the watchers, in an update that goes through the watcher at each
-- index of the new vector is one that has been created for the file of the new configuration at
-- that index, or one of the old vector: and that only if the old configuration has the same file at
-- the same index, wherever in the old vector the watcher stood.
pub update_watchers-AllOriginate :
    (creation : Creation) (old_config : Option ConfFile) (new_config : ConfFile)
    (watchers : Watchers) (created : ℕ) {u : Update}
    → update_watchers creation old_config new_config watchers created ≡ ok u
    → AllOriginate watchers created (files_of old_config) 0 new_config.files u.new_watchers
unfolding update_watchers Follows
update_watchers-AllOriginate creation old_config new_config watchers created e =
    let old_files = files_of old_config in
    let begun : Update = record { old_watchers = watchers; new_watchers = []; created = created } in
    let (ws, same, h) =
      Holds_of_eq (Follows watchers created old_files 0 new_config.files begun)
        (update_loop-Follows watchers created old_files creation 0 new_config.files begun
          (record { left = λ j w f. f; since = omega arith }))
        e in
    subst (AllOriginate watchers created old_files 0 new_config.files) (sym same) h

-- Where the old configuration watches two files, each by its watcher, and the new one another file,
-- whose watcher can be created, in the place of the first: the new file gets a watcher of its own,
-- the second file gets the watcher of the first, and its own watcher is left to delete.
pub update_watchers_misplaced :
    (creation : Creation) (old_config new_config : ConfFile) (v w : Watcher) (other : Bytes)
    (created : ℕ)
    → old_config.files ≡ v.path ∷ w.path ∷ []
    → new_config.files ≡ other ∷ w.path ∷ []
    → equal other v.path ≡ false
    → creation other ≡ ok tt
    → update_watchers creation (some old_config) new_config (some v ∷ some w ∷ []) created
      ≡ ok (record {
        old_watchers = none ∷ some w ∷ [];
        new_watchers = some (record { serial = created; path = other }) ∷ some v ∷ [];
        created = suc created;
      })
unfolding update_watchers update_loop reusable reuse_loop place
update_watchers_misplaced creation old_config new_config v w other created e f n c =
    rw (e, f) (rw (n, c) (rw (equal_refl w.path)))
