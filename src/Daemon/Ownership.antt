-- ===== src/Daemon/Ownership.antt =====
-- `updateWatchers` (src/blockad.cc): to whom the watchers belong.
use blockad.Common.{
  ℕ, zero, suc, ◌+◌, ◌≤◌, ◌≡◌, refl, sym, ap, subst, ◌∙◌, inl, inr, ◌⊎◌, Bool, true, false, List,
  [], ◌∷◌, ◌++◌, Option, none, some, Bytes, equal, length, get_elem?, set, ◌==◌, ltb, leb, ◌&&◌,
  if◌then◌else◌, arith, Result, ok, throws, ◌>>=◌, undefined, Option-cases, Holds, Holds-bind,
  Holds-any, Holds-ok, Holds-throws, Holds_of_eq,
}
use blockad.ConfFile.{ConfFile}
use blockad.Daemon.{
  Watcher, Watchers, reuse_loop, reusable, redundant, Update, Creation, place, update_loop,
  update_watchers,
}
use blockad.Daemon.Watchers.{present}

-- How often the watcher that was created as number `n` occurs.
abbrev pub owns : ℕ → Option Watcher → ℕ
owns n none = 0
owns n (some w) = if n == w.serial then 1 else 0

abbrev pub owned : ℕ → Watchers → ℕ
owned n [] = 0
owned n (w ∷ ws) = owns n w + owned n ws

-- 1 if a watcher has been created as number `n` from number `first` on.
abbrev pub born : ℕ → ℕ → ℕ → ℕ
born n first created = if leb first n && ltb n created then 1 else 0

owned-append : (n : ℕ) (ws vs : Watchers) → owned n (ws ++ vs) ≡ owned n ws + owned n vs
owned-append n [] vs = omega arith
owned-append n (w ∷ ws) vs = omega (arith, owned-append n ws vs)

pub owned-present-append :
    (n : ℕ) (ws vs : List Watcher)
    → owned n (present (ws ++ vs)) ≡ owned n (present ws) + owned n (present vs)
owned-present-append n [] vs = omega arith
owned-present-append n (w ∷ ws) vs = omega (arith, owned-present-append n ws vs)

pub owned-redundant : (n : ℕ) (ws : Watchers) → owned n (present (redundant ws)) ≡ owned n ws
unfolding redundant
owned-redundant n [] = refl
owned-redundant n (none ∷ ws) = omega (arith, owned-redundant n ws)
owned-redundant n (some w ∷ ws) = omega (arith, owned-redundant n ws)

owned-set :
    (n : ℕ) (ws : Watchers) (j : ℕ) {w : Watcher}
    → get_elem? ws j ≡ some (some w)
    → owned n (set ws j none) + owns n (some w) ≡ owned n ws
owned-set n [] j e = absurd (cc)
owned-set n (v ∷ ws) zero {w} e = let same : v ≡ some w = cc in omega (arith, ap (owns n) same)
owned-set n (v ∷ ws) (suc j) e = omega (arith, owned-set n ws j e)

-- One turn of the loop for an old file: it goes on, or stops at `here`.
reuse_turn :
    (b : Bool) (j k : ℕ) (here : Option (Option Watcher)) (next : Result (Option (ℕ × Watcher)))
    (w : Watcher)
    → (if b
        then elim here [
          | none ↦ throws undefined
          | some none ↦ next
          | some (some v) ↦ ok (some (j, v))
        ]
        else next)
      ≡ ok (some (k, w))
    → (next ≡ ok (some (k, w))) ⊎ ((j ≡ k) × (here ≡ some (some w)))
reuse_turn false j k here next w e = inl e
reuse_turn true j k none next w e = absurd (cc)
reuse_turn true j k (some none) next w e = inl e
reuse_turn true j k (some (some v)) next w e = inr (cc, cc)

-- A watcher that is found stands at its index.
reuse_loop-get_elem? :
    (rounds j i : ℕ) (file : Bytes) (files : List Bytes) (watchers : Watchers) {k : ℕ} {w : Watcher}
    → reuse_loop rounds j i file files watchers ≡ ok (some (k, w))
    → get_elem? watchers k ≡ some (some w)
unfolding reuse_loop
reuse_loop-get_elem? zero j i file files watchers e = absurd (cc)
reuse_loop-get_elem? (suc rounds) j i file files watchers {k} {w} e =
    elim (Option-cases (get_elem? files i)) [
      | inl f ↦ absurd (ground (arith, e, f))
      | inr (old, f) ↦
          elim (reuse_turn (equal file old) j k (get_elem? watchers j)
            (reuse_loop rounds (suc j) i file files watchers) w (rw (reuse_loop, f) at e)) [
              | inl later ↦ reuse_loop-get_elem? rounds (suc j) i file files watchers later
              | inr (same, here) ↦ ap (get_elem? watchers) (sym same) ∙ here
            ]
    ]

pub reusable-get_elem? :
    (i : ℕ) (file : Bytes) (old_files : Option (List Bytes)) (watchers : Watchers) {k : ℕ}
    {w : Watcher}
    → reusable i file old_files watchers ≡ ok (some (k, w))
    → get_elem? watchers k ≡ some (some w)
unfolding reusable
reusable-get_elem? i file none watchers e = absurd (cc)
reusable-get_elem? i file (some files) watchers e =
    reuse_loop-get_elem? (length files) 0 i file files watchers e

-- What `updateWatchers` keeps of the watchers while it goes over the new files, of which `m` are
-- done: each is in one of the two vectors, as often as before, and those that are new are in the
-- new one.
pub record IsShared (watchers : Watchers) (first m : ℕ) (u : Update) : Type 0 where
  pub shared :
      (n : ℕ)
      → owned n u.old_watchers + owned n u.new_watchers ≡ owned n watchers + born n first u.created
  pub from_first : first ≤ u.created
  pub here : (ws : List Watcher) × (u.new_watchers ≡ present ws) × (length ws ≡ m)

present-append :
    (ws : List Watcher) (w : Watcher) → present ws ++ some w ∷ [] ≡ present (ws ++ w ∷ [])
present-append [] w = refl
present-append (v ∷ ws) w = ap (◌∷◌ (some v)) (present-append ws w)

length_snoc : (ws : List Watcher) (w : Watcher) → length (ws ++ w ∷ []) ≡ suc (length ws)
length_snoc [] w = omega arith
length_snoc (v ∷ ws) w = omega (arith, length_snoc ws w)

here-snoc :
    {vs : Watchers} {m : ℕ} (w : Watcher)
    → (ws : List Watcher) × (vs ≡ present ws) × (length ws ≡ m)
    → (ws : List Watcher) × (vs ++ some w ∷ [] ≡ present ws) × (length ws ≡ suc m)
here-snoc w (ws, e, l) = (
  ws ++ w ∷ [],
  ap (λ vs. vs ++ some w ∷ []) e ∙ present-append ws w,
  length_snoc ws w ∙ ap suc l,
)

born_next :
    (n first created : ℕ)
    → first ≤ created
    → born n first (suc created) ≡ born n first created + (if n == created then 1 else 0)
born_next n first created h = ground arith

place-IsShared :
    (creation : Creation) (file : Bytes) (watchers : Watchers) (first m : ℕ) (u : Update)
    (r : Option (ℕ × Watcher))
    → ((k : ℕ) (w : Watcher) → r ≡ some (k, w) → get_elem? u.old_watchers k ≡ some (some w))
    → IsShared watchers first m u
    → Holds (IsShared watchers first (suc m)) (place creation file u r)
unfolding place
place-IsShared creation file watchers first m u (some (j, w)) f h =
    Holds-ok (IsShared watchers first (suc m)) _ (record {
      shared = λ n. omega (
        arith,
        h.shared n,
        owned-append n u.new_watchers (some w ∷ []),
        owned-set n u.old_watchers j (f j w refl),
      );
      from_first = h.from_first;
      here = here-snoc w h.here;
    })
place-IsShared creation file watchers first m u none f h =
    Holds-bind (λ _. Unit {0}) (IsShared watchers first (suc m)) (creation file) _
      (Holds-any (creation file))
      (λ _ _. Holds-ok (IsShared watchers first (suc m)) _ (record {
        shared = λ n. omega (
          arith,
          h.shared n,
          owned-append n u.new_watchers (some (record { serial = u.created; path = file }) ∷ []),
          born_next n first u.created h.from_first,
        );
        from_first = omega (arith, h.from_first);
        here = here-snoc (record { serial = u.created; path = file }) h.here;
      }))

update_loop-IsShared :
    (creation : Creation) (i : ℕ) (files : List Bytes) (old_files : Option (List Bytes))
    (watchers : Watchers) (first m n : ℕ) (u : Update)
    → m + length files ≡ n
    → IsShared watchers first m u
    → Holds (IsShared watchers first n) (update_loop creation i files old_files u)
unfolding update_loop
update_loop-IsShared creation i [] old_files watchers first m n u l h =
    Holds-ok (IsShared watchers first n) u
      (subst (λ k. IsShared watchers first k u) (omega arith) h)
update_loop-IsShared creation i (file ∷ files) old_files watchers first m n u l h =
    Holds-bind (IsShared watchers first (suc m)) (IsShared watchers first n)
      (reusable i file old_files u.old_watchers >>= place creation file u) _
      (placed (reusable i file old_files u.old_watchers)
        (λ k w e. reusable-get_elem? i file old_files u.old_watchers e))
      (λ u' h'.
        update_loop-IsShared creation (suc i) files old_files watchers first (suc m) n u'
          (omega arith) h')
  where
    placed :
        (r : Result (Option (ℕ × Watcher)))
        → ((k : ℕ) (w : Watcher)
            → r ≡ ok (some (k, w))
            → get_elem? u.old_watchers k ≡ some (some w))
        → Holds (IsShared watchers first (suc m)) (r >>= place creation file u)
    placed (throws x) f = Holds-throws (IsShared watchers first (suc m)) x
    placed (ok r) f = place-IsShared creation file watchers first m u r (λ k w e. f k w (ap ok e)) h

born_none : (n first : ℕ) → born n first first ≡ 0
born_none n first = ground arith

-- Whatever the configurations and the watchers, an update that goes through leaves as many watchers
-- in the new vector as the new configuration has files, none of them null, and a watcher of the old
-- vector is afterwards as often in the two vectors together, of which the one is deleted and the
-- other in use, as it was in the old one before; each watcher that has been created, from number
-- `created` on, is in one more place.
pub update_watchers-IsShared :
    (creation : Creation) (old_config : Option ConfFile) (new_config : ConfFile)
    (watchers : Watchers) (created : ℕ) {u : Update}
    → update_watchers creation old_config new_config watchers created ≡ ok u
    → IsShared watchers created (length new_config.files) u
unfolding update_watchers
update_watchers-IsShared creation old_config new_config watchers created =
    Holds_of_eq (IsShared watchers created (length new_config.files)) (
      update_loop-IsShared creation 0 new_config.files _ watchers created 0
        (length new_config.files) _ (omega arith)
        (record {
          shared = λ n. omega (arith, born_none n created);
          from_first = omega arith;
          here = ([], refl, refl);
        }))
