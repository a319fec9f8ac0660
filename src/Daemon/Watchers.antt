-- ===== src/Daemon/Watchers.antt =====
-- `updateWatchers` (src/blockad.cc): which watchers are kept, created and deleted.
use blockad.Common.{
  ℕ, zero, suc, ◌+◌, ◌<◌, ◌≡◌, refl, sym, ap, subst, ◌∙◌, List, [], ◌∷◌, ◌++◌, Option, none, some,
  Bytes, equal_refl, length, get_elem?, set, replicate, arith, Exception, undefined, ok, throws,
  append_assoc, append-nil, drop,
}
use blockad.ConfFile.{ConfFile}
use blockad.Daemon.{
  Watcher, Watchers, reuse_loop, reusable, Update, Creation, place, update_loop, update_watchers,
}

-- A vector with no null pointer.
abbrev pub present : List Watcher → Watchers
present [] = []
present (w ∷ ws) = some w ∷ present ws

-- `n` null pointers.
abbrev pub vacated : ℕ → Watchers
vacated n = replicate n none

get_elem?-vacated :
    (n : ℕ) (w : Option Watcher) (ws : Watchers) → get_elem? (vacated n ++ w ∷ ws) n ≡ some w
get_elem?-vacated zero w ws = refl
get_elem?-vacated (suc n) w ws = get_elem?-vacated n w ws

get_elem?-vacated_lt : (j n : ℕ) (ws : Watchers) → j < n → get_elem? (vacated n ++ ws) j ≡ some none
get_elem?-vacated_lt j zero ws h = absurd (omega arith)
get_elem?-vacated_lt zero (suc n) ws h = refl
get_elem?-vacated_lt (suc j) (suc n) ws h = get_elem?-vacated_lt j n ws (omega arith)

set-vacated :
    (n : ℕ) (w : Option Watcher) (ws : Watchers)
    → set (vacated n ++ w ∷ ws) n none ≡ vacated (suc n) ++ ws
set-vacated zero w ws = refl
set-vacated (suc n) w ws = ap (◌∷◌ none) (set-vacated n w ws)

get_elem?-length :
    (pre : List Bytes) (file : Bytes) (rest : List Bytes)
    → get_elem? (pre ++ file ∷ rest) (length pre) ≡ some file
get_elem?-length [] file rest = refl
get_elem?-length (p ∷ pre) file rest = get_elem?-length pre file rest

get_elem?-end : (files : List Bytes) → get_elem? files (length files) ≡ none
get_elem?-end [] = refl
get_elem?-end (f ∷ files) = get_elem?-end files

-- The loop skips the null pointers and stops at the first watcher.
reuse_loop_found :
    (k rounds j i n : ℕ) (file : Bytes) (old_files : List Bytes) (w : Watcher) (ws : Watchers)
    → get_elem? old_files i ≡ some file
    → j + k ≡ n
    → k < rounds
    → reuse_loop rounds j i file old_files (vacated n ++ some w ∷ ws) ≡ ok (some (n, w))
unfolding reuse_loop
reuse_loop_found k zero j i n file old_files w ws g e h = absurd (omega arith)
reuse_loop_found zero (suc rounds) j i n file old_files w ws g e h =
    let here : get_elem? (vacated n ++ some w ∷ ws) j ≡ some (some w) =
      subst (λ x. get_elem? (vacated n ++ some w ∷ ws) x ≡ some (some w)) (omega arith)
        (get_elem?-vacated n (some w) ws) in
    ground (arith, g, equal_refl file, here)
reuse_loop_found (suc k) (suc rounds) j i n file old_files w ws g e h = ground (
  arith,
  g,
  equal_refl file,
  get_elem?-vacated_lt j n (some w ∷ ws) (omega arith),
  reuse_loop_found k rounds (suc j) i n file old_files w ws g (omega arith) (omega arith),
)

-- The first of the files that are left from number `i` on.
drop-cons :
    (i : ℕ) (files : List Bytes) {f : Bytes} {rest : List Bytes}
    → drop i files ≡ f ∷ rest
    → (get_elem? files i ≡ some f) × (drop (suc i) files ≡ rest) × (i < length files)
drop-cons zero [] e = absurd (cc)
drop-cons zero (x ∷ files) e = (ground arith, ground arith, omega arith)
drop-cons (suc i) [] e = absurd (cc)
drop-cons (suc i) (x ∷ files) e = let (g, d, l) = drop-cons i files e in (g, d, omega arith)

module _ (creation : Creation) (files : List Bytes) where
  abbrev state : ℕ → Watchers → Watchers → ℕ → Update
  state i left kept created = record {
    old_watchers = vacated i ++ left;
    new_watchers = kept;
    created = created;
  }

  reusable-kept :
      (i : ℕ) (f : Bytes) (rest : List Bytes) (w : Watcher) (ws : Watchers)
      → drop i files ≡ f ∷ rest
      → reusable i f (some files) (vacated i ++ some w ∷ ws) ≡ ok (some (i, w))
  unfolding reusable
  reusable-kept i f rest w ws d =
      let (g, _, l) = drop-cons i files d in
      reuse_loop_found i (length files) 0 i i f files w ws g (omega arith) l

  place-kept :
      (i : ℕ) (f : Bytes) (w : Watcher) (ws done : Watchers) (created : ℕ)
      → place creation f (state i (some w ∷ ws) done created) (some (i, w))
        ≡ ok (state (suc i) ws (done ++ some w ∷ []) created)
  unfolding place
  place-kept i f w ws done created = rw (set-vacated i (some w) ws)

  update_loop-turn :
      (i : ℕ) (f : Bytes) (rest : List Bytes) (u : Update) {u' : Update} {r : Option (ℕ × Watcher)}
      → reusable i f (some files) u.old_watchers ≡ ok r
      → place creation f u r ≡ ok u'
      → update_loop creation i (f ∷ rest) (some files) u
        ≡ update_loop creation (suc i) rest (some files) u'
  unfolding update_loop
  update_loop-turn i f rest u e p = rw e (rw p)

  -- The files from number `i` on take their watchers in turn.
  update_loop_kept :
      (i : ℕ) (rest more : List Bytes) (ws : List Watcher) (done : Watchers) (created n : ℕ)
      → drop i files ≡ rest
      → length ws ≡ length rest
      → i + length rest ≡ n
      → update_loop creation i (rest ++ more) (some files) (state i (present ws) done created)
        ≡ update_loop creation n more (some files) (state n [] (done ++ present ws) created)
  update_loop_kept i [] more [] done created n d l e =
      let same : i ≡ n = omega arith in
      rw (append-nil done)
        (ap (λ k. update_loop creation k more (some files) (state k [] done created)) same)
  update_loop_kept i [] more (w ∷ ws) done created n d l e = absurd (omega arith)
  update_loop_kept i (f ∷ rest) more [] done created n d l e = absurd (omega arith)
  update_loop_kept i (f ∷ rest) more (w ∷ ws) done created n d l e =
      update_loop-turn i f (rest ++ more) (state i (some w ∷ present ws) done created)
        (reusable-kept i f rest w (present ws) d) (place-kept i f w (present ws) done created)
      ∙ update_loop_kept (suc i) rest more ws (done ++ some w ∷ []) created n
          (drop-cons i files d).1 (omega arith) (omega arith)
      ∙ rw append_assoc

  reuse_loop_end :
      (rounds j i : ℕ) (file : Bytes) (watchers : Watchers)
      → get_elem? files i ≡ none
      → 0 < rounds
      → reuse_loop rounds j i file files watchers ≡ throws undefined
  unfolding reuse_loop
  reuse_loop_end zero j i file watchers g h = absurd (omega arith)
  reuse_loop_end (suc rounds) j i file watchers g h = rw (g, reuse_loop)

  reusable-end :
      (file : Bytes) (watchers : Watchers)
      → 0 < length files
      → reusable (length files) file (some files) watchers ≡ throws undefined
  unfolding reusable
  reusable-end file watchers h =
      reuse_loop_end (length files) 0 (length files) file watchers (get_elem?-end files) h

  update_loop-throws :
      (i : ℕ) (f : Bytes) (rest : List Bytes) (u : Update) {e : Exception}
      → reusable i f (some files) u.old_watchers ≡ throws e
      → update_loop creation i (f ∷ rest) (some files) u ≡ throws e
  unfolding update_loop
  update_loop-throws i f rest u e = rw e

module _ (creation : Creation) (old_config new_config : ConfFile) (ws : List Watcher) (created : ℕ)
    (one_each : length ws ≡ length old_config.files) where
  -- Where the new configuration watches the files of the old one, in the same order, and each of
  -- these had its watcher, every watcher is kept in its place, none is created and none is left to
  -- delete.
  pub update_watchers_same :
      new_config.files ≡ old_config.files
      → update_watchers creation (some old_config) new_config (present ws) created
        ≡ ok (record {
          old_watchers = vacated (length old_config.files);
          new_watchers = present ws;
          created = created;
        })
  unfolding update_watchers
  update_watchers_same same =
      let files = old_config.files in
      rw same (
        ap
          (λ fs.
            update_loop creation 0 fs (some files)
              (record { old_watchers = present ws; new_watchers = []; created = created }))
          (sym (append-nil files))
        ∙ update_loop_kept creation files 0 files [] ws [] created (length files) refl one_each
            (omega arith)
        ∙ all_kept (length files))
    where
      all_kept :
          (n : ℕ)
          → update_loop creation n [] (some old_config.files) (record {
            old_watchers = vacated n ++ [];
            new_watchers = present ws;
            created = created;
          })
            ≡ ok (record { old_watchers = vacated n; new_watchers = present ws; created = created })
      all_kept n = unfold update_loop in rw (append-nil (vacated n))

  -- Where the new configuration watches the files of the old one, of which there is one at least
  -- and each had its watcher, and further files behind them, the comparison reads past the end of
  -- the old files.
  pub update_watchers_extended :
      (file : Bytes) (more : List Bytes)
      → new_config.files ≡ old_config.files ++ file ∷ more
      → 0 < length old_config.files
      → update_watchers creation (some old_config) new_config (present ws) created
        ≡ throws undefined
  unfolding update_watchers
  update_watchers_extended file more e h =
      let files = old_config.files in
      rw e (
        update_loop_kept creation files 0 files (file ∷ more) ws [] created (length files) refl
          one_each (omega arith)
        ∙ update_loop-throws creation files (length files) file more _
            (reusable-end creation files file _ h))
