-- ===== src/Inotify/Sequence.antt =====
-- Calls of an `InotifyWatcher` (src/InotifyWatcher.cc) in a row, by the lines that they deliver.
use blockad.Common.{
  ◌≡◌, refl, sym, ap, ◌∙◌, Bool, true, false, List, [], ◌∷◌, ◌++◌, Bytes, subst, Lacks,
  if◌then◌else◌, ℤ, Result, ok, ◌>>=◌, append_assoc, append-nil,
}
use blockad.LogFile.Delivery.{concat}
use blockad.Inotify.{Inotify}

-- A result in which `text` is delivered behind `ls`, but for a last part without a newline, and the
-- watch of the directory is `dir_wd` still.
abbrev pub Delivers : Bytes → ℤ → List Bytes → Result (Inotify × List Bytes) → Type 0
Delivers text dir_wd ls result =
    (w : Inotify) × (new : List Bytes) × (result ≡ ok (w, ls ++ new))
    × (concat new ++ w.line ≡ text)
    × Lacks b'\n' w.line
    × (w.dir_wd ≡ dir_wd)

concat-append : (a b : List Bytes) → concat (a ++ b) ≡ concat a ++ concat b
concat-append [] b = refl
concat-append (l ∷ a) b =
    ap (λ t. l ++ t) (concat-append a b) ∙ sym (append_assoc l (concat a) (concat b))

-- A call that has delivered `text`, and then one that delivers `more` behind it.
pub Delivers-ran :
    (text more : Bytes) (dir_wd : ℤ) (ls new : List Bytes) (w : Inotify)
    (r : Result (Inotify × List Bytes)) (f : Inotify × List Bytes → Result (Inotify × List Bytes))
    → r ≡ ok (w, ls ++ new)
    → concat new ++ w.line ≡ text
    → Delivers (w.line ++ more) dir_wd (ls ++ new) (f (w, ls ++ new))
    → Delivers (text ++ more) dir_wd ls (r >>= f)
Delivers-ran text more dir_wd ls new w r f run same (w', new', run', same', h', d') = (
  w',
  new ++ new',
  ap (λ x. x >>= f) run ∙ run' ∙ ap (λ x. ok (w', x)) (append_assoc ls new new'),
  ap (λ x. x ++ w'.line) (concat-append new new')
      ∙ append_assoc (concat new) (concat new') w'.line
      ∙ ap (λ x. concat new ++ x) same'
      ∙ sym (append_assoc (concat new) w.line more)
      ∙ ap (λ x. x ++ more) same,
  h',
  d',
)

pub Delivers-bind :
    (text more : Bytes) (dir_wd : ℤ) (ls : List Bytes) (r : Result (Inotify × List Bytes))
    (f : Inotify × List Bytes → Result (Inotify × List Bytes))
    → Delivers text dir_wd ls r
    → ((w : Inotify) (ls' : List Bytes)
        → Lacks b'\n' w.line
        → w.dir_wd ≡ dir_wd
        → Delivers (w.line ++ more) dir_wd ls' (f (w, ls')))
    → Delivers (text ++ more) dir_wd ls (r >>= f)
Delivers-bind text more dir_wd ls r f (w, new, run, same, h, d) k =
    Delivers-ran text more dir_wd ls new w r f run same (k w (ls ++ new) h d)

-- Nothing more is delivered.
pub Delivers-nil :
    (text : Bytes) (dir_wd : ℤ) (ls : List Bytes) (r : Result (Inotify × List Bytes))
    → Delivers text dir_wd ls r
    → Delivers (text ++ []) dir_wd ls r
Delivers-nil text dir_wd ls r = subst (λ t. Delivers t dir_wd ls r) (sym (append-nil text))

-- A call behind it that delivers nothing more.
pub Delivers-then :
    (text : Bytes) (dir_wd : ℤ) (ls : List Bytes) (r : Result (Inotify × List Bytes))
    (f : Inotify × List Bytes → Result (Inotify × List Bytes))
    → Delivers text dir_wd ls r
    → ((w : Inotify) (ls' : List Bytes)
        → Lacks b'\n' w.line
        → Delivers w.line w.dir_wd ls' (f (w, ls')))
    → Delivers text dir_wd ls (r >>= f)
Delivers-then text dir_wd ls r f h k =
    subst (λ t. Delivers t dir_wd ls (r >>= f)) (append-nil text)
      (Delivers-bind text [] dir_wd ls r f h (λ w ls' l d.
        Delivers-nil w.line dir_wd ls' (f (w, ls'))
          (subst (λ x. Delivers w.line x ls' (f (w, ls'))) d (k w ls' l))))

pub Delivers-if :
    (text : Bytes) (dir_wd : ℤ) (ls : List Bytes) (b : Bool) (r q : Result (Inotify × List Bytes))
    → Delivers text dir_wd ls r
    → Delivers text dir_wd ls q
    → Delivers text dir_wd ls (if b then r else q)
Delivers-if text dir_wd ls true r q h k = h
Delivers-if text dir_wd ls false r q h k = k

pub Delivers-ok :
    (w : Inotify) (ls : List Bytes) → Lacks b'\n' w.line → Delivers w.line w.dir_wd ls (ok (w, ls))
Delivers-ok w ls h = (w, [], ap (λ x. ok (w, x)) (sym (append-nil ls)), refl, h, refl)
