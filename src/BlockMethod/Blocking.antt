-- ===== src/BlockMethod/Blocking.antt =====
-- What a block method does with an address (src/hosts.deny.cc and src/iptables.cc).
use blockad.Common.{
  ℕ, ◌≡◌, refl, ◌⊎◌, inl, inr, Bool, true, false, List, [], ◌∷◌, ◌++◌, Option, none, some, Bytes,
  if◌then◌else◌, Result, ok, codes, arith, ◌⊎◌,
}
use blockad.Platform.{Platform, InetLaws, IsBytes}
use blockad.Address.{Address, is4, as_string, assign}
use blockad.Address.Text.{assign-as_string}
use blockad.BlockMethod.{hosts_deny, AppendAnswers, Action, append, append_line, deny_line, block}

-- The lines that reach the file.
abbrev pub appended : List Action → List Bytes
appended [] = []
appended (append path line ∷ actions) = line ∷ appended actions
appended (_ ∷ actions) = appended actions

-- `fopen`, `vfprintf` and `fclose` all succeed.
abbrev pub Succeeds : AppendAnswers → Type 0
Succeeds w = (w.opening ≡ none) × (w.writing ≡ none) × (w.closing ≡ none)

-- Success is reported when all three calls succeeded, and then the line is in the file once.
abbrev pub Reports : Bytes → AppendAnswers → Bool × List Action → Type 0
Reports line w r =
    (Succeeds w × (r.0 ≡ true) × (appended r.1 ≡ line ∷ [])) ⊎ ((¬ Succeeds w) × (r.0 ≡ false))

append_line-Reports :
    (path line : Bytes) (o p q : Option Bytes)
    → (w : AppendAnswers) → w.opening ≡ o
    → w.writing ≡ p
    → w.closing ≡ q
    → Reports line w (append_line path line w)
unfolding append_line
append_line-Reports path line none none none w e f g = inl (ground arith)
append_line-Reports path line none none (some _) w e f g = inr (ground arith)
append_line-Reports path line none (some _) q w e f g = inr (ground arith)
append_line-Reports path line (some _) p q w e f g = inr (ground arith)

-- A line that names the address `a`, in a text that is read back as `a`.
abbrev pub Denies : Platform → Address → Bytes → Type 0
Denies sys a line =
    (s : Bytes) × (assign sys s ≡ ok a)
    × (line
        ≡ (if is4 a then codes "ALL: " ++ s ++ codes "\n" else codes "ALL: [" ++ s ++ codes "]\n"))

module _ (sys : Platform) (laws : InetLaws sys) where
  deny_line-as_string :
      (a : Address) (s : Bytes)
      → as_string sys a ≡ ok s
      → deny_line sys a
        ≡ ok
            (if is4 a then codes "ALL: " ++ s ++ codes "\n" else codes "ALL: [" ++ s ++ codes "]\n")
  unfolding deny_line as_string
  deny_line-as_string a s e = ground arith

  deny_line-Denies :
      (a : Address)
      → IsBytes 16 a.address
      → (line : Bytes) × (deny_line sys a ≡ ok line) × Denies sys a line
  deny_line-Denies a h =
      let (s, e, r) = assign-as_string sys laws a h in (_, deny_line-as_string a s e, (s, r, refl))

  -- Blocking an address by hosts.deny never throws. It reports success exactly when the file could
  -- be opened, written and closed; the file then has got one line, which denies the address, in a
  -- form that is read back as that address.
  pub block-hosts_deny :
      (execute : List Bytes → Result ℕ) (w : AppendAnswers) (path : Bytes) (a : Address)
      → IsBytes 16 a.address
      → (line : Bytes) × (r : Bool × List Action) × (block sys execute w (hosts_deny path) a ≡ ok r)
        × Denies sys a line
        × Reports line w r
  unfolding block
  block-hosts_deny execute w path a h =
      let (line, e, d) = deny_line-Denies a h in
      (
        line,
        append_line path line w,
        ground arith,
        d,
        append_line-Reports path line w.opening w.writing w.closing w refl refl refl,
      )
