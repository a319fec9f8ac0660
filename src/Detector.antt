-- ===== src/Detector.antt =====
-- The class `BlockingWatcher` and the struct `AddressData` of src/blockad.cc: from a line of a
-- logfile to the blocking of an address. `debug` messages are left out.
pub mod Window
pub mod Addresses
pub mod Captures
pub mod Exempt
pub mod Lines
pub mod Attack
pub mod Keys
use blockad.Common.{
  ℕ, suc, ◌+◌, ◌-◌, Bool, true, false, List, [], ◌∷◌, ◌++◌, Option, none, some, Bytes, length,
  get_elem?, take, drop, ltb, ◌==◌, if◌then◌else◌, Exception, out_of_range, undefined, Result, ok,
  throws, ◌>>=◌,
}
use blockad.Platform.{Platform, Regmatch}
use blockad.Address.{Address, AddressPattern, assign, matches}
use blockad.Address.Order.{equivalent}
use blockad.BlockMethod.{BlockMethod, Action}
use blockad.Regex.{Regex, default_nmatches}
use blockad.Regex
use blockad.ConfFile.{ConfFile, Match}

pub record AddressData : Type 0 where
  -- the oldest first
  pub times : List ℕ
  pub blocked : Bool

abbrev pub new_data : AddressData
new_data = record { times = []; blocked = false }

-- What blocks an address: `config->block->block(a)` by the method and the address.
abbrev pub Blocker : Type 0
Blocker = BlockMethod → Address → Result (Bool × List Action)

pub data Effect : Type 0 where
  -- `info("blocking %s", …)`
  blocking : Address → Effect
  -- what the blocking of an address runs or writes
  action : Address → Action → Effect
  -- `error("failed to block %s", …)`
  block_failed : Address → Effect

-- What `block(a)` has done, in order.
unfoldable pub actions : Address → List Action → List Effect
actions a [] = []
actions a (act ∷ rest) = action a act ∷ actions a rest

-- `blockAddress(a)`
unfoldable pub block_address : Blocker → ConfFile → Address → Result (Bool × List Effect)
unfolding actions
block_address blocker config a = do
  (done, acts) ← blocker config.block a
  ok (done, blocking a ∷ (actions a acts ++ (if done then [] else block_failed a ∷ [])))

-- `while(ad.times.size() && ad.times.front() < now - rate_interval) ad.times.pop_front();`
-- The subtraction is signed in the source, so that the interval stands on the other side here.
unfoldable pub strip_old : ℕ → ℕ → List ℕ → List ℕ
strip_old now rate_interval [] = []
strip_old now rate_interval (t ∷ times) =
    if ltb (t + rate_interval) now then strip_old now rate_interval times else t ∷ times

-- Behind the test of the rate.
unfoldable pub check_rate :
    Blocker → ConfFile → Address → List ℕ → Result (AddressData × List Effect)
unfolding block_address
check_rate blocker config a times =
    if ltb config.rate_max (length times)
    then (do
      (done, effects) ← block_address blocker config a
      ok (record { times = times; blocked = done }, effects))
    else ok (record { times = times; blocked = false }, [])

-- What a detection at time `now` makes of the data of the address.
unfoldable pub observe :
    Blocker → ConfFile → ℕ → Address → AddressData → Result (AddressData × List Effect)
unfolding check_rate strip_old
observe blocker config now a ad =
    if ad.blocked
    then ok (ad, [])
    else check_rate blocker config a (strip_old now config.rate_interval ad.times ++ now ∷ [])

-- `std::map<Address, AddressData>`: two keys are one if neither is before the other.
abbrev pub AddressMap : Type 0
AddressMap = List (Address × AddressData)

-- `addressData[a]`, where a missing entry is made anew.
unfoldable pub entry : Address → AddressMap → AddressData
entry a [] = new_data
entry a ((b, ad) ∷ m) = if equivalent b a then ad else entry a m

unfoldable pub store : Address → AddressData → AddressMap → AddressMap
store a new [] = (a, new) ∷ []
store a new ((b, ad) ∷ m) = if equivalent b a then (b, new) ∷ m else (b, ad) ∷ store a new m

-- The loop over the exemption list.
unfoldable pub is_exempted : List AddressPattern → Address → Bool
is_exempted [] a = false
is_exempted (p ∷ exempted) a = if matches p a then true else is_exempted exempted a

-- The global state, and what has been done so far.
pub record Detector : Type 0 where
  pub address_data : AddressMap
  pub effects : List Effect

unfoldable pub detected_address : Blocker → ConfFile → ℕ → Address → Detector → Result Detector
unfolding is_exempted entry store observe
detected_address blocker config now a d = if is_exempted config.exempted a then ok d else (do
  (ad, effects) ← observe blocker config now a (entry a d.address_data)
  ok (record { address_data = store a ad d.address_data; effects = d.effects ++ effects }))

-- `std::string(line, so, eo - so)`; the length is unsigned, so that a negative one is `npos`.
unfoldable pub capture_string : Bytes → ℕ → Option ℕ → Result Bytes
capture_string line so none =
    if ltb (length line) so then throws out_of_range else ok (drop so line)
capture_string line so (some eo) =
    if ltb (length line) so
    then throws out_of_range
    else if ltb eo so
    then ok (drop so line)
    else ok (take (eo - so) (drop so line))

-- The text of `matches[capture]`. An index past the end of the vector is undefined behaviour, and
-- -1 is a start position past the end of every string.
unfoldable pub capture_text : Bytes → List Regmatch → ℕ → Result Bytes
unfolding capture_string
capture_text line matches capture = elim (get_elem? matches capture) [
  | none ↦ throws undefined
  | some m ↦ elim m.rm_so [ none ↦ throws out_of_range | some so ↦ capture_string line so m.rm_eo ]
]

module _ (sys : Platform) (blocker : Blocker) (config : ConfFile) (clock : ℕ → ℕ) where
  -- One pattern; `clock i` is what `time` returns while pattern `i` is at work.
  unfoldable pub process_pattern : ℕ → Match → Bytes → Detector → Result Detector
  unfolding capture_text detected_address
  process_pattern i m line d =
      let (rc, matches) = Regex.execute sys m.regex line 0 default_nmatches in
      if rc == 0
      then (do
        text ← capture_text line matches m.capture
        a ← assign sys text
        detected_address blocker config (clock i) a d)
      else ok d

  unfoldable pub process_patterns : ℕ → List Match → Bytes → Detector → Result Detector
  unfolding process_pattern
  process_patterns i [] line d = ok d
  process_patterns i (m ∷ patterns) line d =
      process_pattern i m line d >>= λ d'. process_patterns (suc i) patterns line d'

  -- `processLine(line)`
  unfoldable pub process_line : Bytes → Detector → Result Detector
  unfolding process_patterns
  process_line line d = process_patterns 0 config.patterns line d
