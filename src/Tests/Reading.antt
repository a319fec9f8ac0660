-- ===== src/Tests/Reading.antt =====
-- Examples about addresses, configuration files and block methods.
use blockad.Common.{
  ◌≤◌, ◌≡◌, refl, ◌↔◌, Bool, true, List, [], ◌∷◌, ◌++◌, Bytes, codes, pos_part, long_max, arith, ok,
  equal, c_str, find, replicate,
}
use blockad.Strtol.{strtol}
use blockad.Strtol.Bounds.{strtol_bound}
use blockad.Address.{
  Address, AddressPattern, anything, assign, as_string, assign_pattern, build_mask, lt, matches,
  is4,
}
use blockad.Address.Mask.{bits, Agrees}
use blockad.Address.Exact.{matches-assign}
use blockad.Address.Matching.{Assigned, matches-Agrees}
use blockad.Address.Text.{assign-as_string}
use blockad.Lexer.{split_line, split_loop}
use blockad.Lexer.Fuel.{Ends, split_line_fuel}
use blockad.Lexer.RoundTrip.{comment, blank, double, bare, escaped, split_line-Spells}
use blockad.BlockMethod.{
  BlockMethod, iptables, hosts_deny, create, iptables_type, hosts_deny_type, static_registry,
  register, find_type, AppendAnswers, Action, command, block,
}
use blockad.BlockMethod.Blocking.{Denies, Reports, block-hosts_deny}
use blockad.Regex.{Regex}
use blockad.ConfFile.{new_conf_file}
use blockad.ConfFile.Validity.{IsValid}
use blockad.ConfFile.Reading.{new_conf_file-IsValid}
use blockad.Tests.Sample.{sample, sample-InetLaws, shown}
use blockad.Tests.Data.{home, away, here, loopback, loaded, on_disk, successes, loopback_text}

strtol_bound_example : pos_part (strtol (codes "99999999999999999999")).value ≤ long_max
strtol_bound_example = strtol_bound (codes "99999999999999999999")

assign-as_string_example :
    (s : Bytes) × (as_string sample home ≡ ok s) × (assign sample s ≡ ok home)
assign-as_string_example = assign-as_string sample sample-InetLaws home (omega arith, omega arith)

split_line_fuel_example :
    (split_loop 99 here [] (codes "watch \"/a\\x41\"")
      ≡ split_line here (codes "watch \"/a\\x41\""))
    × Ends here (split_line here (codes "watch \"/a\\x41\""))
split_line_fuel_example =
    split_line_fuel here 99 (codes "watch \"/a\\x41\"") (omega arith) (omega arith)

split_line-Spells_example :
    split_line here (codes "watch " ++ b'"' ∷ escaped (codes "/a b") (b'"' ∷ codes " #x"))
    ≡ ok (codes "watch" ∷ codes "/a b" ∷ [])
split_line-Spells_example = split_line-Spells here (
    bare b'w' (codes "atch") refl (omega arith)
      (double (codes "/a b") (omega arith) (blank (comment (codes "x")))))

new_conf_file-IsValid_example : IsValid sample loaded
unfolding new_conf_file static_registry find_type create equal sample blockad.Regex.compile c_str
    blockad.Regex.captures strtol assign_pattern blockad.Address.convert find
    blockad.Address.substring blockad.BlockMethod.create_from
new_conf_file-IsValid_example =
    new_conf_file-IsValid sample sample-InetLaws static_registry on_disk (codes "blockad.conf")
      {cf = loaded} refl

block-hosts_deny_example :
    (line : Bytes) × (r : Bool × List Action) × (block sample
        (λ words. ok 0)
        successes
        (hosts_deny (codes "/deny"))
        away
      ≡ ok r)
    × Denies sample away line
    × Reports line successes r
block-hosts_deny_example =
    block-hosts_deny sample sample-InetLaws (λ words. ok 0) successes (codes "/deny") away
      (omega arith, omega arith)

matches-Agrees_example :
    (found : Assigned sample loopback_text loopback) × ((matches loopback home ≡ true)
      ↔ Agrees found.size (bits home.address) (bits loopback.network))
unfolding assign_pattern sample find blockad.Address.convert blockad.Address.substring c_str strtol
matches-Agrees_example =
    matches-Agrees sample sample-InetLaws loopback_text anything loopback home refl
      (omega arith, omega arith)

abbrev home_pattern : AddressPattern
home_pattern = record { network = home.address; mask = replicate 16 255 }

matches-assign_example :
    (b : Address) × (assign sample (shown (127 ∷ 0 ∷ 0 ∷ 1 ∷ [])) ≡ ok b)
    × ((matches home_pattern away ≡ true) ↔ (away.address ≡ b.address))
unfolding assign_pattern sample find blockad.Address.convert blockad.Address.substring c_str strtol
matches-assign_example =
    matches-assign sample sample-InetLaws (shown (127 ∷ 0 ∷ 0 ∷ 1 ∷ [])) anything home_pattern away
      refl refl (omega arith, omega arith)
