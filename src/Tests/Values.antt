-- ===== src/Tests/Values.antt =====
-- Values of the functions of the model at fixed inputs.
use blockad.Common.{
  ◌∷◌, [], ◌≡◌, refl, codes, syntax_error, ok, throws, true, false, some, equal, c_str,
}
use blockad.Address.{Address, lt, is4, matches, assign}
use blockad.Strtol.{strtol}
use blockad.Lexer.{split_line}
use blockad.BlockMethod.{static_registry, find_type, hosts_deny_type}
use blockad.ConfFile.{parse_line}
use blockad.Tests.Sample.{sample}
use blockad.Tests.Data.{home, away, far, here, loopback, loaded}

quoted_words :
    split_line here (codes "address 'F (.*)' 1 # of F")
    ≡ ok (codes "address" ∷ codes "F (.*)" ∷ codes "1" ∷ [])
unfolding split_line
quoted_words = refl

escapes :
    split_line here (codes "\"\\101\\x4a\\n\\\"\"") ≡ ok ((b'A' ∷ b'J' ∷ b'\n' ∷ b'"' ∷ []) ∷ [])
unfolding split_line
escapes = refl

unknown_command :
    parse_line sample static_registry loaded (codes "what")
    ≡ throws (syntax_error (codes "blockad.conf:6: unrecognized command 'what'"))
unfolding parse_line equal
unknown_command = refl

zero_rate :
    parse_line sample static_registry loaded (codes "rate 0/min")
    ≡ throws (syntax_error (codes "blockad.conf:6: invalid count for 'rate'"))
unfolding parse_line equal c_str strtol
zero_rate = refl

loopback_admits_home : matches loopback home ≡ true
unfolding matches blockad.Address.build_mask
loopback_admits_home = refl

loopback_refuses_away : matches loopback away ≡ false
unfolding matches blockad.Address.build_mask
loopback_refuses_away = refl

mapped_is_4 : is4 home ≡ true
unfolding is4
mapped_is_4 = refl

other_is_6 : is4 far ≡ false
unfolding is4
other_is_6 = refl

in_order : lt home away ≡ true
unfolding lt
in_order = refl

registered : find_type static_registry (codes "hosts.deny") ≡ some hosts_deny_type
unfolding find_type static_registry equal
registered = refl
