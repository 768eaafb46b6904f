-- ===== src/Tests/Guarded.antt =====
-- Addresses that lead to the machine of the bot.
use osubot_rs.Prelude.{◌≡◌, refl, true, false, none, some, if◌then◌else◌, Option, ◌↔◌, arith}
use osubot_rs.Text.{Text, codes, text_eq, strip_prefix}
use osubot_rs.Ssrf.{
  Ipv4Addr, Ipv6Addr, IpAddr, v4, v6, Url, is_blocked_url, is_blocked_parsed, is_blocked_host,
  is_blocked_address, is_blocked_name, ends_with, strip_suffix, host_of, unbracketed,
  redirect_policy, too_many_redirects,
}
use osubot_rs.Ssrf.Networks.{
  IsIpv4Addr, InNetwork, loopback, mapped, refused, is_blocked_url-Refused, is_blocked_url_iff,
}

-- The scheme of HTTP, and then the host.
abbrev with_host : Option Text → Option Url
with_host none = none
with_host (some h) = some (record { scheme = codes "http"; host_str = some h })

unfoldable parse_url : Text → Option Url
unfolding strip_prefix
parse_url url = with_host (strip_prefix (codes "http://") url)

abbrev this_machine : Ipv4Addr
this_machine = record { a = 127; b = 0; c = 0; d = 1 }

abbrev mapped_machine : Ipv6Addr
mapped_machine = record { s0 = 0; s1 = 0; s2 = 0; s3 = 0; s4 = 0; s5 = 65535; s6 = 32512; s7 = 1 }

unfoldable parse_address : Text → Option IpAddr
unfolding text_eq
parse_address host =
    if text_eq host (codes "127.0.0.1")
    then some (v4 this_machine)
    else if text_eq host (codes "::ffff:7f00:1")
    then some (v6 mapped_machine)
    else none

machine-IsIpv4Addr : IsIpv4Addr this_machine
machine-IsIpv4Addr = (omega arith, omega arith, omega arith, omega arith)

is_blocked_url-Refused_example :
    is_blocked_url parse_url parse_address (codes "http://[::FFFF:7f00:1]") ≡ true
unfolding parse_url parse_address host_of unbracketed strip_prefix strip_suffix text_eq
is_blocked_url-Refused_example =
    is_blocked_url-Refused parse_url parse_address (codes "http://[::FFFF:7f00:1]") (codes "http")
      (codes "[::FFFF:7f00:1]") (v6 mapped_machine) refl refl
      (refused this_machine machine-IsIpv4Addr (loopback (omega arith, omega arith)) mapped)

is_blocked_url_iff_example :
    (is_blocked_url parse_url parse_address (codes "http://127.0.0.1") ≡ true)
    ↔ InNetwork this_machine
unfolding parse_url parse_address host_of unbracketed strip_prefix strip_suffix text_eq
is_blocked_url_iff_example =
    is_blocked_url_iff parse_url parse_address (codes "http://127.0.0.1") (codes "http")
      (codes "127.0.0.1") this_machine refl refl refl machine-IsIpv4Addr

-- A dot behind the name.
root_name : is_blocked_url parse_url parse_address (codes "http://localhost.") ≡ false
unfolding is_blocked_url is_blocked_parsed is_blocked_host is_blocked_address is_blocked_name
    ends_with parse_url parse_address host_of unbracketed strip_prefix strip_suffix text_eq
root_name = refl

fifth_redirect :
    redirect_policy (is_blocked_url parse_url parse_address) 5 (codes "http://localhost.")
    ≡ too_many_redirects
unfolding redirect_policy
fifth_redirect = refl
