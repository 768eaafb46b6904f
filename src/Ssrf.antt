-- ===== src/Ssrf.antt =====
-- The guard on addresses that are asked for by the bot (osubot-core/src/ssrf.rs). `Url::parse` and
-- `IpAddr::from_str` are parameters.
pub mod Networks
use osubot_rs.Prelude.{
  ℕ, zero, suc, ◌+◌, ◌-◌, ◌*◌, ◌/◌, ◌%◌, Bool, true, false, not, ◌&&◌, ◌||◌, List, [], ◌∷◌, Option,
  none, some, ltb, leb, ◌==◌, if◌then◌else◌, unwrap_or, map, is_some,
}
use osubot_rs.Text.{Text, codes, text_eq, strip_prefix}

-- Four octets.
pub record Ipv4Addr : Type 0 where
  pub a : ℕ
  pub b : ℕ
  pub c : ℕ
  pub d : ℕ

-- Eight segments of 16 bits.
pub record Ipv6Addr : Type 0 where
  pub s0 : ℕ
  pub s1 : ℕ
  pub s2 : ℕ
  pub s3 : ℕ
  pub s4 : ℕ
  pub s5 : ℕ
  pub s6 : ℕ
  pub s7 : ℕ

pub data IpAddr : Type 0 where
  v4 : Ipv4Addr → IpAddr
  v6 : Ipv6Addr → IpAddr

abbrev pub is_private_v4 : Ipv4Addr → Bool
is_private_v4 v =
    v.a == 10 || ((v.a == 172 && (leb 16 v.b && leb v.b 31)) || (v.a == 192 && v.b == 168))

unfoldable pub check_v4_private : Ipv4Addr → Bool
check_v4_private v =
    v.a == 127
    || (is_private_v4 v
        || ((v.a == 169 && v.b == 254)
            || ((v.a == 0 && (v.b == 0 && (v.c == 0 && v.d == 0)))
                || (leb 224 v.a && leb v.a 239
                    || (v.a == 255 && (v.b == 255 && (v.c == 255 && v.d == 255)))))))

abbrev pub from_segments : ℕ → ℕ → Ipv4Addr
from_segments hi lo = record { a = hi / 256; b = hi % 256; c = lo / 256; d = lo % 256 }

-- The compatible addresses `::a.b.c.d` and the mapped ones `::ffff:a.b.c.d`.
abbrev pub to_ipv4 : Ipv6Addr → Option Ipv4Addr
to_ipv4 v =
    if v.s0 == 0
      && (v.s1 == 0 && (v.s2 == 0 && (v.s3 == 0 && (v.s4 == 0 && (v.s5 == 0 || v.s5 == 65535)))))
    then some (from_segments v.s6 v.s7)
    else none

unfoldable pub is_blocked_v4 : Option Ipv4Addr → Bool
unfolding check_v4_private
is_blocked_v4 none = false
is_blocked_v4 (some v) = check_v4_private v

abbrev pub is_only_last : ℕ → Ipv6Addr → Bool
is_only_last n v =
    v.s0 == 0
    && (v.s1 == 0
        && (v.s2 == 0 && (v.s3 == 0 && (v.s4 == 0 && (v.s5 == 0 && (v.s6 == 0 && v.s7 == n))))))

-- The masks of `is_multicast`, `is_unicast_link_local` and `is_unique_local` are written as ranges.
unfoldable pub is_blocked_v6 : Ipv6Addr → Bool
unfolding is_blocked_v4
is_blocked_v6 v =
    if is_blocked_v4 (to_ipv4 v)
    then true
    else if v.s0 == 100 && v.s1 == 65435
    then true
    else if v.s0 == 8193 && v.s1 == 0
    then true
    else is_only_last 1 v
      || (is_only_last 0 v
          || (leb 65280 v.s0
              || (leb 65152 v.s0 && leb v.s0 65215
                  || (leb 64512 v.s0 && leb v.s0 65023 || v.s0 == 8194))))

unfoldable pub is_blocked_ip : IpAddr → Bool
unfolding check_v4_private is_blocked_v6
is_blocked_ip (v4 v) = check_v4_private v
is_blocked_ip (v6 v) = is_blocked_v6 v

abbrev pub to_ascii_lowercase : Text → Text
to_ascii_lowercase = map (λ c. if leb 65 c && leb c 90 then c + 32 else c)

-- `p` is the suffix that is looked for.
unfoldable pub strip_suffix : Text → Text → Option Text
strip_suffix p [] = if text_eq p [] then some [] else none
strip_suffix p (c ∷ s) =
    let rest = strip_suffix p s in
    if text_eq p (c ∷ s) then some [] else elim rest [ none ↦ none | some r ↦ some (c ∷ r) ]

unfoldable pub ends_with : Text → Text → Bool
unfolding strip_suffix
ends_with p s = is_some (strip_suffix p s)

unfoldable pub unbracketed : Text → Option Text → Text
unfolding strip_suffix
unbracketed raw none = raw
unbracketed raw (some s) = unwrap_or (strip_suffix (codes "]") s) raw

unfoldable pub host_of : Text → Text
unfolding unbracketed strip_prefix
host_of raw = unbracketed raw (strip_prefix (codes "[") raw)

unfoldable pub is_blocked_name : Text → Bool
unfolding ends_with text_eq
is_blocked_name host =
    text_eq host (codes "localhost")
    || (text_eq host (codes "::1")
        || (text_eq host (codes "ip6-localhost")
            || (text_eq host (codes "ip6-loopback") || ends_with (codes ".local") host)))

pub record Url : Type 0 where
  pub scheme : Text
  pub host_str : Option Text

unfoldable pub is_blocked_address : Option IpAddr → Text → Bool
unfolding is_blocked_ip is_blocked_name
is_blocked_address (some ip) host = is_blocked_ip ip
is_blocked_address none host = is_blocked_name host

unfoldable pub is_blocked_host : (Text → Option IpAddr) → Option Text → Bool
unfolding is_blocked_address host_of
is_blocked_host parse_ip none = true
is_blocked_host parse_ip (some raw) =
    let host = host_of (to_ascii_lowercase raw) in is_blocked_address (parse_ip host) host

unfoldable pub is_blocked_parsed : (Text → Option IpAddr) → Option Url → Bool
unfolding is_blocked_host text_eq
is_blocked_parsed parse_ip none = true
is_blocked_parsed parse_ip (some u) =
    if not (text_eq u.scheme (codes "http")) && not (text_eq u.scheme (codes "https"))
    then true
    else is_blocked_host parse_ip u.host_str

unfoldable pub is_blocked_url : (Text → Option Url) → (Text → Option IpAddr) → Text → Bool
unfolding is_blocked_parsed
is_blocked_url parse parse_ip url = is_blocked_parsed parse_ip (parse url)

pub data Redirect : Type 0 where
  too_many_redirects redirect_to_blocked_url follow : Redirect

-- `previous` is the number of the URLs that were requested.
unfoldable pub redirect_policy : (Text → Bool) → (previous : ℕ) → (url : Text) → Redirect
redirect_policy check previous url =
    if leb 5 previous
    then too_many_redirects
    else if check url
    then redirect_to_blocked_url
    else follow
