-- ===== src/Ssrf/Networks.antt =====
-- The networks whose addresses are refused (osubot-core/src/ssrf.rs).
use osubot_rs.Prelude.{
  ℕ, ◌+◌, ◌*◌, ◌/◌, ◌%◌, ◌≤◌, ◌<◌, ◌≡◌, refl, Bool, true, false, not, ◌&&◌, ◌||◌, Option, some, leb,
  ◌==◌, if◌then◌else◌, arith, if_both, ◌↔◌, subst, sym, ◌⊎◌, inl, inr,
}
use osubot_rs.Text.{Text, codes, text_eq}
use osubot_rs.Ssrf.{
  Ipv4Addr, Ipv6Addr, IpAddr, v4, v6, is_private_v4, check_v4_private, from_segments, is_blocked_v4,
  is_blocked_v6, is_blocked_ip, to_ascii_lowercase, host_of, Url, is_blocked_host,
  is_blocked_parsed, is_blocked_url, is_blocked_address,
}

-- An address as a number of 32 bits.
abbrev pub to_bits : Ipv4Addr → ℕ
to_bits v = v.a * 16777216 + v.b * 65536 + v.c * 256 + v.d

abbrev pub IsIpv4Addr : Ipv4Addr → Type 0
IsIpv4Addr v = (v.a < 256) × (v.b < 256) × (v.c < 256) × (v.d < 256)

-- The addresses from the first one of a network to its last one.
abbrev pub InRange : ℕ → ℕ → Ipv4Addr → Type 0
InRange first size v = (first ≤ to_bits v) × (to_bits v < first + size)

pub data InNetwork (v : Ipv4Addr) : Type 0 where
  loopback : InRange (127 * 16777216) 16777216 v → InNetwork v
  private_10 : InRange (10 * 16777216) 16777216 v → InNetwork v
  private_172 : InRange (172 * 16777216 + 16 * 65536) 1048576 v → InNetwork v
  private_192 : InRange (192 * 16777216 + 168 * 65536) 65536 v → InNetwork v
  link_local : InRange (169 * 16777216 + 254 * 65536) 65536 v → InNetwork v
  unspecified : InRange 0 1 v → InNetwork v
  multicast : InRange (224 * 16777216) 268435456 v → InNetwork v
  broadcast : InRange 4294967295 1 v → InNetwork v

check_v4_private-network : (v : Ipv4Addr) → IsIpv4Addr v → InNetwork v → check_v4_private v ≡ true
unfolding check_v4_private
check_v4_private-network v (ha, hb, hc, hd) (loopback h) = ground arith
check_v4_private-network v (ha, hb, hc, hd) (private_10 h) = ground arith
check_v4_private-network v (ha, hb, hc, hd) (private_172 h) = ground arith
check_v4_private-network v (ha, hb, hc, hd) (private_192 h) = ground arith
check_v4_private-network v (ha, hb, hc, hd) (link_local h) = ground arith
check_v4_private-network v (ha, hb, hc, hd) (unspecified h) = ground arith
check_v4_private-network v (ha, hb, hc, hd) (multicast h) = ground arith
check_v4_private-network v (ha, hb, hc, hd) (broadcast h) = ground arith

either : (b c : Bool) → (b || c) ≡ true → (b ≡ true) ⊎ (c ≡ true)
either true c h = inl refl
either false c h = inr h

network-private : (v : Ipv4Addr) → IsIpv4Addr v → is_private_v4 v ≡ true → InNetwork v
network-private v w h = elim (either (v.a == 10) _ h) [
  | inl e ↦ private_10 (ground arith)
  | inr h ↦ elim (either (v.a == 172 && (leb 16 v.b && leb v.b 31)) _ h) [
    | inl e ↦ private_172 (ground arith)
    | inr e ↦ private_192 (ground arith)
  ]
]

network-check_v4_private : (v : Ipv4Addr) → IsIpv4Addr v → check_v4_private v ≡ true → InNetwork v
unfolding check_v4_private
network-check_v4_private v w h = elim (either (v.a == 127) _ h) [
  | inl e ↦ loopback (ground arith)
  | inr h ↦ elim (either (is_private_v4 v) _ h) [
    | inl e ↦ network-private v w e
    | inr h ↦ elim (either (v.a == 169 && v.b == 254) _ h) [
      | inl e ↦ link_local (ground arith)
      | inr h ↦ elim (either (v.a == 0 && (v.b == 0 && (v.c == 0 && v.d == 0))) _ h) [
        | inl e ↦ unspecified (ground arith)
        | inr h ↦ elim (either (leb 224 v.a && leb v.a 239) _ h) [
          | inl e ↦ multicast (ground arith)
          | inr e ↦ broadcast (ground arith)
        ]
      ]
    ]
  ]
]

-- The addresses from which the octets of `v` can be read: the address itself, the mapped and the
-- compatible one, those of NAT64 with the prefix 64:ff9b::/96, and those of 6to4.
pub data Reaches (v : Ipv4Addr) : IpAddr → Type 0 where
  direct : Reaches v (v4 v)
  compatible : Reaches v (
      v6 (record {
        s0 = 0;
        s1 = 0;
        s2 = 0;
        s3 = 0;
        s4 = 0;
        s5 = 0;
        s6 = v.a * 256 + v.b;
        s7 = v.c * 256 + v.d;
      }))
  mapped : Reaches v (
      v6 (record {
        s0 = 0;
        s1 = 0;
        s2 = 0;
        s3 = 0;
        s4 = 0;
        s5 = 65535;
        s6 = v.a * 256 + v.b;
        s7 = v.c * 256 + v.d;
      }))
  nat64 : Reaches v (
      v6 (record {
        s0 = 100;
        s1 = 65435;
        s2 = 0;
        s3 = 0;
        s4 = 0;
        s5 = 0;
        s6 = v.a * 256 + v.b;
        s7 = v.c * 256 + v.d;
      }))
  six_to_four :
      (w : Ipv6Addr)
      → Reaches v (v6 (record w { s0 = 8194; s1 = v.a * 256 + v.b; s2 = v.c * 256 + v.d }))

high : (m n : ℕ) → n < 256 → (m * 256 + n) / 256 ≡ m
high m n h = omega arith

low : (m n : ℕ) → n < 256 → (m * 256 + n) % 256 ≡ n
low m n h = omega arith

octets : (v : Ipv4Addr) → IsIpv4Addr v → from_segments (v.a * 256 + v.b) (v.c * 256 + v.d) ≡ v
octets v (ha, hb, hc, hd) =
    rw (high v.a v.b hb) (rw (low v.a v.b hb) (rw (high v.c v.d hd) (rw (low v.c v.d hd) refl)))

check-octets :
    (v : Ipv4Addr)
    → IsIpv4Addr v
    → check_v4_private v ≡ true
    → check_v4_private (from_segments (v.a * 256 + v.b) (v.c * 256 + v.d)) ≡ true
check-octets v w h = subst (λ x. check_v4_private x ≡ true) (sym (octets v w)) h

if_true : (b c : Bool) → b ≡ true → (if b then true else c) ≡ true
if_true true c h = refl
if_true false c h = absurd (ground arith)

is_blocked_ip-Reaches :
    (v : Ipv4Addr) (ip : IpAddr)
    → IsIpv4Addr v
    → check_v4_private v ≡ true
    → Reaches v ip
    → is_blocked_ip ip ≡ true
unfolding is_blocked_ip is_blocked_v6 is_blocked_v4
is_blocked_ip-Reaches v _ w h direct = h
is_blocked_ip-Reaches v _ w h compatible = if_true _ _ (check-octets v w h)
is_blocked_ip-Reaches v _ w h mapped = if_true _ _ (check-octets v w h)
is_blocked_ip-Reaches v _ w h nat64 = refl
is_blocked_ip-Reaches v _ w h (six_to_four x) = refl

-- An address from which an address in a refused network can be read.
pub data Refused (ip : IpAddr) : Type 0 where
  refused : (v : Ipv4Addr) → IsIpv4Addr v → InNetwork v → Reaches v ip → Refused ip

-- A URL is refused whose host, without its brackets and in lower case, is an address from which an IPv4
-- address of a refused network can be read: the address itself, the mapped and the compatible one, and
-- those of NAT64 and 6to4.
pub is_blocked_url-Refused :
    (parse : Text → Option Url) (parse_ip : Text → Option IpAddr) (url scheme raw : Text)
    (ip : IpAddr)
    → parse url ≡ some (record { scheme = scheme; host_str = some raw })
    → parse_ip (host_of (to_ascii_lowercase raw)) ≡ some ip
    → Refused ip
    → is_blocked_url parse parse_ip url ≡ true
unfolding is_blocked_url is_blocked_parsed is_blocked_host is_blocked_address
is_blocked_url-Refused parse parse_ip url scheme raw ip e p (refused v w n r) = rw e (
    if_both (λ b. b ≡ true)
      (not (text_eq scheme (codes "http")) && not (text_eq scheme (codes "https"))) refl
      (rw p (is_blocked_ip-Reaches v ip w (check_v4_private-network v w n) r)))

-- For a URL of HTTP or HTTPS whose host is an IPv4 address: it is refused exactly when the address lies in
-- one of the refused networks, read as a number of 32 bits.
pub is_blocked_url_iff :
    (parse : Text → Option Url) (parse_ip : Text → Option IpAddr) (url scheme raw : Text)
    (v : Ipv4Addr)
    → parse url ≡ some (record { scheme = scheme; host_str = some raw })
    → (text_eq scheme (codes "http") || text_eq scheme (codes "https")) ≡ true
    → parse_ip (host_of (to_ascii_lowercase raw)) ≡ some (v4 v)
    → IsIpv4Addr v
    → (is_blocked_url parse parse_ip url ≡ true) ↔ InNetwork v
unfolding is_blocked_url is_blocked_parsed is_blocked_host is_blocked_address is_blocked_ip
is_blocked_url_iff parse parse_ip url scheme raw v e s p w =
    rw e (rw (neither _ _ s) (rw p (network-check_v4_private v w, check_v4_private-network v w)))
  where
    neither : (b c : Bool) → (b || c) ≡ true → (not b && not c) ≡ false
    neither true c h = refl
    neither false true h = refl
    neither false false h = absurd (ground arith)
