-- ===== src/Ip.antt =====
-- pkg/ip/ip.go, pkg/constant/ip.go and the parts of Go's `net` and `math/big` that they use.
-- A `net.IP` is modelled up to `IP.Equal`: nil, an IPv4 address (in its 4 or 16 byte form), or an
-- IPv6 address that is not an IPv4 one. Texts are parsed and printed by an interface, `Net`.
pub mod Range
pub mod Merge
pub mod Sets
pub mod Walk
pub mod MergeLaws
pub mod RoundTrip
pub mod CidrLaws
pub mod RangeLaws
pub mod Cidr
use virtnet.Prelude.{
  ℕ, ◌+◌, ◌*◌, ◌^◌, ◌≡◌, refl, Bool, true, false, not, ◌&&◌, ◌||◌, Option, none, some, arith, ltb,
  leb, ◌==◌, if◌then◌else◌, Text, Outcome, ok, err, other, require, ◌>>◌, ◌<◌, ◌-◌, ◌/◌,
}

pub data Ip : Type 0 where
  nil_ip : Ip
  v4 : ℕ → Ip
  v6 : ℕ → Ip

-- `net.IPNet`: the masked address and the number of leading ones of the mask.
pub record IpNet : Type 0 where
  pub ip : Ip
  pub ones : ℕ

-- Go's `net` and the vendored govalidator, as far as they read and print text. A text that does
-- not parse gives the nil address, or `none`.
pub record Net : Type 0 where
  -- net.ParseIP
  pub parse_ip : Text → Ip
  -- IP.String
  pub ip_string : Ip → Text
  -- net.ParseCIDR
  pub parse_cidr : Text → Option (Ip × IpNet)
  -- IPNet.String
  pub net_string : IpNet → Text
  -- govalidator.IsIPv4 and govalidator.IsIPv6
  pub is_ipv4 : Text → Bool
  pub is_ipv6 : Text → Bool

-- types.IPVersion with constant.IPv4 and constant.IPv6
abbrev pub ipv4 : ℕ
ipv4 = 4

abbrev pub ipv6 : ℕ
ipv6 = 6

-- `ip.To4() != nil`
abbrev pub is_to4 : Ip → Bool
is_to4 nil_ip = false
is_to4 (v4 n) = true
is_to4 (v6 n) = false

-- `ip.To4() == nil`
abbrev pub not_to4 : Ip → Bool
not_to4 ip = not (is_to4 ip)

-- IP.Equal
unfoldable pub ip_equal : Ip → Ip → Bool
ip_equal nil_ip nil_ip = true
ip_equal (v4 m) (v4 n) = m == n
ip_equal (v6 m) (v6 n) = m == n
ip_equal _ _ = false

-- ipToInt: the bytes of the address as a number, with no byte for nil.
unfoldable pub ip_to_int : Ip → ℕ
ip_to_int nil_ip = 0
ip_to_int (v4 n) = n
ip_to_int (v6 n) = n

-- intToIP: `Bytes` drops leading zero bytes, and `To16` accepts 4 or 16 bytes only.
unfoldable pub int_to_ip : ℕ → Ip
int_to_ip i =
    if leb (2 ^ 24) i && ltb i (2 ^ 32)
    then v4 i
    else if leb (2 ^ 120) i && ltb i (2 ^ 128)
    then v6 i
    else nil_ip

-- NextIP
unfoldable pub next_ip : Ip → Ip
unfolding ip_to_int int_to_ip
next_ip ip = int_to_ip (ip_to_int ip + 1)

pub data Sign : Type 0 where
  less equal greater : Sign

-- Cmp, with the results -1, 0 and 1 as a type.
unfoldable pub cmp : Ip → Ip → Sign
unfolding ip_to_int
cmp ip1 ip2 =
    if ltb (ip_to_int ip1) (ip_to_int ip2)
    then less
    else if ltb (ip_to_int ip2) (ip_to_int ip1)
    then greater
    else equal

abbrev pub is_greater : Sign → Bool
is_greater less = false
is_greater equal = false
is_greater greater = true

abbrev pub is_less : Sign → Bool
is_less less = true
is_less equal = false
is_less greater = false

-- `bytes.Compare(a.To16(), b.To16()) < 0`: the nil address has no bytes, and the 16 bytes of an
-- IPv4 address are those of ::ffff:0:0 plus the address.
unfoldable pub sort_key : Ip → ℕ
sort_key nil_ip = 0
sort_key (v4 n) = 1 + 0xffff * 2 ^ 32 + n
sort_key (v6 n) = 1 + n

-- IsIPVersion
unfoldable pub is_ip_version : ℕ → Outcome (Unit {0})
is_ip_version version = require (version == ipv4 || version == ipv6) other

-- IsIP
unfoldable pub is_ip : Net → ℕ → Text → Outcome (Unit {0})
unfolding is_ip_version
is_ip net version s = do
  is_ip_version version
  require
      (not ((version == ipv4 && not (net.is_ipv4 s)) || (version == ipv6 && not (net.is_ipv6 s))))
      other

-- The leading ones of the mask as IPNet.Contains uses them for an IPv4 address: of a mask of 16
-- bytes, which has 96 or more if the masked address is an IPv4 one, it takes the last 4 bytes.
unfoldable pub v4_ones : ℕ → ℕ
v4_ones ones = if leb 96 ones then ones - 96 else ones

-- The addresses with the same leading bits; those of different families never match.
unfoldable pub contains_by : Ip → Ip → ℕ → Bool
unfolding v4_ones
contains_by (v4 m) (v4 a) ones = a / 2 ^ (32 - v4_ones ones) == m / 2 ^ (32 - v4_ones ones)
contains_by (v6 m) (v6 a) ones = a / 2 ^ (128 - ones) == m / 2 ^ (128 - ones)
contains_by _ _ ones = false

-- IPNet.Contains
unfoldable pub net_contains : IpNet → Ip → Bool
unfolding contains_by
net_contains n ip = contains_by n.ip ip n.ones
