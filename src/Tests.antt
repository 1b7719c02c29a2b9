-- ===== src/Tests.antt =====
-- Concrete instances of the interfaces to Go's `net` and `encoding/json`, for the runs in the tests.
pub mod Ranges
pub mod Pools
pub mod Subnets
pub mod Requests
pub mod Controllers
pub mod Inventories
pub mod Hosts
pub mod Moves
pub mod Interleavings
pub mod Releases
pub mod Runs
pub mod Admissions
use virtnet.Prelude.{
  ℕ, zero, suc, ◌+◌, ◌-◌, ◌*◌, ◌/◌, ◌%◌, ◌^◌, ◌≡◌, refl, ap, ◌∙◌, Bool, true, false, List, [], ◌∷◌,
  ◌++◌, map, Option, none, some, if◌then◌else◌, ltb, Text, bytes, split,
}
use virtnet.Ip.{Ip, nil_ip, IpNet, Net, v4, v6, is_to4}
use virtnet.Api.{PoolIpAllocation}
use virtnet.Convert.{Json}
use virtnet.Convert.Laws.{Lawful}

value : ℕ → Text → ℕ
value acc [] = acc
value acc (c ∷ s) = value (acc * 10 + (c - b'0')) s

digits : ℕ → Text
digits n =
    if ltb n 10
    then (b'0' + n) ∷ []
    else if ltb n 100
    then (b'0' + n / 10) ∷ (b'0' + n % 10) ∷ []
    else (b'0' + n / 100) ∷ (b'0' + n / 10 % 10) ∷ (b'0' + n % 10) ∷ []

of_octets : List ℕ → Ip
of_octets (a ∷ b ∷ c ∷ d ∷ []) = v4 (((a * 256 + b) * 256 + c) * 256 + d)
of_octets _ = nil_ip

-- Dotted decimal IPv4 addresses; every other text is refused.
dotted_parse : Text → Ip
unfolding value of_octets split
dotted_parse s = of_octets (map (value 0) (split b'.' s))

dotted_string : Ip → Text
unfolding digits
dotted_string (v4 n) =
    digits (n / 2 ^ 24)
    ++ b'.' ∷ digits (n / 2 ^ 16 % 256)
    ++ b'.' ∷ digits (n / 2 ^ 8 % 256)
    ++ b'.' ∷ digits (n % 256)
dotted_string nil_ip = bytes "<nil>"
dotted_string (v6 n) = []

masked : Ip → ℕ → Option (Ip × IpNet)
masked (v4 n) ones =
    some (v4 n, record { ip = v4 (n / 2 ^ (32 - ones) * 2 ^ (32 - ones)); ones = ones })
masked nil_ip ones = none
masked (v6 n) ones = none

parts_cidr : List Text → Option (Ip × IpNet)
unfolding dotted_parse masked value
parts_cidr (ip ∷ ones ∷ []) = masked (dotted_parse ip) (value 0 ones)
parts_cidr _ = none

unfoldable pub dotted : Net
unfolding dotted_parse dotted_string parts_cidr split digits
dotted = record {
  parse_ip = dotted_parse;
  ip_string = dotted_string;
  parse_cidr = λ s. parts_cidr (split b'/' s);
  net_string = λ n. dotted_string n.ip ++ b'/' ∷ digits n.ones;
  is_ipv4 = λ s. is_to4 (dotted_parse s);
  is_ipv6 = λ s. false;
}

-- A text with its characters moved up by one and closed by 0, in front of another text.
write : Text → Text → Text
write [] tail = 0 ∷ tail
write (c ∷ s) tail = suc c ∷ write s tail

write_all : List Text → Text
unfolding write
write_all [] = []
write_all (t ∷ ts) = write t (write_all ts)

abbrev onto_first : ℕ → List Text → List Text
onto_first c [] = (c ∷ []) ∷ []
onto_first c (t ∷ ts) = (c ∷ t) ∷ ts

read_all : Text → List Text
read_all [] = []
read_all (zero ∷ s) = [] ∷ read_all s
read_all (suc c ∷ s) = onto_first c (read_all s)

read_all-write : (t tail : Text) → read_all (write t tail) ≡ t ∷ read_all tail
unfolding read_all write
read_all-write [] tail = refl
read_all-write (c ∷ t) tail = rw (read_all-write t tail) refl

read_all-write_all : (ts : List Text) → read_all (write_all ts) ≡ ts
unfolding read_all write_all
read_all-write_all [] = refl
read_all-write_all (t ∷ ts) = read_all-write t (write_all ts) ∙ ap (◌∷◌ t) (read_all-write_all ts)

flatten : List (Text × PoolIpAllocation) → List Text
flatten [] = []
flatten ((ip, a) ∷ m) = ip ∷ a.namespaced_name ∷ a.pod_uid ∷ flatten m

unflatten : List Text → List (Text × PoolIpAllocation)
unflatten (ip ∷ name ∷ uid ∷ rest) =
    (ip, record { namespaced_name = name; pod_uid = uid }) ∷ unflatten rest
unflatten _ = []

unflatten-flatten : (m : List (Text × PoolIpAllocation)) → unflatten (flatten m) ≡ m
unfolding flatten unflatten
unflatten-flatten [] = refl
unflatten-flatten ((ip, a) ∷ m) = ap (◌∷◌ (ip, a)) (unflatten-flatten m)

abbrev read_strings : Text → Option (List Text)
read_strings [] = none
read_strings (c ∷ s) = some (read_all s)

abbrev read_records : Text → Option (Option (List (Text × PoolIpAllocation)))
read_records [] = none
read_records (c ∷ s) = some (some (unflatten (read_all s)))

-- Lists and maps of strings, written one string after the other behind a bracket.
unfoldable pub plain : Json
unfolding write_all read_all flatten unflatten
plain = record {
  marshal_allocated = λ m. some (b'[' ∷ write_all (flatten m));
  unmarshal_allocated = read_records;
  marshal_unallocated = λ ips. some (b'[' ∷ write_all ips);
  unmarshal_unallocated = read_strings;
  unmarshal_anno = λ s. none;
}

pub plain-Lawful : Lawful plain
unfolding plain
plain-Lawful = record {
  allocated = λ e m. (
    b'[',
    write_all (flatten (e ∷ m)),
    refl,
    ap (λ r. some (some r))
        (ap unflatten (read_all-write_all (flatten (e ∷ m))) ∙ unflatten-flatten (e ∷ m)),
  );
  unallocated =
      λ ip ips. (b'[', write_all (ip ∷ ips), refl, ap some (read_all-write_all (ip ∷ ips)));
}
