-- ===== src/Tests/Ranges.antt =====
-- The theorems on addresses, ranges and subnets at concrete inputs.
use virtnet.Prelude.{
  ℕ, ◌+◌, ◌^◌, ◌≡◌, refl, inr, [], ◌∷◌, map, arith, some, ok, out_of_fuel, Bool, true, ◌↔◌, ◌>>=◌,
  bytes,
}
use virtnet.Ip.{v4, ipv4, IpNet}
use virtnet.Ip.Cidr.{parse_cidr, is_cidr_overlap}
use virtnet.Ip.Range.{parse_ip_range, parse_ip_ranges}
use virtnet.Ip.Merge.{convert_ips_to_ip_ranges}
use virtnet.Ip.Walk.{addresses_from}
use virtnet.Ip.MergeLaws.{IsGood}
use virtnet.Ip.RoundTrip.{canonical, has, IsIncreasing, merge_round_trip}
use virtnet.Ip.RangeLaws.{IsRange, parse_ip_range-addresses_from, parse_ip_range-endless}
use virtnet.Ip.CidrLaws.{HaveCommon, v4_net, is_cidr_overlap-HaveCommon}
use virtnet.Tests.{dotted}

-- 10.0.0.a
abbrev ten : ℕ → ℕ
ten a = 0xa000000 + a

pub ten_7-IsGood : IsGood dotted (ten 7)
unfolding dotted
ten_7-IsGood = (record { reads = refl; passes = refl; dashless = refl }, (omega arith, omega arith))

pub ten_8-IsGood : IsGood dotted (ten 8)
unfolding dotted
ten_8-IsGood = (record { reads = refl; passes = refl; dashless = refl }, (omega arith, omega arith))

span-IsRange : IsRange dotted (bytes "10.0.0.7-10.0.0.9") (ten 7) (ten 9)
unfolding dotted
span-IsRange = record {
  first = bytes "10.0.0.7";
  last = bytes "10.0.0.9";
  splits = refl;
  reads_first = refl;
  reads_last = refl;
  passes_first = refl;
  passes_last = refl;
}

top-IsRange : IsRange dotted (bytes "255.255.255.254-255.255.255.255") 0xfffffffe 0xffffffff
unfolding dotted
top-IsRange = record {
  first = bytes "255.255.255.254";
  last = bytes "255.255.255.255";
  splits = refl;
  reads_first = refl;
  reads_last = refl;
  passes_first = refl;
  passes_last = refl;
}

abbrev ten_net : IpNet
ten_net = record { ip = v4 (ten 0); ones = 24 }

cidr_reads : dotted.parse_cidr (bytes "10.0.0.0/24") ≡ some (v4 (ten 0), v4_net (ten 0) 24)
unfolding dotted
cidr_reads = refl

wide_reads : dotted.parse_cidr (bytes "10.0.0.0/8") ≡ some (v4 (ten 0), v4_net (ten 0) 8)
unfolding dotted
wide_reads = refl

merge_round_trip_example :
    ((convert_ips_to_ip_ranges dotted ipv4 (v4 (ten 8) ∷ v4 (ten 7) ∷ [])
        >>= parse_ip_ranges dotted (2 ^ 32) ipv4)
      ≡ ok (map v4 (canonical (ten 8 ∷ ten 7 ∷ []))))
    × IsIncreasing (canonical (ten 8 ∷ ten 7 ∷ []))
    × ((x : ℕ) → has x (canonical (ten 8 ∷ ten 7 ∷ [])) ≡ has x (ten 8 ∷ ten 7 ∷ []))
merge_round_trip_example =
    merge_round_trip dotted (2 ^ 32) (ten 8 ∷ ten 7 ∷ []) (omega arith)
      (ten_8-IsGood, (ten_7-IsGood, tt))

parse_ip_range-addresses_from_example :
    parse_ip_range dotted 4 ipv4 (bytes "10.0.0.7-10.0.0.9") ≡ ok (addresses_from (ten 7) 3)
parse_ip_range-addresses_from_example =
    parse_ip_range-addresses_from dotted 4 (bytes "10.0.0.7-10.0.0.9") (ten 7) (ten 9) span-IsRange
      (omega arith) (omega arith, omega arith) (omega arith, omega arith) (omega arith)

parse_ip_range-endless_example :
    parse_ip_range dotted 1000 ipv4 (bytes "255.255.255.254-255.255.255.255") ≡ out_of_fuel
parse_ip_range-endless_example =
    parse_ip_range-endless dotted 1000 (bytes "255.255.255.254-255.255.255.255") 0xfffffffe
      0xffffffff top-IsRange (omega arith, omega arith, inr (omega arith))

eight_passes : dotted.is_ipv4 (bytes "10.0.0.8") ≡ true
unfolding dotted
eight_passes = refl

eight_reads : dotted.parse_ip (bytes "10.0.0.8") ≡ v4 (ten 8)
unfolding dotted
eight_reads = refl

is_cidr_overlap-HaveCommon_example :
    (answer : Bool) × (is_cidr_overlap dotted ipv4 (bytes "10.0.0.0/24") (bytes "10.0.0.0/8")
      ≡ ok answer)
    × ((answer ≡ true) ↔ HaveCommon (v4_net (ten 0) 24) (v4_net (ten 0) 8))
is_cidr_overlap-HaveCommon_example =
    is_cidr_overlap-HaveCommon dotted (bytes "10.0.0.0/24") (bytes "10.0.0.0/8") (ten 0) (ten 0)
      (ten 0) (ten 0) 24 8 (omega arith) (omega arith) cidr_reads wide_reads
