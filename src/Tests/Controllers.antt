-- ===== src/Tests/Controllers.antt =====
-- The theorems on the defaulting of a Subnet and on the number of its pools at concrete inputs.
use virtnet.Prelude.{ℕ, ◌^◌, ◌≡◌, refl, List, [], ◌∷◌, map, arith, none, ok, bytes}
use virtnet.Ip.{v4, ipv4}
use virtnet.Ip.Range.{parse_ip_ranges}
use virtnet.Ip.RoundTrip.{canonical}
use virtnet.Api.{Subnet}
use virtnet.Webhook.Admit.{mutate_subnet}
use virtnet.Webhook.Defaulting.{Lists, mutate_subnet-canonical}
use virtnet.Tests.{dotted}
use virtnet.Tests.Ranges.{ten_7-IsGood, ten_8-IsGood}
use virtnet.Tests.Subnets.{web}

-- The addresses are listed out of order, and one of them twice.
abbrev unsorted : Subnet
unsorted = record web {
  spec = record web.spec {
    ips = bytes "10.0.0.8" ∷ bytes "10.0.0.7" ∷ bytes "10.0.0.8" ∷ [];
    exclude_ips = [];
  };
}

abbrev listed : List ℕ
listed = 0xa000008 ∷ 0xa000007 ∷ 0xa000008 ∷ []

unsorted-Lists : Lists dotted (2 ^ 32) (omega arith) unsorted.spec.ips listed
unfolding parse_ip_ranges dotted
unsorted-Lists = (refl, (ten_8-IsGood, (ten_7-IsGood, (ten_8-IsGood, tt))))

empty-Lists : Lists dotted (2 ^ 32) (omega arith) [] []
unfolding parse_ip_ranges
empty-Lists = (refl, tt)

mutate_subnet-canonical_example :
    (s' : Subnet) × (mutate_subnet dotted (2 ^ 32) unsorted ≡ (ok (s', none)))
    × (parse_ip_ranges dotted (2 ^ 32) ipv4 s'.spec.ips ≡ ok (map v4 (canonical listed)))
    × (parse_ip_ranges dotted (2 ^ 32) ipv4 s'.spec.exclude_ips ≡ ok (map v4 (canonical [])))
    × (s'.meta ≡ unsorted.meta)
mutate_subnet-canonical_example =
    mutate_subnet-canonical dotted (2 ^ 32) (omega arith) unsorted listed [] refl unsorted-Lists
      empty-Lists
