-- ===== src/Webhook/Defaulting.antt =====
-- What Default does to the ranges of a Subnet (pkg/subnet/subnet_mutate.go).
use virtnet.Prelude.{ℕ, ◌^◌, ◌≤◌, ◌≡◌, refl, false, List, [], ◌∷◌, map, none, Text, ok, All}
use virtnet.Ip.{Net, v4, ipv4}
use virtnet.Ip.Range.{parse_ip_ranges}
use virtnet.Ip.Merge.{merge_ip_ranges, merge_sorted}
use virtnet.Ip.MergeLaws.{IsGood}
use virtnet.Ip.RoundTrip.{
  canonical, canonical-IsIncreasing, All-canonical, convert-canonical, parse-merge_sorted,
}
use virtnet.Api.{Subnet}
use virtnet.Webhook.Admit.{merged, mutate_subnet}

module _ (net : Net) (fuel : ℕ) (enough : 2 ^ 32 ≤ fuel) where
  -- The ranges stand for these addresses.
  abbrev pub Lists : List Text → List ℕ → Type 0
  Lists ranges ns = (parse_ip_ranges net fuel ipv4 ranges ≡ ok (map v4 ns)) × All (IsGood net) ns

  merged-Lists :
      (ranges : List Text) (ns : List ℕ)
      → Lists ranges ns
      → (ranges' : List Text) × (merged net fuel ranges ≡ ok ranges')
        × (parse_ip_ranges net fuel ipv4 ranges' ≡ ok (map v4 (canonical ns)))
  unfolding merge_ip_ranges parse_ip_ranges canonical
  merged-Lists [] [] (listed, good) = ([], refl, refl)
  merged-Lists [] (n ∷ ns) (listed, good) = cc
  merged-Lists (r ∷ rs) ns (listed, good) = (
    merge_sorted net (map v4 (canonical ns)),
    rw (merge_ip_ranges, listed, convert-canonical net ns good) refl,
    parse-merge_sorted net (canonical ns) fuel enough (All-canonical (IsGood net) ns good)
        (canonical-IsIncreasing ns),
  )

  -- Default rewrites the ranges and the excluded ranges of a Subnet that is not being deleted
  -- without error, and each list then stands for the same addresses, in increasing order and each
  -- once.
  pub mutate_subnet-canonical :
      (s : Subnet) (ns ms : List ℕ)
      → s.meta.is_deleted ≡ false
      → Lists s.spec.ips ns
      → Lists s.spec.exclude_ips ms
      → (s' : Subnet) × (mutate_subnet net fuel s ≡ ok (s', none))
        × (parse_ip_ranges net fuel ipv4 s'.spec.ips ≡ ok (map v4 (canonical ns)))
        × (parse_ip_ranges net fuel ipv4 s'.spec.exclude_ips ≡ ok (map v4 (canonical ms)))
        × (s'.meta ≡ s.meta)
  unfolding mutate_subnet
  mutate_subnet-canonical s ns ms alive ips excluded =
      let (ips', run, same) = merged-Lists s.spec.ips ns ips in
      let (excluded', run', same') = merged-Lists s.spec.exclude_ips ms excluded in
      (
        record s { spec = record s.spec { ips = ips'; exclude_ips = excluded' } },
        simp (run, run', alive),
        same,
        same',
        refl,
      )
