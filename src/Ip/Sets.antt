-- ===== src/Ip/Sets.antt =====
-- pkg/ip/ip.go, IPsDiffSet and IPsIntersectionSet, and pkg/ip/utils.go. Go's maps of strings are
-- lists of distinct strings, whose order means nothing.
use virtnet.Prelude.{
  ℕ, Bool, true, false, List, [], ◌∷◌, map, if◌then◌else◌, Text, contains, Outcome, ok, ◌>>=◌,
}
use virtnet.Ip.{Ip, nil_ip, v4, v6, Net}
use virtnet.Ip.Range.{parse_ip_ranges}
use virtnet.Ip.Merge.{dedup, sort_ips}

-- The strings of the addresses that are not nil.
unfoldable pub strings_of : Net → List Ip → List Text
strings_of net [] = []
strings_of net (nil_ip ∷ ips) = strings_of net ips
strings_of net (v4 n ∷ ips) = net.ip_string (v4 n) ∷ strings_of net ips
strings_of net (v6 n ∷ ips) = net.ip_string (v6 n) ∷ strings_of net ips

-- The strings that are in the second list, or that are not.
unfoldable pub keep : Bool → List Text → List Text → List Text
unfolding contains
keep wanted [] marks = []
keep true (s ∷ ss) marks =
    let rest = keep true ss marks in if contains s marks then s ∷ rest else rest
keep false (s ∷ ss) marks =
    let rest = keep false ss marks in if contains s marks then rest else s ∷ rest

abbrev pub sort_if : Bool → List Ip → List Ip
sort_if true ips = sort_ips ips
sort_if false ips = ips

-- IPsDiffSet
unfoldable pub ips_diff_set : Net → List Ip → List Ip → Bool → List Ip
unfolding strings_of keep dedup sort_ips
ips_diff_set net ips1 ips2 sorted =
    sort_if sorted
      (map net.parse_ip (keep false (dedup (strings_of net ips1)) (strings_of net ips2)))

-- IPsIntersectionSet
unfoldable pub ips_intersection_set : Net → List Ip → List Ip → Bool → List Ip
unfolding strings_of keep dedup sort_ips
ips_intersection_set net ips1 ips2 sorted =
    sort_if sorted
      (map net.parse_ip (dedup (keep true (strings_of net ips2) (strings_of net ips1))))

-- AssembleTotalIPs
unfoldable pub assemble_total_ips : Net → ℕ → ℕ → List Text → List Text → Outcome (List Ip)
unfolding parse_ip_ranges ips_diff_set
assemble_total_ips net fuel version ip_ranges excluded_ip_ranges = do
  ips ← parse_ip_ranges net fuel version ip_ranges
  exclude_ips ← parse_ip_ranges net fuel version excluded_ip_ranges
  ok (ips_diff_set net ips exclude_ips false)
