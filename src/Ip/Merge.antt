-- ===== src/Ip/Merge.antt =====
-- pkg/ip/iprange.go, ConvertIPsToIPRanges and MergeIPRanges: addresses to sorted, merged ranges.
use virtnet.Prelude.{
  ℕ, zero, suc, true, false, not, ◌&&◌, ◌||◌, List, [], ◌∷◌, ◌++◌, map, ◌==◌, ltb, if◌then◌else◌,
  Text, contains, Outcome, ok, other, require, ◌>>◌, ◌>>=◌,
}
use virtnet.Ip.{Ip, Net, ipv4, ipv6, is_to4, not_to4, ip_equal, next_ip, sort_key, is_ip_version}
use virtnet.Ip.Range.{parse_ip_ranges}

-- The keys of a `map[string]struct{}` filled in order: each string once.
unfoldable pub dedup : List Text → List Text
unfolding contains
dedup [] = []
dedup (s ∷ ss) = let rest = dedup ss in if contains s rest then rest else s ∷ rest

-- `sort.Slice` by the 16 bytes of the address.
unfoldable pub insert_sorted : Ip → List Ip → List Ip
unfolding sort_key
insert_sorted a [] = a ∷ []
insert_sorted a (b ∷ ips) =
    if ltb (sort_key b) (sort_key a) then b ∷ insert_sorted a ips else a ∷ b ∷ ips

unfoldable pub sort_ips : List Ip → List Ip
unfolding insert_sorted
sort_ips [] = []
sort_ips (a ∷ ips) = insert_sorted a (sort_ips ips)

-- The loop that fills the set: an address of the other family is an error.
unfoldable pub collect : Net → ℕ → List Ip → Outcome (List Text)
collect net version [] = ok []
collect net version (ip ∷ ips) = do
  require (not ((version == ipv4 && not_to4 ip) || (version == ipv6 && is_to4 ip))) other
  strings ← collect net version ips
  ok (net.ip_string ip ∷ strings)

-- `ipRanges = append(ipRanges, …)`: one address, or the first and the last of several.
unfoldable pub format_range : Net → Ip → Ip → ℕ → Text
format_range net start end zero = net.ip_string start
format_range net start end (suc width) = net.ip_string start ++ b'-' ∷ net.ip_string end

-- The merging loop over the addresses behind `ips[end]`; `start` and `end` are the two addresses,
-- and `width` is the difference of the two indices.
unfoldable pub merge_loop : Net → Ip → Ip → ℕ → List Ip → List Text
unfolding format_range ip_equal next_ip
merge_loop net start end width [] = format_range net start end width ∷ []
merge_loop net start end width (ip ∷ ips) = elim (ip_equal ip (next_ip end)) [
  | true ↦ merge_loop net start ip (suc width) ips
  | false ↦ format_range net start end width ∷ merge_loop net ip ip 0 ips
]

unfoldable pub merge_sorted : Net → List Ip → List Text
unfolding merge_loop
merge_sorted net [] = []
merge_sorted net (ip ∷ ips) = merge_loop net ip ip 0 ips

-- ConvertIPsToIPRanges
unfoldable pub convert_ips_to_ip_ranges : Net → ℕ → List Ip → Outcome (List Text)
unfolding is_ip_version collect dedup sort_ips merge_sorted
convert_ips_to_ip_ranges net version ips = do
  is_ip_version version
  strings ← collect net version ips
  ok (merge_sorted net (sort_ips (map net.parse_ip (dedup strings))))

-- MergeIPRanges
unfoldable pub merge_ip_ranges : Net → ℕ → ℕ → List Text → Outcome (List Text)
unfolding parse_ip_ranges convert_ips_to_ip_ranges
merge_ip_ranges net fuel version ip_ranges = do
  ips ← parse_ip_ranges net fuel version ip_ranges
  convert_ips_to_ip_ranges net version ips
