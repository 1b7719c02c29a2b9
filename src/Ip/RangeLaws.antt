-- ===== src/Ip/RangeLaws.antt =====
-- ParseIPRange, ContainsIPRange and IPRangeContainsIP (pkg/ip/iprange.go) on a range "a-b" of two
-- IPv4 addresses.
use virtnet.Prelude.{
  ℕ, ◌+◌, ◌-◌, ◌≤◌, ◌<◌, ◌≡◌, ◌∙◌, Bool, true, ◌&&◌, ◌↔◌, [], ◌∷◌, arith, Text, split, ok, err,
  out_of_fuel, other, leb,
}
use virtnet.Ip.{Net, v4, ipv4}
use virtnet.Ip.Range.{parse_ip_range, ip_range_contains_ip, walk}
use virtnet.Ip.Walk.{addresses_from, walk-addresses_from, walk-endless, IsEndless}
use virtnet.Ip.MergeLaws.{IsInner}

-- The text is "s-t" for two texts that are read as the IPv4 addresses `a` and `b`.
pub record IsRange (net : Net) (r : Text) (a b : ℕ) : Type 0 where
  pub first : Text
  pub last : Text
  pub splits : split b'-' r ≡ first ∷ last ∷ []
  pub reads_first : net.parse_ip first ≡ v4 a
  pub reads_last : net.parse_ip last ≡ v4 b
  pub passes_first : net.is_ipv4 first ≡ true
  pub passes_last : net.is_ipv4 last ≡ true

module _ (net : Net) (fuel : ℕ) (r : Text) (a b : ℕ) (range : IsRange net r a b) where
  parse_ip_range-walk : a ≤ b → parse_ip_range net fuel ipv4 r ≡ walk fuel (v4 a) (v4 b)
  unfolding parse_ip_range
  parse_ip_range-walk le = rw (range.splits) (
      simp (range.passes_first, range.passes_last, range.reads_first, range.reads_last)
        (ground arith))

  -- A range that is in order, starts at 1.0.0.0 or later and ends before 255.255.255.255 is read
  -- as all its addresses in order, given more fuel than addresses.
  pub parse_ip_range-addresses_from :
      a ≤ b
      → IsInner a
      → IsInner b
      → b + 1 - a < fuel
      → parse_ip_range net fuel ipv4 r ≡ ok (addresses_from a (b + 1 - a))
  parse_ip_range-addresses_from le i j f =
      parse_ip_range-walk le
      ∙ walk-addresses_from (b + 1 - a) fuel a b (omega arith) (omega arith) (omega arith) f

  -- A range in the wrong order is refused.
  parse_ip_range-disordered : b < a → parse_ip_range net fuel ipv4 r ≡ err other
  unfolding parse_ip_range
  parse_ip_range-disordered gt = rw (range.splits) (
      simp (range.passes_first, range.passes_last, range.reads_first, range.reads_last)
        (ground arith))

  -- An endless range passes the test of IsIPRange, and reading it never ends.
  pub parse_ip_range-endless : IsEndless a b → parse_ip_range net fuel ipv4 r ≡ out_of_fuel
  parse_ip_range-endless h = parse_ip_range-walk h.0 ∙ walk-endless fuel a b h

  -- IPRangeContainsIP says yes exactly for the addresses between the two ends.
  pub ip_range_contains_ip-between :
      (ip : Text) (x : ℕ)
      → a ≤ b
      → net.is_ipv4 ip ≡ true
      → net.parse_ip ip ≡ v4 x
      → (answer : Bool) × (ip_range_contains_ip net ipv4 r ip ≡ ok answer)
        × ((answer ≡ true) ↔ ((a ≤ x) × (x ≤ b)))
  unfolding ip_range_contains_ip
  ip_range_contains_ip-between ip x le passes reads = (
    leb a x && leb x b,
    rw (range.splits) (
        simp
          (
            range.passes_first, range.passes_last, range.reads_first, range.reads_last, passes,
            reads,
          )
          (ground arith)),
    ground arith,
  )
