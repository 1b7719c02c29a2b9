-- ===== src/Ip/CidrLaws.antt =====
-- Subnets as sets of addresses: pkg/ip/cidr.go and ContainsIPRange of pkg/ip/iprange.go.
use native.Mathlib.Nat.{le-div_iff_mul-le, div-mul-le_self, div-div-eq-div-mul, one-le-pow, pow-suc}
use virtnet.Prelude.{
  ℕ, zero, suc, ◌+◌, ◌-◌, ◌*◌, ◌/◌, ◌^◌, ◌≤◌, ◌<◌, ◌≡◌, refl, inl, inr, Bool, true, ◌||◌, ◌↔◌,
  arith, some, Text, ok, Bool-cases, dec_le,
}
use virtnet.Ip.{Ip, nil_ip, IpNet, Net, v4, v6, ipv4, contains_by, net_contains, v4_ones}
use virtnet.Ip.Cidr.{contains_net, is_cidr_overlap}

pow-pos : (n : ℕ) → 0 < 2 ^ n
pow-pos n = one-le-pow n 2 (omega arith)

div_mono : (a b d : ℕ) → 0 < d → a ≤ b → a / d ≤ b / d
div_mono a b d pos le =
    (le-div_iff_mul-le {k = d} {x = a / d} {y = b} pos).1 (omega (arith, div-mul-le_self a d))

pow_add : (i j : ℕ) → 2 ^ (i + j) ≡ 2 ^ i * 2 ^ j
pow_add i zero = let e : i + 0 ≡ i = omega arith in rw e (omega arith)
pow_add i (suc j) =
    let e : i + suc j ≡ suc (i + j) = omega arith in
    rw (e, pow-suc 2 (i + j), pow-suc 2 j, pow_add i j) (omega arith)

-- A coarser mask sees no more than a finer one.
div-coarser : (x y i j : ℕ) → i ≤ j → x / 2 ^ i ≡ y / 2 ^ i → x / 2 ^ j ≡ y / 2 ^ j
div-coarser x y i j le e =
    let split : j ≡ i + (j - i) = omega arith in
    rw
      (
        split,
        pow_add i (j - i),
        ← div-div-eq-div-mul x (2 ^ i) (2 ^ (j - i)),
        ← div-div-eq-div-mul y (2 ^ i) (2 ^ (j - i)),
        e,
      )
      refl

contains_by-between :
    (i : Ip) (ones a b x : ℕ)
    → contains_by i (v4 a) ones ≡ true
    → contains_by i (v4 b) ones ≡ true
    → a ≤ x
    → x ≤ b
    → contains_by i (v4 x) ones ≡ true
unfolding contains_by
contains_by-between (v4 m) ones a b x h k le le' = ground (
  arith,
  div_mono a x (2 ^ (32 - v4_ones ones)) (pow-pos (32 - v4_ones ones)),
  div_mono x b (2 ^ (32 - v4_ones ones)) (pow-pos (32 - v4_ones ones)),
)
contains_by-between nil_ip ones a b x h k le le' = cc
contains_by-between (v6 m) ones a b x h k le le' = cc

-- A subnet that has the first and the last address of a range has all between them.
pub net_contains-between :
    (n : IpNet) (a b x : ℕ)
    → net_contains n (v4 a) ≡ true
    → net_contains n (v4 b) ≡ true
    → a ≤ x
    → x ≤ b
    → net_contains n (v4 x) ≡ true
unfolding net_contains
net_contains-between n = contains_by-between n.ip n.ones

abbrev pub v4_net : ℕ → ℕ → IpNet
v4_net m ones = record { ip = v4 m; ones = ones }

-- Some IPv4 address lies in both subnets.
abbrev pub HaveCommon : IpNet → IpNet → Type 0
HaveCommon n1 n2 = (x : ℕ) × (net_contains n1 (v4 x) ≡ true) × (net_contains n2 (v4 x) ≡ true)

v4_ones-plain : (p : ℕ) → p ≤ 32 → v4_ones p ≡ p
unfolding v4_ones
v4_ones-plain p le = ground arith

-- Two subnets of IPv4 addresses with masks of 4 bytes.
module _ (m n p q : ℕ) (p_le : p ≤ 32) (q_le : q ≤ 32) where
  common-contains_net :
      HaveCommon (v4_net m p) (v4_net n q) → p ≤ q → contains_net (v4_net m p) (v4_net n q) ≡ true
  unfolding contains_net
  common-contains_net (x, h, k) le =
      let h' = rw (v4_ones-plain p p_le) at h in
      let k' = rw (v4_ones-plain q q_le) at k in
      rw (v4_ones-plain p p_le) (ground (arith, div-coarser x n (32 - q) (32 - p) (omega arith)))

  contains_net-common :
      contains_net (v4_net m p) (v4_net n q) ≡ true → HaveCommon (v4_net m p) (v4_net n q)
  unfolding contains_net
  contains_net-common h = (n, ground arith, ground arith)

module _ (m n p q : ℕ) (p_le : p ≤ 32) (q_le : q ≤ 32) where
  overlap-common :
      (contains_net (v4_net m p) (v4_net n q) || contains_net (v4_net n q) (v4_net m p)) ≡ true
      → HaveCommon (v4_net m p) (v4_net n q)
  overlap-common h = elim (Bool-cases (contains_net (v4_net m p) (v4_net n q))) [
    | inl e ↦ contains_net-common m n p q p_le q_le e
    | inr e ↦ let (x, k, l) = contains_net-common n m q p q_le p_le (ground arith) in (x, l, k)
  ]

  common-overlap :
      HaveCommon (v4_net m p) (v4_net n q)
      → (contains_net (v4_net m p) (v4_net n q) || contains_net (v4_net n q) (v4_net m p)) ≡ true
  common-overlap (x, h, k) = elim (dec_le p q) [
    | yes le ↦ ground (arith, common-contains_net m n p q p_le q_le (x, h, k) le)
    | no gt ↦ ground (arith, common-contains_net n m q p q_le p_le (x, k, h) (omega arith))
  ]

-- IsCIDROverlap answers on two IPv4 subnets with prefixes of at most 32 bits, and says yes exactly
-- when they share an address.
pub is_cidr_overlap-HaveCommon :
    (net : Net) (subnet1 subnet2 : Text) (i j m n p q : ℕ)
    → p ≤ 32
    → q ≤ 32
    → net.parse_cidr subnet1 ≡ some (v4 i, v4_net m p)
    → net.parse_cidr subnet2 ≡ some (v4 j, v4_net n q)
    → (answer : Bool) × (is_cidr_overlap net ipv4 subnet1 subnet2 ≡ ok answer)
      × ((answer ≡ true) ↔ HaveCommon (v4_net m p) (v4_net n q))
unfolding is_cidr_overlap
is_cidr_overlap-HaveCommon net subnet1 subnet2 i j m n p q p_le q_le e f = (
  contains_net (v4_net m p) (v4_net n q) || contains_net (v4_net n q) (v4_net m p),
  ground arith,
  (overlap-common m n p q p_le q_le, common-overlap m n p q p_le q_le),
)
