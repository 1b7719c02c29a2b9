-- ===== src/Convert.antt =====
-- pkg/utils/convert/ippool.go and pkg/ptr/ptr.go, over an interface to `encoding/json`.
pub mod Laws
use virtnet.Prelude.{
  ℕ, ◌≡◌, Bool, true, false, not, ◌&&◌, List, [], ◌∷◌, ◌++◌, Option, none, some, if◌then◌else◌, ltb,
  Text, Outcome, ok, err, other, length, ◌>>=◌, require, ◌>>◌,
}
use virtnet.Ip.{Ip, nil_ip, Net, ip_equal}
use virtnet.Api.{PoolIpAllocations, PoolIpAllocation, PoolIpUnallocation, IpamAnnoSubnet}

-- json.Marshal and json.Unmarshal at the types that the code uses; `none` is an error. A decoded
-- `null` is a nil map. The order in an association list carries no meaning.
pub record Json : Type 0 where
  pub marshal_allocated : List (Text × PoolIpAllocation) → Option Text
  pub unmarshal_allocated : Text → Option PoolIpAllocations
  pub marshal_unallocated : PoolIpUnallocation → Option Text
  pub unmarshal_unallocated : Text → Option PoolIpUnallocation
  pub unmarshal_anno : Text → Option IpamAnnoSubnet

-- ptr.OrEmpty at strings and at integers
abbrev pub text_or_empty : Option Text → Text
text_or_empty none = []
text_or_empty (some t) = t

abbrev pub count_or_zero : Option ℕ → ℕ
count_or_zero none = 0
count_or_zero (some n) = n

-- The entries of a map; a nil map has none.
abbrev pub entries : PoolIpAllocations → List (Text × PoolIpAllocation)
entries none = []
entries (some m) = m

-- The error of a call that returns a value or an error with no kind of its own.
abbrev pub or_other {ℓ} : {A : Type ℓ} → Option A → Outcome A
or_other none = err other
or_other (some a) = ok a

-- UnmarshalIPPoolAllocatedIPs: a nil or empty text is the empty map.
unfoldable pub unmarshal_allocated_ips : Json → Option Text → Outcome PoolIpAllocations
unmarshal_allocated_ips json none = ok (some [])
unmarshal_allocated_ips json (some []) = ok (some [])
unmarshal_allocated_ips json (some (c ∷ s)) = or_other (json.unmarshal_allocated (c ∷ s))

-- MarshalIPPoolAllocatedIPs: a map with no entry is written as a nil pointer.
unfoldable pub marshal_allocated_ips : Json → List (Text × PoolIpAllocation) → Outcome (Option Text)
marshal_allocated_ips json [] = ok none
marshal_allocated_ips json (e ∷ m) = do
  text ← or_other (json.marshal_allocated (e ∷ m))
  ok (some text)

-- UnmarshalIPPoolUnallocatedIPs
unfoldable pub unmarshal_unallocated_ips : Json → Option Text → Outcome PoolIpUnallocation
unmarshal_unallocated_ips json none = ok []
unmarshal_unallocated_ips json (some []) = ok []
unmarshal_unallocated_ips json (some (c ∷ s)) = or_other (json.unmarshal_unallocated (c ∷ s))

-- MarshalIPPoolUnallocatedIPs
unfoldable pub marshal_unallocated_ips : Json → PoolIpUnallocation → Outcome (Option Text)
marshal_unallocated_ips json [] = ok none
marshal_unallocated_ips json (ip ∷ ips) = do
  text ← or_other (json.marshal_unallocated (ip ∷ ips))
  ok (some text)

-- UnmarshalIPAMAnnoSubnet: an address that is given must parse.
unfoldable pub unmarshal_ipam_anno_subnet : Net → Json → Text → Outcome IpamAnnoSubnet
unfolding ip_equal
unmarshal_ipam_anno_subnet net json text = do
  ret ← or_other (json.unmarshal_anno text)
  require (not (ltb 0 (length ret.address) && ip_equal (net.parse_ip ret.address) nil_ip)) other
  ok ret
