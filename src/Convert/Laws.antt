-- ===== src/Convert/Laws.antt =====
-- Round trips of pkg/utils/convert/ippool.go, from what `encoding/json` documents.
use virtnet.Prelude.{ℕ, ◌≡◌, refl, List, [], ◌∷◌, Option, none, some, Text, ok}
use virtnet.Api.{PoolIpAllocation, PoolIpUnallocation}
use virtnet.Convert.{
  Json, unmarshal_allocated_ips, marshal_allocated_ips, unmarshal_unallocated_ips,
  marshal_unallocated_ips,
}

-- A map or a slice with entries is marshalled without error to a text that is not empty, from
-- which it is unmarshalled again.
pub record Lawful (json : Json) : Type 0 where
  pub allocated :
      (e : Text × PoolIpAllocation) (m : List (Text × PoolIpAllocation))
      → (c : ℕ) × (s : Text) × (json.marshal_allocated (e ∷ m) ≡ some (c ∷ s))
        × (json.unmarshal_allocated (c ∷ s) ≡ some (some (e ∷ m)))
  pub unallocated :
      (ip : Text) (ips : PoolIpUnallocation)
      → (c : ℕ) × (s : Text) × (json.marshal_unallocated (ip ∷ ips) ≡ some (c ∷ s))
        × (json.unmarshal_unallocated (c ∷ s) ≡ some (ip ∷ ips))

module _ (json : Json) (lawful : Lawful json) where
  -- What is marshalled as the records of a pool is unmarshalled as them, the empty map too.
  pub unmarshal-marshal_allocated_ips :
      (m : List (Text × PoolIpAllocation))
      → (text : Option Text) × (marshal_allocated_ips json m ≡ ok text)
        × (unmarshal_allocated_ips json text ≡ ok (some m))
  unfolding marshal_allocated_ips unmarshal_allocated_ips
  unmarshal-marshal_allocated_ips [] = (none, refl, refl)
  unmarshal-marshal_allocated_ips (e ∷ m) =
      let (c, s, written, read) = lawful.allocated e m in (some (c ∷ s), rw written, rw read)

  -- What is marshalled as free addresses is unmarshalled as them, the empty list too.
  pub unmarshal-marshal_unallocated_ips :
      (ips : PoolIpUnallocation)
      → (text : Option Text) × (marshal_unallocated_ips json ips ≡ ok text)
        × (unmarshal_unallocated_ips json text ≡ ok ips)
  unfolding marshal_unallocated_ips unmarshal_unallocated_ips
  unmarshal-marshal_unallocated_ips [] = (none, refl, refl)
  unmarshal-marshal_unallocated_ips (ip ∷ ips) =
      let (c, s, written, read) = lawful.unallocated ip ips in (some (c ∷ s), rw written, rw read)
