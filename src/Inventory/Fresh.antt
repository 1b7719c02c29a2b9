-- ===== src/Inventory/Fresh.antt =====
-- What Reconcile (pkg/subnet/subnet_reconciler.go) hands out, against the shelves of the pools.
use virtnet.Prelude.{
  ℕ, ◌+◌, ◌≤◌, ◌<◌, ◌≡◌, refl, ap, ◌∙◌, true, false, List, [], ◌∷◌, ◌++◌, map, none, some, arith,
  Text, text_eq, text_eq_iff, lookup, insert_absent, contains, keys, All, ok, ◌>>=◌, if◌then◌else◌,
}
use mathlib.Core.List.{append_assoc, append-nil}
use virtnet.Ip.{Ip, Net, ipv4}
use virtnet.Ip.Range.{parse_ip_ranges}
use virtnet.Api.{IpPool, Subnet, PoolIpUnallocation, PoolIpAllocations}
use virtnet.Convert.{Json}
use virtnet.Cluster.Owned.{AreNamed}
use virtnet.Reconciler.Gather.{
  unallocated_into, allocated_into, ippools_unallocated_ips, ippools_allocated_ips, all_unallocated,
  all_allocated, not_in, remaining_unallocated_ips,
}
use virtnet.Inventory.{Shelf, count, addresses, all_addresses, IsUnique, IsFresh}
use virtnet.Inventory.Unique.{count-append, contains-count}
use virtnet.Inventory.Refines.{AllRepresent}

by_name {ℓ} : {V : Type ℓ} → (Shelf → V) → List IpPool → List Shelf → List (Text × V)
by_name f (p ∷ ps) (s ∷ ss) = (p.meta.name, f s) ∷ by_name f ps ss
by_name f _ _ = []

abbrev AreNew {ℓ} : {V : Type ℓ} → List IpPool → List (Text × V) → Type ℓ
AreNew ps m = All (λ (p : IpPool). lookup p.meta.name m ≡ none) ps

lookup-one_more {ℓ} :
    {V : Type ℓ} (j k : Text) (v : V) (m : List (Text × V))
    → text_eq j k ≡ false
    → lookup k m ≡ none
    → lookup k (m ++ (j, v) ∷ []) ≡ none
unfolding lookup
lookup-one_more j k v [] differs h = rw differs refl
lookup-one_more j k v ((i, w) ∷ m) differs h = ground (arith, lookup-one_more j k v m)

AreNew-one_more {ℓ} :
    {V : Type ℓ} (j : Text) (v : V) (ps : List IpPool) (m : List (Text × V))
    → All (λ (q : IpPool). text_eq j q.meta.name ≡ false) ps
    → AreNew ps m
    → AreNew ps (m ++ (j, v) ∷ [])
AreNew-one_more j v [] m differ h = tt
AreNew-one_more j v (p ∷ ps) m (d, differ) (n, h) =
    (lookup-one_more j p.meta.name v m d n, AreNew-one_more j v ps m differ h)

unallocated_into-by_name :
    (json : Json) (m : List (Text × PoolIpUnallocation)) (ps : List IpPool) (ss : List Shelf)
    → AreNamed ps
    → AreNew ps m
    → AllRepresent json ps ss
    → unallocated_into json m ps ≡ ok (m ++ by_name (λ s. s.unused) ps ss)
unfolding unallocated_into by_name
unallocated_into-by_name json m [] [] named new h = rw (append-nil) refl
unallocated_into-by_name json m [] (s ∷ ss) named new h = absurd h
unallocated_into-by_name json m (p ∷ ps) [] named new h = absurd h
unallocated_into-by_name json m (p ∷ ps) (s ∷ ss) (d, named) (n, new) (r, h) =
    rw (r.reads_unallocated, insert_absent p.meta.name s.unused m n)
      (unallocated_into-by_name json (m ++ (p.meta.name, s.unused) ∷ []) ps ss named
          (AreNew-one_more p.meta.name s.unused ps m d new) h
        ∙ ap ok (append_assoc m ((p.meta.name, s.unused) ∷ []) (by_name (λ s. s.unused) ps ss)))

allocated_into-by_name :
    (json : Json) (m : List (Text × PoolIpAllocations)) (ps : List IpPool) (ss : List Shelf)
    → AreNamed ps
    → AreNew ps m
    → AllRepresent json ps ss
    → allocated_into json m ps ≡ ok (m ++ by_name (λ s. some s.used) ps ss)
unfolding allocated_into by_name
allocated_into-by_name json m [] [] named new h = rw (append-nil) refl
allocated_into-by_name json m [] (s ∷ ss) named new h = absurd h
allocated_into-by_name json m (p ∷ ps) [] named new h = absurd h
allocated_into-by_name json m (p ∷ ps) (s ∷ ss) (d, named) (n, new) (r, h) =
    rw (r.reads_allocated, insert_absent p.meta.name (some s.used) m n)
      (allocated_into-by_name json (m ++ (p.meta.name, some s.used) ∷ []) ps ss named
          (AreNew-one_more p.meta.name (some s.used) ps m d new) h
        ∙ ap ok
            (append_assoc m ((p.meta.name, some s.used) ∷ []) (by_name (λ s. some s.used) ps ss)))

count-by_name :
    (json : Json) (x : Text) (ps : List IpPool) (ss : List Shelf)
    → AllRepresent json ps ss
    → count x (all_unallocated (by_name (λ s. s.unused) ps ss))
        + count x (all_allocated (by_name (λ s. some s.used) ps ss))
      ≡ count x (all_addresses ss)
unfolding count all_unallocated all_allocated all_addresses by_name
count-by_name json x [] [] h = omega arith
count-by_name json x [] (s ∷ ss) h = absurd h
count-by_name json x (p ∷ ps) [] h = absurd h
count-by_name json x (p ∷ ps) (s ∷ ss) (r, h) = omega (
  arith,
  count-by_name json x ps ss h,
  count-append x s.unused (all_unallocated (by_name (λ s. s.unused) ps ss)),
  count-append x (keys s.used) (all_allocated (by_name (λ s. some s.used) ps ss)),
  count-append x (addresses s) (all_addresses ss),
  count-append x (keys s.used) s.unused,
)

new_to_none {ℓ} : (V : Type ℓ) (ps : List IpPool) → AreNew {V = V} ps []
unfolding lookup
new_to_none V [] = tt
new_to_none V (p ∷ ps) = (refl, new_to_none V ps)

count-not_in :
    (net : Net) (index : List Text) (ips : List Ip) (x : Text)
    → count x (not_in net index ips)
      ≡ (if contains x index then 0 else count x (map net.ip_string ips))
unfolding count not_in
count-not_in net index [] x = ground arith
count-not_in net index (ip ∷ ips) x =
    ground (arith, count-not_in net index ips x, text_eq_iff (net.ip_string ip) x)

pub ippools_unallocated_ips-ok :
    (json : Json) (ps : List IpPool) (ss : List Shelf)
    → AreNamed ps
    → AllRepresent json ps ss
    → (m : List (Text × PoolIpUnallocation)) × (ippools_unallocated_ips json ps ≡ ok m)
unfolding ippools_unallocated_ips
ippools_unallocated_ips-ok json ps ss named h = (
  by_name (λ s. s.unused) ps ss,
  unallocated_into-by_name json [] ps ss named (new_to_none _ ps) h,
)

-- On pools with different names, whose addresses are all different, the addresses that remain for a
-- Subnet that lists each address once are new to the pools and each once, and with those of the
-- pools they cover every address that the Subnet lists.
pub remaining-IsFresh :
    (net : Net) (json : Json) (fuel : ℕ) (owner : Subnet) (ps : List IpPool) (ss : List Shelf)
    (ips : List Ip)
    → AreNamed ps
    → AllRepresent json ps ss
    → IsUnique ss
    → parse_ip_ranges net fuel ipv4 owner.spec.ips ≡ ok ips
    → ((x : Text) → count x (map net.ip_string ips) ≤ 1)
    → (remaining : List Text) × ((do
      unallocation ← ippools_unallocated_ips json ps
      allocations ← ippools_allocated_ips json ps
      remaining_unallocated_ips net fuel owner unallocation allocations)
        ≡ ok remaining)
      × IsFresh remaining ss
      × ((x : Text)
          → contains x (map net.ip_string ips) ≡ true
          → 0 < count x remaining + count x (all_addresses ss))
unfolding ippools_unallocated_ips ippools_allocated_ips remaining_unallocated_ips
remaining-IsFresh net json fuel owner ps ss ips named h unique listed once =
    let free : List Text = all_unallocated (by_name (λ s. s.unused) ps ss) in
    let taken : List Text = all_allocated (by_name (λ s. some s.used) ps ss) in
    let sum : (x : Text) → count x (free ++ taken) ≡ count x (all_addresses ss) =
      λ x. count-append x free taken ∙ count-by_name json x ps ss h in
    (
      not_in net (free ++ taken) ips,
      rw
          (
            unallocated_into-by_name json [] ps ss named (new_to_none _ ps) h,
            allocated_into-by_name json [] ps ss named (new_to_none _ ps) h,
            listed,
          )
          refl,
      λ x. ground (
        arith,
        count-not_in net (free ++ taken) ips x,
        contains-count x (free ++ taken),
        sum x,
        unique x,
        once x,
      ),
      λ x there. ground (
        arith,
        count-not_in net (free ++ taken) ips x,
        contains-count x (free ++ taken),
        contains-count x (map net.ip_string ips),
        sum x,
      ),
    )
