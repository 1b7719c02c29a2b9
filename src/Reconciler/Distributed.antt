-- ===== src/Reconciler/Distributed.antt =====
-- The part of Reconcile (pkg/subnet/subnet_reconciler.go) that hands out what remains, as a whole.
use virtnet.Prelude.{
  ℕ, suc, ◌+◌, ◌≤◌, ◌<◌, ◌≡◌, refl, inl, inr, ◌/◌, false, true, List, [], ◌∷◌, map, arith, Text,
  contains, length, ltb, Bool-cases, ok, subst, bind_ok, ◌&&◌,
}
use virtnet.Ip.{Ip, Net, ipv4}
use virtnet.Ip.Range.{parse_ip_ranges}
use virtnet.Api.{IpPool, Subnet, PoolIpUnallocation}
use virtnet.Convert.{Json}
use virtnet.Convert.Laws.{Lawful}
use virtnet.Cluster.{Cluster, PoolCache, IsCurrent}
use virtnet.Cluster.Owned.{IsView, list_pools-quiet}
use virtnet.Reconciler.{done, distribute}
use virtnet.Reconciler.Gather.{
  is_empty, all_unallocated, below_share, ippool_needs_expansion, ippools_unallocated_ips,
  ippools_allocated_ips,
}
use virtnet.Reconciler.Expand.{ippool_expansion}
use virtnet.Reconciler.Split.{split_unallocated_ips}
use virtnet.Reconciler.SplitLaws.{split_unallocated_ips_lem}
use virtnet.Reconciler.NeedLaws.{ippool_needs_expansion-some}
use virtnet.Reconciler.Stands.{AllStand, AllStand-AllRepresent}
use virtnet.Reconciler.GrowLaws.{
  Picks, Picks-all, below_share-Picks, HaveMore, HaveMore-none, expand_loop-IsView,
}
use virtnet.Inventory.{Shelf, count, all_addresses, held, IsUnique}
use virtnet.Inventory.Fresh.{remaining-IsFresh}

pub needs-Picks :
    (ps : List IpPool) (unallocation : List (Text × PoolIpUnallocation)) (remaining : List Text)
    → Picks (ippool_needs_expansion ps unallocation remaining) ps
unfolding ippool_needs_expansion
needs-Picks ps unallocation remaining =
    let share : ℕ = (length (all_unallocated unallocation) + length remaining) / length ps in
    elim (Bool-cases (is_empty (below_share share ps) && ltb 0 (length remaining))) [
      | inl nobody ↦ rw nobody (Picks-all ps)
      | inr some ↦ rw some (below_share-Picks share ps)
    ]

-- The pools of the owner after a part of Reconcile, beside their shelves.
pub record IsSettled (json : Json) (owner : Text) (c : Cluster) (qs : List IpPool) (ts : List Shelf)
    : Type 0 where
  pub view : IsView owner c qs
  pub stand : AllStand json qs ts
  pub unique : IsUnique ts

module _ (json : Json) (lawful : Lawful json) (owner : Text) where
  expansion-IsView :
      (needs ps : List IpPool) (ss : List Shelf) (remaining : List Text) (c : Cluster)
      → Picks needs ps
      → is_empty needs ≡ false
      → IsView owner c ps
      → AllStand json ps ss
      → (c' : Cluster) × (qs : List IpPool) × (ts : List Shelf) × (ippool_expansion json needs
            remaining c
          ≡ (ok tt, c'))
        × IsView owner c' qs
        × AllStand json qs ts
        × (length qs ≡ length ps)
        × HaveMore remaining ss ts
  unfolding ippool_expansion
  expansion-IsView [] ps ss remaining c picked some view h = absurd cc
  expansion-IsView (p ∷ needs) ps ss [] c picked some view h =
      (c, ps, ss, refl, view, h, refl, HaveMore-none ss)
  expansion-IsView (p ∷ needs) ps ss (ip ∷ remaining) c picked some view h =
      let (whole, few, _) = split_unallocated_ips_lem (ip ∷ remaining) (length needs) in
      let (c', qs, ts, run, view', h', len, more) =
        expand_loop-IsView json lawful owner [] ss
          (split_unallocated_ips (ip ∷ remaining) (suc (length needs))) c picked few view h in
      (c', qs, ts, run, view', h', len, subst (λ (l : List Text). HaveMore l ss ts) whole more)

  nothing_left : (needs : List IpPool) (c : Cluster) → ippool_expansion json needs [] c ≡ (ok tt, c)
  unfolding ippool_expansion
  nothing_left [] c = refl
  nothing_left (p ∷ needs) c = refl

  needed-IsView :
      (ps : List IpPool) (ss : List Shelf) (unallocation : List (Text × PoolIpUnallocation))
      (remaining : List Text) (c : Cluster)
      → 0 < length ps
      → IsView owner c ps
      → AllStand json ps ss
      → (c' : Cluster) × (qs : List IpPool) × (ts : List Shelf) × (ippool_expansion json
            (ippool_needs_expansion ps unallocation remaining)
            remaining
            c
          ≡ (ok tt, c'))
        × IsView owner c' qs
        × AllStand json qs ts
        × (length qs ≡ length ps)
        × HaveMore remaining ss ts
  needed-IsView [] ss unallocation remaining c pos view h = absurd (omega arith)
  needed-IsView (p ∷ ps) ss unallocation [] c pos view h = (
    c,
    p ∷ ps,
    ss,
    nothing_left (ippool_needs_expansion (p ∷ ps) unallocation []) c,
    view,
    h,
    refl,
    HaveMore-none ss,
  )
  needed-IsView (p ∷ ps) ss unallocation (ip ∷ remaining) c pos view h =
      expansion-IsView (ippool_needs_expansion (p ∷ ps) unallocation (ip ∷ remaining)) (p ∷ ps) ss
        (ip ∷ remaining) c (needs-Picks (p ∷ ps) unallocation (ip ∷ remaining))
        (ippool_needs_expansion-some p ps unallocation ip remaining).0 view h

-- On pools with different names and right counts, of which no address is in two, the part of
-- Reconcile behind the release of addresses succeeds on a server that refuses nothing, given a
-- Subnet that lists each address once: then every listed address is in a pool, none is in two, and
-- the addresses in use are those that were.
pub distribute-IsSettled :
    (cache : PoolCache) (net : Net) (json : Json) (lawful : Lawful json) (fuel : ℕ) (owner : Subnet)
    (c : Cluster) (ps : List IpPool) (ss : List Shelf) (ips : List Ip)
    → IsCurrent cache
    → 0 < length ps
    → IsSettled json owner.meta.name c ps ss
    → parse_ip_ranges net fuel ipv4 owner.spec.ips ≡ ok ips
    → ((x : Text) → count x (map net.ip_string ips) ≤ 1)
    → (c' : Cluster) × (qs : List IpPool) × (ts : List Shelf) × (distribute cache net json fuel
          owner c
        ≡ (ok done, c'))
      × IsSettled json owner.meta.name c' qs ts
      × (length qs ≡ length ps)
      × (held ts ≡ held ss)
      × ((x : Text) → contains x (map net.ip_string ips) ≡ true → 0 < count x (all_addresses ts))
unfolding distribute
distribute-IsSettled cache net json lawful fuel owner c ps ss ips current pos settled listed once =
    let view : IsView owner.meta.name c ps = settled.view in
    let (remaining, run, fresh, covers) =
      remaining-IsFresh net json fuel owner ps ss ips view.named
        (AllStand-AllRepresent json ps ss settled.stand) settled.unique listed once in
    let (unallocation, free, run1) = bind_ok (ippools_unallocated_ips json ps) _ remaining run in
    let (allocations, taken, left) = bind_ok (ippools_allocated_ips json ps) _ remaining run1 in
    let (c', qs, ts, expanded, view', stand', len, more) =
      needed-IsView json lawful owner.meta.name ps ss unallocation remaining c pos view
        settled.stand in
    (
      c',
      qs,
      ts,
      rw
          (
            list_pools-quiet cache owner.meta.name c current view.quiet,
            view.listed,
            free,
            taken,
            left,
            expanded,
          )
          refl,
      record {
        view = view';
        stand = stand';
        unique = λ x. omega (arith, more.together x, fresh x);
      },
      len,
      more.same_held,
      λ x there. omega (arith, more.together x, covers x there),
    )
