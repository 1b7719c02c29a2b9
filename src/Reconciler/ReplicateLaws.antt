-- ===== src/Reconciler/ReplicateLaws.antt =====
-- How many pools replicate (pkg/subnet/subnet_reconciler.go) leaves.
use virtnet.Prelude.{
  ℕ, zero, suc, ◌+◌, ◌-◌, ◌≤◌, ◌≡◌, refl, List, [], ◌∷◌, ◌++◌, arith, Text, text_eq, text_eq_refl,
  lookup, ok, length,
}
use virtnet.Api.{IpPool, Subnet}
use virtnet.Cluster.{Cluster, PoolCache, IsCurrent, answered, owner_of, owned_by, create_pool}
use virtnet.Cluster.Owned.{list_pools-quiet}
use virtnet.Reconciler.Replicate.{new_pool, create_pools, delete_pools, replicate}

length-owned_by_append :
    (owner : Text) (ps : List IpPool) (p : IpPool)
    → owner_of p ≡ owner
    → length (owned_by owner (ps ++ p ∷ [])) ≡ length (owned_by owner ps) + 1
unfolding owned_by
length-owned_by_append owner [] p h = rw (h, text_eq_refl owner) refl
length-owned_by_append owner (q ∷ ps) p h = ground (arith, length-owned_by_append owner ps p h)

-- The label decides the owner, whatever the name.
pub owner_of-new_pool :
    (s : Subnet) (name : Text)
    → owner_of (record (new_pool s) { meta = record (new_pool s).meta { name = name } })
      ≡ s.meta.name
unfolding owner_of new_pool lookup text_eq
owner_of-new_pool s name = refl

pub create_pool-quiet :
    (c : Cluster) (p : IpPool) (suffix : Text) (names : List Text)
    → c.answers ≡ []
    → c.names ≡ suffix ∷ names
    → create_pool p c ≡ (
      ok tt,
      record c {
        pools = c.pools ++ record p { meta = record p.meta { name = p.meta.name ++ suffix } } ∷ [];
        names = names;
      },
    )
unfolding create_pool answered
create_pool-quiet c p suffix names quiet e = rw (quiet, e) refl

create_pools-owned :
    (n : ℕ) (s : Subnet) (c : Cluster) (names : List Text)
    → c.answers ≡ []
    → c.names ≡ names
    → n ≤ length names
    → (c' : Cluster) × (create_pools n (new_pool s) c ≡ (ok tt, c'))
      × (length (owned_by s.meta.name c'.pools) ≡ length (owned_by s.meta.name c.pools) + n)
unfolding create_pools
create_pools-owned zero s c names quiet e enough = (c, refl, omega arith)
create_pools-owned (suc n) s c [] quiet e enough = absurd (omega arith)
create_pools-owned (suc n) s c (suffix ∷ names) quiet e enough =
    let name : Text = (new_pool s).meta.name ++ suffix in
    let p : IpPool = record (new_pool s) { meta = record (new_pool s).meta { name = name } } in
    let c1 : Cluster = record c { pools = c.pools ++ p ∷ []; names = names } in
    let (c', run, count) = create_pools-owned n s c1 names quiet refl (omega arith) in
    (
      c',
      rw (create_pool-quiet c (new_pool s) suffix names quiet e) run,
      omega (arith, count, length-owned_by_append s.meta.name c.pools p (owner_of-new_pool s name)),
    )

-- If the Subnet has no more pools than it asks for, and the server refuses nothing and has names
-- for the new ones, replicate creates pools until there are as many as the Subnet asks for.
replicate-owned :
    (cache : PoolCache) (s : Subnet) (c : Cluster)
    → IsCurrent cache
    → c.answers ≡ []
    → length (owned_by s.meta.name c.pools) ≤ s.spec.replicas
    → s.spec.replicas - length (owned_by s.meta.name c.pools) ≤ length c.names
    → (c' : Cluster) × (replicate cache s c ≡ (ok tt, c'))
      × (length (owned_by s.meta.name c'.pools) ≡ s.spec.replicas)
unfolding replicate delete_pools
replicate-owned cache s c current quiet few enough =
    let ps : List IpPool = owned_by s.meta.name c.pools in
    let (c', run, count) =
      create_pools-owned (s.spec.replicas - length ps) s c c.names quiet refl enough in
    let none_left : length ps - s.spec.replicas ≡ 0 = omega arith in
    (c', rw (list_pools-quiet cache s.meta.name c current quiet, run, none_left) refl, omega arith)
