-- ===== src/Endpoints/RoundTrip.antt =====
-- An address that is allocated (pkg/ippool/ippool_client.go) and then released
-- (pkg/endpoint/endpoint_reconciler.go).
use virtnet.Prelude.{
  ◌≡◌, refl, ap, ◌∙◌, inl, inr, List, [], ◌∷◌, ◌++◌, arith, none, some, Text, text_eq_refl, lookup,
  delete, length, ok, subst,
}
use virtnet.Ip.{Net}
use virtnet.Api.{IpPool, IpAllocationDetail, PoolIpAllocation, Pod}
use virtnet.Convert.{Json}
use virtnet.Convert.Laws.{Lawful}
use virtnet.Pool.Allocate.{allocate_from, allocation_of}
use virtnet.Pool.Conservation.{Holds, Counts, allocate_from-Holds}
use virtnet.Endpoints.{key_of, release_from}
use virtnet.Endpoints.Freed.{Allocations, free, release_from_lem}

lookup-append_last :
    (ip : Text) (a : PoolIpAllocation) (m : Allocations)
    → lookup ip m ≡ none
    → lookup ip (m ++ (ip, a) ∷ []) ≡ some a
unfolding lookup
lookup-append_last ip a [] new = rw (text_eq_refl ip) refl
lookup-append_last ip a ((j, b) ∷ m) new = ground (arith, lookup-append_last ip a m)

delete-append_last :
    (ip : Text) (a : PoolIpAllocation) (m : Allocations)
    → lookup ip m ≡ none
    → delete ip (m ++ (ip, a) ∷ []) ≡ m
unfolding lookup delete
delete-append_last ip a [] new = rw (text_eq_refl ip) refl
delete-append_last ip a ((j, b) ∷ m) new = ground (arith, delete-append_last ip a m)

free-append_last :
    (ip : Text) (a : PoolIpAllocation) (m : Allocations)
    → lookup ip m ≡ none
    → free (ip ∷ []) (m ++ (ip, a) ∷ []) ≡ (ip ∷ [], m)
unfolding free
free-append_last ip a m new =
    rw (lookup-append_last ip a m new, free, delete-append_last ip a m new) refl

frees_one :
    (ip : Text) (m : Allocations) (f : List Text × Allocations) → f ≡ (ip ∷ [], m) → f.0 ≡ [] → ⊥
frees_one ip m f e nothing =
    let first : f.0 ≡ ip ∷ [] = ap (λ (g : List Text × Allocations). g.0) e in cc

module _ (net : Net) (json : Json) (lawful : Lawful json) (pool : IpPool) (pod : Pod)
    (allocated : Allocations) (ip : Text) (rest : List Text)
    (holds : Holds json pool.status allocated (ip ∷ rest)) (new : lookup ip allocated ≡ none)
    (detail : IpAllocationDetail) (reads : key_of net detail ≡ ok ip) where
  -- When allocateIP takes an address from a pool and an Endpoint with that address is released, the
  -- pool has the records that it had before, and its free addresses are those that it had, with the
  -- address at the end instead of the front; the counts say so.
  pub release_from-allocate_from :
      (pool' pool'' : IpPool) × (allocate_from net json pool pod ≡ ok (net.parse_ip ip, pool'))
      × (release_from net json (detail ∷ []) pool' ≡ ok (some pool''))
      × Holds json pool''.status allocated (rest ++ ip ∷ [])
      × Counts pool''.status (length allocated) (length (rest ++ ip ∷ []))
      × (pool''.meta ≡ pool.meta)
  release_from-allocate_from =
      let (pool', run, holds', _, meta, _) =
        allocate_from-Holds net json lawful pool pod allocated ip rest holds new in
      let freed : free (ip ∷ []) (allocated ++ (ip, allocation_of pod) ∷ [])
          ≡ (ip ∷ [], allocated) =
        free-append_last ip (allocation_of pod) allocated new in
      elim (release_from_lem net json lawful pool' (allocated ++ (ip, allocation_of pod) ∷ []) rest
        holds' (detail ∷ []) (ip ∷ []) (reads, tt)) [
          | inl (nothing, _) ↦ absurd (frees_one ip allocated _ freed nothing)
          | inr (pool'', run', holds'', counts, meta') ↦ (
            pool',
            pool'',
            run,
            run',
            subst (λ f. Holds json pool''.status f.1 (rest ++ f.0)) freed holds'',
            subst (λ f. Counts pool''.status (length f.1) (length (rest ++ f.0))) freed counts,
            meta' ∙ meta,
          )
        ]
