-- ===== src/Pool/Retries.antt =====
-- The rounds of AllocateIP (pkg/ippool/ippool_client.go).
use virtnet.Prelude.{
  ℕ, zero, suc, ◌<◌, ◌≡◌, refl, ap, ◌∙◌, List, [], ◌∷◌, ◌++◌, arith, Option, none, some, true,
  false, Text, lookup, lookup-insert, insert, Outcome, ok, err, panic, Error, conflict, timeout,
  length, All, text_eq_refl,
}
use virtnet.Ip.{Ip, Net}
use virtnet.Api.{IpPool, ObjectMeta, Pod, PoolIpAllocation}
use virtnet.Convert.{Json}
use virtnet.Convert.Laws.{Lawful}
use virtnet.Cluster.{Cluster, find_pool, set_status}
use virtnet.Cluster.Laws.{get_pool-quiet, get_pool-passes, update_pool_status-quiet}
use virtnet.Retry.{retry_on_conflict, default_steps}
use virtnet.Retry.Laws.{retry_on_conflict-again, retry_on_conflict-done}
use virtnet.Pool.{PoolMap, SubnetPools, next}
use virtnet.Pool.Handlers.{next-member}
use virtnet.Pool.Allocate.{Progress, allocation_of, finish, try_pool, attempt, allocate_ip}
use virtnet.Pool.Conservation.{Holds, allocate_from-Holds, allocate_from-empty}

module _ (net : Net) (json : Json) (subnet : Text) (pod : Pod) where
  -- After an update that the server refused with a conflict, the next round panics: the pool is no
  -- longer known, and its mutex is locked all the same.
  attempt-panics :
      (s : Progress) → s.no_unallocated ≡ false → attempt net json subnet pod s ≡ (panic, s)
  unfolding attempt
  attempt-panics s h = ground arith

  -- A round on a pool that has no free address asks for another round and changes nothing else.
  pub try_pool-empty :
      (s : Progress) (name : Text) (pool : IpPool) (allocated : List (Text × PoolIpAllocation))
      → s.cluster.answers ≡ []
      → find_pool name s.cluster.pools ≡ some pool
      → Holds json pool.status allocated []
      → try_pool net json pod name s ≡ (err conflict, record s { no_unallocated = true })
  unfolding try_pool
  try_pool-empty s name pool allocated quiet found h =
      ground (arith, allocate_from-empty net json pool pod allocated h)

  -- The pool of that name is stored, and has no free address.
  abbrev pub IsExhausted : Cluster → Text → Type 0
  IsExhausted c name =
      (pool : IpPool) × (allocated : List (Text × PoolIpAllocation)) × (find_pool name c.pools
        ≡ some pool)
      × Holds json pool.status allocated []

  attempt-exhausted :
      (s : Progress) (sp : SubnetPools)
      → s.no_unallocated ≡ true
      → s.cluster.answers ≡ []
      → lookup subnet s.pool_map ≡ some sp
      → 0 < length sp.pools
      → All (IsExhausted s.cluster) sp.pools
      → (t : SubnetPools) × (attempt net json subnet pod s ≡ (
        err conflict,
        record s { pool_map = insert subnet t s.pool_map; no_unallocated = true },
      ))
        × (t.pools ≡ sp.pools)
  unfolding attempt
  attempt-exhausted s sp go quiet found pos h =
      let (name, t, run, (pool, allocated, there, holds), same) =
        next-member (IsExhausted s.cluster) s.pool_map subnet sp found pos h in
      let s' : Progress = record s {
        pool_map = insert subnet t s.pool_map;
        no_unallocated = false;
      } in
      (t, ground (arith, try_pool-empty s' name pool allocated quiet there holds), same)

  retry-exhausted :
      (steps : ℕ) (s : Progress) (sp : SubnetPools)
      → s.no_unallocated ≡ true
      → s.cluster.answers ≡ []
      → lookup subnet s.pool_map ≡ some sp
      → 0 < length sp.pools
      → All (IsExhausted s.cluster) sp.pools
      → let result = retry_on_conflict steps (attempt net json subnet pod) s in
        (result.0 ≡ err timeout) × (result.1.cluster ≡ s.cluster)
  unfolding retry_on_conflict
  retry-exhausted zero s sp go quiet found pos h = (refl, refl)
  retry-exhausted (suc steps) s sp go quiet found pos h =
      let (t, run, same) = attempt-exhausted s sp go quiet found pos h in
      let s' : Progress = record s {
        pool_map = insert subnet t s.pool_map;
        no_unallocated = true;
      } in
      rw (retry_on_conflict-again steps (attempt net json subnet pod) s s' run) (
        retry-exhausted steps s' t refl quiet (rw (lookup-insert, text_eq_refl subnet) refl)
          (rw same pos) (rw same h))

  -- On a server that refuses nothing: if the agent knows one pool of the Subnet at least, and all
  -- that it knows are stored with a readable status and have no free address, AllocateIP ends with a
  -- timeout when its rounds are used up, and has written nothing.
  pub allocate_ip_exhausted :
      (m : PoolMap) (c : Cluster) (sp : SubnetPools)
      → c.answers ≡ []
      → lookup subnet m ≡ some sp
      → 0 < length sp.pools
      → All (IsExhausted c) sp.pools
      → let result = allocate_ip net json m c subnet pod in
        (result.0 ≡ err timeout) × (result.1.cluster ≡ c)
  unfolding allocate_ip
  allocate_ip_exhausted m c sp = retry-exhausted default_steps _ sp refl

module _ (net : Net) (json : Json) (lawful : Lawful json) (subnet : Text) (pod : Pod) where
  module _ (m m' : PoolMap) (c : Cluster) (name : Text) (pool : IpPool)
      (allocated : List (Text × PoolIpAllocation)) (ip : Text) (rest : List Text)
      (chosen : next m subnet ≡ ok (name, m')) (found : find_pool name c.pools ≡ some pool)
      (named : pool.meta.name ≡ name) (holds : Holds json pool.status allocated (ip ∷ rest))
      (new : lookup ip allocated ≡ none) where
    abbrev pub start : Progress
    start = record { pool_map = m; no_unallocated = true; cluster = c }

    -- The round of that pool.
    pub attempt-takes :
        c.answers ≡ []
        → (pool' : IpPool) × (attempt net json subnet pod start ≡ (
          ok (pool', net.parse_ip ip),
          record {
            pool_map = m';
            no_unallocated = false;
            cluster = record c { pools = set_status name pool'.status c.pools };
          },
        ))
          × Holds json pool'.status (allocated ++ (ip, allocation_of pod) ∷ []) rest
    unfolding attempt try_pool finish
    attempt-takes quiet =
        let (pool', run, holds', counts, meta, spec) =
          allocate_from-Holds net json lawful pool pod allocated ip rest holds new in
        let meta_name : pool'.meta.name ≡ name = ap (λ (o : ObjectMeta). o.name) meta ∙ named in
        (
          pool',
          rw
              (
                chosen,
                get_pool-quiet c name pool found quiet,
                run,
                update_pool_status-quiet c name pool found pool' meta_name quiet,
              )
              refl,
          holds',
        )

    -- If the pool that next gives has a free address and the server takes the update, AllocateIP
    -- returns that pool's first free address, and the stored pool has it recorded for the pod.
    pub allocate_ip_success :
        c.answers ≡ []
        → (pool' : IpPool) × ((allocate_ip net json m c subnet pod).0 ≡ ok (pool', net.parse_ip ip))
          × ((allocate_ip net json m c subnet pod).1.cluster.pools
              ≡ set_status name pool'.status c.pools)
          × Holds json pool'.status (allocated ++ (ip, allocation_of pod) ∷ []) rest
    unfolding allocate_ip
    allocate_ip_success quiet =
        let (pool', round, holds') = attempt-takes quiet in
        let done = retry_on_conflict-done 4 (attempt net json subnet pod) start _ _ refl round in
        (
          pool',
          ap (λ (x : Outcome (IpPool × Ip) × Progress). x.0) done,
          ap (λ (x : Outcome (IpPool × Ip) × Progress). x.1.cluster.pools) done,
          holds',
        )

    -- If the server answers that update with a conflict, AllocateIP does not try again: it panics.
    pub allocate_ip_conflict :
        (answers : List (Option Error))
        → c.answers ≡ none ∷ some conflict ∷ answers
        → (allocate_ip net json m c subnet pod).0 ≡ panic
    unfolding allocate_ip attempt try_pool finish
    allocate_ip_conflict answers e =
        let (pool', run, holds', counts, meta, spec) =
          allocate_from-Holds net json lawful pool pod allocated ip rest holds new in
        let c' : Cluster = record c { answers = some conflict ∷ answers } in
        let s' : Progress = record {
          pool_map = m';
          no_unallocated = false;
          cluster = record c { answers = answers };
        } in
        let round : attempt net json subnet pod start ≡ (err conflict, s') =
          rw (chosen, get_pool-passes c name pool found (some conflict ∷ answers) e, run) refl in
        ap (λ (x : Outcome (IpPool × Ip) × Progress). x.0)
          (retry_on_conflict-again 4 (attempt net json subnet pod) start s' round
            ∙ retry_on_conflict-done 3 (attempt net json subnet pod) s' s' panic refl
                (attempt-panics net json subnet pod s' refl))
