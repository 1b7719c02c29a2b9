-- ===== src/System/Agents.antt =====
-- AllocateIP (pkg/ippool/ippool_client.go), whatever calls the server refuses.
use virtnet.Prelude.{
  ◌+◌, ◌≤◌, ◌≡◌, refl, sym, ap, subst, List, [], ◌∷◌, ◌++◌, arith, none, some, Text, lookup, keys,
  Error, Outcome, ok, err, panic, out_of_fuel, bind_ok, false, true, inl, inr, Bool-cases, ◌>>=◌,
}
use virtnet.Ip.{Ip, Net}
use virtnet.Api.{ObjectMeta, IpPool, Pod, Subnet}
use virtnet.Convert.{
  Json, unmarshal_allocated_ips, unmarshal_unallocated_ips, marshal_unallocated_ips,
  marshal_allocated_ips,
}
use virtnet.Convert.Laws.{Lawful}
use virtnet.Cluster.{Cluster, find_pool, get_pool, update_pool_status}
use virtnet.Cluster.Triples.{Post, Post-any}
use virtnet.Cluster.Refusals.{SamePools, get_pool-Post}
use virtnet.Retry.{default_steps}
use virtnet.Retry.Laws.{retry_on_conflict-keeps}
use virtnet.Pool.{PoolMap, next}
use virtnet.Pool.Allocate.{
  select_ip, put, allocation_of, allocate_from, Progress, finish, try_pool, with_next, attempt,
  allocate_ip,
}
use virtnet.Pool.Conservation.{Holds, allocate_from-Holds, allocate_from-empty}
use virtnet.Reconciler.Safe.{IsSafe, IsSafe-same, Moves}
use virtnet.Endpoints.Freed.{Allocations}
use virtnet.Inventory.{Shelf, shelf, count}
use virtnet.Inventory.Unique.{count-append, count-keys_last, count-lookup-none}
use virtnet.Inventory.Refines.{Represents, count_self}
use virtnet.System.Found.{update_found-Safely}

abbrev meta_or : ObjectMeta → Outcome (Ip × IpPool) → ObjectMeta
meta_or m (ok (ip, q)) = q.meta
meta_or m (err e) = m
meta_or m panic = m
meta_or m out_of_fuel = m

allocate_from-meta :
    (net : Net) (json : Json) (p q : IpPool) (pod : Pod) (ip : Ip)
    → allocate_from net json p pod ≡ ok (ip, q)
    → q.meta ≡ p.meta
unfolding allocate_from
allocate_from-meta net json p q pod ip h =
    let (un, _, h1) =
      bind_ok (unmarshal_unallocated_ips json p.status.unallocated_ips) _ (ip, q) h in
    let (first, _, h2) = bind_ok (select_ip un) _ (ip, q) h1 in
    let (records, _, h3) =
      bind_ok (unmarshal_allocated_ips json p.status.allocated_ips) _ (ip, q) h2 in
    let (allocated, _, h4) = bind_ok (put first.0 (allocation_of pod) records) _ (ip, q) h3 in
    let (raw_un, _, h5) = bind_ok (marshal_unallocated_ips json first.1) _ (ip, q) h4 in
    let (raw_al, _, h6) = bind_ok (marshal_allocated_ips json allocated) _ (ip, q) h5 in
    sym (ap (meta_or p.meta) h6)

module _ (net : Net) (json : Json) (lawful : Lawful json) (s : Subnet) (pod : Pod) where
  allocate_from-Moves :
      (p q : IpPool) (ip : Ip) → allocate_from net json p pod ≡ ok (ip, q) → Moves json s p q [] []
  allocate_from-Moves p q ip run t r room = by_unused t.unused r room
    where
      by_unused :
          (un : List Text)
          → Holds json p.status t.used un
          → ((x : Text) → count x [] + (count x (keys t.used) + count x un) ≤ 1)
          → (u : Shelf) × Represents json q u
            × (q.meta ≡ p.meta)
            × ((x : Text)
                → count x [] + (count x (keys u.used) + count x u.unused)
                  ≤ count x [] + (count x (keys t.used) + count x un))
      by_unused [] r room = let empty = allocate_from-empty net json p pod t.used r in absurd cc
      by_unused (x ∷ rest) r room =
          let new : lookup x t.used ≡ none =
            count-lookup-none x t.used (omega (arith, room x, count_self x rest)) in
          let (q', run', holds, _, _, _) =
            allocate_from-Holds net json lawful p pod t.used x rest r new in
          let found : q' ≡ q = cc in
          let used : Allocations = t.used ++ (x, allocation_of pod) ∷ [] in
          (
            shelf used rest,
            subst (λ (o : IpPool). Represents json o (shelf used rest)) found holds,
            allocate_from-meta net json p q pod ip run,
            λ y. omega (
              arith,
              count-keys_last y x (allocation_of pod) t.used,
              count-append y (x ∷ []) rest,
            ),
          )

  abbrev KeepsSafe : Progress → Type 0
  KeepsSafe progress = IsSafe json s progress.cluster

  finish-refused : (st : Progress) (e : Error) → KeepsSafe st → KeepsSafe (finish st (err e)).1
  unfolding finish
  finish-refused st Error.conflict h = h
  finish-refused st Error.not_found h = h
  finish-refused st Error.exists h = h
  finish-refused st Error.no_unallocated_ips h = h
  finish-refused st Error.timeout h = h
  finish-refused st Error.other h = h

  finish-Safely :
      (st : Progress) (p : IpPool) (name : Text)
      → KeepsSafe st
      → find_pool name st.cluster.pools ≡ some p
      → (r : Outcome (Ip × IpPool)) → allocate_from net json p pod ≡ r
      → KeepsSafe (finish st r).1
  unfolding finish
  finish-Safely st p name h found (ok (ip, q)) run =
      Post-any (IsSafe json s) (update_pool_status q st.cluster) (
        update_found-Safely json s name p q st.cluster h found
          (allocate_from-meta net json p q pod ip run) (allocate_from-Moves p q ip run))
  finish-Safely st p name h found (err e) run = finish-refused st e h
  finish-Safely st p name h found panic run = h
  finish-Safely st p name h found out_of_fuel run = h

  try_pool-Safely :
      (name : Text) (st : Progress) → KeepsSafe st → KeepsSafe (try_pool net json pod name st).1
  unfolding try_pool
  try_pool-Safely name st h = by_pool (get_pool name st.cluster) (get_pool-Post name st.cluster)
    where
      by_pool :
          (r : Outcome IpPool × Cluster)
          → Post
              (λ p c1. SamePools st.cluster c1 × (find_pool name c1.pools ≡ some p))
              (SamePools st.cluster)
              r
          → KeepsSafe
              (finish
                (record st { cluster = r.1 })
                (do pool ← r.0; allocate_from net json pool pod)).1
      by_pool (ok p, c1) (same, found) =
          finish-Safely (record st { cluster = c1 }) p name
            (IsSafe-same json s st.cluster c1 h same) found (allocate_from net json p pod) refl
      by_pool (err e, c1) same =
          finish-refused (record st { cluster = c1 }) e (IsSafe-same json s st.cluster c1 h same)
      by_pool (panic, c1) same = IsSafe-same json s st.cluster c1 h same
      by_pool (out_of_fuel, c1) same = IsSafe-same json s st.cluster c1 h same

  with_next-Safely :
      (st : Progress) (r : Outcome (Text × PoolMap))
      → KeepsSafe st
      → KeepsSafe (with_next net json pod st r).1
  unfolding with_next
  with_next-Safely st (ok (name, m)) h =
      try_pool-Safely name (record st { pool_map = m; no_unallocated = false }) h
  with_next-Safely st (err e) h = h
  with_next-Safely st panic h = h
  with_next-Safely st out_of_fuel h = h

  attempt-Safely :
      (subnet : Text) (st : Progress) → KeepsSafe st → KeepsSafe (attempt net json subnet pod st).1
  unfolding attempt
  attempt-Safely subnet st h = elim (Bool-cases st.no_unallocated) [
    | inl asks ↦ rw (attempt, asks) (with_next-Safely st (next st.pool_map subnet) h)
    | inr silent ↦ rw (attempt, silent) h
  ]

  -- AllocateIP, for whatever Subnet, keeps the pools of a Subnet safe, whatever calls the server
  -- refuses and however it ends.
  pub allocate_ip-IsSafe :
      (m : PoolMap) (c : Cluster) (subnet : Text)
      → IsSafe json s c
      → IsSafe json s (allocate_ip net json m c subnet pod).1.cluster
  unfolding allocate_ip
  allocate_ip-IsSafe m c subnet h =
      retry_on_conflict-keeps KeepsSafe (attempt net json subnet pod) (attempt-Safely subnet)
        default_steps (record { pool_map = m; no_unallocated = true; cluster = c }) h
