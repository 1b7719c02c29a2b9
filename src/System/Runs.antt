-- ===== src/System/Runs.antt =====
-- Runs of AllocateIP (pkg/ippool/ippool_client.go) on any agents, of Reconcile for one Subnet
-- (pkg/subnet/subnet_reconciler.go) and for any Endpoint (pkg/endpoint/endpoint_reconciler.go), in
-- any order.
use virtnet.Prelude.{
  ℕ, ◌≤◌, ◌≡◌, refl, sym, subst, List, [], ◌∷◌, ◌++◌, map, Option, some, Text, Error, ok,
}
use virtnet.Ip.{Ip, Net, ipv4}
use virtnet.Ip.Range.{parse_ip_ranges}
use virtnet.Api.{IpPool, Pod, Subnet}
use virtnet.Convert.{Json}
use virtnet.Convert.Laws.{Lawful}
use virtnet.Cluster.{Cluster, PoolCache, EndpointCache, IsCurrent, find_subnet}
use virtnet.Cluster.Owned.{AreNamed}
use virtnet.Pool.{PoolMap}
use virtnet.Pool.Allocate.{allocate_ip}
use virtnet.Reconciler.{reconcile}
use virtnet.Reconciler.Replicate.{new_pool}
use virtnet.Reconciler.Resized.{created}
use virtnet.Reconciler.Safe.{IsSafe, IsSafe-same}
use virtnet.Reconciler.SafeRun.{reconcile-IsSafe}
use virtnet.Inventory.{count}
use virtnet.Endpoints
use virtnet.System.Endpoints.{release-IsSafe}
use virtnet.System.Agents.{allocate_ip-IsSafe}

-- The Subnet with another count in its status.
abbrev pub counting : Subnet → Option ℕ → Subnet
counting s total = record s { total_ip_count = total }

created-counting :
    (s : Subnet) (total : Option ℕ) (names : List Text)
    → created (counting s total) names ≡ created s names
unfolding created new_pool
created-counting s total [] = refl
created-counting s total (suffix ∷ names) = rw (created-counting s total names) refl

module _ (json : Json) (s : Subnet) (total : Option ℕ) (c : Cluster) where
  to-counting : IsSafe json s c → IsSafe json (counting s total) c
  to-counting (ps, h) = (
    ps,
    record {
      listed = h.listed;
      named =
          subst (λ (qs : List IpPool). AreNamed (c.pools ++ qs))
            (sym (created-counting s total c.names)) h.named;
      shelves = h.shelves;
      represent = h.represent;
      room = h.room;
    },
  )

  from-counting : IsSafe json (counting s total) c → IsSafe json s c
  from-counting (ps, h) = (
    ps,
    record {
      listed = h.listed;
      named =
          subst (λ (qs : List IpPool). AreNamed (c.pools ++ qs)) (created-counting s total c.names)
            h.named;
      shelves = h.shelves;
      represent = h.represent;
      room = h.room;
    },
  )

module _ (cache : PoolCache) (net : Net) (json : Json) (fuel : ℕ) (s : Subnet) where
  -- One run of a handler, with whatever answers the server gives it.
  pub data Run : Cluster → Cluster → Type 0 where
    agent_allocates :
        (c : Cluster) (answers : List (Option Error)) (m : PoolMap) (subnet : Text) (pod : Pod)
        → Run c (allocate_ip net json m (record c { answers = answers }) subnet pod).1.cluster
    controller_reconciles :
        (c : Cluster) (answers : List (Option Error)) (name : Text) (total : Option ℕ)
        → find_subnet name c.subnets ≡ some (counting s total)
        → Run c (reconcile cache net json fuel name (record c { answers = answers })).1
    endpoint_goes :
        (c : Cluster) (answers : List (Option Error)) (seen : EndpointCache) (namespace name : Text)
        → Run c
            (Endpoints.reconcile seen net json namespace name (record c { answers = answers })).1

  pub data Runs : Cluster → Cluster → Type 0 where
    at_rest : {c : Cluster} → Runs c c
    then_run : {c c1 c2 : Cluster} → Runs c c1 → Run c1 c2 → Runs c c2

  module _ (current : IsCurrent cache) (lawful : Lawful json) (ips : List Ip)
      (listed : parse_ip_ranges net fuel ipv4 s.spec.ips ≡ ok ips)
      (once : (x : Text) → count x (map net.ip_string ips) ≤ 1) where
    Run-IsSafe : (c c1 : Cluster) → Run c c1 → IsSafe json s c → IsSafe json s c1
    Run-IsSafe c c1 (agent_allocates _ answers m subnet pod) h =
        allocate_ip-IsSafe net json lawful s pod m (record c { answers = answers }) subnet
          (IsSafe-same json s c (record c { answers = answers }) h (refl, refl))
    Run-IsSafe c c1 (controller_reconciles _ answers name total found) h =
        let asked : Cluster = record c { answers = answers } in
        let ends : Cluster = (reconcile cache net json fuel name asked).1 in
        from-counting json s total ends (
          reconcile-IsSafe json (counting s total) lawful cache current net fuel ips listed once
            name asked found
            (to-counting json s total asked (IsSafe-same json s c asked h (refl, refl))))
    Run-IsSafe c c1 (endpoint_goes _ answers seen namespace name) h =
        release-IsSafe net json lawful s seen namespace name (record c { answers = answers })
          (IsSafe-same json s c (record c { answers = answers }) h (refl, refl))

    -- In every state that whole runs of agents, for any pods and Subnets, of the controller for one
    -- Subnet, and of that for Endpoints lead to, one after the other in any order and with any
    -- answers of the server, the pools of that Subnet are safe if they were, the Subnet lists each
    -- address once, and every list that the controller reads from its cache shows all writes made
    -- before it: all stored pools have different names, also from those that the server
    -- will give, and no address is in two pools of the Subnet, or twice in one, free or allocated.
    pub Runs-IsSafe : (c c1 : Cluster) → Runs c c1 → IsSafe json s c → IsSafe json s c1
    Runs-IsSafe c c1 at_rest h = h
    Runs-IsSafe c c1 (then_run before last) h = Run-IsSafe _ c1 last (Runs-IsSafe c _ before h)
