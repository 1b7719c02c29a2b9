-- ===== src/Reconciler/Replicate.antt =====
-- pkg/subnet/subnet_reconciler.go, replicate: as many pools as the Subnet asks for.
use virtnet.Prelude.{ℕ, zero, suc, ◌-◌, List, [], ◌∷◌, ◌++◌, none, bytes, length, take, ok, false}
use virtnet.Api.{IpPool, Subnet, owner_label}
use virtnet.Cluster.{PoolCache, Call, pure, ◌>>=◌, ◌>>◌, list_pools, create_pool, delete_pool}

-- The pool to create; its name is the prefix to which the server adds a suffix. The controller
-- reference is the Subnet's.
unfoldable pub new_pool : Subnet → IpPool
new_pool owner = record {
  meta = record {
    name = owner.meta.name ++ b'-' ∷ [];
    namespace = [];
    uid = [];
    labels = (owner_label, owner.meta.name) ∷ [];
    annotations = [];
    finalizers = [];
    owner_references =
        record {
          api_version = bytes "virtnet.io/v1alpha1";
          kind = bytes "Subnet";
          name = owner.meta.name;
          uid = owner.meta.uid;
        }
        ∷ [];
    is_deleted = false;
  };
  spec = record {
    subnet = owner.spec.subnet;
    gateway = owner.spec.gateway;
    ips = [];
    exclude_ips = [];
  };
  status = record {
    allocated_ips = none;
    unallocated_ips = none;
    allocated_ip_count = none;
    unallocated_ip_count = none;
    total_ip_count = none;
  };
}

unfoldable pub create_pools : ℕ → IpPool → Call (Unit {0})
unfolding create_pool
create_pools zero p = pure (ok tt)
create_pools (suc n) p = do create_pool p; create_pools n p

unfoldable pub delete_pools : List IpPool → Call (Unit {0})
unfolding delete_pool
delete_pools [] = pure (ok tt)
delete_pools (p ∷ ps) = do delete_pool p; delete_pools ps

-- replicate: of the two loops at most one has rounds, since the difference has one sign.
unfoldable pub replicate : PoolCache → Subnet → Call (Unit {0})
unfolding list_pools new_pool create_pools delete_pools
replicate cache owner = do
  ps ← list_pools cache owner.meta.name
  create_pools (owner.spec.replicas - length ps) (new_pool owner)
  delete_pools (take (length ps - owner.spec.replicas) ps)
