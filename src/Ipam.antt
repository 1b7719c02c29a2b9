-- ===== src/Ipam.antt =====
-- pkg/ipam/ipam.go with pkg/endpoint/endpoint_client.go and the owner references of
-- pkg/pod/pod_client.go: the agent's answer to a request for an address. A gRPC status with the code
-- Internal is the error `other`.
pub mod Taken
pub mod Idempotence
pub mod Leaks
pub mod Behind
pub mod Config
pub mod Command
pub mod CommandLaws
use virtnet.Prelude.{
  ℕ, Bool, true, false, List, [], ◌∷◌, ◌++◌, map, Option, none, some, if◌then◌else◌, Text, bytes,
  text_eq, lookup, Error, not_found, other, Outcome, ok, err, panic, out_of_fuel, ◌>>=◌,
}
use virtnet.Ip.{Ip, IpNet, Net, ipv4}
use virtnet.Ip.Cidr.{parse_ip}
use virtnet.Api.{
  ObjectMeta, TypeMeta, OwnerReference, Pod, Endpoint, PodIpAllocation, IpAllocationDetail,
  IpamAnnoSubnet, IpPool,
}
use virtnet.Convert.{Json, unmarshal_ipam_anno_subnet, text_or_empty}
use virtnet.Cluster.{Cluster, EndpointCache, get_endpoint, create_endpoint}
use virtnet.Pool.{PoolMap}
use virtnet.Pool.Allocate.{Progress, allocate_ip}
use virtnet.Endpoints.{ippool_finalizer}

-- The reads of the agent that its caches answer: of pods, replica sets and virtual machine
-- instances, by namespace and name, and of Endpoints.
pub record Reader : Type 0 where
  pub get_pod : Text → Text → Outcome Pod
  pub get_replica_set : Text → Text → Outcome (TypeMeta × ObjectMeta)
  pub get_vmi : Text → Text → Outcome (TypeMeta × ObjectMeta)
  pub endpoint_cache : EndpointCache

-- defaultOwnerRef, without BlockOwnerDeletion.
abbrev pub default_owner_ref : TypeMeta → ObjectMeta → OwnerReference
default_owner_ref t m = record {
  api_version = t.api_version;
  kind = t.kind;
  name = m.name;
  uid = m.uid;
}

-- The owner of the Endpoint, the one in its status, and the topmost one.
abbrev pub Owners : Type 0
Owners = OwnerReference × OwnerReference × OwnerReference

abbrev owners_by_replica_set : Pod → OwnerReference → TypeMeta × ObjectMeta → Owners
owners_by_replica_set pod ref (t, m) = elim m.owner_references [
  | [] ↦ (default_owner_ref t m, ref, default_owner_ref t m)
  | top ∷ _ ↦ (default_owner_ref pod.type_meta pod.meta, ref, top)
]

abbrev owners_by_vmi : OwnerReference → TypeMeta × ObjectMeta → Owners
owners_by_vmi ref (t, m) = elim m.owner_references [
  | [] ↦ (default_owner_ref t m, ref, default_owner_ref t m)
  | top ∷ _ ↦ (top, ref, top)
]

abbrev owners_by_kind : Reader → Pod → OwnerReference → Outcome Owners
owners_by_kind reader pod ref =
    let by_replica_set : Outcome Owners = (do
      rs ← reader.get_replica_set pod.meta.namespace ref.name
      ok (owners_by_replica_set pod ref rs)) in
    let by_vmi : Outcome Owners = (do
      vmi ← reader.get_vmi pod.meta.namespace ref.name
      ok (owners_by_vmi ref vmi)) in
    let own : OwnerReference = default_owner_ref pod.type_meta pod.meta in
    if text_eq ref.kind (bytes "ReplicaSet")
    then by_replica_set
    else if text_eq ref.kind (bytes "DaemonSet")
    then ok (ref, ref, ref)
    else if text_eq ref.kind (bytes "StatefulSet")
    then ok (ref, ref, ref)
    else if text_eq ref.kind (bytes "VirtualMachineInstance")
    then by_vmi
    else ok (own, ref, own)

-- GetEndpointOwnerAndEndpointStatusOwnerAndTopOwnerRef
unfoldable pub owner_refs : Reader → Pod → Outcome Owners
unfolding text_eq
owner_refs reader pod = elim pod.meta.owner_references [
  | [] ↦ let own : OwnerReference = default_owner_ref pod.type_meta pod.meta in ok (own, own, own)
  | ref ∷ _ ↦ owners_by_kind reader pod ref
]

-- pb.AllocateRequest and pb.IPConfig, with the fields that are read or written.
pub record AllocateRequest : Type 0 where
  pub default_subnet : Text
  pub pod_namespace : Text
  pub pod_name : Text

-- pb.EnumIPVersion
pub data EnumIpVersion : Type 0 where
  enum_ipv4 enum_ipv6 : EnumIpVersion

pub record IpConfig : Type 0 where
  pub address : Text
  pub nic : Text
  pub version : EnumIpVersion

-- generateEndpoint
unfoldable pub generate_endpoint : Pod → List IpAllocationDetail → Owners → Endpoint
generate_endpoint pod details (endpoint_owner, status_owner, _) = record {
  meta = record {
    name = pod.meta.name;
    namespace = pod.meta.namespace;
    uid = [];
    labels = [];
    annotations = [];
    finalizers = ippool_finalizer ∷ [];
    owner_references = endpoint_owner ∷ [];
    is_deleted = false;
  };
  current = record { uid = pod.meta.uid; node = pod.node_name; ips = details };
  owner_controller_type = status_owner.kind;
  owner_controller_name = status_owner.name;
}

-- constant.IPAMAnnoPodSubnet
abbrev pub ipam_anno_pod_subnet : Text
ipam_anno_pod_subnet = bytes "ipam.virtnet.io/subnet"

-- defaultIPPool
abbrev default_candidate : Text → Outcome IpamAnnoSubnet
default_candidate [] = err other
default_candidate (c ∷ s) = ok (record { nic = bytes "eth0"; ipv4_subnet = c ∷ s; address = [] })

-- getSubnetCandidates
unfoldable pub get_subnet_candidates : Net → Json → Text → Pod → Outcome IpamAnnoSubnet
unfolding lookup unmarshal_ipam_anno_subnet
get_subnet_candidates net json default_subnet pod =
    elim (lookup ipam_anno_pod_subnet pod.meta.annotations) [
      | some text ↦ unmarshal_ipam_anno_subnet net json text
      | none ↦ default_candidate default_subnet
    ]

-- What the agent and the server keep.
pub record Agent : Type 0 where
  pub pool_map : PoolMap
  pub cluster : Cluster

-- The addresses of an Endpoint, as an answer.
unfoldable pub configs_of : List IpAllocationDetail → List IpConfig
configs_of [] = []
configs_of (d ∷ ds) =
    record { address = text_or_empty d.ipv4; nic = d.nic; version = enum_ipv4 } ∷ configs_of ds

-- Every error of a call behind the look-up is answered with the code Internal.
abbrev internal {ℓ} : {A : Type ℓ} → Outcome A → Outcome A
internal (ok a) = ok a
internal (err e) = err other
internal panic = panic
internal out_of_fuel = out_of_fuel

-- The detail of an address that was taken from a pool, whose prefix is that of the pool's subnet.
unfoldable pub detail_of : Net → IpamAnnoSubnet → IpPool × Ip → Outcome IpAllocationDetail
unfolding parse_ip
detail_of net subnet (pool, ip) = do
  ip_net ← parse_ip net ipv4 pool.spec.subnet true
  ok (record {
    nic = subnet.nic;
    ipv4 = some (net.net_string (record ip_net { ip = ip }));
    ipv4_pool = some pool.meta.name;
    ipv4_gateway = pool.spec.gateway;
  })

-- What Allocate does when an address has been taken: the Endpoint is created.
unfoldable pub store_endpoint :
    Net
    → Reader
    → IpamAnnoSubnet
    → Pod
    → Outcome (IpPool × Ip)
    → Agent
    → Outcome (List IpConfig) × Agent
unfolding detail_of owner_refs generate_endpoint create_endpoint configs_of
store_endpoint net reader subnet pod taken a =
    let prepared : Outcome (IpAllocationDetail × Owners) = (do
      t ← taken
      detail ← detail_of net subnet t
      owners ← owner_refs reader pod
      ok (detail, owners)) in
    elim prepared [
      | ok (detail, owners) ↦
          let (r, c) = create_endpoint (generate_endpoint pod (detail ∷ []) owners) a.cluster in
          (internal (do _ ← r; ok (configs_of (detail ∷ []))), record a { cluster = c })
      | err e ↦ (err other, a)
      | panic ↦ (panic, a)
      | out_of_fuel ↦ (out_of_fuel, a)
    ]

-- Allocate for a pod that has no Endpoint.
unfoldable pub allocate_new :
    Net → Json → Reader → AllocateRequest → Agent → Outcome (List IpConfig) × Agent
unfolding get_subnet_candidates allocate_ip store_endpoint
allocate_new net json reader request a =
    let prepared : Outcome (Pod × IpamAnnoSubnet) = (do
      pod ← reader.get_pod request.pod_namespace request.pod_name
      subnet ← get_subnet_candidates net json request.default_subnet pod
      ok (pod, subnet)) in
    elim prepared [
      | ok (pod, subnet) ↦
          let (taken, p) = allocate_ip net json a.pool_map a.cluster subnet.ipv4_subnet pod in
          store_endpoint net reader subnet pod taken
            (record { pool_map = p.pool_map; cluster = p.cluster })
      | err e ↦ (err other, a)
      | panic ↦ (panic, a)
      | out_of_fuel ↦ (out_of_fuel, a)
    ]

-- What Allocate does with the outcome of the look-up of the Endpoint.
unfoldable pub answer_or_allocate :
    Net
    → Json
    → Reader
    → AllocateRequest
    → PoolMap
    → Outcome Endpoint × Cluster
    → Outcome (List IpConfig) × Agent
unfolding configs_of allocate_new
answer_or_allocate net json reader request m (ok e, c) =
    (ok (configs_of e.current.ips), record { pool_map = m; cluster = c })
answer_or_allocate net json reader request m (err Error.not_found, c) =
    allocate_new net json reader request (record { pool_map = m; cluster = c })
answer_or_allocate net json reader request m (err e, c) =
    (err other, record { pool_map = m; cluster = c })
answer_or_allocate net json reader request m (panic, c) =
    (panic, record { pool_map = m; cluster = c })
answer_or_allocate net json reader request m (out_of_fuel, c) =
    (out_of_fuel, record { pool_map = m; cluster = c })

-- Allocate
unfoldable pub allocate :
    Net → Json → Reader → AllocateRequest → Agent → Outcome (List IpConfig) × Agent
unfolding get_endpoint answer_or_allocate
allocate net json reader request a =
    answer_or_allocate net json reader request a.pool_map
      (get_endpoint reader.endpoint_cache request.pod_namespace request.pod_name a.cluster)

-- Release: the agent answers and does nothing; the addresses come back when the Endpoint goes.
unfoldable pub release : Agent → Outcome (Unit {0}) × Agent
release a = (ok tt, a)
