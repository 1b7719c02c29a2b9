-- ===== src/Api.antt =====
-- pkg/k8s/apis/virtnet/v1alpha1: the resources, with the fields that the code reads or writes.
-- `ObjectMeta` keeps the fields named below, with a mark for the deletion time; counts
-- are `*int64` in the source and never negative.
use virtnet.Prelude.{ℕ, Bool, List, Option, Text, bytes}

-- metav1.OwnerReference
pub record OwnerReference : Type 0 where
  pub api_version : Text
  pub kind : Text
  pub name : Text
  pub uid : Text

pub record ObjectMeta : Type 0 where
  pub name : Text
  pub namespace : Text
  pub uid : Text
  pub labels : List (Text × Text)
  pub annotations : List (Text × Text)
  pub finalizers : List Text
  pub owner_references : List OwnerReference
  pub is_deleted : Bool

-- IPPoolSpec
pub record IpPoolSpec : Type 0 where
  pub subnet : Text
  pub gateway : Option Text
  pub ips : List Text
  pub exclude_ips : List Text

-- IPPoolStatus
pub record IpPoolStatus : Type 0 where
  pub allocated_ips : Option Text
  pub unallocated_ips : Option Text
  pub allocated_ip_count : Option ℕ
  pub unallocated_ip_count : Option ℕ
  pub total_ip_count : Option ℕ

-- IPPool
pub record IpPool : Type 0 where
  pub meta : ObjectMeta
  pub spec : IpPoolSpec
  pub status : IpPoolStatus

-- PoolIPAllocation
pub record PoolIpAllocation : Type 0 where
  pub namespaced_name : Text
  pub pod_uid : Text

-- PoolIPAllocations: `none` is the nil map, to which Go cannot write.
abbrev pub PoolIpAllocations : Type 0
PoolIpAllocations = Option (List (Text × PoolIpAllocation))

-- PoolIPUnallocation
abbrev pub PoolIpUnallocation : Type 0
PoolIpUnallocation = List Text

-- SubnetSpec
pub record SubnetSpec : Type 0 where
  pub replicas : ℕ
  pub subnet : Text
  pub gateway : Option Text
  pub ips : List Text
  pub exclude_ips : List Text

-- Subnet, with the one field of its status.
pub record Subnet : Type 0 where
  pub meta : ObjectMeta
  pub spec : SubnetSpec
  pub total_ip_count : Option ℕ

-- IPAllocationDetail
pub record IpAllocationDetail : Type 0 where
  pub nic : Text
  pub ipv4 : Option Text
  pub ipv4_pool : Option Text
  pub ipv4_gateway : Option Text

-- PodIPAllocation
pub record PodIpAllocation : Type 0 where
  pub uid : Text
  pub node : Text
  pub ips : List IpAllocationDetail

-- Endpoint, with the three fields of its status.
pub record Endpoint : Type 0 where
  pub meta : ObjectMeta
  pub current : PodIpAllocation
  pub owner_controller_type : Text
  pub owner_controller_name : Text

-- metav1.TypeMeta
pub record TypeMeta : Type 0 where
  pub api_version : Text
  pub kind : Text

-- corev1.Pod, as far as it is read.
pub record Pod : Type 0 where
  pub type_meta : TypeMeta
  pub meta : ObjectMeta
  pub node_name : Text

-- types.IPAMAnnoSubnet
pub record IpamAnnoSubnet : Type 0 where
  pub nic : Text
  pub ipv4_subnet : Text
  pub address : Text

-- constant.IPPoolLabelOwner, which constant.SubnetLabelOwner repeats.
abbrev pub owner_label : Text
owner_label = bytes "ippool.virtnet.io/owner"
