-- ===== src/Reconciler/ShareLaws.antt =====
-- What the Subnet controller writes to one pool (pkg/subnet/subnet_reconciler.go): the allocated
-- addresses always stay, and the counts are right.
use virtnet.Prelude.{ℕ, ◌+◌, ◌≤◌, ◌≡◌, refl, List, ◌++◌, arith, some, Text, ok, length, take}
use virtnet.Api.{IpPool, PoolIpAllocation}
use virtnet.Convert.{Json}
use virtnet.Convert.Laws.{Lawful, unmarshal-marshal_unallocated_ips}
use virtnet.Pool.Conservation.{Holds}
use virtnet.Reconciler.Release.{slice_to, trim}
use virtnet.Reconciler.Expand.{extend}

-- The pool holds these addresses, and its counts of free and of all addresses say so.
pub record IsCounted (json : Json) (p : IpPool) (allocated : List (Text × PoolIpAllocation))
    (unallocated : List Text) : Type 0 where
  pub holds : Holds json p.status allocated unallocated
  pub unallocated_count : p.status.unallocated_ip_count ≡ some (length unallocated)
  pub total_count : p.status.total_ip_count ≡ some (length allocated + length unallocated)

slice_to_within :
    (unallocated : List Text) (avg : ℕ)
    → avg ≤ length unallocated
    → slice_to avg unallocated ≡ ok (take avg unallocated)
unfolding slice_to
slice_to_within unallocated avg le = ground arith

module _ (json : Json) (lawful : Lawful json) (p : IpPool)
    (allocated : List (Text × PoolIpAllocation)) (unallocated : List Text)
    (holds : Holds json p.status allocated unallocated) where
  -- An extended pool has the share behind its free addresses.
  pub extend-IsCounted :
      (share : List Text)
      → (p' : IpPool) × (extend json share p ≡ ok p')
        × IsCounted json p' allocated (unallocated ++ share)
        × (p'.meta ≡ p.meta)
  unfolding extend
  extend-IsCounted share =
      let (raw, written, read) =
        unmarshal-marshal_unallocated_ips json lawful (unallocated ++ share) in
      (
        record p {
          status = record p.status {
            unallocated_ips = raw;
            unallocated_ip_count = some (length (unallocated ++ share));
            total_ip_count = some (length allocated + length (unallocated ++ share));
          };
        },
        rw (holds.reads_unallocated, written, holds.reads_allocated) refl,
        record {
          holds = record { reads_allocated = holds.reads_allocated; reads_unallocated = read };
          unallocated_count = refl;
          total_count = refl;
        },
        refl,
      )

  -- A pool that is cut down keeps its first free addresses.
  pub trim-IsCounted :
      (avg : ℕ)
      → avg ≤ length unallocated
      → (p' : IpPool) × (trim json avg p ≡ ok p')
        × IsCounted json p' allocated (take avg unallocated)
        × (p'.meta ≡ p.meta)
  unfolding trim
  trim-IsCounted avg le =
      let (raw, written, read) =
        unmarshal-marshal_unallocated_ips json lawful (take avg unallocated) in
      let sliced : slice_to avg unallocated ≡ ok (take avg unallocated) =
        slice_to_within unallocated avg le in
      (
        record p {
          status = record p.status {
            unallocated_ips = raw;
            unallocated_ip_count = some (length (take avg unallocated));
            total_ip_count = some (length allocated + length (take avg unallocated));
          };
        },
        rw (holds.reads_unallocated, sliced, written, holds.reads_allocated) refl,
        record {
          holds = record { reads_allocated = holds.reads_allocated; reads_unallocated = read };
          unallocated_count = refl;
          total_count = refl;
        },
        refl,
      )
