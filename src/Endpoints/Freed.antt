-- ===== src/Endpoints/Freed.antt =====
-- What releasing addresses does to a pool (pkg/endpoint/endpoint_reconciler.go).
use virtnet.Prelude.{
  ◌+◌, ◌≤◌, ◌≡◌, refl, ap, ◌∙◌, ◌⊎◌, inl, inr, Bool, true, false, ◌&&◌, List, [], ◌∷◌, ◌++◌, arith,
  none, some, Text, text_eq_iff, lookup, delete, lookup-delete, contains, length, ok, if◌then◌else◌,
  Option-cases, ◌==◌,
}
use mathlib.Core.List.{append_assoc, append-nil}
use virtnet.Ip.{Net}
use virtnet.Api.{IpPool, IpAllocationDetail, PoolIpAllocation}
use virtnet.Convert.{Json}
use virtnet.Convert.Laws.{
  Lawful, unmarshal-marshal_allocated_ips, unmarshal-marshal_unallocated_ips,
}
use virtnet.Pool.Conservation.{Holds, Counts}
use virtnet.Endpoints.{key_of, release_loop, append_released, release_from}

abbrev pub Allocations : Type 0
Allocations = List (Text × PoolIpAllocation)

-- The address has a record.
abbrev pub is_allocated : Text → Allocations → Bool
is_allocated key m = elim (lookup key m) [ none ↦ false | some _ ↦ true ]

-- The keys that have a record, each once, and the records without them.
unfoldable pub free : List Text → Allocations → List Text × Allocations
unfolding lookup delete
free [] m = ([], m)
free (key ∷ ks) m = elim (lookup key m) [
  | none ↦ free ks m
  | some _ ↦ let r = free ks (delete key m) in (key ∷ r.0, r.1)
]

-- After the release exactly the records under other keys are left, as they were.
pub lookup-free :
    (ks : List Text) (m : Allocations) (x : Text)
    → lookup x (free ks m).1 ≡ (if contains x ks then none else lookup x m)
unfolding free contains
lookup-free [] m x = refl
lookup-free (key ∷ ks) m x = ground (
  arith,
  lookup-free ks m x,
  lookup-free ks (delete key m) x,
  lookup-delete key x m,
  text_eq_iff key x,
)

-- The addresses that come free are those to be released that had a record.
pub contains-free :
    (ks : List Text) (m : Allocations) (x : Text)
    → contains x (free ks m).0 ≡ (contains x ks && is_allocated x m)
unfolding free contains
contains-free [] m x = refl
contains-free (key ∷ ks) m x = ground (
  arith,
  contains-free ks m x,
  contains-free ks (delete key m) x,
  lookup-delete key x m,
  text_eq_iff key x,
)

-- The address of the detail reads as the key.
abbrev pub Reads : Net → List IpAllocationDetail → List Text → Type 0
Reads net [] [] = Unit
Reads net (d ∷ ds) (k ∷ ks) = (key_of net d ≡ ok k) × Reads net ds ks
Reads net _ _ = ⊥

length-delete-le : (k : Text) (m : Allocations) → length (delete k m) ≤ length m
unfolding delete
length-delete-le k [] = omega arith
length-delete-le k ((j, a) ∷ m) = ground (arith, length-delete-le k m)

length-delete-lt :
    (k : Text) (m : Allocations) (a : PoolIpAllocation)
    → lookup k m ≡ some a
    → length (delete k m) + 1 ≤ length m
unfolding lookup delete
length-delete-lt k [] a h = cc
length-delete-lt k ((j, b) ∷ m) a h = ground (arith, length-delete-lt k m a, length-delete-le k m)

length-free :
    (ks : List Text) (m : Allocations) → length (free ks m).1 + length (free ks m).0 ≤ length m
unfolding free
length-free [] m = omega arith
length-free (k ∷ ks) m = elim (Option-cases (lookup k m)) [
  | inl e ↦ rw (e, free) (length-free ks m)
  | inr (a, e) ↦ rw (e, free) (omega (arith, length-free ks (delete k m), length-delete-lt k m a e))
]

pub free_nothing : (ks : List Text) (m : Allocations) → (free ks m).0 ≡ [] → (free ks m).1 ≡ m
unfolding free
free_nothing [] m h = refl
free_nothing (k ∷ ks) m h = ground (arith, free_nothing ks m)

module _ (net : Net) where
  release_loop-free :
      (ds : List IpAllocationDetail) (ks : List Text) (m : Allocations)
      → Reads net ds ks
      → (released : List IpAllocationDetail) × (release_loop net ds m
          ≡ ok (released, (free ks m).1))
        × Reads net released (free ks m).0
  unfolding release_loop free
  release_loop-free [] [] m r = ([], refl, tt)
  release_loop-free [] (k ∷ ks) m r = absurd r
  release_loop-free (d ∷ ds) [] m r = absurd r
  release_loop-free (d ∷ ds) (k ∷ ks) m (e, r) = elim (Option-cases (lookup k m)) [
    | inl none_there ↦
        let (released, run, reads) = release_loop-free ds ks m r in
        (released, ground (arith, run), rw (none_there, free) reads)
    | inr (a, there) ↦
        let (released, run, reads) = release_loop-free ds ks (delete k m) r in
        (d ∷ released, ground (arith, run), rw (there, free) (e, reads))
  ]

  append_released-keys :
      (ds : List IpAllocationDetail) (ks un : List Text)
      → Reads net ds ks
      → append_released net ds un ≡ ok (un ++ ks)
  unfolding append_released
  append_released-keys [] [] un r = rw (append-nil) refl
  append_released-keys [] (k ∷ ks) un r = absurd r
  append_released-keys (d ∷ ds) [] un r = absurd r
  append_released-keys (d ∷ ds) (k ∷ ks) un (e, r) =
      rw (e) (append_released-keys ds ks (un ++ k ∷ []) r ∙ ap ok (append_assoc un (k ∷ []) ks))

  module _ (json : Json) (lawful : Lawful json) (p : IpPool) (m : Allocations) (un : List Text)
      (holds : Holds json p.status m un) (ds : List IpAllocationDetail) (ks : List Text)
      (reads : Reads net ds ks) where
    -- A pool of which no address is to be released is left alone.
    release_from-none : (free ks m).0 ≡ [] → release_from net json ds p ≡ ok none
    unfolding release_from
    release_from-none h =
        let (released, run, _) = release_loop-free ds ks m reads in
        rw (holds.reads_allocated, run, free_nothing ks m h) (ground arith)

    release_from-some :
        (k : Text) (rest : List Text)
        → (free ks m).0 ≡ k ∷ rest
        → (p' : IpPool) × (release_from net json ds p ≡ ok (some p'))
          × Holds json p'.status (free ks m).1 (un ++ (free ks m).0)
          × Counts p'.status (length (free ks m).1) (length (un ++ (free ks m).0))
          × (p'.meta ≡ p.meta)
    unfolding release_from
    release_from-some k rest h =
        let (released, run, again) = release_loop-free ds ks m reads in
        let (raw_al, written_al, read_al) =
          unmarshal-marshal_allocated_ips json lawful (free ks m).1 in
        let (raw_un, written_un, read_un) =
          unmarshal-marshal_unallocated_ips json lawful (un ++ (free ks m).0) in
        let fewer : (length (free ks m).1 == length m) ≡ false = ground (arith, length-free ks m) in
        (
          record p {
            status = record p.status {
              allocated_ips = raw_al;
              unallocated_ips = raw_un;
              allocated_ip_count = some (length (free ks m).1);
              unallocated_ip_count = some (length (un ++ (free ks m).0));
            };
          },
          rw
              (
                holds.reads_allocated,
                run,
                fewer,
                written_al,
                holds.reads_unallocated,
                append_released-keys released (free ks m).0 un again,
                written_un,
              )
              refl,
          record { reads_allocated = read_al; reads_unallocated = read_un },
          record { allocated_count = refl; unallocated_count = refl },
          refl,
        )

    -- Releasing addresses moves those that have a record from the records to the end of the free
    -- addresses, with the right counts; if none has one, the pool is left alone.
    pub release_from_lem :
        ((free ks m).0 ≡ []) × (release_from net json ds p ≡ ok none)
        ⊎ ((p' : IpPool) × (release_from net json ds p ≡ ok (some p'))
            × Holds json p'.status (free ks m).1 (un ++ (free ks m).0)
            × Counts p'.status (length (free ks m).1) (length (un ++ (free ks m).0))
            × (p'.meta ≡ p.meta))
    release_from_lem = by_freed (free ks m).0 refl
      where
        by_freed :
            (freed : List Text)
            → (free ks m).0 ≡ freed
            → ((free ks m).0 ≡ []) × (release_from net json ds p ≡ ok none)
              ⊎ ((p' : IpPool) × (release_from net json ds p ≡ ok (some p'))
                  × Holds json p'.status (free ks m).1 (un ++ (free ks m).0)
                  × Counts p'.status (length (free ks m).1) (length (un ++ (free ks m).0))
                  × (p'.meta ≡ p.meta))
        by_freed [] e = inl (e, release_from-none e)
        by_freed (k ∷ rest) e = inr (release_from-some k rest e)
