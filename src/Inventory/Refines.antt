-- ===== src/Inventory/Refines.antt =====
-- The pools of a Subnet (pkg/ippool, pkg/endpoint, pkg/subnet) as shelves.
use virtnet.Prelude.{
  ℕ, suc, ◌≤◌, keys, ◌≡◌, refl, ap, inl, inr, List, [], ◌∷◌, ◌++◌, none, some, arith, Text, lookup,
  delete, leb→le, take, ok, panic, subst, leb, length, bind_ok, Option-cases, Bool-cases,
  text_eq_refl,
}
use virtnet.Ip.{Ip, Net}
use virtnet.Api.{IpPool, IpAllocationDetail, Pod, Subnet}
use virtnet.Convert.{Json, unmarshal_allocated_ips, unmarshal_unallocated_ips, entries}
use virtnet.Convert.Laws.{Lawful}
use virtnet.Pool.Allocate.{allocate_from, allocation_of}
use virtnet.Pool.Conservation.{Holds, allocate_from-Holds, allocate_from-empty}
use virtnet.Endpoints.{key_of, release_loop, release_from}
use virtnet.Endpoints.Freed.{Allocations, Reads, free, release_from_lem}
use virtnet.Reconciler.Replicate.{new_pool}
use virtnet.Reconciler.Release.{trim, slice_to}
use virtnet.Reconciler.Expand.{extend}
use virtnet.Reconciler.ShareLaws.{extend-IsCounted, trim-IsCounted}
use virtnet.Inventory.{Shelf, shelf, count, IsUnique, IsFresh, ◌⟶◌, takes, gives_back, drops, adds}
use virtnet.Inventory.Held.{count-keeps_free, count-takes}
use virtnet.Inventory.Unique.{count-one, count-lookup-none}

-- The status of the pool stands for the shelf.
abbrev pub Represents : Json → IpPool → Shelf → Type 0
Represents json p s = Holds json p.status s.used s.unused

abbrev pub AllRepresent : Json → List IpPool → List Shelf → Type 0
AllRepresent json [] [] = Unit
AllRepresent json (p ∷ ps) (s ∷ ss) = Represents json p s × AllRepresent json ps ss
AllRepresent json _ _ = ⊥

-- The writes to the stored pools of a Subnet: an agent allocates, an Endpoint that goes gives back,
-- the controller cuts a pool down, extends it, creates or deletes one. That an extension brings
-- addresses that no pool has is a premise of it, which ippoolExpansion does not test: the addresses
-- are those that Reconcile has found to be in no pool of its list (Inventory/Fresh), which is so of
-- the stored pools if the list is current.
module _ (net : Net) (json : Json) where
  pub data Write : List IpPool → List IpPool → Type 0 where
    allocates :
        (before after : List IpPool) (p p' : IpPool) (pod : Pod) (ip : Ip)
        → allocate_from net json p pod ≡ ok (ip, p')
        → Write (before ++ p ∷ after) (before ++ p' ∷ after)
    releases :
        (before after : List IpPool) (p p' : IpPool) (ds : List IpAllocationDetail)
        → release_from net json ds p ≡ ok (some p')
        → Write (before ++ p ∷ after) (before ++ p' ∷ after)
    trims :
        (before after : List IpPool) (p p' : IpPool) (avg : ℕ)
        → trim json avg p ≡ ok p'
        → Write (before ++ p ∷ after) (before ++ p' ∷ after)
    extends :
        (before after : List IpPool) (p p' : IpPool) (share : List Text)
        → extend json share p ≡ ok p'
        → ((ss : List Shelf) → AllRepresent json (before ++ p ∷ after) ss → IsFresh share ss)
        → Write (before ++ p ∷ after) (before ++ p' ∷ after)
    creates : (ps : List IpPool) (s : Subnet) → Write ps (ps ++ new_pool s ∷ [])
    deletes :
        (before after : List IpPool) (p : IpPool) → Write (before ++ p ∷ after) (before ++ after)

-- The pool among the others stands for a shelf among the others.
pub AllRepresent-one :
    (json : Json) (before after : List IpPool) (p : IpPool) (ss : List Shelf)
    → AllRepresent json (before ++ p ∷ after) ss
    → (bs : List Shelf) × (s : Shelf) × (cs : List Shelf) × (ss ≡ bs ++ s ∷ cs)
      × AllRepresent json before bs
      × Represents json p s
      × AllRepresent json after cs
AllRepresent-one json [] after p [] h = absurd h
AllRepresent-one json [] after p (s ∷ ss) (r, h) = ([], s, ss, refl, tt, r, h)
AllRepresent-one json (b ∷ before) after p [] h = absurd h
AllRepresent-one json (b ∷ before) after p (t ∷ ss) (r, h) =
    let (bs, s, cs, e, hb, hp, ha) = AllRepresent-one json before after p ss h in
    (t ∷ bs, s, cs, ap (◌∷◌ t) e, (r, hb), hp, ha)

pub AllRepresent-join :
    (json : Json) (before after : List IpPool) (bs cs : List Shelf)
    → AllRepresent json before bs
    → AllRepresent json after cs
    → AllRepresent json (before ++ after) (bs ++ cs)
AllRepresent-join json [] after [] cs hb ha = ha
AllRepresent-join json [] after (b ∷ bs) cs hb ha = absurd hb
AllRepresent-join json (p ∷ before) after [] cs hb ha = absurd hb
AllRepresent-join json (p ∷ before) after (b ∷ bs) cs (r, hb) ha =
    (r, AllRepresent-join json before after bs cs hb ha)

pub new_pool-Represents : (json : Json) (s : Subnet) → Represents json (new_pool s) (shelf [] [])
unfolding new_pool unmarshal_allocated_ips unmarshal_unallocated_ips
new_pool-Represents json s = record { reads_allocated = refl; reads_unallocated = refl }

-- A loop that succeeds has read every address.
pub release_loop-Reads :
    (net : Net) (ds : List IpAllocationDetail) (m m' : Allocations)
    (released : List IpAllocationDetail)
    → release_loop net ds m ≡ ok (released, m')
    → (ks : List Text) × Reads net ds ks
unfolding release_loop
release_loop-Reads net [] m m' released h = ([], tt)
release_loop-Reads net (d ∷ ds) m m' released h =
    let (key, e, rest) = bind_ok (key_of net d) _ (released, m') h in
    elim (Option-cases (lookup key m)) [
      | inl absent ↦
          let (ks, r) = release_loop-Reads net ds m m' released (simp absent at rest) in
          (key ∷ ks, (e, r))
      | inr (a, there) ↦
          let (r, run, _) =
            bind_ok (release_loop net ds (delete key m)) _ (released, m') (simp there at rest) in
          let (ks, reads) = release_loop-Reads net ds (delete key m) r.1 r.0 run in
          (key ∷ ks, (e, reads))
    ]

pub count_self : (x : Text) (xs : List Text) → count x (x ∷ xs) ≡ suc (count x xs)
unfolding count
count_self x xs = rw (text_eq_refl x) refl

abbrev pub FreesNone : List Text → Type 0
FreesNone ks = ks ≡ []

module _ (net : Net) (json : Json) (lawful : Lawful json) (bs cs : List Shelf) (p p' : IpPool)
    (used : Allocations) where
  -- The pool becomes one that stands for the shelf after a step; only addresses that are freed are
  -- no longer in use.
  abbrev pub Follows : (List Text → Type 0) → List Text → Type 0
  Follows Freed un =
      (s' : Shelf) × Represents json p' s'
      × (bs ++ shelf used un ∷ cs ⟶ bs ++ s' ∷ cs)
      × (ks : List Text) × Freed ks
      × ((x : Text) → count x ks ≡ 0 → count x (keys used) ≤ count x (keys s'.used))

  pub allocate_from-Follows :
      (un : List Text) (pod : Pod) (ip : Ip)
      → Holds json p.status used un
      → IsUnique (bs ++ shelf used un ∷ cs)
      → allocate_from net json p pod ≡ ok (ip, p')
      → Follows FreesNone un
  allocate_from-Follows [] pod ip r unique h =
      let empty = allocate_from-empty net json p pod used r in absurd cc
  allocate_from-Follows (i ∷ rest) pod ip r unique h =
      let new : lookup i used ≡ none =
        count-lookup-none i used
          (omega (arith, unique i, count-one bs cs (shelf used (i ∷ rest)) i, count_self i rest)) in
      let (p'', run, holds, _, _, _) =
        allocate_from-Holds net json lawful p pod used i rest r new in
      let same : p'' ≡ p' = cc in
      (
        shelf (used ++ (i, allocation_of pod) ∷ []) rest,
        subst (λ (q : IpPool). Represents json q (shelf (used ++ (i, allocation_of pod) ∷ []) rest))
            same holds,
        takes bs cs used i rest (allocation_of pod) new,
        [],
        refl,
        λ x _. count-takes x i (allocation_of pod) used,
      )

  pub release_from-Follows :
      (un : List Text) (ds : List IpAllocationDetail)
      → Holds json p.status used un
      → release_from net json ds p ≡ ok (some p')
      → Follows (Reads net ds) un
  unfolding release_from
  release_from-Follows un ds r h =
      let (records, e, behind) =
        bind_ok (unmarshal_allocated_ips json p.status.allocated_ips) _ (some p') h in
      let same : records ≡ some used = let reads = r.reads_allocated in cc in
      let (looped, run, _) = bind_ok (release_loop net ds (entries records)) _ (some p') behind in
      let (ks, reads) = release_loop-Reads net ds (entries records) looped.1 looped.0 run in
      elim (release_from_lem net json lawful p used un r ds ks reads) [
        | inl (_, nothing) ↦ absurd cc
        | inr (p'', run', holds, _, _) ↦
            let found : p'' ≡ p' = cc in
            (
              shelf (free ks used).1 (un ++ (free ks used).0),
              subst
                  (λ (q : IpPool).
                    Represents json q (shelf (free ks used).1 (un ++ (free ks used).0)))
                  found holds,
              gives_back bs cs (shelf used un) ks,
              ks,
              reads,
              λ x h'. count-keeps_free x ks used h',
            )
      ]

  pub trim-Follows :
      (un : List Text) (avg : ℕ)
      → Holds json p.status used un
      → trim json avg p ≡ ok p'
      → Follows FreesNone un
  unfolding trim slice_to
  trim-Follows un avg r h = elim (Bool-cases (leb avg (length un))) [
    | inl within ↦
        let (p'', run, counted, _) =
          trim-IsCounted json lawful p used un r avg (leb→le avg (length un) within) in
        let found : p'' ≡ p' = cc in
        (
          shelf used (take avg un),
          subst (λ (q : IpPool). Represents json q (shelf used (take avg un))) found counted.holds,
          drops bs cs (shelf used un) avg,
          [],
          refl,
          λ x _. omega arith,
        )
    | inr beyond ↦
        let panics : trim json avg p ≡ panic = rw (r.reads_unallocated, beyond) refl in absurd cc
  ]

  pub extend-Follows :
      (un share : List Text)
      → Holds json p.status used un
      → extend json share p ≡ ok p'
      → IsFresh share (bs ++ shelf used un ∷ cs)
      → Follows FreesNone un
  extend-Follows un share r h fresh =
      let (p'', run, counted, _) = extend-IsCounted json lawful p used un r share in
      let found : p'' ≡ p' = cc in
      (
        shelf used (un ++ share),
        subst (λ (q : IpPool). Represents json q (shelf used (un ++ share))) found counted.holds,
        adds bs cs (shelf used un) share fresh,
        [],
        refl,
        λ x _. omega arith,
      )
