-- ===== src/Inventory/Writes.antt =====
-- Sequences of writes to the pools of a Subnet.
use virtnet.Prelude.{◌≤◌, ◌≡◌, refl, sym, List, [], ◌∷◌, ◌++◌, keys, Text, arith, subst}
use virtnet.Ip.{Net}
use virtnet.Api.{IpPool}
use virtnet.Convert.{Json}
use virtnet.Convert.Laws.{Lawful}
use virtnet.Endpoints.Freed.{Allocations, Reads}
use virtnet.Reconciler.Replicate.{new_pool}
use virtnet.Pool.Conservation.{Holds}
use virtnet.Inventory.{
  Shelf, shelf, count, held, IsUnique, IsFresh, ◌⟶◌, ◌⟶*◌, opens, closes, here, step,
}
use virtnet.Inventory.Held.{held-one, held-without}
use virtnet.Inventory.Unique.{⟶-IsUnique}
use virtnet.Inventory.Refines.{
  AllRepresent, AllRepresent-one, AllRepresent-join, new_pool-Represents, Write, allocates,
  releases, trims, extends, creates, deletes, FreesNone, Follows, allocate_from-Follows,
  release_from-Follows, trim-Follows, extend-Follows,
}

module _ (net : Net) (json : Json) where
  -- The addresses that a write takes out of use: those of the details that are released, and those
  -- in use in a pool that is deleted.
  abbrev pub Frees : {ps qs : List IpPool} → Write net json ps qs → List Text → Type 0
  Frees (releases before after p p' ds run) ks = Reads net ds ks
  Frees (deletes before after p) ks =
      (used : Allocations) × (un : List Text) × Holds json p.status used un × (ks ≡ keys used)
  Frees _ ks = ks ≡ []

  -- The pools that result stand for shelves that one step leads to; only what is freed is no longer
  -- in use.
  abbrev pub LeadsTo : (List Text → Type 0) → List IpPool → List Shelf → Type 0
  LeadsTo Freed qs ss =
      (ts : List Shelf) × AllRepresent json qs ts
      × (ss ⟶ ts)
      × (ks : List Text) × Freed ks
      × ((x : Text) → count x ks ≡ 0 → count x (held ss) ≤ count x (held ts))

module _ (net : Net) (json : Json) (lawful : Lawful json) where
  -- Puts the pool that follows back among the others.
  among :
      (Freed : List Text → Type 0) (before after : List IpPool) (bs cs : List Shelf) (p p' : IpPool)
      (s : Shelf) (ss : List Shelf)
      → ss ≡ bs ++ s ∷ cs
      → AllRepresent json before bs
      → AllRepresent json after cs
      → Follows net json lawful bs cs p p' s.used Freed s.unused
      → LeadsTo net json Freed (before ++ p' ∷ after) ss
  among Freed before after bs cs p p' s ss e hb ha (s', r, follows, ks, freed, stay) = (
    bs ++ s' ∷ cs,
    AllRepresent-join json before (p' ∷ after) bs (s' ∷ cs) hb (r, ha),
    subst (λ (ts : List Shelf). ts ⟶ bs ++ s' ∷ cs) (sym e) follows,
    ks,
    freed,
    λ x h.
        subst (λ (ts : List Shelf). count x (held ts) ≤ count x (held (bs ++ s' ∷ cs))) (sym e)
          (omega (arith, stay x h, held-one bs cs s x, held-one bs cs s' x)),
  )

  -- Every write to the pools is a step of the shelves that they stand for, if no address is on the
  -- shelves twice and an extension, as the step does, brings addresses that no pool has, and takes
  -- no address out of use but those that it frees.
  pub Write-LeadsTo :
      (ps qs : List IpPool) (ss : List Shelf) (w : Write net json ps qs)
      → AllRepresent json ps ss
      → IsUnique ss
      → LeadsTo net json (Frees net json w) qs ss
  Write-LeadsTo ps qs ss (allocates before after p p' pod ip run) h unique =
      let (bs, s, cs, e, hb, r, ha) = AllRepresent-one json before after p ss h in
      among FreesNone before after bs cs p p' s ss e hb ha (
        allocate_from-Follows net json lawful bs cs p p' s.used s.unused pod ip r
          (subst IsUnique e unique) run)
  Write-LeadsTo ps qs ss (releases before after p p' ds run) h unique =
      let (bs, s, cs, e, hb, r, ha) = AllRepresent-one json before after p ss h in
      among (Reads net ds) before after bs cs p p' s ss e hb ha
        (release_from-Follows net json lawful bs cs p p' s.used s.unused ds r run)
  Write-LeadsTo ps qs ss (trims before after p p' avg run) h unique =
      let (bs, s, cs, e, hb, r, ha) = AllRepresent-one json before after p ss h in
      among FreesNone before after bs cs p p' s ss e hb ha
        (trim-Follows net json lawful bs cs p p' s.used s.unused avg r run)
  Write-LeadsTo ps qs ss (extends before after p p' share run fresh) h unique =
      let (bs, s, cs, e, hb, r, ha) = AllRepresent-one json before after p ss h in
      among FreesNone before after bs cs p p' s ss e hb ha (
        extend-Follows net json lawful bs cs p p' s.used s.unused share r run
          (subst (IsFresh share) e (fresh ss h)))
  Write-LeadsTo ps qs ss (creates _ owner) h unique = (
    ss ++ shelf [] [] ∷ [],
    AllRepresent-join json ps (new_pool owner ∷ []) ss (shelf [] [] ∷ []) h
        (new_pool-Represents json owner, tt),
    opens ss,
    [],
    refl,
    λ x _. omega (arith, held-without ss (shelf [] [] ∷ []) x),
  )
  Write-LeadsTo ps qs ss (deletes before after p) h unique =
      let (bs, s, cs, e, hb, r, ha) = AllRepresent-one json before after p ss h in
      (
        bs ++ cs,
        AllRepresent-join json before after bs cs hb ha,
        subst (λ (ts : List Shelf). ts ⟶ bs ++ cs) (sym e) (closes bs cs s),
        keys s.used,
        (s.used, s.unused, r, refl),
        λ x h'.
            subst (λ (ts : List Shelf). count x (held ts) ≤ count x (held (bs ++ cs))) (sym e)
              (omega (arith, h', held-one bs cs s x, held-without bs cs x)),
      )

  pub data Writes : List IpPool → List IpPool → Type 0 where
    none_more : {ps : List IpPool} → Writes ps ps
    first : {ps qs rs : List IpPool} → Write net json ps qs → Writes qs rs → Writes ps rs

  -- If no address is in the pools twice, whether allocated or free, then after any sequence of
  -- writes, in whatever order the agents and the controllers make them, none is.
  pub Writes-IsUnique :
      (ps qs : List IpPool) (ss : List Shelf)
      → Writes ps qs
      → AllRepresent json ps ss
      → IsUnique ss
      → (ts : List Shelf) × AllRepresent json qs ts × (ss ⟶* ts) × IsUnique ts
  Writes-IsUnique ps qs ss none_more h unique = (ss, h, here, unique)
  Writes-IsUnique ps qs ss (first w ws) h unique =
      let (ts, h', s, _, _, _) = Write-LeadsTo ps _ ss w h unique in
      let (us, h'', steps, unique') = Writes-IsUnique _ qs ts ws h' (⟶-IsUnique s unique) in
      (us, h'', step s steps, unique')
