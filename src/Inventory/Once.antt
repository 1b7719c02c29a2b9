-- ===== src/Inventory/Once.antt =====
-- That an address in use is not handed out again (AllocateIP of pkg/ippool/ippool_client.go).
use virtnet.Prelude.{
  suc, ◌≤◌, ◌<◌, ◌≡◌, sym, ap, ◌∙◌, List, [], ◌∷◌, ◌++◌, none, arith, Text, lookup, ok, subst,
}
use virtnet.Ip.{Ip, Net}
use virtnet.Api.{IpPool, Pod}
use virtnet.Convert.{Json}
use virtnet.Convert.Laws.{Lawful}
use virtnet.Endpoints.Freed.{Allocations}
use virtnet.Pool.Allocate.{allocate_from, allocation_of}
use virtnet.Pool.Conservation.{Holds, allocate_from-Holds, allocate_from-empty}
use virtnet.Inventory.{Shelf, shelf, count, held, IsUnique, takes}
use virtnet.Inventory.Unique.{count-one, count-keys_last, count-lookup-none, ⟶-IsUnique}
use virtnet.Inventory.Held.{held-one, held-all_addresses}
use virtnet.Inventory.Refines.{AllRepresent, AllRepresent-one, AllRepresent-join, count_self}
use virtnet.Inventory.Writes.{Frees, Writes, none_more, first, Write-LeadsTo}

-- The first free address of the pool is written as ip_string writes it.
abbrev pub PrintsFirst : Net → Json → IpPool → Type 0
PrintsFirst net json p =
    (used : Allocations) (x : Text) (rest : List Text)
    → Holds json p.status used (x ∷ rest)
    → net.ip_string (net.parse_ip x) ≡ x

module _ (net : Net) (json : Json) (lawful : Lawful json) where
  -- No write of the sequence takes the address out of use.
  abbrev pub Keeps : Text → {ps qs : List IpPool} → Writes net json lawful ps qs → Type 0
  Keeps x none_more = Unit
  Keeps x (first w ws) = ((ks : List Text) → Frees net json w ks → count x ks ≡ 0) × Keeps x ws

  -- Its shelves keep the addresses in use.
  Writes-held :
      (x : Text) (ps qs : List IpPool) (ss : List Shelf) (ws : Writes net json lawful ps qs)
      → Keeps x ws
      → AllRepresent json ps ss
      → IsUnique ss
      → (ts : List Shelf) × AllRepresent json qs ts
        × IsUnique ts
        × (count x (held ss) ≤ count x (held ts))
  Writes-held x ps qs ss none_more keeps h unique = (ss, h, unique, omega arith)
  Writes-held x ps qs ss (first w ws) (kept, keeps) h unique =
      let (ts, h', s, ks, freed, stay) = Write-LeadsTo net json lawful ps _ ss w h unique in
      let (us, h'', unique', more) = Writes-held x _ qs ts ws keeps h' (⟶-IsUnique s unique) in
      (us, h'', unique', omega (arith, stay x (kept ks freed), more))

  -- An address that is handed out was the first free one of its pool, had no record there, and has
  -- one now.
  was_first :
      (bs cs : List Shelf) (p p' : IpPool) (pod : Pod) (ip : Ip) (used : Allocations)
      (un : List Text)
      → Holds json p.status used un
      → IsUnique (bs ++ shelf used un ∷ cs)
      → PrintsFirst net json p
      → allocate_from net json p pod ≡ ok (ip, p')
      → (rest : List Text) × (un ≡ net.ip_string ip ∷ rest)
        × (lookup (net.ip_string ip) used ≡ none)
        × Holds json p'.status (used ++ (net.ip_string ip, allocation_of pod) ∷ []) rest
  was_first bs cs p p' pod ip used [] r unique prints run =
      let empty = allocate_from-empty net json p pod used r in absurd cc
  was_first bs cs p p' pod ip used (x ∷ rest) r unique prints run =
      let new : lookup x used ≡ none =
        count-lookup-none x used
          (omega (arith, unique x, count-one bs cs (shelf used (x ∷ rest)) x, count_self x rest)) in
      let (p'', run', holds, _, _, _) =
        allocate_from-Holds net json lawful p pod used x rest r new in
      let printed : net.ip_string (net.parse_ip x) ≡ x = prints used x rest r in
      let same : p'' ≡ p' = cc in
      let text : x ≡ net.ip_string ip = cc in
      (
        rest,
        ap (λ (y : Text). y ∷ rest) text,
        subst (λ (y : Text). lookup y used ≡ none) text new,
        subst
            (λ (q : IpPool).
              Holds json q.status (used ++ (net.ip_string ip, allocation_of pod) ∷ []) rest)
            same
            (subst (λ (y : Text). Holds json p''.status (used ++ (y, allocation_of pod) ∷ []) rest)
              text holds),
      )

  -- After the allocation the address is in use.
  allocates-held :
      (before after : List IpPool) (p p' : IpPool) (pod : Pod) (ip : Ip) (ss : List Shelf)
      → AllRepresent json (before ++ p ∷ after) ss
      → IsUnique ss
      → PrintsFirst net json p
      → allocate_from net json p pod ≡ ok (ip, p')
      → (ts : List Shelf) × AllRepresent json (before ++ p' ∷ after) ts
        × IsUnique ts
        × (0 < count (net.ip_string ip) (held ts))
  allocates-held before after p p' pod ip ss h unique prints run =
      let (bs, s, cs, e, hb, r, ha) = AllRepresent-one json before after p ss h in
      let unique' : IsUnique (bs ++ s ∷ cs) = subst IsUnique e unique in
      let x : Text = net.ip_string ip in
      let (rest, first_free, new, holds) =
        was_first bs cs p p' pod ip s.used s.unused r unique' prints run in
      let s' : Shelf = shelf (s.used ++ (x, allocation_of pod) ∷ []) rest in
      (
        bs ++ s' ∷ cs,
        AllRepresent-join json before (p' ∷ after) bs (s' ∷ cs) hb (holds, ha),
        ⟶-IsUnique (takes bs cs s.used x rest (allocation_of pod) new)
            (subst (λ (un : List Text). IsUnique (bs ++ shelf s.used un ∷ cs)) first_free unique'),
        omega (
          arith,
          held-one bs cs s' x,
          count-keys_last x x (allocation_of pod) s.used,
          count_self x [],
        ),
      )

  -- An address that is handed out was in use in no pool.
  pub allocates-not_held :
      (before after : List IpPool) (p p' : IpPool) (pod : Pod) (ip : Ip) (ss : List Shelf)
      → AllRepresent json (before ++ p ∷ after) ss
      → IsUnique ss
      → PrintsFirst net json p
      → allocate_from net json p pod ≡ ok (ip, p')
      → count (net.ip_string ip) (held ss) ≡ 0
  allocates-not_held before after p p' pod ip ss h unique prints run =
      let (bs, s, cs, e, hb, r, ha) = AllRepresent-one json before after p ss h in
      let x : Text = net.ip_string ip in
      let (rest, first_free, _, _) =
        was_first bs cs p p' pod ip s.used s.unused r (subst IsUnique e unique) prints run in
      let there : count x s.unused ≡ suc (count x rest) =
        ap (count x) first_free ∙ count_self x rest in
      subst (λ (ts : List Shelf). count x (held ts) ≡ 0) (sym e)
        (omega (
          arith,
          subst IsUnique e unique x,
          count-one bs cs s x,
          held-one bs cs s x,
          held-all_addresses bs x,
          held-all_addresses cs x,
          there,
        ))

  -- From pools without an address twice: after any sequence of writes of agents and controllers
  -- that does not take an address out of use, in whatever order, no agent hands that address out
  -- again, to whatever pod and from whatever pool. The sequence extends pools with addresses that no
  -- pool has, and the two pools' first free addresses are written as ip_string writes them.
  pub allocate_from-once :
      (before after before' after' : List IpPool) (p p1 q q1 : IpPool) (pod pod' : Pod)
      (ip ip' : Ip) (ss : List Shelf)
      → AllRepresent json (before ++ p ∷ after) ss
      → IsUnique ss
      → PrintsFirst net json p
      → PrintsFirst net json q
      → allocate_from net json p pod ≡ ok (ip, p1)
      → (ws : Writes net json lawful (before ++ p1 ∷ after) (before' ++ q ∷ after'))
      → Keeps (net.ip_string ip) ws
      → allocate_from net json q pod' ≡ ok (ip', q1)
      → ¬ (ip' ≡ ip)
  allocate_from-once before after before' after' p p1 q q1 pod pod' ip ip' ss h unique first_p
        first_q run ws keeps run' same =
      let x : Text = net.ip_string ip in
      let (ts, h', unique', in_use) =
        allocates-held before after p p1 pod ip ss h unique first_p run in
      let (us, h'', unique'', still) = Writes-held x _ _ ts ws keeps h' unique' in
      let free : count (net.ip_string ip') (held us) ≡ 0 =
        allocates-not_held before' after' q q1 pod' ip' us h'' unique'' first_q run' in
      let free_x : count x (held us) ≡ 0 =
        subst (λ (i : Ip). count (net.ip_string i) (held us) ≡ 0) same free in
      omega (arith, in_use, still, free_x)
