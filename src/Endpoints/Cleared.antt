-- ===== src/Endpoints/Cleared.antt =====
-- A whole release of an Endpoint (pkg/endpoint/endpoint_reconciler.go), whatever the server answers.
use virtnet.Prelude.{
  ◌≡◌, refl, sym, ◌∙◌, ap, subst, inl, inr, true, false, List, [], ◌∷◌, ◌++◌, arith, none, some,
  Text, text_eq, text_eq_refl, ok, All, lookup, contains,
}
use virtnet.Ip.{Net}
use virtnet.Ip.Merge.{dedup}
use virtnet.Api.{IpPool, IpPoolStatus, Endpoint, IpAllocationDetail}
use virtnet.Convert.{Json}
use virtnet.Convert.Laws.{Lawful}
use virtnet.Cluster.{Cluster, Call, find_pool, set_status, update_pool_status, pure}
use virtnet.Cluster.Laws.{
  find_pool-set_status, find_pool-other, update_pool_status-ok, update_endpoint-ok,
}
use virtnet.Pool.Conservation.{Holds}
use virtnet.Reconciler.{Result, done, requeue_on_conflict, requeue_on_conflict-done}
use virtnet.Endpoints.{
  release_from, release_pools, remove_finalizer, release, get_pools, pool_names,
}
use virtnet.Endpoints.Freed.{Allocations, free, free_nothing, lookup-free, Reads, release_from_lem}

module _ (net : Net) (json : Json) (lawful : Lawful json) (ds : List IpAllocationDetail)
    (ks : List Text) (reads : Reads net ds ks) where
  -- The stored pool of that name has no record for any of the addresses.
  unfoldable pub Cleared : Cluster → Text → Type 0
  Cleared c name =
      (p : IpPool) × (m : Allocations) × (un : List Text) × (find_pool name c.pools ≡ some p)
      × Holds json p.status m un
      × ((x : Text) → contains x ks ≡ true → lookup x m ≡ none)

  -- The pool is as the server has it, and its status can be read.
  unfoldable pub AsRead : Cluster → IpPool → Type 0
  AsRead c p =
      (m : Allocations) × (un : List Text) × (find_pool p.meta.name c.pools ≡ some p)
      × Holds json p.status m un

  abbrev pub Differ : Text → IpPool → Type 0
  Differ name p = (text_eq p.meta.name name ≡ false) × (text_eq name p.meta.name ≡ false)

  -- The names of the pools are different.
  unfoldable pub IsApart : List IpPool → Type 0
  IsApart [] = Unit
  IsApart (p ∷ ps) = All (Differ p.meta.name) ps × IsApart ps

  free-none : (m : Allocations) (x : Text) → contains x ks ≡ true → lookup x (free ks m).1 ≡ none
  free-none m x h = ground (arith, lookup-free ks m x)

  same-Cleared :
      (c c2 : Cluster) (name : Text)
      → find_pool name c2.pools ≡ find_pool name c.pools
      → Cleared c name
      → Cleared c2 name
  unfolding Cleared
  same-Cleared c c2 name e (p, m, un, found, holds, gone) = (p, m, un, e ∙ found, holds, gone)

  others-AsRead :
      (c c1 : Cluster) (written : Text) (status : IpPoolStatus) (ps : List IpPool)
      → c1.pools ≡ set_status written status c.pools
      → All (Differ written) ps
      → All (AsRead c) ps
      → All (AsRead c1) ps
  unfolding AsRead
  others-AsRead c c1 written status [] e apart h = tt
  others-AsRead c c1 written status (p ∷ ps) e ((_, differ), apart) ((m, un, found, holds), h) = (
    (m, un, find_pool-other p.meta.name written status c.pools c1.pools e differ ∙ found, holds),
    others-AsRead c c1 written status ps e apart h,
  )

  untouched-Cleared :
      (c : Cluster) (p : IpPool) (m : Allocations) (un : List Text)
      → find_pool p.meta.name c.pools ≡ some p
      → Holds json p.status m un
      → (free ks m).0 ≡ []
      → Cleared c p.meta.name
  unfolding Cleared
  untouched-Cleared c p m un found holds nothing = (
    p,
    m,
    un,
    found,
    holds,
    λ x h.
        subst (λ (n : Allocations). lookup x n ≡ none) (free_nothing ks m nothing)
          (free-none m x h),
  )

  written-Cleared :
      (c c1 : Cluster) (p p' : IpPool) (m : Allocations) (un : List Text)
      → find_pool p.meta.name c.pools ≡ some p
      → c1.pools ≡ set_status p.meta.name p'.status c.pools
      → Holds json p'.status (free ks m).1 un
      → Cleared c1 p.meta.name
  unfolding Cleared
  written-Cleared c c1 p p' m un found e holds = (
    record p { status = p'.status },
    (free ks m).1,
    un,
    rw
        (
          e,
          find_pool-set_status p.meta.name p.meta.name p'.status c.pools,
          text_eq_refl p.meta.name,
          found,
        )
        refl,
    holds,
    free-none m,
  )

  module _ (behind : Call Result)
      (keeps : (c c2 : Cluster) → behind c ≡ (ok done, c2) → c2.pools ≡ c.pools) where
    run : List IpPool → Call Result
    run = release_pools net json ds behind

    run-nil : (c : Cluster) → run [] c ≡ behind c
    unfolding run release_pools
    run-nil c = refl

    run-none :
        (p : IpPool) (ps : List IpPool) (c : Cluster)
        → release_from net json ds p ≡ ok none
        → run (p ∷ ps) c ≡ run ps c
    unfolding run release_pools
    run-none p ps c e = rw (e) refl

    run-some :
        (p p' : IpPool) (ps : List IpPool) (c : Cluster)
        → release_from net json ds p ≡ ok (some p')
        → run (p ∷ ps) c ≡ requeue_on_conflict (update_pool_status p' c) (λ _. run ps)
    unfolding run release_pools
    run-some p p' ps c e = rw (e) refl

    -- What is cleared at the start stays so, and the pools of the list are cleared.
    ClearedBy : List IpPool → Cluster → Cluster → Type 0
    ClearedBy ps c c2 =
        All (λ p. Cleared c2 p.meta.name) ps
        × ((name : Text) → All (Differ name) ps → Cleared c name → Cleared c2 name)

    run-ClearedBy :
        (ps : List IpPool) (c c2 : Cluster)
        → All (AsRead c) ps
        → IsApart ps
        → run ps c ≡ (ok done, c2)
        → ClearedBy ps c c2
    unfolding AsRead IsApart ClearedBy
    run-ClearedBy [] c c2 read apart h = (
      tt,
      λ name _ k. same-Cleared c c2 name (ap (find_pool name) (keeps c c2 (sym (run-nil c) ∙ h))) k,
    )
    run-ClearedBy (p ∷ ps) c c2 ((m, un, found, holds), read) (differ, apart) h =
        elim (release_from_lem net json lawful p m un holds ds ks reads) [
          | inl (nothing, same) ↦
              let (cleared, stays) =
                run-ClearedBy ps c c2 read apart (sym (run-none p ps c same) ∙ h) in
              let now = untouched-Cleared c p m un found holds nothing in
              ((stays p.meta.name differ now, cleared), λ name apart' k. stays name apart'.1 k)
          | inr (p', changed, holds', _, same_meta) ↦
              let (c1, written, h1) =
                requeue_on_conflict-done (update_pool_status p' c) (λ _. run ps) c2
                  (sym (run-some p p' ps c changed) ∙ h) in
              let e : c1.pools ≡ set_status p.meta.name p'.status c.pools =
                update_pool_status-ok p' c c1 written
                ∙ ap (λ mt. set_status mt.name p'.status c.pools) same_meta in
              let (cleared, stays) =
                run-ClearedBy ps c1 c2 (others-AsRead c c1 p.meta.name p'.status ps e differ read)
                  apart h1 in
              let now = written-Cleared c c1 p p' m (un ++ (free ks m).0) found e holds' in
              (
                (stays p.meta.name differ now, cleared),
                λ name apart' k. stays name apart'.1 (
                    same-Cleared c c1 name
                      (find_pool-other name p.meta.name p'.status c.pools c1.pools e apart'.0.0) k),
              )
        ]

  remove_finalizer-keeps :
      (e : Endpoint) (c c2 : Cluster) → remove_finalizer e c ≡ (ok done, c2) → c2.pools ≡ c.pools
  unfolding remove_finalizer
  remove_finalizer-keeps e c c2 h =
      let (c1, written, h1) = requeue_on_conflict-done _ (λ _. pure (ok done)) c2 h in
      let same : c1 ≡ c2 = cc in sym (ap (λ x. x.pools) same) ∙ update_endpoint-ok _ c c1 written

-- If Reconcile of a deleted Endpoint is done, no pool that it read has a record for any of the
-- addresses of the Endpoint, whatever the server answered; the addresses can be read, and the pools
-- have different names, readable statuses, and are as the server has them when the releases begin.
pub release-Cleared :
    (net : Net) (json : Json) (lawful : Lawful json) (e : Endpoint) (ks : List Text)
    (reads : Reads net e.current.ips ks) (c c1 c2 : Cluster) (ps : List IpPool)
    → e.meta.is_deleted ≡ true
    → get_pools (dedup (pool_names e.current.ips)) [] c ≡ (ok ps, c1)
    → All (AsRead net json lawful e.current.ips ks reads c1) ps
    → IsApart net json lawful e.current.ips ks reads ps
    → release net json e c ≡ (ok done, c2)
    → All (λ p. Cleared net json lawful e.current.ips ks reads c2 p.meta.name) ps
unfolding release ClearedBy run
release-Cleared net json lawful e ks reads c c1 c2 ps deleted got read apart h =
    let same : release net json e c
        ≡ release_pools net json e.current.ips (remove_finalizer e) ps c1 =
      rw (release, deleted, got) refl in
    (run-ClearedBy net json lawful e.current.ips ks reads (remove_finalizer e)
      (remove_finalizer-keeps net json lawful e.current.ips ks reads e) ps c1 c2 read apart
      (sym same ∙ h)).0
