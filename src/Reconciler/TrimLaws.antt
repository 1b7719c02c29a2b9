-- ===== src/Reconciler/TrimLaws.antt =====
-- The loop of releaseIPPoolUnallocatedIPs (pkg/subnet/subnet_reconciler.go) on all the pools.
use virtnet.Prelude.{
  ℕ, ◌≤◌, ◌≡◌, refl, sym, ap, inl, inr, List, [], ◌∷◌, ◌++◌, arith, Text, keys, length, ltb, ltb→lt,
  Bool-cases, ok, take, subst,
}
use mathlib.Core.List.{append_assoc}
use virtnet.Api.{IpPool}
use virtnet.Convert.{Json, count_or_zero}
use virtnet.Convert.Laws.{Lawful}
use virtnet.Cluster.{Cluster, update_pool_status}
use virtnet.Cluster.Owned.{IsView, update_pool_status-among}
use virtnet.Retry.Laws.{retry_on_conflict-done}
use virtnet.Reconciler.Release.{release_loop}
use virtnet.Reconciler.ShareLaws.{trim-IsCounted}
use virtnet.Reconciler.Stands.{AllStand, IsCounted-Stands, IsView-reassoc}
use virtnet.Inventory.{Shelf, shelf, count, addresses, all_addresses, held}
use virtnet.Inventory.Unique.{count-append, count-take_le}

-- The shelves keep what is in use, and have no address more.
pub record HaveNoMore (ss ts : List Shelf) : Type 0 where
  pub same_held : held ts ≡ held ss
  pub fewer : (x : Text) → count x (all_addresses ts) ≤ count x (all_addresses ss)

HaveNoMore-same : (s : Shelf) (ss ts : List Shelf) → HaveNoMore ss ts → HaveNoMore (s ∷ ss) (s ∷ ts)
unfolding held all_addresses
HaveNoMore-same s ss ts h = record {
  same_held = ap (λ (xs : List Text). keys s.used ++ xs) h.same_held;
  fewer = λ x. omega (
    arith,
    h.fewer x,
    count-append x (addresses s) (all_addresses ss),
    count-append x (addresses s) (all_addresses ts),
  );
}

HaveNoMore-take :
    (n : ℕ) (s : Shelf) (ss ts : List Shelf)
    → HaveNoMore ss ts
    → HaveNoMore (s ∷ ss) (shelf s.used (take n s.unused) ∷ ts)
unfolding held all_addresses
HaveNoMore-take n s ss ts h = record {
  same_held = ap (λ (xs : List Text). keys s.used ++ xs) h.same_held;
  fewer = λ x. omega (
    arith,
    h.fewer x,
    count-append x (addresses s) (all_addresses ss),
    count-append x (keys s.used ++ take n s.unused) (all_addresses ts),
    count-append x (keys s.used) s.unused,
    count-append x (keys s.used) (take n s.unused),
    count-take_le x n s.unused,
  );
}

module _ (json : Json) (lawful : Lawful json) (owner : Text) (avg : ℕ) where
  -- With right counts the loop runs to its end: addresses in use stay, and none is added.
  pub release_loop-IsView :
      (done ps : List IpPool) (ss : List Shelf) (c : Cluster)
      → IsView owner c (done ++ ps)
      → AllStand json ps ss
      → (c' : Cluster) × (qs : List IpPool) × (ts : List Shelf) × (release_loop json avg ps c
          ≡ (ok tt, c'))
        × IsView owner c' (done ++ qs)
        × AllStand json qs ts
        × (length qs ≡ length ps)
        × HaveNoMore ss ts
  unfolding release_loop
  release_loop-IsView done [] [] c view h =
      (c, [], [], refl, view, tt, refl, record { same_held = refl; fewer = λ x. omega arith })
  release_loop-IsView done [] (s ∷ ss) c view h = absurd h
  release_loop-IsView done (p ∷ ps) [] c view h = absurd h
  release_loop-IsView done (p ∷ ps) (s ∷ ss) c view (stands, h) =
      elim (Bool-cases (ltb avg (count_or_zero p.status.unallocated_ip_count))) [
        | inl above ↦
            let (p', run, counted, same) =
              trim-IsCounted json lawful p s.used s.unused stands.represents avg (
                omega (
                  arith,
                  ltb→lt avg (count_or_zero p.status.unallocated_ip_count) above,
                  stands.counted,
                )) in
            let (c1, updated, view1) = update_pool_status-among owner c done ps p p' view same in
            let p1 : IpPool = record p { status = p'.status } in
            let (c', qs, ts, rest, view', h', len, no_more) =
              release_loop-IsView (done ++ p1 ∷ []) ps ss c1
                (subst (IsView owner c1) (sym (append_assoc done (p1 ∷ []) ps)) view1) h in
            (
              c',
              p1 ∷ qs,
              shelf s.used (take avg s.unused) ∷ ts,
              rw
                  (
                    above,
                    run,
                    retry_on_conflict-done 4 (update_pool_status p') c c1 (ok tt) refl updated,
                  )
                  rest,
              IsView-reassoc owner c' done qs p1 view',
              (IsCounted-Stands json p p' s.used (take avg s.unused) counted, h'),
              omega (arith, len),
              HaveNoMore-take avg s ss ts no_more,
            )
        | inr within ↦
            let (c', qs, ts, rest, view', h', len, no_more) =
              release_loop-IsView (done ++ p ∷ []) ps ss c
                (subst (IsView owner c) (sym (append_assoc done (p ∷ []) ps)) view) h in
            (
              c',
              p ∷ qs,
              s ∷ ts,
              rw within rest,
              IsView-reassoc owner c' done qs p view',
              (stands, h'),
              omega (arith, len),
              HaveNoMore-same s ss ts no_more,
            )
      ]
