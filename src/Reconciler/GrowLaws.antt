-- ===== src/Reconciler/GrowLaws.antt =====
-- The loop of ippoolExpansion (pkg/subnet/subnet_reconciler.go) on the pools that are picked of all.
use virtnet.Prelude.{
  ℕ, ◌+◌, ◌≤◌, ◌≡◌, refl, sym, ap, inl, inr, List, [], ◌∷◌, ◌++◌, arith, Text, keys, length, ltb,
  Bool-cases, ok, subst,
}
use mathlib.Core.List.{append_assoc}
use virtnet.Api.{IpPool}
use virtnet.Convert.{Json, count_or_zero}
use virtnet.Convert.Laws.{Lawful}
use virtnet.Cluster.{Cluster}
use virtnet.Cluster.Owned.{IsView, update_pool_status-among}
use virtnet.Reconciler.Gather.{below_share}
use virtnet.Reconciler.Expand.{expand_loop}
use virtnet.Reconciler.SplitLaws.{joined}
use virtnet.Reconciler.ShareLaws.{extend-IsCounted}
use virtnet.Reconciler.Stands.{AllStand, IsCounted-Stands, IsView-reassoc}
use virtnet.Inventory.{Shelf, shelf, count, addresses, all_addresses, held}
use virtnet.Inventory.Unique.{count-append}

-- Some pools of the list, in its order.
pub data Picks : List IpPool → List IpPool → Type 0 where
  ends : Picks [] []
  picks : {needs ps : List IpPool} (p : IpPool) → Picks needs ps → Picks (p ∷ needs) (p ∷ ps)
  skips : {needs ps : List IpPool} (p : IpPool) → Picks needs ps → Picks needs (p ∷ ps)

pub Picks-all : (ps : List IpPool) → Picks ps ps
Picks-all [] = ends
Picks-all (p ∷ ps) = picks p (Picks-all ps)

pub below_share-Picks : (share : ℕ) (ps : List IpPool) → Picks (below_share share ps) ps
unfolding below_share
below_share-Picks share [] = ends
below_share-Picks share (p ∷ ps) =
    elim (Bool-cases (ltb (count_or_zero p.status.unallocated_ip_count) share)) [
      | inl below ↦ rw below (picks p (below_share-Picks share ps))
      | inr enough ↦ rw enough (skips p (below_share-Picks share ps))
    ]

-- The shelves keep what is in use, and have the addresses of the list more.
pub record HaveMore (more : List Text) (ss ts : List Shelf) : Type 0 where
  pub same_held : held ts ≡ held ss
  pub together : (x : Text) → count x (all_addresses ts) ≡ count x (all_addresses ss) + count x more

pub HaveMore-none : (ss : List Shelf) → HaveMore [] ss ss
unfolding count
HaveMore-none ss = record { same_held = refl; together = λ x. omega arith }

HaveMore-same :
    (more : List Text) (s : Shelf) (ss ts : List Shelf)
    → HaveMore more ss ts
    → HaveMore more (s ∷ ss) (s ∷ ts)
unfolding held all_addresses
HaveMore-same more s ss ts h = record {
  same_held = ap (λ (xs : List Text). keys s.used ++ xs) h.same_held;
  together = λ x. omega (
    arith,
    h.together x,
    count-append x (addresses s) (all_addresses ss),
    count-append x (addresses s) (all_addresses ts),
  );
}

HaveMore-share :
    (share more : List Text) (s : Shelf) (ss ts : List Shelf)
    → HaveMore more ss ts
    → HaveMore (share ++ more) (s ∷ ss) (shelf s.used (s.unused ++ share) ∷ ts)
unfolding held all_addresses
HaveMore-share share more s ss ts h = record {
  same_held = ap (λ (xs : List Text). keys s.used ++ xs) h.same_held;
  together = λ x. omega (
    arith,
    h.together x,
    count-append x (addresses s) (all_addresses ss),
    count-append x (keys s.used ++ (s.unused ++ share)) (all_addresses ts),
    count-append x (keys s.used) s.unused,
    count-append x (keys s.used) (s.unused ++ share),
    count-append x s.unused share,
    count-append x share more,
  );
}

module _ (json : Json) (lawful : Lawful json) (owner : Text) where
  -- With as many picked pools as shares, every share comes to a pool.
  pub expand_loop-IsView :
      {needs ps : List IpPool} (done : List IpPool) (ss : List Shelf) (shares : List (List Text))
      (c : Cluster)
      → Picks needs ps
      → length shares ≤ length needs
      → IsView owner c (done ++ ps)
      → AllStand json ps ss
      → (c' : Cluster) × (qs : List IpPool) × (ts : List Shelf) × (expand_loop json needs shares c
          ≡ (ok tt, c'))
        × IsView owner c' (done ++ qs)
        × AllStand json qs ts
        × (length qs ≡ length ps)
        × HaveMore (joined shares) ss ts
  unfolding expand_loop joined
  expand_loop-IsView done [] [] c ends enough view h =
      (c, [], [], refl, view, tt, refl, HaveMore-none [])
  expand_loop-IsView done [] (share ∷ shares) c ends enough view h = absurd (omega arith)
  expand_loop-IsView done (s ∷ ss) shares c ends enough view h = absurd h
  expand_loop-IsView done [] shares c (skips p rest) enough view h = absurd h
  expand_loop-IsView {ps = _ ∷ ps} done (s ∷ ss) shares c (skips p rest) enough view (stands, h) =
      let (c', qs, ts, run, view', h', len, more) =
        expand_loop-IsView (done ++ p ∷ []) ss shares c rest enough
          (subst (IsView owner c) (sym (append_assoc done (p ∷ []) ps)) view) h in
      (
        c',
        p ∷ qs,
        s ∷ ts,
        run,
        IsView-reassoc owner c' done qs p view',
        (stands, h'),
        omega (arith, len),
        HaveMore-same (joined shares) s ss ts more,
      )
  expand_loop-IsView done [] shares c (picks p rest) enough view h = absurd h
  expand_loop-IsView {ps = ps} done (s ∷ ss) [] c (picks p rest) enough view h =
      (c, ps, s ∷ ss, refl, view, h, refl, HaveMore-none (s ∷ ss))
  expand_loop-IsView {ps = _ ∷ ps} done (s ∷ ss) (share ∷ shares) c (picks p rest) enough view
        (stands, h) =
      let (p', extended, counted, same) =
        extend-IsCounted json lawful p s.used s.unused stands.represents share in
      let (c1, updated, view1) = update_pool_status-among owner c done ps p p' view same in
      let p1 : IpPool = record p { status = p'.status } in
      let (c', qs, ts, run, view', h', len, more) =
        expand_loop-IsView (done ++ p1 ∷ []) ss shares c1 rest (omega arith)
          (subst (IsView owner c1) (sym (append_assoc done (p1 ∷ []) ps)) view1) h in
      (
        c',
        p1 ∷ qs,
        shelf s.used (s.unused ++ share) ∷ ts,
        rw (extended, updated) run,
        IsView-reassoc owner c' done qs p1 view',
        (IsCounted-Stands json p p' s.used (s.unused ++ share) counted, h'),
        omega (arith, len),
        HaveMore-share share (joined shares) s ss ts more,
      )
