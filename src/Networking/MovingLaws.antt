-- ===== src/Networking/MovingLaws.antt =====
-- What MoveRouteTable (pkg/networking/networking/route.go) leaves in the new table.
use virtnet.Prelude.{
  ℕ, ◌≡◌, refl, sym, ap, ◌∙◌, subst, ◌≢◌, ◌⊎◌, Bool, true, false, not, ◌||◌, List, [], ◌∷◌, arith,
  Option, none, some, Error, ok, err, All, ◌==◌, if◌then◌else◌, Text,
}
use virtnet.Ip.{IpNet}
use virtnet.Networking.{Netlink, Link, Route, NextHop, Step, Family, pure, forgive, is_exist, ◌>>◌}
use virtnet.Networking.CallLaws.{and_then_ok, forgive-exists, forgive-state}
use virtnet.Networking.Routes.{hop_of}
use virtnet.Networking.Moving.{
  is_any_default, is_local_link, hop_route, move_own, move_hop, move_routes, move_route_table,
}

-- What is relied on of the kernel: a route that is added, or refused because it exists, gives its
-- table a route to that destination; it is lost by deletes in its own table only.
pub record Tables {S : Type 0} (nl : Netlink S) : Type 1 where
  -- The table has a route to the destination.
  pub Has : S → ℕ → Option IpNet → Type 0
  pub added :
      (r : Route) (s s2 : S)
      → (nl.route_add r s ≡ (ok tt, s2)) ⊎ (nl.route_add r s ≡ (err Error.exists, s2))
      → Has s2 r.table r.dst
  pub kept_add :
      (table : ℕ) (d : Option IpNet) (r : Route) (s : S)
      → Has s table d
      → Has (nl.route_add r s).1 table d
  pub kept_del :
      (table : ℕ) (d : Option IpNet) (r : Route) (s : S)
      → table ≢ r.table
      → Has s table d
      → Has (nl.route_del r s).1 table d

-- The default destination, if there is a next hop over the link.
abbrev pub hop_to : Option NextHop → Option (Option IpNet)
hop_to none = none
hop_to (some _) = some none

module _ {S : Type 0} (nl : Netlink S) (tables : Tables nl) (net_string : IpNet → Text)
    (src_table dst_table : ℕ) (apart : dst_table ≢ src_table) where
  -- The destination that a route has in the new table, if it is moved.
  unfoldable pub moved_to : ℕ → Route → Option (Option IpNet)
  moved_to index route =
      if not (route.table == src_table) || is_local_link net_string route.dst
      then none
      else if route.link_index == index
      then some route.dst
      else hop_to (hop_of index route.multi_path)

  unfoldable pub HasMoved : S → Option (Option IpNet) → Type 0
  HasMoved s none = Unit
  HasMoved s (some d) = tables.Has s dst_table d

  -- The routes of the new table stay.
  Keeps : S → S → Type 0
  Keeps s s2 = (d : Option IpNet) → tables.Has s dst_table d → tables.Has s2 dst_table d

  added-Has :
      (r : Route) (s s2 : S)
      → r.table ≡ dst_table
      → forgive is_exist (nl.route_add r s) ≡ (ok tt, s2)
      → tables.Has s2 dst_table r.dst × Keeps s s2
  unfolding Keeps
  added-Has r s s2 here h = (
    subst (λ t. tables.Has s2 t r.dst) here
        (tables.added r s s2 (forgive-exists (nl.route_add r s) s2 h)),
    λ d k.
        subst (λ x. tables.Has x dst_table d) (forgive-state (nl.route_add r s) s2 h)
          (tables.kept_add dst_table d r s k),
  )

  deleted-Keeps :
      (r : Route) (s s2 : S) → r.table ≡ src_table → nl.route_del r s ≡ (ok tt, s2) → Keeps s s2
  unfolding Keeps
  deleted-Keeps r s s2 there h d k =
      subst (λ x. tables.Has x dst_table d) (ap (λ p. p.1) h)
        (tables.kept_del dst_table d r s (λ e. apart (e ∙ there)) k)

  default-Keeps :
      (b : Bool) (r : Route) (s s2 : S)
      → r.table ≡ src_table
      → (if b then nl.route_del r else pure (ok tt)) s ≡ (ok tt, s2)
      → Keeps s s2
  unfolding Keeps
  default-Keeps true r s s2 there h d k = deleted-Keeps r s s2 there h d k
  default-Keeps false r s s2 there h d k =
      let e : s ≡ s2 = cc in subst (λ x. tables.Has x dst_table d) e k

  move_own-Has :
      (route : Route) (s s2 : S)
      → route.table ≡ src_table
      → move_own nl net_string src_table dst_table route s ≡ (ok tt, s2)
      → tables.Has s2 dst_table route.dst × Keeps s s2
  unfolding move_own Keeps
  move_own-Has route s s2 there h =
      let (_, s1, deleted, h1) =
        and_then_ok ((if is_any_default route.dst then nl.route_del route else pure (ok tt)) s) _ tt
          s2 h in
      let (has, keeps) = added-Has (record route { table = dst_table }) s1 s2 refl h1 in
      (has, λ d k. keeps d (default-Keeps (is_any_default route.dst) route s s1 there deleted d k))

  move_hop-Has :
      (route : Route) (hop : Option NextHop) (s s2 : S)
      → move_hop nl net_string src_table dst_table route hop s ≡ (ok tt, s2)
      → HasMoved s2 (hop_to hop) × Keeps s s2
  unfolding move_hop Keeps HasMoved
  move_hop-Has route none s s2 h =
      let e : s ≡ s2 = cc in (tt, λ d k. subst (λ x. tables.Has x dst_table d) e k)
  move_hop-Has route (some hop) s s2 h =
      let (_, s1, deleted, h1) =
        and_then_ok (nl.route_del (hop_route hop src_table 0) s) _ tt s2 h in
      let (has, keeps) = added-Has (hop_route hop dst_table route.mtu) s1 s2 refl h1 in
      (has, λ d k. keeps d (deleted-Keeps (hop_route hop src_table 0) s s1 refl deleted d k))

  stays-HasMoved :
      (s s2 : S) (o : Option (Option IpNet)) → Keeps s s2 → HasMoved s o → HasMoved s2 o
  unfolding HasMoved Keeps
  stays-HasMoved s s2 none keeps h = tt
  stays-HasMoved s s2 (some d) keeps h = keeps d h

  -- One round of the loop, by its two tests.
  step-HasMoved :
      (b1 b2 : Bool) (route : Route) (hop : Option NextHop) (rest : Step S (Unit {0})) (s s2 : S)
      (Rest : Type 0)
      → (b1 ≡ false → route.table ≡ src_table)
      → (if b1
            then rest
            else if b2
            then move_own nl net_string src_table dst_table route >> rest
            else move_hop nl net_string src_table dst_table route hop >> rest)
          s
        ≡ (ok tt, s2)
      → ((s1 : S) → rest s1 ≡ (ok tt, s2) → Rest × Keeps s1 s2)
      → (HasMoved s2 (if b1 then none else if b2 then some route.dst else hop_to hop) × Rest)
        × Keeps s s2
  unfolding HasMoved Keeps
  step-HasMoved true b2 route hop rest s s2 Rest there h ih =
      let (others, keeps) = ih s h in ((tt, others), keeps)
  step-HasMoved false true route hop rest s s2 Rest there h ih =
      let (_, s1, moved, h1) =
        and_then_ok (move_own nl net_string src_table dst_table route s) _ tt s2 h in
      let (has, kept) = move_own-Has route s s1 (there refl) moved in
      let (others, keeps) = ih s1 h1 in ((keeps route.dst has, others), λ d k. keeps d (kept d k))
  step-HasMoved false false route hop rest s s2 Rest there h ih =
      let (_, s1, moved, h1) =
        and_then_ok (move_hop nl net_string src_table dst_table route hop s) _ tt s2 h in
      let (has, kept) = move_hop-Has route hop s s1 moved in
      let (others, keeps) = ih s1 h1 in
      ((stays-HasMoved s1 s2 (hop_to hop) keeps has, others), λ d k. keeps d (kept d k))

  move_routes-HasMoved :
      (index : ℕ) (routes : List Route) (s s2 : S)
      → move_routes nl net_string src_table dst_table index routes s ≡ (ok tt, s2)
      → All (λ r. HasMoved s2 (moved_to index r)) routes × Keeps s s2
  unfolding move_routes moved_to Keeps
  move_routes-HasMoved index [] s s2 h =
      let e : s ≡ s2 = cc in (tt, λ d k. subst (λ x. tables.Has x dst_table d) e k)
  move_routes-HasMoved index (route ∷ routes) s s2 h =
      step-HasMoved (not (route.table == src_table) || is_local_link net_string route.dst)
        (route.link_index == index) route (hop_of index route.multi_path)
        (move_routes nl net_string src_table dst_table index routes) s s2
        (All (λ r. HasMoved s2 (moved_to index r)) routes) (λ e. ground arith) h
        (λ s1 h1. move_routes-HasMoved index routes s1 s2 h1)

  -- If MoveRouteTable succeeds, on a kernel that loses routes by deletes in their own table only,
  -- the new table has a route to the destination of every route of the
  -- old table over the link, and a default route if a route of several next hops has one over the
  -- link; routes of fe80::/64 are left alone. The two tables are different.
  pub move_route_table-HasMoved :
      (iface : Text) (family : Family) (link : Link) (routes : List Route) (s s1 s2 s3 : S)
      → nl.link_by_name iface s ≡ (ok link, s1)
      → nl.route_list none family s1 ≡ (ok routes, s2)
      → move_route_table nl net_string src_table dst_table iface family s ≡ (ok tt, s3)
      → All (λ r. HasMoved s3 (moved_to link.index r)) routes
  unfolding move_route_table
  move_route_table-HasMoved iface family link routes s s1 s2 s3 found listed h =
      let same : move_route_table nl net_string src_table dst_table iface family s
          ≡ move_routes nl net_string src_table dst_table link.index routes s2 =
        rw (found, listed) refl in
      (move_routes-HasMoved link.index routes s2 s3 (sym same ∙ h)).0
