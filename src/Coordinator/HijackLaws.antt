-- ===== src/Coordinator/HijackLaws.antt =====
-- The routes of the pod to the services of the cluster (SetupHijackRoutes of
-- cmd/coordinator/types/coordinator.go).
use virtnet.Prelude.{
  ℕ, ◌≡◌, refl, ap, sym, subst, ◌⊎◌, List, [], ◌∷◌, Option, none, some, Text, Error, ok, err, All,
}
use virtnet.Ip.{Ip, IpNet, Net}
use virtnet.Networking.{Netlink, Link, Route, Family, scope_universe, forgive, is_exist, pure}
use virtnet.Networking.CallLaws.{and_then_ok, forgive-exists, forgive-state}
use virtnet.Networking.Addresses.{get_gateway_ip}
use virtnet.Networking.Routes.{add_route, gateway_for}
use virtnet.Coordinator.{Coordinator}
use virtnet.Coordinator.Setup.{cidr_or_other, hijack_routes, setup_hijack_routes}

-- What is relied on of the kernel: in the pod's namespace, which the calls of a command do not
-- leave, a route that is added, or refused because it exists, is there, and stays there.
pub record PodRoutes {S : Type 0} (nl : Netlink S) : Type 1 where
  pub InPod : S → Type 0
  -- The table of the pod has a route to the subnet.
  pub Has : S → ℕ → IpNet → Type 0
  pub entered : (s s2 : S) → nl.enter s ≡ (ok tt, s2) → InPod s2
  pub in_link : (name : Text) (s : S) → InPod s → InPod (nl.link_by_name name s).1
  pub in_add : (r : Route) (s : S) → InPod s → InPod (nl.route_add r s).1
  pub added :
      (r : Route) (n : IpNet) (s s2 : S)
      → InPod s
      → r.dst ≡ some n
      → (nl.route_add r s ≡ (ok tt, s2)) ⊎ (nl.route_add r s ≡ (err Error.exists, s2))
      → Has s2 r.table n
  pub kept_link :
      (table : ℕ) (n : IpNet) (name : Text) (s : S)
      → Has s table n
      → Has (nl.link_by_name name s).1 table n
  pub kept_add :
      (table : ℕ) (n : IpNet) (r : Route) (s : S) → Has s table n → Has (nl.route_add r s).1 table n
  pub kept_leave : (table : ℕ) (n : IpNet) (s : S) → Has s table n → Has (nl.leave s) table n

module _ {S : Type 0} (nl : Netlink S) (routes : PodRoutes nl) where
  -- What a successful AddRoute leaves: the route is there, and what was there still is.
  record Added (table : ℕ) (n : IpNet) (s s2 : S) : Type 0 where
    in_pod : routes.InPod s2
    has : routes.Has s2 table n
    keeps : (t : ℕ) (m : IpNet) → routes.Has s t m → routes.Has s2 t m

  route_add-Added :
      (r : Route) (n : IpNet) (s s2 : S)
      → r.dst ≡ some n
      → routes.InPod s
      → forgive is_exist (nl.route_add r s) ≡ (ok tt, s2)
      → Added r.table n s s2
  route_add-Added r n s s2 to_n inside h =
      let e = forgive-state (nl.route_add r s) s2 h in
      record {
        in_pod = subst (λ x. routes.InPod x) e (routes.in_add r s inside);
        has = routes.added r n s s2 inside to_n (forgive-exists (nl.route_add r s) s2 h);
        keeps = λ t m q. subst (λ x. routes.Has x t m) e (routes.kept_add t m r s q);
      }

  link_by_name-Added :
      (iface : Text) (link : Link) (table : ℕ) (n : IpNet) (s s3 s2 : S)
      → nl.link_by_name iface s ≡ (ok link, s3)
      → (routes.InPod s3 → Added table n s3 s2)
      → routes.InPod s
      → Added table n s s2
  link_by_name-Added iface link table n s s3 s2 got rest inside =
      let e : (nl.link_by_name iface s).1 ≡ s3 = ap (λ p. p.1) got in
      let more = rest (subst (λ x. routes.InPod x) e (routes.in_link iface s inside)) in
      record {
        in_pod = more.in_pod;
        has = more.has;
        keeps = λ t m q.
            more.keeps t m (subst (λ x. routes.Has x t m) e (routes.kept_link t m iface s q));
      }

  add_route-Added :
      (table : ℕ) (family : Family) (iface : Text) (n : IpNet) (gws : Ip × Ip) (s s2 : S)
      → routes.InPod s
      → add_route nl table family scope_universe iface none (some n) gws.0 gws.1 s ≡ (ok tt, s2)
      → Added table n s s2
  unfolding add_route
  add_route-Added table family iface n gws s s2 inside h =
      let (link, s3, got, h3) = and_then_ok (nl.link_by_name iface s) _ tt s2 h in
      let (gw, s4, gws_got, h4) =
        and_then_ok (pure (gateway_for family (some n) gws.0 gws.1) s3) _ tt s2 h3 in
      let e : s4 ≡ s3 = cc in
      link_by_name-Added iface link table n s s3 s2 got
        (λ inside3.
          subst (λ x. Added table n x s2) e
            (route_add-Added _ n s4 s2 refl (subst (λ x. routes.InPod x) (sym e) inside3) h4))
        inside

  cidr_or_other-ok :
      (o : Option (Ip × IpNet)) (p : Ip × IpNet) (s s3 : S)
      → pure (cidr_or_other o) s ≡ (ok p, s3)
      → o ≡ some p
  cidr_or_other-ok none p s s3 h = cc
  cidr_or_other-ok (some q) p s s3 h = cc

  -- The table of the pod has a route to the subnet that the text stands for.
  unfoldable pub HasCidr : Net → ℕ → S → Text → Type 0
  HasCidr net table s cidr =
      (ip : Ip) × (n : IpNet) × (net.parse_cidr cidr ≡ some (ip, n)) × routes.Has s table n

  hijack_routes-HasCidr :
      (net : Net) (table : ℕ) (c : Coordinator) (gws : Ip × Ip) (cidrs : List Text) (s s2 : S)
      → routes.InPod s
      → hijack_routes nl net table c gws cidrs s ≡ (ok tt, s2)
      → All (HasCidr net table s2) cidrs
        × ((t : ℕ) (m : IpNet) → routes.Has s t m → routes.Has s2 t m)
  unfolding hijack_routes HasCidr
  hijack_routes-HasCidr net table c gws [] s s2 inside h =
      let e : s ≡ s2 = cc in (tt, λ t m q. subst (λ x. routes.Has x t m) e q)
  hijack_routes-HasCidr net table c gws (cidr ∷ cidrs) s s2 inside h =
      let (p, s3, got, h3) = and_then_ok (pure (cidr_or_other (net.parse_cidr cidr)) s) _ tt s2 h in
      let e : s3 ≡ s = cc in
      let parsed = cidr_or_other-ok (net.parse_cidr cidr) p s s3 got in
      let (_, s4, gone, h4) =
        and_then_ok
          (add_route nl table c.family scope_universe c.pod_veth_name none (some p.1) gws.0 gws.1
            s3)
          _ tt s2 h3 in
      let first =
        add_route-Added table c.family c.pod_veth_name p.1 gws s3 s4
          (subst (λ x. routes.InPod x) (sym e) inside) gone in
      let (others, keeps) = hijack_routes-HasCidr net table c gws cidrs s4 s2 first.in_pod h4 in
      (
        ((p.0, p.1, parsed, keeps table p.1 first.has), others),
        λ t m q. keeps t m (first.keeps t m (subst (λ x. routes.Has x t m) (sym e) q)),
      )

  All-leave :
      (net : Net) (table : ℕ) (s : S) (cidrs : List Text)
      → All (HasCidr net table s) cidrs
      → All (HasCidr net table (nl.leave s)) cidrs
  unfolding HasCidr
  All-leave net table s [] h = tt
  All-leave net table s (cidr ∷ cidrs) ((ip, n, e, has), h) =
      ((ip, n, e, routes.kept_leave table n s has), All-leave net table s cidrs h)

  -- If SetupHijackRoutes succeeds, on a kernel that keeps the routes that are added, the table of
  -- the pod has a route to each of the subnets, all of
  -- which are readable.
  pub setup_hijack_routes-HasCidr :
      (net : Net) (c : Coordinator) (table : ℕ) (s s2 : S)
      → setup_hijack_routes nl net c table s ≡ (ok tt, s2)
      → All (HasCidr net table s2) c.hijack_cidr
  unfolding setup_hijack_routes
  setup_hijack_routes-HasCidr net c table s s2 h =
      let (gws, s3, got, h3) = and_then_ok (get_gateway_ip nl c.current_pod_address s) _ tt s2 h in
      let (_, s4, inside, h4) = and_then_ok (nl.enter s3) _ tt s2 h3 in
      let run = hijack_routes nl net table c gws c.hijack_cidr s4 in
      let worked : run.0 ≡ ok tt = ap (λ p. p.0) h4 in
      let left : nl.leave run.1 ≡ s2 = ap (λ p. p.1) h4 in
      let (all, _) =
        hijack_routes-HasCidr net table c gws c.hijack_cidr s4 run.1 (routes.entered s3 s4 inside)
          (ap (λ r. (r, run.1)) worked) in
      subst (λ x. All (HasCidr net table x) c.hijack_cidr) left
        (All-leave net table run.1 c.hijack_cidr all)
