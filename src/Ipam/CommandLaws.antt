-- ===== src/Ipam/CommandLaws.antt =====
-- From the pool to the pod: the address that Allocate (pkg/ipam/ipam.go) takes is the one that the
-- IPAM plugin (cmd/ipam/main.go) prints.
use virtnet.Prelude.{
  ℕ, ◌≡◌, refl, sym, ◌∙◌, ap, List, [], ◌∷◌, some, Text, text_eq_refl, Outcome, ok, err, panic,
  out_of_fuel, Error, true, ◌>>=◌,
}
use virtnet.Ip.{Ip, IpNet, Net, ipv4, v4, is_ip_version}
use virtnet.Ip.Cidr.{parse_ip, is_cidr, is_ipv4_cidr, cidr_or_panic}
use virtnet.Api.{IpPool, IpAllocationDetail, Pod, IpamAnnoSubnet}
use virtnet.Cluster.{Cluster, create_endpoint}
use virtnet.Ipam.{
  Reader, Owners, Agent, IpConfig, internal, owner_refs, generate_endpoint, configs_of, detail_of,
  store_endpoint,
}
use virtnet.Ipam.Command.{addresses_for, cmd_add}

module _ (net : Net) (a : ℕ) (n : IpNet) (text : Text)
    (read : net.parse_cidr text ≡ some (v4 a, n)) where
  is_ipv4_cidr-read : is_ipv4_cidr net text ≡ true
  unfolding is_ipv4_cidr
  is_ipv4_cidr-read = rw (is_ipv4_cidr, read) refl

  cidr_or_panic-read : cidr_or_panic net text ≡ ok (v4 a, n)
  unfolding cidr_or_panic
  cidr_or_panic-read = rw (cidr_or_panic, read) refl

answer_of : Outcome (Unit {0}) → List IpConfig → Outcome (List IpConfig)
answer_of r ips = internal (r >>= λ _. ok ips)

answer_of-ips :
    (r : Outcome (Unit {0})) (shown ips : List IpConfig) → answer_of r shown ≡ ok ips → ips ≡ shown
unfolding answer_of
answer_of-ips (ok _) shown ips h = cc
answer_of-ips (err e) shown ips h = cc
answer_of-ips panic shown ips h = cc
answer_of-ips out_of_fuel shown ips h = cc

module _ (net : Net) (reader : Reader) (subnet : IpamAnnoSubnet) (pod : Pod) where
  answer_by :
      List IpConfig → IpAllocationDetail → Outcome Owners → Cluster → Outcome (List IpConfig)
  answer_by ips detail (ok owners) c =
      answer_of (create_endpoint (generate_endpoint pod (detail ∷ []) owners) c).0 ips
  answer_by ips detail (err e) c = err Error.other
  answer_by ips detail panic c = panic
  answer_by ips detail out_of_fuel c = out_of_fuel

  store_endpoint-answer_by :
      (pool : IpPool) (ip : Ip) (detail : IpAllocationDetail) (a : Agent) (r : Outcome Owners)
      → detail_of net subnet (pool, ip) ≡ ok detail
      → owner_refs reader pod ≡ r
      → (store_endpoint net reader subnet pod (ok (pool, ip)) a).0
        ≡ answer_by (configs_of (detail ∷ [])) detail r a.cluster
  unfolding store_endpoint answer_by answer_of
  store_endpoint-answer_by pool ip detail a (ok owners) d o = rw (store_endpoint, d, o) refl
  store_endpoint-answer_by pool ip detail a (err e) d o = rw (store_endpoint, d, o) refl
  store_endpoint-answer_by pool ip detail a panic d o = rw (store_endpoint, d, o) refl
  store_endpoint-answer_by pool ip detail a out_of_fuel d o = rw (store_endpoint, d, o) refl

  answer_by-ips :
      (shown : List IpConfig) (detail : IpAllocationDetail) (r : Outcome Owners) (c : Cluster)
      (ips : List IpConfig)
      → answer_by shown detail r c ≡ ok ips
      → ips ≡ shown
  unfolding answer_by answer_of
  answer_by-ips shown detail (ok owners) c ips h =
      answer_of-ips (create_endpoint (generate_endpoint pod (detail ∷ []) owners) c).0 shown ips h
  answer_by-ips shown detail (err e) c ips h = cc
  answer_by-ips shown detail panic c ips h = cc
  answer_by-ips shown detail out_of_fuel c ips h = cc

  store_endpoint-ips :
      (pool : IpPool) (ip : Ip) (detail : IpAllocationDetail) (a a2 : Agent) (ips : List IpConfig)
      → detail_of net subnet (pool, ip) ≡ ok detail
      → store_endpoint net reader subnet pod (ok (pool, ip)) a ≡ (ok ips, a2)
      → ips ≡ configs_of (detail ∷ [])
  store_endpoint-ips pool ip detail a a2 ips described h =
      answer_by-ips (configs_of (detail ∷ [])) detail (owner_refs reader pod) a.cluster ips (
        sym (store_endpoint-answer_by pool ip detail a (owner_refs reader pod) described refl)
        ∙ ap (λ r. r.0) h)

  parse_ip-read :
      (a : ℕ) (n : IpNet) (text : Text)
      → net.parse_cidr text ≡ some (v4 a, n)
      → parse_ip net ipv4 text true ≡ ok (record { ip = v4 a; ones = n.ones })
  unfolding parse_ip is_cidr is_ip_version
  parse_ip-read a n text h =
      rw (is_ipv4_cidr-read net a n text h, cidr_or_panic-read net a n text h) refl

  -- If Allocate answers with an IPv4 address that it took from a pool, and the printed form of the
  -- address with the prefix of the pool's subnet is read as that address and prefix, the plugin
  -- prints, for the interface that the pod asked for, exactly that address with that prefix.
  pub cmd_add-allocated :
      (pool : IpPool) (ip ones : ℕ) (masked : Ip) (n : IpNet) (a a2 : Agent) (ips : List IpConfig)
      → net.parse_cidr (net.net_string (record { ip = v4 ip; ones = ones })) ≡ some (v4 ip, n)
      → n.ones ≡ ones
      → parse_ip net ipv4 pool.spec.subnet true ≡ ok (record { ip = masked; ones = ones })
      → store_endpoint net reader subnet pod (ok (pool, v4 ip)) a ≡ (ok ips, a2)
      → cmd_add net subnet.nic (ok ips) ≡ ok (record { ip = v4 ip; ones = ones } ∷ [])
  unfolding cmd_add addresses_for detail_of configs_of
  cmd_add-allocated pool ip ones masked n a a2 ips read same parsed h =
      let detail : IpAllocationDetail = record {
        nic = subnet.nic;
        ipv4 = some (net.net_string (record { ip = v4 ip; ones = ones }));
        ipv4_pool = some pool.meta.name;
        ipv4_gateway = pool.spec.gateway;
      } in
      let described : detail_of net subnet (pool, v4 ip) ≡ ok detail = rw (parsed) refl in
      rw
        (
          store_endpoint-ips pool (v4 ip) detail a a2 ips described h,
          text_eq_refl subnet.nic,
          parse_ip-read ip n (net.net_string (record { ip = v4 ip; ones = ones })) read,
          same,
        )
        refl
