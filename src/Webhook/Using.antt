-- ===== src/Webhook/Using.antt =====
-- What validateSubnetIPInUse has seen when it passes (pkg/subnet/subnet_validate.go).
use virtnet.Prelude.{
  ℕ, ◌≡◌, refl, sym, subst, ap, ◌∙◌, Bool, true, false, List, map, none, some, arith, Text,
  contains, Outcome, ok, if◌then◌else◌,
}
use virtnet.Ip.{Ip, Net, ipv4}
use virtnet.Ip.Sets.{assemble_total_ips}
use virtnet.Api.{IpPool, Subnet}
use virtnet.Convert.{Json}
use virtnet.Cluster.{Cluster, pure, answered, stored_pools, list_pools, owned_by}
use virtnet.Webhook.{internal_error, forbidden, ips_field}
use virtnet.Webhook.Validate.{allocated_keys, all_in, validate_subnet_ip_in_use}
use virtnet.Webhook.Laws.{all_in-contains}
use virtnet.Webhook.Collecting.{SameStored, SameStored-same, SameStored-chain, or_report-passes}

module _ (net : Net) (fuel : ℕ) where
  -- Every address that a pool of the Subnet has allocated is one of its addresses.
  pub record HasUsed (json : Json) (s : Subnet) (c : Cluster) : Type 0 where
    pub used : List Text
    pub allocated : allocated_keys json (owned_by s.meta.name c.pools) ≡ ok used
    pub all : List Ip
    pub listed : assemble_total_ips net fuel ipv4 s.spec.ips s.spec.exclude_ips ≡ ok all
    pub kept : (x : Text) → contains x used ≡ true → contains x (map net.ip_string all) ≡ true

  list_pools-ok :
      (owner : Text) (c c1 : Cluster) (ps : List IpPool)
      → list_pools stored_pools owner c ≡ (ok ps, c1)
      → (ps ≡ owned_by owner c.pools) × SameStored c c1
  unfolding list_pools answered
  list_pools-ok owner c c1 ps h =
      (ground arith, record { same_pools = ground arith; same_subnets = ground arith })

  in_use_passes :
      (b : Bool) (c c' : Cluster)
      → pure (ok (if b then none else some (forbidden ips_field))) c ≡ (ok none, c')
      → (b ≡ true) × (c' ≡ c)
  in_use_passes true c c' h = (refl, cc)
  in_use_passes false c c' h = cc

  pub validate_subnet_ip_in_use-passes :
      (json : Json) (s : Subnet) (c c' : Cluster)
      → validate_subnet_ip_in_use net json fuel s c ≡ (ok none, c')
      → HasUsed json s c × SameStored c c'
  unfolding validate_subnet_ip_in_use
  validate_subnet_ip_in_use-passes json s c c' h =
      let (ps, c1, stored, h1) =
        or_report-passes (internal_error ips_field) (list_pools stored_pools s.meta.name c) _ c'
          h in
      let (owned, same) = list_pools-ok s.meta.name c c1 ps stored in
      let (used, c2, read, h2) =
        or_report-passes (internal_error ips_field) (allocated_keys json ps, c1) _ c' h1 in
      let (total, c3, assembled, h3) =
        or_report-passes (internal_error ips_field)
          (assemble_total_ips net fuel ipv4 s.spec.ips s.spec.exclude_ips, c2) _ c' h2 in
      let (inside, same') = in_use_passes (all_in used (map net.ip_string total)) c3 c' h3 in
      (
        record {
          used = used;
          allocated =
              subst (λ (qs : List IpPool). allocated_keys json qs ≡ ok used) owned
                (ap (λ (r : Outcome (List Text) × Cluster). r.0) read);
          all = total;
          listed = ap (λ (r : Outcome (List Ip) × Cluster). r.0) assembled;
          kept = (all_in-contains used (map net.ip_string total)).0 inside;
        },
        SameStored-chain c c1 c' same (
            SameStored-same c1 c' (
              same'
              ∙ sym (ap (λ (r : Outcome (List Ip) × Cluster). r.1) assembled)
              ∙ sym (ap (λ (r : Outcome (List Text) × Cluster). r.1) read))),
      )

  pub HasUsed-same :
      (json : Json) (s : Subnet) (c c1 : Cluster)
      → SameStored c c1
      → HasUsed json s c1
      → HasUsed json s c
  HasUsed-same json s c c1 same h = record {
    used = h.used;
    allocated =
        subst (λ (ps : List IpPool). allocated_keys json (owned_by s.meta.name ps) ≡ ok h.used)
          same.same_pools h.allocated;
    all = h.all;
    listed = h.listed;
    kept = h.kept;
  }
