-- ===== src/Webhook/Passing.antt =====
-- What each validator of a Subnet has seen when it passes (pkg/subnet/subnet_validate.go).
use virtnet.Prelude.{
  ℕ, ◌≡◌, ◌⊎◌, refl, subst, ap, ◌∙◌, inl, inr, Bool, true, false, not, List, [], ◌∷◌, none, some,
  arith, Text, text_eq, Outcome, ok, err, panic, out_of_fuel, All, Bool-cases, Option-cases,
  if◌then◌else◌,
}
use virtnet.Ip.{Ip, Net, ipv4}
use virtnet.Ip.Cidr.{contains_ip}
use virtnet.Ip.Range.{contains_ip_range}
use virtnet.Ip.Sets.{ips_intersection_set, assemble_total_ips}
use virtnet.Api.{Subnet}
use virtnet.Cluster.{Cluster, and_then, pure, answered, list_subnets}
use virtnet.Reconciler.Gather.{is_empty}
use virtnet.Webhook.{
  Field, ips_field, gateway_field, internal_error, invalid, or_report, invalid_unless,
}
use virtnet.Webhook.Validate.{
  validate_contains_ip_range, validate_contains_ip, validate_ranges, validate_no_overlap,
  any_range_contains, validate_subnet_ips, validate_subnet_gateway,
}
use virtnet.Webhook.Gateway.{
  IsClear, SomeHeld, any_range_contains-SomeHeld, any_range_contains-IsClear, contains_ip-reads,
}
use virtnet.Webhook.Overlap.{AreApart, ips_intersection_set-AreApart}
use virtnet.Webhook.Collecting.{
  SameStored, SameStored-chain, SameStored-same, or_report-passes, unless_error-passes,
}

contained_passes :
    (r : Outcome Bool) (f : Field) (c c' : Cluster)
    → or_report (invalid f) (r, c) (λ contained. pure (ok (invalid_unless contained f)))
      ≡ (ok none, c')
    → (r ≡ ok true) × (c' ≡ c)
contained_passes (ok true) f c c' h = (refl, cc)
contained_passes (ok false) f c c' h = cc
contained_passes (err e) f c c' h = cc
contained_passes panic f c c' h = cc
contained_passes out_of_fuel f c c' h = cc

unlisted_passes :
    (excluded listed : Outcome Bool) (c c' : Cluster)
    → and_then
        (excluded, c)
        (λ out c2.
          if out
          then (ok none, c2)
          else and_then (listed, c2) λ b. pure (ok (invalid_unless (not b) ips_field)))
      ≡ (ok none, c')
    → ((excluded ≡ ok true) ⊎ (listed ≡ ok false)) × (c' ≡ c)
unlisted_passes (ok true) listed c c' h = (inl refl, cc)
unlisted_passes (ok false) (ok false) c c' h = (inr refl, cc)
unlisted_passes (ok false) (ok true) c c' h = cc
unlisted_passes (ok false) (err e) c c' h = cc
unlisted_passes (ok false) panic c c' h = cc
unlisted_passes (ok false) out_of_fuel c c' h = cc
unlisted_passes (err e) listed c c' h = cc
unlisted_passes panic listed c c' h = cc
unlisted_passes out_of_fuel listed c c' h = cc

module _ (net : Net) (fuel : ℕ) where
  validate_contains_ip_range-passes :
      (f : Field) (version : ℕ) (subnet r : Text) (c c' : Cluster)
      → validate_contains_ip_range net fuel f version subnet r c ≡ (ok none, c')
      → (contains_ip_range net fuel version subnet r ≡ ok true) × (c' ≡ c)
  unfolding validate_contains_ip_range
  validate_contains_ip_range-passes f version subnet r c c' h =
      contained_passes (contains_ip_range net fuel version subnet r) f c c' h

  pub validate_ranges-passes :
      (f : Field) (version : ℕ) (subnet : Text) (rs : List Text) (c c' : Cluster)
      → validate_ranges net fuel f version subnet rs c ≡ (ok none, c')
      → All (λ r. contains_ip_range net fuel version subnet r ≡ ok true) rs × (c' ≡ c)
  unfolding validate_ranges
  validate_ranges-passes f version subnet [] c c' h = (tt, cc)
  validate_ranges-passes f version subnet (r ∷ rs) c c' h =
      let (c1, first, rest) =
        unless_error-passes (validate_contains_ip_range net fuel f version subnet r c)
          (validate_ranges net fuel f version subnet rs) c' h in
      let (within, same) = validate_contains_ip_range-passes f version subnet r c c1 first in
      let (others, same') = validate_ranges-passes f version subnet rs c1 c' rest in
      ((within, others), same' ∙ same)

  -- No other Subnet of the list has one of the addresses.
  abbrev pub AllOthersApart : Text → List Ip → List Subnet → Type 0
  AllOthersApart name new_ips ss =
      All
        (λ (s : Subnet).
          text_eq s.meta.name name ≡ false
          → (exist : List Ip) × (assemble_total_ips net fuel ipv4 s.spec.ips s.spec.exclude_ips
              ≡ ok exist)
            × AreApart net new_ips exist)
        ss

  validate_no_overlap-passes :
      (name : Text) (new_ips : List Ip) (ss : List Subnet) (c c' : Cluster)
      → validate_no_overlap net fuel name new_ips ss c ≡ (ok none, c')
      → AllOthersApart name new_ips ss × (c' ≡ c)
  unfolding validate_no_overlap
  validate_no_overlap-passes name new_ips [] c c' h = (tt, cc)
  validate_no_overlap-passes name new_ips (s ∷ ss) c c' h =
      elim (Bool-cases (text_eq s.meta.name name)) [
        | inl same ↦
            let (others, still) = validate_no_overlap-passes name new_ips ss c c' (rw same at h) in
            ((λ differs. absurd cc, others), still)
        | inr differs ↦
            let (exist, c1, run, rest) =
              or_report-passes _ (assemble_total_ips net fuel ipv4 s.spec.ips s.spec.exclude_ips, c)
                _ c' (rw differs at h) in
            elim (Bool-cases (is_empty (ips_intersection_set net new_ips exist false))) [
              | inl apart ↦
                  let (others, still) =
                    validate_no_overlap-passes name new_ips ss c c' (rw apart at rest) in
                  (
                    (
                      λ _. (exist, cc, (ips_intersection_set-AreApart net new_ips exist).0 apart),
                      others,
                    ),
                    still,
                  )
              | inr meet ↦ let bad = rw meet at rest in absurd cc
            ]
      ]

  -- The ranges of the Subnet are in its subnet, and no other stored Subnet has one of its addresses.
  pub record HasOwnAddresses (s : Subnet) (c : Cluster) : Type 0 where
    pub ranges_within :
        All (λ r. contains_ip_range net fuel ipv4 s.spec.subnet r ≡ ok true) s.spec.ips
    pub total : List Ip
    pub adds_up : assemble_total_ips net fuel ipv4 s.spec.ips s.spec.exclude_ips ≡ ok total
    pub others_apart : (is_empty total ≡ true) ⊎ AllOthersApart s.meta.name total c.subnets

  list_subnets-ok :
      (c c1 : Cluster) (ss : List Subnet)
      → list_subnets c ≡ (ok ss, c1)
      → (ss ≡ c.subnets) × SameStored c c1
  unfolding list_subnets answered
  list_subnets-ok c c1 ss h =
      (ground arith, record { same_pools = ground arith; same_subnets = ground arith })

  pub validate_subnet_ips-passes :
      (s : Subnet) (c c' : Cluster)
      → validate_subnet_ips net fuel s c ≡ (ok none, c')
      → HasOwnAddresses s c × SameStored c c'
  unfolding validate_subnet_ips
  validate_subnet_ips-passes s c c' h =
      let (c1, first, h1) = unless_error-passes _ _ c' h in
      let (within, same) = validate_ranges-passes _ ipv4 s.spec.subnet s.spec.ips c c1 first in
      let (total, c2, assembled, h2) =
        or_report-passes (internal_error ips_field)
          (assemble_total_ips net fuel ipv4 s.spec.ips s.spec.exclude_ips, c1) _ c' h1 in
      elim (Bool-cases (is_empty total)) [
        | inl nothing ↦
            let h3 = rw nothing at h2 in
            (
              record {
                ranges_within = within;
                total = total;
                adds_up = cc;
                others_apart = inl nothing;
              },
              SameStored-same c c' cc,
            )
        | inr some_ip ↦
            let (ss, c3, stored, h3) =
              or_report-passes (internal_error ips_field) (list_subnets c2)
                (validate_no_overlap net fuel s.meta.name total) c' (rw some_ip at h2) in
            let (all, kept) = list_subnets-ok c2 c3 ss stored in
            let (apart, still) = validate_no_overlap-passes s.meta.name total ss c3 c' h3 in
            let c2_same : c2 ≡ c = cc in
            let from_c : SameStored c c3 =
              SameStored-chain c c2 c3 (SameStored-same c c2 c2_same) kept in
            let stored_all : ss ≡ c.subnets = all ∙ ap (λ (x : Cluster). x.subnets) c2_same in
            (
              record {
                ranges_within = within;
                total = total;
                adds_up = cc;
                others_apart = inr (subst (AllOthersApart s.meta.name total) stored_all apart);
              },
              SameStored-chain c c3 c' from_c (SameStored-same c3 c' still),
            )
      ]

  -- The gateway is read as an IPv4 address in the subnet. Some excluded range has it, or else no
  -- range of the Subnet: a single address as the same text, a range of two by its ends.
  pub record HasGateway (s : Subnet) (gateway : Text) : Type 0 where
    pub gateway_within : contains_ip net ipv4 s.spec.subnet gateway ≡ ok true
    pub gateway_reads : net.is_ipv4 gateway ≡ true
    pub gateway_apart :
        SomeHeld net gateway s.spec.exclude_ips ⊎ All (IsClear net gateway) s.spec.ips

  pub validate_subnet_gateway-passes :
      (s : Subnet) (c c' : Cluster) (gateway : Text)
      → validate_subnet_gateway net s c ≡ (ok none, c')
      → s.spec.gateway ≡ some gateway
      → HasGateway s gateway × (c' ≡ c)
  unfolding validate_subnet_gateway validate_contains_ip
  validate_subnet_gateway-passes s c c' gateway h e =
      let (c1, inside, h1) =
        unless_error-passes (validate_contains_ip net gateway_field ipv4 s.spec.subnet gateway c) _
          c' (rw e at h) in
      let (within, same) =
        contained_passes (contains_ip net ipv4 s.spec.subnet gateway) gateway_field c c1 inside in
      let (apart, same') =
        unlisted_passes (any_range_contains net s.spec.exclude_ips gateway)
          (any_range_contains net s.spec.ips gateway) c1 c' h1 in
      let reads : net.is_ipv4 gateway ≡ true = contains_ip-reads net s.spec.subnet gateway within in
      (
        record {
          gateway_within = within;
          gateway_reads = reads;
          gateway_apart = elim apart [
            | inl excluded ↦
                inl (any_range_contains-SomeHeld net gateway reads s.spec.exclude_ips excluded)
            | inr unlisted ↦ inr (any_range_contains-IsClear net gateway reads s.spec.ips unlisted)
          ];
        },
        same' ∙ same,
      )

  pub validate_subnet_gateway-same :
      (s : Subnet) (c c' : Cluster)
      → validate_subnet_gateway net s c ≡ (ok none, c')
      → SameStored c c'
  unfolding validate_subnet_gateway
  validate_subnet_gateway-same s c c' h = elim (Option-cases s.spec.gateway) [
    | inl absent ↦ SameStored-same c c' (let h' = rw absent at h in cc)
    | inr (g, there) ↦ SameStored-same c c' (validate_subnet_gateway-passes s c c' g h there).1
  ]

  pub HasOwnAddresses-same :
      (s : Subnet) (c c1 : Cluster) → SameStored c c1 → HasOwnAddresses s c1 → HasOwnAddresses s c
  HasOwnAddresses-same s c c1 same h = record {
    ranges_within = h.ranges_within;
    total = h.total;
    adds_up = h.adds_up;
    others_apart = elim h.others_apart [
      | inl nothing ↦ inl nothing
      | inr apart ↦ inr (subst (AllOthersApart s.meta.name h.total) same.same_subnets apart)
    ];
  }
