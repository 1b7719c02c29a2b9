-- ===== src/Webhook/Validate.antt =====
-- pkg/subnet/subnet_validate.go: the checks of the fields of a Subnet.
use virtnet.Prelude.{
  ℕ, Bool, true, false, not, ◌&&◌, List, [], ◌∷◌, ◌++◌, map, Option, none, some, if◌then◌else◌,
  Text, text_eq, contains, keys, Outcome, ok, err, panic, out_of_fuel,
}
use virtnet.Ip.{Ip, Net, ipv4}
use virtnet.Ip.Cidr.{contains_ip, is_cidr, is_cidr_overlap}
use virtnet.Ip.Range.{contains_ip_range, ip_range_contains_ip}
use virtnet.Ip.Sets.{ips_intersection_set, assemble_total_ips}
use virtnet.Api.{IpPool, Subnet}
use virtnet.Convert.{Json, unmarshal_allocated_ips, entries}
use virtnet.Cluster.{and_then, pure, list_subnets, stored_pools, list_pools}
use virtnet.Reconciler.Gather.{is_empty}
use virtnet.Webhook.{
  Field, ips_field, gateway_field, exclude_ips_field, subnet_field, FieldError, invalid, forbidden,
  internal_error, Verdict, pass, or_report, unless_error, invalid_unless,
}

-- validateContainsIPRange
unfoldable pub validate_contains_ip_range : Net → ℕ → Field → ℕ → Text → Text → Verdict
unfolding contains_ip_range
validate_contains_ip_range net fuel f version subnet ip_range c =
    or_report (invalid f) (contains_ip_range net fuel version subnet ip_range, c)
      λ contained. pure (ok (invalid_unless contained f))

-- validateContainsIP
unfoldable pub validate_contains_ip : Net → Field → ℕ → Text → Text → Verdict
unfolding contains_ip
validate_contains_ip net f version subnet ip c =
    or_report (invalid f) (contains_ip net version subnet ip, c)
      λ contained. pure (ok (invalid_unless contained f))

-- The loop over the ranges of a field.
unfoldable pub validate_ranges : Net → ℕ → Field → ℕ → Text → List Text → Verdict
unfolding validate_contains_ip_range
validate_ranges net fuel f version subnet [] c = (ok pass, c)
validate_ranges net fuel f version subnet (r ∷ rs) c =
    unless_error (validate_contains_ip_range net fuel f version subnet r c)
      (validate_ranges net fuel f version subnet rs)

-- validateSubnetExcludeIPs
unfoldable pub validate_subnet_exclude_ips : Net → ℕ → ℕ → Text → List Text → Verdict
unfolding validate_ranges
validate_subnet_exclude_ips net fuel version subnet exclude_ips =
    validate_ranges net fuel exclude_ips_field version subnet exclude_ips

-- The loop of validateSubnetIPs over the Subnets that exist.
unfoldable pub validate_no_overlap : Net → ℕ → Text → List Ip → List Subnet → Verdict
unfolding assemble_total_ips ips_intersection_set
validate_no_overlap net fuel name new_ips [] c = (ok pass, c)
validate_no_overlap net fuel name new_ips (s ∷ ss) c =
    let rest = validate_no_overlap net fuel name new_ips ss c in
    if text_eq s.meta.name name
    then rest
    else or_report (internal_error ips_field)
        (assemble_total_ips net fuel ipv4 s.spec.ips s.spec.exclude_ips, c)
        λ exist_ips c'.
          if is_empty (ips_intersection_set net new_ips exist_ips false)
          then rest
          else (ok (some (forbidden ips_field)), c')

-- validateSubnetIPs
unfoldable pub validate_subnet_ips : Net → ℕ → Subnet → Verdict
unfolding validate_ranges assemble_total_ips validate_no_overlap list_subnets
validate_subnet_ips net fuel s c =
    unless_error (validate_ranges net fuel ips_field ipv4 s.spec.subnet s.spec.ips c) λ c1.
      or_report (internal_error ips_field)
        (assemble_total_ips net fuel ipv4 s.spec.ips s.spec.exclude_ips, c1)
        λ new_ips c2.
          if is_empty new_ips
          then (ok pass, c2)
          else or_report (internal_error ips_field) (list_subnets c2)
              (validate_no_overlap net fuel s.meta.name new_ips)

-- `contains, _ := cniip.IPRangeContainsIP(…)`: an error counts as `false`.
abbrev pub contained_or_false : Outcome Bool → Outcome Bool
contained_or_false (ok b) = ok b
contained_or_false (err _) = ok false
contained_or_false panic = panic
contained_or_false out_of_fuel = out_of_fuel

-- Some range of the list has the address.
unfoldable pub any_range_contains : Net → List Text → Text → Outcome Bool
unfolding ip_range_contains_ip
any_range_contains net [] ip = ok false
any_range_contains net (r ∷ rs) ip =
    let rest = any_range_contains net rs ip in
    elim (contained_or_false (ip_range_contains_ip net ipv4 r ip)) [
      | ok true ↦ ok true
      | ok false ↦ rest
      | err e ↦ err e
      | panic ↦ panic
      | out_of_fuel ↦ out_of_fuel
    ]

-- validateSubnetGateway
unfoldable pub validate_subnet_gateway : Net → Subnet → Verdict
unfolding validate_contains_ip any_range_contains
validate_subnet_gateway net s c = elim s.spec.gateway [
  | none ↦ (ok pass, c)
  | some gateway ↦
      unless_error (validate_contains_ip net gateway_field ipv4 s.spec.subnet gateway c) λ c1.
        and_then (any_range_contains net s.spec.exclude_ips gateway, c1)
          λ excluded c2.
            if excluded
            then (ok pass, c2)
            else and_then (any_range_contains net s.spec.ips gateway, c2)
                λ listed. pure (ok (invalid_unless (not listed) ips_field))
]

-- The loop of validateSubnetCIDR. Its variable hides the Subnet that is validated, so that every
-- comparison is of a Subnet with itself.
unfoldable pub validate_cidr_loop : Net → List Subnet → Verdict
unfolding is_cidr_overlap
validate_cidr_loop net [] c = (ok pass, c)
validate_cidr_loop net (s ∷ ss) c =
    let rest = validate_cidr_loop net ss c in
    if text_eq s.meta.name s.meta.name
    then (ok (some (internal_error subnet_field)), c)
    else if text_eq s.spec.subnet s.spec.subnet
    then rest
    else or_report (internal_error subnet_field)
        (is_cidr_overlap net ipv4 s.spec.subnet s.spec.subnet, c)
        λ overlap c'. if overlap then (ok (some (invalid subnet_field)), c') else rest

-- validateSubnetCIDR
unfoldable pub validate_subnet_cidr : Net → Subnet → Verdict
unfolding is_cidr list_subnets validate_cidr_loop
validate_subnet_cidr net s c =
    or_report (invalid subnet_field) (is_cidr net ipv4 s.spec.subnet, c)
      λ _ c1. or_report (internal_error subnet_field) (list_subnets c1) (validate_cidr_loop net)

-- validateSubnetShouldNotBeChanged
unfoldable pub validate_subnet_should_not_be_changed : Subnet → Subnet → Option FieldError
validate_subnet_should_not_be_changed old new =
    if text_eq new.spec.subnet old.spec.subnet then pass else some (forbidden subnet_field)

-- The allocated addresses of the pools, in one list.
unfoldable pub allocated_keys : Json → List IpPool → Outcome (List Text)
unfolding unmarshal_allocated_ips
allocated_keys json [] = ok []
allocated_keys json (p ∷ ps) = elim (unmarshal_allocated_ips json p.status.allocated_ips) [
  | ok records ↦ elim (allocated_keys json ps) [
    | ok rest ↦ ok (keys (entries records) ++ rest)
    | err e ↦ err e
    | panic ↦ panic
    | out_of_fuel ↦ out_of_fuel
  ]
  | err e ↦ err e
  | panic ↦ panic
  | out_of_fuel ↦ out_of_fuel
]

-- Every string of the first list is in the second.
unfoldable pub all_in : List Text → List Text → Bool
unfolding contains
all_in [] total = true
all_in (s ∷ ss) total = contains s total && all_in ss total

-- validateSubnetIPInUse, with a cache that shows the stored pools.
unfoldable pub validate_subnet_ip_in_use : Net → Json → ℕ → Subnet → Verdict
unfolding list_pools allocated_keys assemble_total_ips all_in
validate_subnet_ip_in_use net json fuel s c =
    or_report (internal_error ips_field) (list_pools stored_pools s.meta.name c) λ ps c1.
      or_report (internal_error ips_field) (allocated_keys json ps, c1)
        λ used c2.
          or_report (internal_error ips_field)
            (assemble_total_ips net fuel ipv4 s.spec.ips s.spec.exclude_ips, c2)
            λ total. pure (
              ok (
                if all_in used (map net.ip_string total) then pass else some (forbidden ips_field)))
