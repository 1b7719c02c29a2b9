-- ===== src/Webhook/Laws.antt =====
-- What the admission of a Subnet lets through (pkg/subnet).
use virtnet.Prelude.{
  ℕ, ◌≡◌, refl, ◌↔◌, ◌⊎◌, Bool, true, false, List, [], ◌∷◌, map, arith, Option, none, some,
  if◌then◌else◌, Text, text_eq, text_eq_refl, text_eq_iff, contains, ok, Bool-cases, inl, inr,
}
use virtnet.Ip.{Ip, Net, ipv4}
use virtnet.Ip.Cidr.{is_cidr}
use virtnet.Ip.Sets.{assemble_total_ips}
use virtnet.Api.{Subnet}
use virtnet.Convert.{Json}
use virtnet.Cluster.{Cluster, answered, list_subnets, list_pools, owned_by}
use virtnet.Webhook.{FieldError, forbidden, internal_error, ips_field, subnet_field, pass}
use virtnet.Webhook.Validate.{
  validate_cidr_loop, validate_subnet_cidr, all_in, allocated_keys, validate_subnet_ip_in_use,
}

-- On a server that refuses nothing, validateSubnetCIDR lets a well-formed subnet pass exactly when
-- no Subnet is stored; if there is one, the answer is an internal error, whatever the two subnets.
pub validate_subnet_cidr-stored :
    (net : Net) (s : Subnet) (c : Cluster)
    → c.answers ≡ []
    → is_cidr net ipv4 s.spec.subnet ≡ ok tt
    → (validate_subnet_cidr net s c ≡ (ok none, c)) × (c.subnets ≡ [])
      ⊎ ((stored : Subnet) × (rest : List Subnet) × (c.subnets ≡ stored ∷ rest)
          × (validate_subnet_cidr net s c ≡ (ok (some (internal_error subnet_field)), c)))
unfolding validate_subnet_cidr list_subnets answered validate_cidr_loop
validate_subnet_cidr-stored net s c quiet valid = by_stored c.subnets refl
  where
    by_stored :
        (ss : List Subnet)
        → c.subnets ≡ ss
        → (validate_subnet_cidr net s c ≡ (ok none, c)) × (c.subnets ≡ [])
          ⊎ ((stored : Subnet) × (rest : List Subnet) × (c.subnets ≡ stored ∷ rest)
              × (validate_subnet_cidr net s c ≡ (ok (some (internal_error subnet_field)), c)))
    by_stored [] e = inl (rw (valid, quiet, e) refl, e)
    by_stored (stored ∷ rest) e =
        inr (stored, rest, e, rw (valid, quiet, e, text_eq_refl stored.meta.name) refl)

-- Every string of the first list is in the second.
pub all_in-contains :
    (ss total : List Text)
    → (all_in ss total ≡ true) ↔ ((s : Text) → contains s ss ≡ true → contains s total ≡ true)
unfolding all_in contains
all_in-contains [] total = (λ _ s h. cc, λ _. refl)
all_in-contains (t ∷ ss) total =
    let (to, from) = all_in-contains ss total in
    (
      λ h s e. elim (Bool-cases (text_eq t s)) [
        | inl same ↦ ground (arith, text_eq_iff t s)
        | inr differs ↦ to (ground arith) s (ground arith)
      ],
      λ h.
          let head : contains t total ≡ true = h t (rw (text_eq_refl t) refl) in
          let tail : all_in ss total ≡ true = from (λ s e. h s (ground arith)) in
          rw (head, tail) refl,
    )

module _ (net : Net) (json : Json) (fuel : ℕ) (s : Subnet) (c : Cluster) (used : List Text)
    (ips : List Ip) (quiet : c.answers ≡ [])
    (allocated : allocated_keys json (owned_by s.meta.name c.pools) ≡ ok used)
    (listed : assemble_total_ips net fuel ipv4 s.spec.ips s.spec.exclude_ips ≡ ok ips) where
  -- On a server that refuses nothing, validateSubnetIPInUse lets an update pass exactly when every
  -- address that a pool of the Subnet has allocated is still one of the Subnet's addresses.
  pub validate_subnet_ip_in_use-all :
      (answer : Option FieldError) × (validate_subnet_ip_in_use net json fuel s c ≡ (ok answer, c))
      × ((answer ≡ none)
          ↔ ((ip : Text) → contains ip used ≡ true → contains ip (map net.ip_string ips) ≡ true))
  unfolding validate_subnet_ip_in_use list_pools answered
  validate_subnet_ip_in_use-all =
      let (to, from) = all_in-contains used (map net.ip_string ips) in
      let total : List Text = map net.ip_string ips in
      (
        if all_in used total then pass else some (forbidden ips_field),
        rw (quiet, allocated, listed) refl,
        (λ e. to (none-passes (all_in used total) e), λ h. rw (from h) refl),
      )
    where
      none-passes : (b : Bool) → (if b then pass else some (forbidden ips_field)) ≡ none → b ≡ true
      none-passes true e = refl
      none-passes false e = cc
