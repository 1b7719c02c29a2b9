-- ===== src/Webhook/Admitted.antt =====
-- What is true of a Subnet that ValidateUpdate or ValidateCreate admits (pkg/subnet).
use virtnet.Prelude.{
  ℕ, ◌≡◌, refl, true, false, List, [], ◌∷◌, none, some, Text, text_eq_iff, arith, ok, All,
}
use virtnet.Ip.{Net, ipv4}
use virtnet.Ip.Range.{contains_ip_range}
use virtnet.Api.{Subnet}
use virtnet.Convert.{Json}
use virtnet.Cluster.{Cluster, Call, pure, ◌>>=◌}
use virtnet.Webhook.{FieldError, Verdict}
use virtnet.Webhook.Admit.{append_error, collect, Answer, admitted, answer_of, validate_update}
use virtnet.Webhook.Validate.{
  validate_subnet_should_not_be_changed, validate_subnet_gateway, validate_subnet_exclude_ips,
  validate_subnet_ips, validate_subnet_ip_in_use,
}
use virtnet.Webhook.Collecting.{
  SameStored, SameStored-same, SameStored-chain, WantsNone, collect-passes, append_error-nothing,
}
use virtnet.Webhook.Passing.{
  validate_ranges-passes, HasOwnAddresses, HasOwnAddresses-same, validate_subnet_ips-passes,
  HasGateway, validate_subnet_gateway-passes, validate_subnet_gateway-same,
}
use virtnet.Webhook.Using.{HasUsed, HasUsed-same, validate_subnet_ip_in_use-passes}

answer_of-admitted : (errors : List FieldError) → answer_of errors ≡ admitted → errors ≡ []
answer_of-admitted [] h = refl
answer_of-admitted (e ∷ errors) h = cc

unchanged :
    (old new : Subnet)
    → validate_subnet_should_not_be_changed old new ≡ none
    → new.spec.subnet ≡ old.spec.subnet
unfolding validate_subnet_should_not_be_changed
unchanged old new h = ground (arith, text_eq_iff new.spec.subnet old.spec.subnet)

module _ (v1 v2 v3 v4 : Verdict) (c' : Cluster) where
  abbrev k4 : List FieldError → Call Answer
  k4 e4 = pure (ok (answer_of e4))

  abbrev k3 : List FieldError → Call Answer
  k3 e3 = collect e3 v4 >>= k4

  abbrev k2 : List FieldError → Call Answer
  k2 e2 = collect e2 v3 >>= k3

  abbrev k1 : List FieldError → Call Answer
  k1 e1 = collect e1 v2 >>= k2

  wants4 : WantsNone k4 admitted c'
  wants4 errors c h = answer_of-admitted errors cc

  wants3 : WantsNone k3 admitted c'
  wants3 errors c h = (collect-passes k4 admitted c' wants4 errors v4 c h).0

  wants2 : WantsNone k2 admitted c'
  wants2 errors c h = (collect-passes k3 admitted c' wants3 errors v3 c h).0

  wants1 : WantsNone k1 admitted c'
  wants1 errors c h = (collect-passes k2 admitted c' wants2 errors v2 c h).0

  -- An update is admitted only if all four validators pass, one after the other.
  all_pass :
      (errors : List FieldError) (c : Cluster)
      → (collect errors v1 >>= k1) c ≡ (ok admitted, c')
      → (errors ≡ [])
        × (c1 : Cluster) × (v1 c ≡ (ok none, c1))
        × (c2 : Cluster) × (v2 c1 ≡ (ok none, c2))
        × (c3 : Cluster) × (v3 c2 ≡ (ok none, c3))
        × (c4 : Cluster) × (v4 c3 ≡ (ok none, c4))
  all_pass errors c h =
      let (none_before, c1, p1, h1) = collect-passes k1 admitted c' wants1 errors v1 c h in
      let (_, c2, p2, h2) = collect-passes k2 admitted c' wants2 [] v2 c1 h1 in
      let (_, c3, p3, h3) = collect-passes k3 admitted c' wants3 [] v3 c2 h2 in
      let (_, c4, p4, _) = collect-passes k4 admitted c' wants4 [] v4 c3 h3 in
      (none_before, c1, p1, c2, p2, c3, p3, c4, p4)

module _ (net : Net) (json : Json) (fuel : ℕ) where
  -- What the validators of an update stand for, on the stored resources.
  pub record IsAdmissible (old new : Subnet) (c : Cluster) : Type 0 where
    pub same_subnet : new.spec.subnet ≡ old.spec.subnet
    pub gateway_fits : (g : Text) → new.spec.gateway ≡ some g → HasGateway net fuel new g
    pub excluded_within :
        All (λ r. contains_ip_range net fuel ipv4 new.spec.subnet r ≡ ok true) new.spec.exclude_ips
    pub own_addresses : HasOwnAddresses net fuel new c
    pub keeps_used : HasUsed net fuel json new c

  -- An update of a Subnet that is not being deleted is admitted only if its subnet is the old one,
  -- its ranges and the excluded ones lie in it, its gateway lies in it, no other stored Subnet has
  -- one of its addresses, and it still has every address that its pools have allocated, whatever
  -- calls the server refuses; the lists show what is stored. Either a well-formed excluded range has
  -- the gateway or no range of the Subnet has it: by the ends of a range of two addresses, and by its
  -- text alone for a single address.
  pub validate_update-IsAdmissible :
      (old new : Subnet) (c c' : Cluster)
      → new.meta.is_deleted ≡ false
      → validate_update net json fuel old new c ≡ (ok admitted, c')
      → IsAdmissible old new c
  unfolding validate_update validate_subnet_exclude_ips
  validate_update-IsAdmissible old new c c' alive h =
      let v2 : Verdict =
        validate_subnet_exclude_ips net fuel ipv4 new.spec.subnet new.spec.exclude_ips in
      let v3 : Verdict = validate_subnet_ips net fuel new in
      let v4 : Verdict = validate_subnet_ip_in_use net json fuel new in
      let (before, c1, p1, c2, p2, c3, p3, c4, p4) =
        all_pass (validate_subnet_gateway net new) v2 v3 v4 c'
          (append_error [] (validate_subnet_should_not_be_changed old new)) c (rw alive at h) in
      let (errors, e) =
        append_error-nothing [] (validate_subnet_should_not_be_changed old new) before in
      let s1 : SameStored c c1 = validate_subnet_gateway-same net fuel new c c1 p1 in
      let (within, same2) =
        validate_ranges-passes net fuel _ ipv4 new.spec.subnet new.spec.exclude_ips c1 c2 p2 in
      let s2 : SameStored c c2 = SameStored-chain c c1 c2 s1 (SameStored-same c1 c2 same2) in
      let (own, s2_3) = validate_subnet_ips-passes net fuel new c2 c3 p3 in
      let s3 : SameStored c c3 = SameStored-chain c c2 c3 s2 s2_3 in
      let (used, _) = validate_subnet_ip_in_use-passes net fuel json new c3 c4 p4 in
      record {
        same_subnet = unchanged old new e;
        gateway_fits = λ g there. (validate_subnet_gateway-passes net fuel new c c1 g p1 there).0;
        excluded_within = within;
        own_addresses = HasOwnAddresses-same net fuel new c c2 s2 own;
        keeps_used = HasUsed-same net fuel json new c c3 s3 used;
      }
