-- ===== src/Webhook/Gateway.antt =====
-- What it means that a range of a Subnet has the gateway, or has not (IPRangeContainsIP of
-- pkg/ip/iprange.go in the validation of the gateway, pkg/subnet/subnet_validate.go).
use virtnet.Prelude.{
  ℕ, ◌≤◌, ◌≡◌, ◌⊎◌, refl, inl, inr, Bool, true, false, List, [], ◌∷◌, Text, split, text_eq,
  text_eq_iff, Outcome, ok, err, panic, out_of_fuel, bind_ok, All, Bool-cases,
}
use virtnet.Ip.{Net, v4, ipv4, is_ip}
use virtnet.Ip.Cidr.{parse_cidr, parse_ip, contains_ip}
use virtnet.Ip.Range.{ip_range_contains_ip, is_ip_range}
use virtnet.Ip.RangeLaws.{IsRange, ip_range_contains_ip-between}
use virtnet.Webhook.Validate.{any_range_contains}

is_ip-reads : (net : Net) (s : Text) → is_ip net ipv4 s ≡ ok tt → net.is_ipv4 s ≡ true
unfolding is_ip
is_ip-reads net s h = elim (Bool-cases (net.is_ipv4 s)) [
  | inl good ↦ good
  | inr bad ↦ let h' = rw bad at h in cc
]

module _ (net : Net) (gateway : Text) where
  -- The range is well-formed, and the gateway is the text of its single address, or between the ends
  -- of a range of two addresses.
  pub record IsHeld (r : Text) : Type 0 where
    pub well_formed : is_ip_range net ipv4 r ≡ ok tt
    pub same_text : split b'-' r ≡ r ∷ [] → r ≡ gateway
    pub between :
        (a b x : ℕ) → IsRange net r a b → a ≤ b → net.parse_ip gateway ≡ v4 x → (a ≤ x) × (x ≤ b)

  -- The gateway is not the text of a single address, and not between the ends of a range of two.
  pub record IsClear (r : Text) : Type 0 where
    pub other_text : split b'-' r ≡ r ∷ [] → ¬ (r ≡ gateway)
    pub outside :
        (a b x : ℕ)
        → IsRange net r a b
        → a ≤ b
        → net.parse_ip gateway ≡ v4 x
        → ¬ ((a ≤ x) × (x ≤ b))

  abbrev pub SomeHeld : List Text → Type 0
  SomeHeld [] = ⊥
  SomeHeld (r ∷ rs) = IsHeld r ⊎ SomeHeld rs

  module _ (reads : net.is_ipv4 gateway ≡ true) where
    held : (r : Text) → ip_range_contains_ip net ipv4 r gateway ≡ ok true → IsHeld r
    unfolding ip_range_contains_ip
    held r h =
        let (_, formed, h1) = bind_ok (is_ip_range net ipv4 r) _ true h in
        let (_, _, h2) = bind_ok (is_ip net ipv4 gateway) _ true h1 in
        record {
          well_formed = formed;
          same_text = λ single. let h3 = rw single at h2 in (text_eq_iff r gateway).0 cc;
          between = λ a b x range le parsed.
              let (answer, run, exact) =
                ip_range_contains_ip-between net 0 r a b range gateway x le reads parsed in
              exact.0 cc;
        }

    clear : (r : Text) → ¬ (ip_range_contains_ip net ipv4 r gateway ≡ ok true) → IsClear r
    unfolding ip_range_contains_ip is_ip_range is_ip
    clear r h = record {
      other_text = λ single same.
          let good : net.is_ipv4 r ≡ true = cc in
          let equal : text_eq r gateway ≡ true = (text_eq_iff r gateway).1 same in
          h (rw (single, good, reads, equal) refl);
      outside = λ a b x range le parsed inside.
          let (answer, run, exact) =
            ip_range_contains_ip-between net 0 r a b range gateway x le reads parsed in
          let yes : answer ≡ true = exact.1 inside in h cc;
    }

    pub any_range_contains-SomeHeld :
        (rs : List Text) → any_range_contains net rs gateway ≡ ok true → SomeHeld rs
    unfolding any_range_contains
    any_range_contains-SomeHeld [] h = cc
    any_range_contains-SomeHeld (r ∷ rs) h =
        by_first (any_range_contains-SomeHeld rs) (ip_range_contains_ip net ipv4 r gateway) refl
      where
        by_first :
            (any_range_contains net rs gateway ≡ ok true → SomeHeld rs)
            → (o : Outcome Bool) → ip_range_contains_ip net ipv4 r gateway ≡ o
            → SomeHeld (r ∷ rs)
        by_first rest (ok true) e = inl (held r e)
        by_first rest (ok false) e = inr (rest (rw (any_range_contains, e) at h))
        by_first rest (err x) e = inr (rest (rw (any_range_contains, e) at h))
        by_first rest panic e = let h' = rw (any_range_contains, e) at h in cc
        by_first rest out_of_fuel e = let h' = rw (any_range_contains, e) at h in cc

    pub any_range_contains-IsClear :
        (rs : List Text) → any_range_contains net rs gateway ≡ ok false → All IsClear rs
    unfolding any_range_contains
    any_range_contains-IsClear [] h = tt
    any_range_contains-IsClear (r ∷ rs) h =
        by_first (any_range_contains-IsClear rs) (ip_range_contains_ip net ipv4 r gateway) refl
      where
        by_first :
            (any_range_contains net rs gateway ≡ ok false → All IsClear rs)
            → (o : Outcome Bool) → ip_range_contains_ip net ipv4 r gateway ≡ o
            → All IsClear (r ∷ rs)
        by_first rest (ok true) e = let h' = rw (any_range_contains, e) at h in cc
        by_first rest (ok false) e = (
          clear r (λ (yes : ip_range_contains_ip net ipv4 r gateway ≡ ok true). cc),
          rest (rw (any_range_contains, e) at h),
        )
        by_first rest (err x) e = (
          clear r (λ (yes : ip_range_contains_ip net ipv4 r gateway ≡ ok true). cc),
          rest (rw (any_range_contains, e) at h),
        )
        by_first rest panic e = let h' = rw (any_range_contains, e) at h in cc
        by_first rest out_of_fuel e = let h' = rw (any_range_contains, e) at h in cc

-- A gateway that lies in the subnet is read as an IPv4 address.
pub contains_ip-reads :
    (net : Net) (subnet gateway : Text)
    → contains_ip net ipv4 subnet gateway ≡ ok true
    → net.is_ipv4 gateway ≡ true
unfolding contains_ip parse_ip
contains_ip-reads net subnet gateway h =
    let (n, _, h1) = bind_ok (parse_cidr net ipv4 subnet) _ true h in
    let (m, read, _) = bind_ok (parse_ip net ipv4 gateway false) _ true h1 in
    let (_, good, _) = bind_ok (is_ip net ipv4 gateway) _ m read in is_ip-reads net gateway good
