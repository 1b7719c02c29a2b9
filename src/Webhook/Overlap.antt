-- ===== src/Webhook/Overlap.antt =====
-- The loop of validateSubnetIPs over the other Subnets (pkg/subnet/subnet_validate.go).
use virtnet.Prelude.{
  ℕ, ◌≡◌, refl, sym, ◌∙◌, ◌↔◌, inl, inr, true, false, ◌&&◌, List, [], ◌∷◌, map, Option, none, some,
  arith, Text, text_eq, text_eq_refl, text_eq_iff, contains, ok, Bool-cases,
}
use virtnet.Ip.{Ip, Net, ipv4}
use virtnet.Ip.Merge.{dedup}
use virtnet.Ip.Sets.{strings_of, keep, ips_intersection_set, assemble_total_ips}
use virtnet.Api.{Subnet}
use virtnet.Cluster.{Cluster}
use virtnet.Reconciler.Gather.{is_empty}
use virtnet.Webhook.{FieldError, forbidden, ips_field}
use virtnet.Webhook.Validate.{validate_no_overlap}

contains-keep :
    (x : Text) (ss marks : List Text)
    → contains x (keep true ss marks) ≡ (contains x ss && contains x marks)
unfolding contains keep
contains-keep x [] marks = refl
contains-keep x (s ∷ ss) marks = ground (arith, contains-keep x ss marks, text_eq_iff s x)

contains-dedup : (x : Text) (ss : List Text) → contains x (dedup ss) ≡ contains x ss
unfolding contains dedup
contains-dedup x [] = refl
contains-dedup x (s ∷ ss) = ground (arith, contains-dedup x ss, text_eq_iff s x)

is_empty-map : (f : Text → Ip) (ss : List Text) → is_empty (map f ss) ≡ is_empty ss
is_empty-map f [] = refl
is_empty-map f (s ∷ ss) = refl

is_empty_iff : (ss : List Text) → (is_empty ss ≡ true) ↔ ((x : Text) → contains x ss ≡ false)
unfolding contains
is_empty_iff [] = (λ _ x. refl, λ _. refl)
is_empty_iff (s ∷ ss) = (
  λ e. cc,
  λ h. let bad : contains s (s ∷ ss) ≡ false = h s in ground (arith, bad, text_eq_refl s),
)

-- No address of the one list has the text of an address of the other.
abbrev pub AreApart : Net → List Ip → List Ip → Type 0
AreApart net new_ips exist_ips =
    (x : Text)
    → contains x (strings_of net new_ips) ≡ true
    → contains x (strings_of net exist_ips) ≡ false

contains_both :
    (net : Net) (new_ips exist_ips : List Ip) (x : Text)
    → contains x (dedup (keep true (strings_of net exist_ips) (strings_of net new_ips)))
      ≡ (contains x (strings_of net exist_ips) && contains x (strings_of net new_ips))
contains_both net new_ips exist_ips x =
    contains-dedup x (keep true (strings_of net exist_ips) (strings_of net new_ips))
    ∙ contains-keep x (strings_of net exist_ips) (strings_of net new_ips)

-- IPsIntersectionSet is empty exactly when the two lists have no address in common.
pub ips_intersection_set-AreApart :
    (net : Net) (new_ips exist_ips : List Ip)
    → (is_empty (ips_intersection_set net new_ips exist_ips false) ≡ true)
      ↔ AreApart net new_ips exist_ips
unfolding ips_intersection_set
ips_intersection_set-AreApart net new_ips exist_ips =
    let both : List Text = dedup (keep true (strings_of net exist_ips) (strings_of net new_ips)) in
    let (to, from) = is_empty_iff both in
    let same : is_empty (map net.parse_ip both) ≡ is_empty both = is_empty-map net.parse_ip both in
    (
      λ e x h. ground (arith, to (sym same ∙ e) x, contains_both net new_ips exist_ips x),
      λ h. same ∙ from (λ x. ground (arith, h x, contains_both net new_ips exist_ips x)),
    )

module _ (net : Net) (fuel : ℕ) where
  -- The total addresses of each Subnet of the list.
  abbrev pub Totals : List Subnet → List (List Ip) → Type 0
  Totals [] [] = Unit
  Totals (s ∷ ss) (ips ∷ totals) =
      (assemble_total_ips net fuel ipv4 s.spec.ips s.spec.exclude_ips ≡ ok ips) × Totals ss totals
  Totals _ _ = ⊥

  -- The Subnets of another name have none of the addresses.
  abbrev pub AllApart : Text → List Ip → List Subnet → List (List Ip) → Type 0
  AllApart name new_ips [] totals = Unit
  AllApart name new_ips (s ∷ ss) [] = ⊥
  AllApart name new_ips (s ∷ ss) (ips ∷ totals) =
      (text_eq s.meta.name name ≡ false → AreApart net new_ips ips)
      × AllApart name new_ips ss totals

  -- When the ranges of all stored Subnets can be read, the loop answers, and lets the addresses pass
  -- exactly when no Subnet of another name has one of them.
  pub validate_no_overlap-AllApart :
      (name : Text) (new_ips : List Ip) (ss : List Subnet) (totals : List (List Ip)) (c : Cluster)
      → Totals ss totals
      → (answer : Option FieldError) × (validate_no_overlap net fuel name new_ips ss c
          ≡ (ok answer, c))
        × ((answer ≡ none) ↔ AllApart name new_ips ss totals)
  unfolding validate_no_overlap
  validate_no_overlap-AllApart name new_ips [] [] c t = (none, refl, (λ _. tt, λ _. refl))
  validate_no_overlap-AllApart name new_ips [] (ips ∷ totals) c t = absurd t
  validate_no_overlap-AllApart name new_ips (s ∷ ss) [] c t = absurd t
  validate_no_overlap-AllApart name new_ips (s ∷ ss) (ips ∷ totals) c (listed, t) =
      let (answer, run, (to, from)) = validate_no_overlap-AllApart name new_ips ss totals c t in
      elim (Bool-cases (text_eq s.meta.name name)) [
        | inl same ↦ (answer, rw same run, (λ e. (λ differs x held. cc, to e), λ h. from h.1))
        | inr differs ↦ elim (Bool-cases (is_empty (ips_intersection_set net new_ips ips false))) [
          | inl apart ↦ (
            answer,
            rw (differs, listed, apart) run,
            (
              λ e. (λ _. (ips_intersection_set-AreApart net new_ips ips).0 apart, to e),
              λ h. from h.1,
            ),
          )
          | inr meet ↦ (
            some (forbidden ips_field),
            rw (differs, listed, meet) refl,
            (
              λ e. cc,
              λ h.
                  let empty : is_empty (ips_intersection_set net new_ips ips false) ≡ true =
                    (ips_intersection_set-AreApart net new_ips ips).1 (h.0 differs) in
                  cc,
            ),
          )
        ]
      ]
