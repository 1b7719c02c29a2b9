-- ===== src/Ip/RoundTrip.antt =====
-- MergeIPRanges (pkg/ip/iprange.go) as a whole: set, sort and merge, and read back.
use virtnet.Prelude.{
  ℕ, ◌^◌, ◌≤◌, ◌<◌, ◌≡◌, refl, sym, ap, ◌∙◌, inl, inr, Bool, true, false, List, [], ◌∷◌, map, arith,
  ok, ◌>>=◌, Text, contains, text_eq_iff, All, ltb, ◌==◌, if◌then◌else◌, Bool-cases,
}
use virtnet.Ip.{Net, v4, ipv4}
use virtnet.Ip.Range.{parse_ip_ranges}
use virtnet.Ip.Merge.{
  dedup, insert_sorted, sort_ips, collect, merge_sorted, convert_ips_to_ip_ranges,
}
use virtnet.Ip.MergeLaws.{Prints, IsGood, IsAbove, parse_ip_ranges-merge_sorted}

-- Membership of a number in a list.
unfoldable pub has : ℕ → List ℕ → Bool
has x [] = false
has x (n ∷ ns) = if n == x then true else has x ns

unfoldable pub dedup_numbers : List ℕ → List ℕ
unfolding has
dedup_numbers [] = []
dedup_numbers (n ∷ ns) = let rest = dedup_numbers ns in if has n rest then rest else n ∷ rest

unfoldable pub insert_number : ℕ → List ℕ → List ℕ
insert_number a [] = a ∷ []
insert_number a (b ∷ ns) = if ltb b a then b ∷ insert_number a ns else a ∷ b ∷ ns

unfoldable pub sort_numbers : List ℕ → List ℕ
unfolding insert_number
sort_numbers [] = []
sort_numbers (a ∷ ns) = insert_number a (sort_numbers ns)

-- The numbers of the list in increasing order, each once.
unfoldable pub canonical : List ℕ → List ℕ
unfolding sort_numbers dedup_numbers
canonical ns = sort_numbers (dedup_numbers ns)

abbrev pub IsIncreasing : List ℕ → Type 0
IsIncreasing [] = Unit
IsIncreasing (n ∷ ns) = IsAbove n ns

has-dedup_numbers : (x : ℕ) (ns : List ℕ) → has x (dedup_numbers ns) ≡ has x ns
unfolding has dedup_numbers
has-dedup_numbers x [] = refl
has-dedup_numbers x (n ∷ ns) = ground (arith, has-dedup_numbers x ns, has-dedup_numbers n ns)

has-insert_number :
    (x a : ℕ) (ns : List ℕ) → has x (insert_number a ns) ≡ (if a == x then true else has x ns)
unfolding has insert_number
has-insert_number x a [] = refl
has-insert_number x a (n ∷ ns) = ground (arith, has-insert_number x a ns)

has-sort_numbers : (x : ℕ) (ns : List ℕ) → has x (sort_numbers ns) ≡ has x ns
unfolding has sort_numbers
has-sort_numbers x [] = refl
has-sort_numbers x (n ∷ ns) =
    rw (has-insert_number x n (sort_numbers ns), has-sort_numbers x ns) refl

pub has-canonical : (x : ℕ) (ns : List ℕ) → has x (canonical ns) ≡ has x ns
unfolding canonical
has-canonical x ns = has-sort_numbers x (dedup_numbers ns) ∙ has-dedup_numbers x ns

IsAbove-insert_number :
    (m a : ℕ) (ns : List ℕ)
    → m < a
    → IsAbove m ns
    → has a ns ≡ false
    → IsAbove m (insert_number a ns)
unfolding has insert_number
IsAbove-insert_number m a [] lt above new = (lt, tt)
IsAbove-insert_number m a (n ∷ ns) lt above new = ground (arith, IsAbove-insert_number n a ns)

insert_number-IsIncreasing :
    (a : ℕ) (ns : List ℕ) → IsIncreasing ns → has a ns ≡ false → IsIncreasing (insert_number a ns)
unfolding has insert_number
insert_number-IsIncreasing a [] inc new = tt
insert_number-IsIncreasing a (n ∷ ns) inc new = ground (arith, IsAbove-insert_number n a ns)

sort-dedup-IsIncreasing : (ns : List ℕ) → IsIncreasing (sort_numbers (dedup_numbers ns))
unfolding sort_numbers dedup_numbers
sort-dedup-IsIncreasing [] = tt
sort-dedup-IsIncreasing (n ∷ ns) = elim (Bool-cases (has n (dedup_numbers ns))) [
  | inl old ↦ rw old (sort-dedup-IsIncreasing ns)
  | inr new ↦ rw new (
      insert_number-IsIncreasing n (sort_numbers (dedup_numbers ns)) (sort-dedup-IsIncreasing ns)
        (has-sort_numbers n (dedup_numbers ns) ∙ new))
]

pub canonical-IsIncreasing : (ns : List ℕ) → IsIncreasing (canonical ns)
unfolding canonical
canonical-IsIncreasing ns = sort-dedup-IsIncreasing ns

module _ {ℓ} (P : ℕ → Type ℓ) where
  All-dedup_numbers : (ns : List ℕ) → All P ns → All P (dedup_numbers ns)
  unfolding dedup_numbers
  All-dedup_numbers [] h = h
  All-dedup_numbers (n ∷ ns) (p, h) = elim (Bool-cases (has n (dedup_numbers ns))) [
    | inl old ↦ rw old (All-dedup_numbers ns h)
    | inr new ↦ rw new (p, All-dedup_numbers ns h)
  ]

  All-insert_number : (a : ℕ) (ns : List ℕ) → P a → All P ns → All P (insert_number a ns)
  unfolding insert_number
  All-insert_number a [] p h = (p, h)
  All-insert_number a (n ∷ ns) p (q, h) = elim (Bool-cases (ltb n a)) [
    | inl later ↦ rw later (q, All-insert_number a ns p h)
    | inr here ↦ rw here (p, (q, h))
  ]

  All-sort_numbers : (ns : List ℕ) → All P ns → All P (sort_numbers ns)
  unfolding sort_numbers
  All-sort_numbers [] h = h
  All-sort_numbers (n ∷ ns) (p, h) = All-insert_number n (sort_numbers ns) p (All-sort_numbers ns h)

  pub All-canonical : (ns : List ℕ) → All P ns → All P (canonical ns)
  unfolding canonical
  All-canonical ns h = All-sort_numbers (dedup_numbers ns) (All-dedup_numbers ns h)

sort_ips-map : (ns : List ℕ) → sort_ips (map v4 ns) ≡ map v4 (sort_numbers ns)
unfolding sort_ips sort_numbers
sort_ips-map [] = refl
sort_ips-map (n ∷ ns) = rw (sort_ips-map ns) (insert-map n (sort_numbers ns))
  where
    insert-map :
        (a : ℕ) (ms : List ℕ) → insert_sorted (v4 a) (map v4 ms) ≡ map v4 (insert_number a ms)
    insert-map a [] = refl
    insert-map a (b ∷ ms) = ground (arith, insert-map a ms)

module _ (net : Net) where
  abbrev text_of : ℕ → Text
  text_of n = net.ip_string (v4 n)

  text_of-injective : (a b : ℕ) → Prints net a → Prints net b → text_of a ≡ text_of b → a ≡ b
  text_of-injective a b p q e = ground (arith, sym p.reads ∙ ap net.parse_ip e ∙ q.reads)

  contains-text_of :
      (a : ℕ) (ns : List ℕ)
      → Prints net a
      → All (Prints net) ns
      → contains (text_of a) (map text_of ns) ≡ has a ns
  unfolding contains has
  contains-text_of a [] p h = refl
  contains-text_of a (n ∷ ns) p (q, h) = ground (
    arith,
    contains-text_of a ns p h,
    text_of-injective n a q p,
    text_eq_iff (text_of n) (text_of a),
    ap text_of {x = n} {y = a},
  )

  dedup-map :
      (ns : List ℕ) → All (Prints net) ns → dedup (map text_of ns) ≡ map text_of (dedup_numbers ns)
  unfolding dedup dedup_numbers
  dedup-map [] h = refl
  dedup-map (n ∷ ns) (p, h) =
      rw
        (
          dedup-map ns h,
          contains-text_of n (dedup_numbers ns) p (All-dedup_numbers (Prints net) ns h),
        )
        (elim (Bool-cases (has n (dedup_numbers ns))) [ inl old ↦ rw old | inr new ↦ rw new ])

  map-reads : (ns : List ℕ) → All (Prints net) ns → map net.parse_ip (map text_of ns) ≡ map v4 ns
  map-reads [] h = refl
  map-reads (n ∷ ns) (p, h) = rw (p.reads, map-reads ns h) refl

  collect-map : (ns : List ℕ) → collect net ipv4 (map v4 ns) ≡ ok (map text_of ns)
  unfolding collect
  collect-map [] = refl
  collect-map (n ∷ ns) = rw (collect-map ns) refl

  Prints-of-good : (ns : List ℕ) → All (IsGood net) ns → All (Prints net) ns
  Prints-of-good [] h = tt
  Prints-of-good (n ∷ ns) (g, h) = (g.0, Prints-of-good ns h)

  -- The ranges are those of the canonical list.
  pub convert-canonical :
      (ns : List ℕ)
      → All (IsGood net) ns
      → convert_ips_to_ip_ranges net ipv4 (map v4 ns)
        ≡ ok (merge_sorted net (map v4 (canonical ns)))
  unfolding convert_ips_to_ip_ranges canonical
  convert-canonical ns h =
      let p : All (Prints net) ns = Prints-of-good ns h in
      rw
        (
          collect-map ns,
          dedup-map ns p,
          map-reads (dedup_numbers ns) (All-dedup_numbers (Prints net) ns p),
          sort_ips-map (dedup_numbers ns),
        )
        refl

  -- Increasing addresses are what their merged ranges stand for.
  pub parse-merge_sorted :
      (ns : List ℕ) (fuel : ℕ)
      → 2 ^ 32 ≤ fuel
      → All (IsGood net) ns
      → IsIncreasing ns
      → parse_ip_ranges net fuel ipv4 (merge_sorted net (map v4 ns)) ≡ ok (map v4 ns)
  unfolding merge_sorted parse_ip_ranges
  parse-merge_sorted [] fuel f h inc = refl
  parse-merge_sorted (n ∷ ns) fuel f h inc = parse_ip_ranges-merge_sorted net n ns fuel f h inc

  -- Merging any addresses of 1.0.0.0 to 255.255.255.254 succeeds, and reading the ranges back
  -- gives exactly those addresses, in increasing order and each once.
  pub merge_round_trip :
      (fuel : ℕ) (ns : List ℕ)
      → 2 ^ 32 ≤ fuel
      → All (IsGood net) ns
      → ((convert_ips_to_ip_ranges net ipv4 (map v4 ns) >>= parse_ip_ranges net fuel ipv4)
          ≡ ok (map v4 (canonical ns)))
        × IsIncreasing (canonical ns)
        × ((x : ℕ) → has x (canonical ns) ≡ has x ns)
  merge_round_trip fuel ns f h = (
    rw (convert-canonical ns h) (
        parse-merge_sorted (canonical ns) fuel f (All-canonical (IsGood net) ns h)
          (canonical-IsIncreasing ns)),
    canonical-IsIncreasing ns,
    λ x. has-canonical x ns,
  )
