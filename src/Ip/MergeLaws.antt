-- ===== src/Ip/MergeLaws.antt =====
-- ConvertIPsToIPRanges and ParseIPRanges (pkg/ip/iprange.go): ranges that are written and read.
use virtnet.Prelude.{
  ℕ, zero, suc, ◌+◌, ◌^◌, ◌≤◌, ◌<◌, ◌≡◌, refl, ap, ◌∙◌, inl, inr, true, List, [], ◌∷◌, ◌++◌, map,
  arith, ok, Text, split, prepend, All, ◌==◌, if◌then◌else◌, Bool-cases,
}
use mathlib.Core.List.{append_assoc}
use virtnet.Ip.{Net, v4, ipv4, ip_equal}
use virtnet.Ip.Range.{parse_ip_range, parse_ip_ranges}
use virtnet.Ip.Merge.{format_range, merge_loop, merge_sorted}
use virtnet.Ip.Walk.{addresses_from, next_ip_inside, walk-addresses_from}

-- What `net` documents for the text of an IPv4 address: it is read back, it passes as IPv4, and it
-- holds no dash.
pub record Prints (net : Net) (n : ℕ) : Type 0 where
  pub reads : net.parse_ip (net.ip_string (v4 n)) ≡ v4 n
  pub passes : net.is_ipv4 (net.ip_string (v4 n)) ≡ true
  pub dashless : split b'-' (net.ip_string (v4 n)) ≡ net.ip_string (v4 n) ∷ []

-- An address that the loop of ParseIPRange can step from and to.
abbrev pub IsInner : ℕ → Type 0
IsInner n = (2 ^ 24 ≤ n) × (n + 1 < 2 ^ 32)

split-ne-nil : (sep : ℕ) (s : Text) → split sep s ≡ [] → ⊥
unfolding split
split-ne-nil sep [] h = cc
split-ne-nil sep (c ∷ s) h = ground (arith, prepend-ne-nil c (split sep s))
  where
    prepend-ne-nil : (c : ℕ) (l : List Text) → prepend c l ≡ [] → ⊥
    prepend-ne-nil c [] e = cc
    prepend-ne-nil c (p ∷ ps) e = cc

prepend-eq :
    (c : ℕ) (a : Text) (l : List Text) → prepend c l ≡ (c ∷ a) ∷ [] → (l ≡ [] → ⊥) → l ≡ a ∷ []
prepend-eq c a [] h k = absurd (k refl)
prepend-eq c a (p ∷ ps) h k = cc

split-append :
    (sep : ℕ) (a b : Text) → split sep a ≡ a ∷ [] → split sep (a ++ sep ∷ b) ≡ a ∷ split sep b
unfolding split
split-append sep [] b h = ground arith
split-append sep (c ∷ a) b h =
    ground (arith, prepend-eq c a (split sep a), split-ne-nil sep a, split-append sep a b)

addresses_from-snoc : (a n : ℕ) → addresses_from a (suc n) ≡ addresses_from a n ++ v4 (a + n) ∷ []
unfolding addresses_from
addresses_from-snoc a zero = ap (λ m. v4 m ∷ []) (omega arith)
addresses_from-snoc a (suc n) =
    ap (◌∷◌ (v4 a)) (
      addresses_from-snoc (a + 1) n ∙ ap (λ m. addresses_from (a + 1) n ++ v4 m ∷ []) (omega arith))

addresses_from-one : (a : ℕ) → addresses_from a 1 ≡ v4 a ∷ []
unfolding addresses_from
addresses_from-one a = refl

-- The numbers are strictly increasing, and all above `m`.
abbrev pub IsAbove : ℕ → List ℕ → Type 0
IsAbove m [] = Unit
IsAbove m (n ∷ ns) = (m < n) × IsAbove n ns

module _ (net : Net) where
  parse_one_range :
      (fuel a : ℕ)
      → Prints net a
      → parse_ip_range net fuel ipv4 (format_range net (v4 a) (v4 a) 0) ≡ ok (v4 a ∷ [])
  unfolding parse_ip_range format_range
  parse_one_range fuel a p = rw (p.dashless) (simp (p.passes, p.reads))

  parse_span :
      (fuel a b w : ℕ)
      → Prints net a
      → Prints net b
      → IsInner a
      → IsInner b
      → a + suc w ≡ b
      → w + 2 < fuel
      → parse_ip_range net fuel ipv4 (format_range net (v4 a) (v4 b) (suc w))
        ≡ ok (addresses_from a (suc (suc w)))
  unfolding parse_ip_range format_range
  parse_span fuel a b w p q i j e f =
      rw (split-append b'-' (net.ip_string (v4 a)) (net.ip_string (v4 b)) p.dashless, q.dashless)
        (simp (p.passes, q.passes, p.reads, q.reads)
          (ground (arith, walk-addresses_from (suc (suc w)) fuel a b)))

  parse_format :
      (w fuel a b : ℕ)
      → Prints net a
      → Prints net b
      → IsInner a
      → IsInner b
      → a + w ≡ b
      → w + 1 < fuel
      → parse_ip_range net fuel ipv4 (format_range net (v4 a) (v4 b) w)
        ≡ ok (addresses_from a (suc w))
  unfolding format_range addresses_from
  parse_format zero fuel a b p q i j e f = parse_one_range fuel a p
  parse_format (suc w) fuel a b p q i j e f = parse_span fuel a b w p q i j e (omega arith)

  -- An address that prints well, and that the loop of ParseIPRange can step from and to.
  abbrev pub IsGood : ℕ → Type 0
  IsGood n = Prints net n × IsInner n

  merge_loop_step :
      (s e w n : ℕ) (ns : List ℕ)
      → IsInner e
      → merge_loop net (v4 s) (v4 e) w (v4 n ∷ map v4 ns) ≡ (
          if n == e + 1
          then merge_loop net (v4 s) (v4 n) (suc w) (map v4 ns)
          else format_range net (v4 s) (v4 e) w ∷ merge_loop net (v4 n) (v4 n) 0 (map v4 ns))
  unfolding merge_loop ip_equal
  merge_loop_step s e w n ns i = ground (arith, next_ip_inside e)

  parse_merge_loop :
      (ns : List ℕ) (fuel s e w : ℕ)
      → 2 ^ 32 ≤ fuel
      → s + w ≡ e
      → IsGood s
      → IsGood e
      → All IsGood ns
      → IsAbove e ns
      → parse_ip_ranges net fuel ipv4 (merge_loop net (v4 s) (v4 e) w (map v4 ns))
        ≡ ok (addresses_from s (suc w) ++ map v4 ns)
  unfolding parse_ip_ranges merge_loop
  parse_merge_loop [] fuel s e w f eq (p, i) (q, j) good above =
      rw (parse_format w fuel s e p q i j eq (omega arith)) refl
  parse_merge_loop (n ∷ ns) fuel s e w f eq (p, i) (q, j) (g, good) (lt, above) =
      elim (Bool-cases (n == e + 1)) [
        | inl hit ↦
            let next : s + suc w ≡ n = ground arith in
            rw
              (
                merge_loop_step s e w n ns j,
                hit,
                parse_merge_loop ns fuel s n (suc w) f next (p, i) g good above,
                addresses_from-snoc s (suc w),
                append_assoc,
                next,
              )
              refl
        | inr miss ↦
            rw
              (
                merge_loop_step s e w n ns j,
                miss,
                parse_format w fuel s e p q i j eq (omega arith),
                parse_merge_loop ns fuel n n 0 f (omega arith) g g good above,
                addresses_from-one n,
              )
              refl
      ]

  -- A strictly increasing list of addresses is what its merged ranges stand for, in that order.
  pub parse_ip_ranges-merge_sorted :
      (n : ℕ) (ns : List ℕ) (fuel : ℕ)
      → 2 ^ 32 ≤ fuel
      → All IsGood (n ∷ ns)
      → IsAbove n ns
      → parse_ip_ranges net fuel ipv4 (merge_sorted net (map v4 (n ∷ ns))) ≡ ok (map v4 (n ∷ ns))
  unfolding merge_sorted addresses_from
  parse_ip_ranges-merge_sorted n ns fuel f (g, good) above =
      parse_merge_loop ns fuel n n 0 f (omega arith) g g good above
