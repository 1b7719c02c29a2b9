-- ===== src/Reconciler/SplitLaws.antt =====
-- splitUnallocatedIPs (pkg/subnet/utils.go) cuts a list into few, nearly equal parts.
use native.Mathlib.Nat.{div-add-mod, mod-lt, le-div_iff_mul-le}
use virtnet.Prelude.{
  ℕ, zero, suc, ◌+◌, ◌-◌, ◌*◌, ◌/◌, ◌≤◌, ◌<◌, ◌≡◌, refl, List, [], ◌∷◌, ◌++◌, arith, Text, length,
  drop, take-append-drop, length-take, length-drop, All,
}
use virtnet.Reconciler.Split.{split_loop, split_unallocated_ips}

-- The parts one after the other.
unfoldable pub joined : List (List Text) → List Text
joined [] = []
joined (part ∷ parts) = part ++ joined parts

joined-split_loop :
    (fuel size : ℕ) (s : List Text)
    → 0 < size
    → length s ≤ fuel
    → joined (split_loop fuel size s) ≡ s
unfolding split_loop joined
joined-split_loop zero size [] pos f = refl
joined-split_loop zero size (ip ∷ s) pos f = absurd (omega arith)
joined-split_loop (suc fuel) size [] pos f = refl
joined-split_loop (suc fuel) size (ip ∷ s) pos f =
    rw
      (joined-split_loop fuel size (drop size (ip ∷ s)) pos
        (omega (arith, length-drop size (ip ∷ s))))
      (take-append-drop size (ip ∷ s))

length-split_loop :
    (fuel size k : ℕ) (s : List Text)
    → 0 < size
    → length s ≤ k * size
    → length (split_loop fuel size s) ≤ k
unfolding split_loop
length-split_loop zero size k s pos h = omega arith
length-split_loop (suc fuel) size k [] pos h = omega arith
length-split_loop (suc fuel) size zero (ip ∷ s) pos h = absurd (omega arith)
length-split_loop (suc fuel) size (suc k) (ip ∷ s) pos h = omega (
  arith,
  length-split_loop fuel size k (drop size (ip ∷ s)) pos (omega (arith, length-drop size (ip ∷ s))),
)

-- The length of a part.
abbrev part_size : ℕ → ℕ → ℕ
part_size len n = (len + suc n - 1) / suc n

abbrev pub IsPart : ℕ → List Text → Type 0
IsPart size part = (0 < length part) × (length part ≤ size)

parts-split_loop :
    (fuel size : ℕ) (s : List Text) → 0 < size → All (IsPart size) (split_loop fuel size s)
unfolding split_loop
parts-split_loop zero size s pos = tt
parts-split_loop (suc fuel) size [] pos = tt
parts-split_loop (suc fuel) size (ip ∷ s) pos = (
  (omega (arith, length-take size (ip ∷ s)), omega (arith, length-take size (ip ∷ s))),
  parts-split_loop fuel size (drop size (ip ∷ s)) pos,
)

part_size_enough : (len n : ℕ) → len ≤ suc n * part_size len n
part_size_enough len n = omega (
  arith,
  div-add-mod (len + suc n - 1) (suc n),
  mod-lt (len + suc n - 1) {m = suc n} (omega arith),
)

part_size-pos : (len n : ℕ) → 0 < len → 0 < part_size len n
part_size-pos len n pos =
    (le-div_iff_mul-le {k = suc n} {x = 1} {y = len + suc n - 1} (omega arith)).1 (omega arith)

split_some :
    (s : List Text) (n : ℕ)
    → 0 < length s
    → (joined (split_unallocated_ips s (suc n)) ≡ s)
      × (length (split_unallocated_ips s (suc n)) ≤ suc n)
      × All (IsPart (part_size (length s) n)) (split_unallocated_ips s (suc n))
unfolding split_unallocated_ips
split_some s n pos =
    let size : ℕ = part_size (length s) n in
    let size-pos : 0 < size = part_size-pos (length s) n pos in
    (
      joined-split_loop (length s) size s size-pos (omega arith),
      length-split_loop (length s) size (suc n) s size-pos (part_size_enough (length s) n),
      parts-split_loop (length s) size s size-pos,
    )

-- For a number of parts that is not 0 the parts make up the list again, in order; they are at most
-- that many, none is empty, and none is longer than the length divided by it, rounded up.
pub split_unallocated_ips_lem :
    (s : List Text) (n : ℕ)
    → (joined (split_unallocated_ips s (suc n)) ≡ s)
      × (length (split_unallocated_ips s (suc n)) ≤ suc n)
      × All (IsPart ((length s + suc n - 1) / suc n)) (split_unallocated_ips s (suc n))
unfolding split_unallocated_ips joined split_loop
split_unallocated_ips_lem [] n = (refl, omega arith, tt)
split_unallocated_ips_lem (ip ∷ s) n = split_some (ip ∷ s) n (omega arith)
