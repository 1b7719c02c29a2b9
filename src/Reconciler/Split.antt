-- ===== src/Reconciler/Split.antt =====
-- pkg/subnet/utils.go, splitUnallocatedIPs.
use virtnet.Prelude.{ℕ, zero, suc, ◌+◌, ◌-◌, ◌/◌, List, [], ◌∷◌, Text, length, take, drop}

-- `for i := 0; i < sliceLength; i += subSliceLength`, on what is left of the slice behind `i`.
unfoldable pub split_loop : ℕ → ℕ → List Text → List (List Text)
split_loop zero size s = []
split_loop (suc fuel) size [] = []
split_loop (suc fuel) size (ip ∷ s) = take size (ip ∷ s) ∷ split_loop fuel size (drop size (ip ∷ s))

-- splitUnallocatedIPs; the loop has as many rounds as there are addresses, at most.
unfoldable pub split_unallocated_ips : List Text → ℕ → List (List Text)
unfolding split_loop
split_unallocated_ips s zero = s ∷ []
split_unallocated_ips s (suc n) = split_loop (length s) ((length s + suc n - 1) / suc n) s
