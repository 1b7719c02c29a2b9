-- ===== src/Reconciler/NeedLaws.antt =====
-- Which pools ippoolNeedsExpansion (pkg/subnet/subnet_reconciler.go) picks.
use virtnet.Prelude.{
  ℕ, ◌+◌, ◌/◌, ◌<◌, ◌≡◌, refl, ◌⊎◌, inl, inr, true, false, ◌&&◌, List, [], ◌∷◌, Text, length, All,
  arith, ltb, if◌then◌else◌, Bool-cases, ltb→lt,
}
use virtnet.Api.{IpPool, PoolIpUnallocation}
use virtnet.Convert.{count_or_zero}
use virtnet.Reconciler.Gather.{all_unallocated, below_share, is_empty, ippool_needs_expansion}

below_share-All :
    (share : ℕ) (ps : List IpPool)
    → All (λ p. count_or_zero p.status.unallocated_ip_count < share) (below_share share ps)
unfolding below_share
below_share-All share [] = tt
below_share-All share (p ∷ ps) =
    elim (Bool-cases (ltb (count_or_zero p.status.unallocated_ip_count) share)) [
      | inl below ↦ rw below (
        ltb→lt (count_or_zero p.status.unallocated_ip_count) share below,
        below_share-All share ps,
      )
      | inr enough ↦ rw enough (below_share-All share ps)
    ]

-- The last step of ippoolNeedsExpansion, on any list of pools below their share.
some_picked :
    (needs : List IpPool) (count share : ℕ) (ps : List IpPool)
    → is_empty ps ≡ false
    → ltb 0 count ≡ true
    → All (λ q. count_or_zero q.status.unallocated_ip_count < share) needs
    → let picked = if is_empty needs && ltb 0 count then ps else needs in
      (is_empty picked ≡ false)
      × ((picked ≡ ps) ⊎ All (λ q. count_or_zero q.status.unallocated_ip_count < share) picked)
some_picked [] count share ps some_pool some_ip h = rw some_ip (some_pool, inl refl)
some_picked (q ∷ needs) count share ps some_pool some_ip h = (refl, inr h)

-- When addresses remain and there is a pool, some pool is picked: all of them, or only pools with
-- fewer free addresses than their share of all free and remaining addresses.
pub ippool_needs_expansion-some :
    (p : IpPool) (ps : List IpPool) (unallocation : List (Text × PoolIpUnallocation)) (ip : Text)
    (remaining : List Text)
    → let needs = ippool_needs_expansion (p ∷ ps) unallocation (ip ∷ remaining) in
      let share =
        (length (all_unallocated unallocation) + length (ip ∷ remaining)) / length (p ∷ ps) in
      (is_empty needs ≡ false)
      × ((needs ≡ p ∷ ps) ⊎ All (λ q. count_or_zero q.status.unallocated_ip_count < share) needs)
unfolding ippool_needs_expansion
ippool_needs_expansion-some p ps unallocation ip remaining =
    let share : ℕ =
      (length (all_unallocated unallocation) + length (ip ∷ remaining)) / length (p ∷ ps) in
    some_picked (below_share share (p ∷ ps)) (length (ip ∷ remaining)) share (p ∷ ps) refl
      (ground arith) (below_share-All share (p ∷ ps))
