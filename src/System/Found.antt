-- ===== src/System/Found.antt =====
-- An update of a pool that was read by its name, whichever Subnet it belongs to.
use virtnet.Prelude.{
  ◌≡◌, refl, sym, ap, ◌∙◌, subst, inl, inr, true, false, List, [], ◌∷◌, ◌++◌, arith, some, Text,
  text_eq, text_eq_iff, All, Bool-cases,
}
use virtnet.Api.{IpPool, IpPoolStatus, ObjectMeta, Subnet}
use virtnet.Convert.{Json}
use virtnet.Cluster.{Cluster, find_pool, set_status, owner_of, owned_by, update_pool_status}
use virtnet.Cluster.Owned.{AreNamed, owned_by-set_status, set_status_new, All-owned_by}
use virtnet.Cluster.Triples.{Post-weaken}
use virtnet.Cluster.Refusals.{SamePools, HasPools, update_pool_status-Post}
use virtnet.Reconciler.Resized.{created}
use virtnet.Reconciler.Safe.{
  At, IsSafe, IsSafe-same, At-IsSafe, Moves, AreNamed-left, AreNamed-written, update_pool_status-At,
}
use virtnet.Reconciler.SafeReplicas.{Safely}

-- A pool that is found is its owner's.
find_pool-among :
    (owner name : Text) (ps : List IpPool) (p : IpPool)
    → find_pool name ps ≡ some p
    → text_eq (owner_of p) owner ≡ true
    → (before : List IpPool) × (after : List IpPool) × (owned_by owner ps ≡ before ++ p ∷ after)
unfolding find_pool owned_by
find_pool-among owner name [] p h own = absurd cc
find_pool-among owner name (q ∷ ps) p h own = elim (Bool-cases (text_eq q.meta.name name)) [
  | inl here ↦
      let same : q ≡ p = let h' = rw here at h in cc in ([], owned_by owner ps, rw (same, own) refl)
  | inr further ↦
      let (before, after, e) = find_pool-among owner name ps p (rw further at h) own in
      elim (Bool-cases (text_eq (owner_of q) owner)) [
        | inl first ↦ (q ∷ before, after, rw (first, e) refl)
        | inr other ↦ (before, after, rw (other, e) refl)
      ]
]

pub find_pool-name :
    (name : Text) (ps : List IpPool) (p : IpPool) → find_pool name ps ≡ some p → p.meta.name ≡ name
unfolding find_pool
find_pool-name name [] p h = cc
find_pool-name name (q ∷ ps) p h =
    ground (arith, find_pool-name name ps p, text_eq_iff q.meta.name name)

-- No pool of the owner has the name of a pool of another owner.
set_status-others :
    (owner name : Text) (status : IpPoolStatus) (ps : List IpPool) (p : IpPool)
    → AreNamed ps
    → find_pool name ps ≡ some p
    → text_eq (owner_of p) owner ≡ false
    → set_status name status (owned_by owner ps) ≡ owned_by owner ps
unfolding find_pool owned_by set_status
set_status-others owner name status [] p named h other = cc
set_status-others owner name status (q ∷ ps) p (new, named) h other =
    let rest : text_eq q.meta.name name ≡ false
        → set_status name status (owned_by owner ps) ≡ owned_by owner ps =
      λ further. set_status-others owner name status ps p named (rw further at h) other in
    elim (Bool-cases (text_eq q.meta.name name)) [
      | inl here ↦
          let same : q ≡ p = let h' = rw here at h in cc in
          let foreign : text_eq (owner_of q) owner ≡ false =
            subst (λ (o : IpPool). text_eq (owner_of o) owner ≡ false) (sym same) other in
          let named_so : q.meta.name ≡ name = (text_eq_iff q.meta.name name).0 here in
          rw foreign (
            set_status_new name status (owned_by owner ps) (
              subst
                (λ (n : Text).
                  All (λ (o : IpPool). text_eq n o.meta.name ≡ false) (owned_by owner ps))
                named_so (All-owned_by owner q.meta.name ps new)))
      | inr further ↦ elim (Bool-cases (text_eq (owner_of q) owner)) [
        | inl own ↦ rw (own, further, rest further) refl
        | inr foreign ↦ rw foreign (rest further)
      ]
    ]

module _ (json : Json) (s : Subnet) where
  -- A safe update of a pool that was found keeps the pools of the Subnet safe.
  pub update_found-Safely :
      (name : Text) (p q : IpPool) (c : Cluster)
      → IsSafe json s c
      → find_pool name c.pools ≡ some p
      → q.meta ≡ p.meta
      → Moves json s p q [] []
      → Safely json s (update_pool_status q c)
  update_found-Safely name p q c (ps, h) found same moves =
      elim (Bool-cases (text_eq (owner_of p) s.meta.name)) [
        | inl own ↦
            let (before, after, e) = find_pool-among s.meta.name name c.pools p found own in
            let all : List IpPool = before ++ p ∷ after in
            let h1 : At json s all [] c =
              subst (λ (qs : List IpPool). At json s qs [] c) (sym h.listed ∙ e) h in
            Post-weaken (λ _. At json s (before ++ record p { status = q.status } ∷ after) [])
              (λ _. IsSafe json s) (At json s all []) (IsSafe json s) (update_pool_status q c)
              (λ _. At-IsSafe json s (before ++ record p { status = q.status } ∷ after) [])
              (At-IsSafe json s all [])
              (update_pool_status-At json s before after p q [] [] c moves h1)
        | inr other ↦
            let named : q.meta.name ≡ name =
              ap (λ (o : ObjectMeta). o.name) same ∙ find_pool-name name c.pools p found in
            Post-weaken (λ _. HasPools c (set_status q.meta.name q.status c.pools))
              (λ _. IsSafe json s) (SamePools c) (IsSafe json s) (update_pool_status q c)
              (λ _ c1 (pools, names). (
                ps,
                record {
                  listed =
                      ap (owned_by s.meta.name) pools
                      ∙ owned_by-set_status s.meta.name q.meta.name q.status c.pools
                      ∙ ap (λ (n : Text). set_status n q.status (owned_by s.meta.name c.pools))
                          named
                      ∙ set_status-others s.meta.name name q.status c.pools p
                          (AreNamed-left c.pools (created s c.names) h.named) found other
                      ∙ h.listed;
                  named = AreNamed-written json s ps [] c c1 q h (pools, names);
                  shelves = h.shelves;
                  represent = h.represent;
                  room = h.room;
                },
              ))
              (λ c1. IsSafe-same json s c c1 (ps, h)) (update_pool_status-Post q c)
      ]
