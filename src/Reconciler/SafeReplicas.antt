-- ===== src/Reconciler/SafeReplicas.antt =====
-- replicate (pkg/subnet/subnet_reconciler.go), whatever calls the server refuses.
use virtnet.Prelude.{
  ℕ, zero, suc, ◌≤◌, ◌≡◌, refl, sym, ap, ◌∙◌, subst, inl, inr, false, List, [], ◌∷◌, ◌++◌, arith,
  Text, text_eq, All, Outcome, Bool-cases, length, ◌-◌, take,
}
use mathlib.Core.List.{append_assoc}
use virtnet.Api.{IpPool, Subnet}
use virtnet.Convert.{Json}
use virtnet.Cluster.{
  Cluster, PoolCache, IsCurrent, remove_pool, owned_by, create_pool, delete_pool, list_pools,
}
use virtnet.Cluster.Owned.{AreNamed, owned_by-remove_pool}
use virtnet.Cluster.Triples.{Post, Post-weaken, and_then-Post}
use virtnet.Cluster.Refusals.{
  SamePools, HasPools, HasCreated, create_pool-Post, delete_pool-Post, list_pools-Post,
}
use virtnet.Reconciler.Replicate.{new_pool, create_pools, delete_pools, replicate}
use virtnet.Reconciler.Resized.{created, owned_by-append, owned_by-created}
use virtnet.Reconciler.Safe.{At, IsSafe, At-same, IsSafe-same}
use virtnet.Inventory.{Shelf, shelf, count, addresses, all_addresses}
use virtnet.Inventory.Refines.{AllRepresent, AllRepresent-join, new_pool-Represents}
use virtnet.Inventory.Unique.{count-append, all_addresses-append}

AreNamed-remove_pool :
    (name : Text) (ps qs : List IpPool) → AreNamed (ps ++ qs) → AreNamed (remove_pool name ps ++ qs)
unfolding remove_pool
AreNamed-remove_pool name [] qs h = h
AreNamed-remove_pool name (p ∷ ps) qs (new, h) = elim (Bool-cases (text_eq p.meta.name name)) [
  | inl gone ↦ rw gone (AreNamed-remove_pool name ps qs h)
  | inr stays ↦ rw stays (All-remove ps new, AreNamed-remove_pool name ps qs h)
]
  where
    All-remove :
        (rs : List IpPool)
        → All (λ (q : IpPool). text_eq p.meta.name q.meta.name ≡ false) (rs ++ qs)
        → All (λ (q : IpPool). text_eq p.meta.name q.meta.name ≡ false) (remove_pool name rs ++ qs)
    All-remove [] k = k
    All-remove (r ∷ rs) (d, k) = elim (Bool-cases (text_eq r.meta.name name)) [
      | inl gone ↦ rw gone (All-remove rs k)
      | inr stays ↦ rw stays (d, All-remove rs k)
    ]

module _ (json : Json) where
  AllRepresent-remove_pool :
      (name : Text) (ps : List IpPool) (ss : List Shelf)
      → AllRepresent json ps ss
      → (ts : List Shelf) × AllRepresent json (remove_pool name ps) ts
        × ((x : Text) → count x (all_addresses ts) ≤ count x (all_addresses ss))
  unfolding remove_pool all_addresses
  AllRepresent-remove_pool name [] [] h = ([], tt, λ x. omega arith)
  AllRepresent-remove_pool name [] (t ∷ ss) h = absurd h
  AllRepresent-remove_pool name (p ∷ ps) [] h = absurd h
  AllRepresent-remove_pool name (p ∷ ps) (t ∷ ss) (r, h) =
      let (ts, k, fewer) = AllRepresent-remove_pool name ps ss h in
      elim (Bool-cases (text_eq p.meta.name name)) [
        | inl gone ↦ (
          ts,
          rw gone k,
          λ x. omega (arith, fewer x, count-append x (addresses t) (all_addresses ss)),
        )
        | inr stays ↦ (
          t ∷ ts,
          rw stays (r, k),
          λ x. omega (
            arith,
            fewer x,
            count-append x (addresses t) (all_addresses ss),
            count-append x (addresses t) (all_addresses ts),
          ),
        )
      ]

  module _ (s : Subnet) where
    after_create :
        (c c1 : Cluster) → IsSafe json s c → HasCreated (new_pool s) c c1 → IsSafe json s c1
    unfolding created count all_addresses
    after_create c c1 (ps, h) (suffix, names, given, pools, left) =
        let p : IpPool = record (new_pool s) {
          meta = record (new_pool s).meta { name = (new_pool s).meta.name ++ suffix };
        } in
        (
          ps ++ p ∷ [],
          record {
            listed =
                ap (owned_by s.meta.name) pools
                ∙ owned_by-append s.meta.name c.pools (p ∷ [])
                ∙ rw (h.listed, owned_by-created s (suffix ∷ [])) refl;
            named =
                subst (λ (ns : List Text). AreNamed (c1.pools ++ created s ns)) (sym left)
                  (subst (λ (qs : List IpPool). AreNamed (qs ++ created s names)) (sym pools)
                    (subst AreNamed (sym (append_assoc c.pools (p ∷ []) (created s names))) (
                      subst (λ (ns : List Text). AreNamed (c.pools ++ created s ns)) given
                        h.named)));
            shelves = h.shelves ++ shelf [] [] ∷ [];
            represent =
                AllRepresent-join json ps (p ∷ []) h.shelves (shelf [] [] ∷ []) h.represent
                  (new_pool-Represents json s, tt);
            room =
                λ x. omega (arith, h.room x, all_addresses-append h.shelves (shelf [] [] ∷ []) x);
          },
        )

    after_delete :
        (q : IpPool) (c c1 : Cluster)
        → IsSafe json s c
        → HasPools c (remove_pool q.meta.name c.pools) c1
        → IsSafe json s c1
    after_delete q c c1 (ps, h) (pools, names) =
        let (ts, k, fewer) = AllRepresent-remove_pool q.meta.name ps h.shelves h.represent in
        (
          remove_pool q.meta.name ps,
          record {
            listed =
                ap (owned_by s.meta.name) pools
                ∙ owned_by-remove_pool s.meta.name q.meta.name c.pools
                ∙ ap (remove_pool q.meta.name) h.listed;
            named =
                subst (λ (ns : List Text). AreNamed (c1.pools ++ created s ns)) (sym names)
                  (subst (λ (qs : List IpPool). AreNamed (qs ++ created s c.names)) (sym pools)
                    (AreNamed-remove_pool q.meta.name c.pools (created s c.names) h.named));
            shelves = ts;
            represent = k;
            room = λ x. omega (arith, h.room x, fewer x);
          },
        )

    abbrev pub Safely : Outcome (Unit {0}) × Cluster → Type 0
    Safely = Post (λ _. IsSafe json s) (IsSafe json s)

    create_pools-Safely :
        (n : ℕ) (c : Cluster) → IsSafe json s c → Safely (create_pools n (new_pool s) c)
    unfolding create_pools
    create_pools-Safely zero c h = h
    create_pools-Safely (suc n) c h =
        and_then-Post (λ _. IsSafe json s) (λ _. IsSafe json s) (IsSafe json s)
          (create_pool (new_pool s) c) _
          (Post-weaken (λ _. HasCreated (new_pool s) c) (λ _. IsSafe json s) (SamePools c)
            (IsSafe json s) (create_pool (new_pool s) c) (λ _ c1. after_create c c1 h)
            (λ c1. IsSafe-same json s c c1 h) (create_pool-Post (new_pool s) c))
          (λ _ c1. create_pools-Safely n c1)

    delete_pools-Safely :
        (qs : List IpPool) (c : Cluster) → IsSafe json s c → Safely (delete_pools qs c)
    unfolding delete_pools
    delete_pools-Safely [] c h = h
    delete_pools-Safely (q ∷ qs) c h =
        and_then-Post (λ _. IsSafe json s) (λ _. IsSafe json s) (IsSafe json s) (delete_pool q c) _
          (Post-weaken (λ _. HasPools c (remove_pool q.meta.name c.pools)) (λ _. IsSafe json s)
            (SamePools c) (IsSafe json s) (delete_pool q c) (λ _ c1. after_delete q c c1 h)
            (λ c1. IsSafe-same json s c c1 h) (delete_pool-Post q c))
          (λ _ c1. delete_pools-Safely qs c1)

    -- A list gives the pools as they are.
    pub list_pools-At :
        (cache : PoolCache) (c : Cluster)
        → IsCurrent cache
        → IsSafe json s c
        → Post (λ ps. At json s ps []) (IsSafe json s) (list_pools cache s.meta.name c)
    list_pools-At cache c current (ps, h) =
        Post-weaken (λ qs c1. (qs ≡ owned_by s.meta.name c.pools) × SamePools c c1)
          (λ qs. At json s qs []) (SamePools c) (IsSafe json s) (list_pools cache s.meta.name c)
          (λ qs c1 (listed, same).
            subst (λ (rs : List IpPool). At json s rs [] c1) (sym (listed ∙ h.listed))
              (At-same json s ps [] c c1 h same))
          (λ c1 same. (ps, At-same json s ps [] c c1 h same))
          (list_pools-Post cache s.meta.name c current)

    pub replicate-Safely :
        (cache : PoolCache) (c : Cluster)
        → IsCurrent cache
        → IsSafe json s c
        → Safely (replicate cache s c)
    unfolding replicate
    replicate-Safely cache c current h =
        and_then-Post (λ ps. At json s ps []) (λ _. IsSafe json s) (IsSafe json s)
          (list_pools cache s.meta.name c) _ (list_pools-At cache c current h)
          (λ ps c1 h1.
            and_then-Post (λ _. IsSafe json s) (λ _. IsSafe json s) (IsSafe json s)
              (create_pools (s.spec.replicas - length ps) (new_pool s) c1) _
              (create_pools-Safely (s.spec.replicas - length ps) c1 (ps, h1))
              (λ _ c2. delete_pools-Safely (take (length ps - s.spec.replicas) ps) c2))
