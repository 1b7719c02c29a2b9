-- ===== src/Reconciler/SafeLoops.antt =====
-- The loops of Reconcile (pkg/subnet/subnet_reconciler.go), whatever calls the server refuses.
use virtnet.Prelude.{
  ℕ, ◌≡◌, refl, sym, subst, inl, inr, List, [], ◌∷◌, ◌++◌, arith, Text, leb, leb→le, ltb, length,
  take, Outcome, ok, panic, Bool-cases,
}
use mathlib.Core.List.{append_assoc}
use virtnet.Api.{IpPool, Subnet}
use virtnet.Convert.{Json, count_or_zero}
use virtnet.Convert.Laws.{Lawful}
use virtnet.Cluster.{Cluster, update_pool_status}
use virtnet.Cluster.Triples.{Post, Post-weaken, and_then-Post, pure-Post, retry_on_conflict-Post}
use virtnet.Retry.{retry_on_conflict, default_steps}
use virtnet.Reconciler.Release.{slice_to, trim, release_loop}
use virtnet.Reconciler.Expand.{extend, expand_loop}
use virtnet.Reconciler.SplitLaws.{joined}
use virtnet.Reconciler.ShareLaws.{trim-IsCounted, extend-IsCounted}
use virtnet.Reconciler.GrowLaws.{Picks, ends, picks, skips}
use virtnet.Reconciler.Safe.{At, IsSafe, At-IsSafe, Moves, update_pool_status-At}
use virtnet.Inventory.{shelf}
use virtnet.Inventory.Refines.{Represents}
use virtnet.Inventory.Unique.{count-append, count-take_le}

module _ (json : Json) (lawful : Lawful json) (s : Subnet) where
  trim-Moves :
      (p q : IpPool) (avg : ℕ) (more : List Text)
      → trim json avg p ≡ ok q
      → Moves json s p q more more
  unfolding trim slice_to
  trim-Moves p q avg more run t r room = elim (Bool-cases (leb avg (length t.unused))) [
    | inl within ↦
        let (q', run', counted, same) =
          trim-IsCounted json lawful p t.used t.unused r avg
            (leb→le avg (length t.unused) within) in
        let found : q' ≡ q = cc in
        (
          shelf t.used (take avg t.unused),
          subst (λ (o : IpPool). Represents json o (shelf t.used (take avg t.unused))) found
              counted.holds,
          subst (λ (o : IpPool). o.meta ≡ p.meta) found same,
          λ x. omega (arith, count-take_le x avg t.unused),
        )
    | inr beyond ↦
        let panics : trim json avg p ≡ panic = rw (r.reads_unallocated, beyond) refl in absurd cc
  ]

  extend-Moves :
      (p q : IpPool) (share rest : List Text)
      → extend json share p ≡ ok q
      → Moves json s p q (share ++ rest) rest
  extend-Moves p q share rest run t r room =
      let (q', run', counted, same) = extend-IsCounted json lawful p t.used t.unused r share in
      let found : q' ≡ q = cc in
      (
        shelf t.used (t.unused ++ share),
        subst (λ (o : IpPool). Represents json o (shelf t.used (t.unused ++ share))) found
            counted.holds,
        subst (λ (o : IpPool). o.meta ≡ p.meta) found same,
        λ x. omega (arith, count-append x share rest, count-append x t.unused share),
      )

  abbrev Safely : Outcome (Unit {0}) × Cluster → Type 0
  Safely = Post (λ _. IsSafe json s) (IsSafe json s)

  again :
      (done rest : List IpPool) (p : IpPool) (more : List Text) (c : Cluster)
      → At json s (done ++ p ∷ rest) more c
      → At json s ((done ++ p ∷ []) ++ rest) more c
  again done rest p more c h =
      subst (λ (ps : List IpPool). At json s ps more c) (sym (append_assoc done (p ∷ []) rest)) h

  pub release_loop-Safely :
      (avg : ℕ) (done ps : List IpPool) (c : Cluster)
      → At json s (done ++ ps) [] c
      → Safely (release_loop json avg ps c)
  unfolding release_loop
  release_loop-Safely avg done [] c h = (done ++ [], h)
  release_loop-Safely avg done (p ∷ ps) c h =
      elim (Bool-cases (ltb avg (count_or_zero p.status.unallocated_ip_count))) [
        | inl above ↦ rw above (
            and_then-Post (λ q c1. (trim json avg p ≡ ok q) × At json s (done ++ p ∷ ps) [] c1)
              (λ _. IsSafe json s) (IsSafe json s) (trim json avg p, c) _
              (pure-Post _ _ (trim json avg p) c (λ q run. (run, h)) (done ++ p ∷ ps, h))
              (λ q c1 (run, h1).
                and_then-Post (λ _. At json s (done ++ record p { status = q.status } ∷ ps) [])
                  (λ _. IsSafe json s) (IsSafe json s)
                  (retry_on_conflict default_steps (update_pool_status q) c1) _
                  (Post-weaken (λ _. At json s (done ++ record p { status = q.status } ∷ ps) [])
                    (λ _. At json s (done ++ record p { status = q.status } ∷ ps) [])
                    (At json s (done ++ p ∷ ps) []) (IsSafe json s)
                    (retry_on_conflict default_steps (update_pool_status q) c1) (λ _ _ k. k)
                    (At-IsSafe json s (done ++ p ∷ ps) [])
                    (retry_on_conflict-Post (At json s (done ++ p ∷ ps) []) (update_pool_status q)
                      (λ _. At json s (done ++ record p { status = q.status } ∷ ps) [])
                      default_steps
                      (λ c3.
                        update_pool_status-At json s done ps p q [] [] c3
                          (trim-Moves p q avg [] run))
                      c1 h1))
                  (λ _ c2 h2.
                    release_loop-Safely avg (done ++ record p { status = q.status } ∷ []) ps c2
                      (again done ps (record p { status = q.status }) [] c2 h2))))
        | inr within ↦
            rw within (release_loop-Safely avg (done ++ p ∷ []) ps c (again done ps p [] c h))
      ]

  pub expand_loop-Safely :
      {needs ps : List IpPool} (done : List IpPool) (shares : List (List Text)) (c : Cluster)
      → Picks needs ps
      → At json s (done ++ ps) (joined shares) c
      → Safely (expand_loop json needs shares c)
  unfolding expand_loop joined
  expand_loop-Safely done shares c ends h = At-IsSafe json s (done ++ []) (joined shares) c h
  expand_loop-Safely {ps = _ ∷ ps} done shares c (skips p rest) h =
      expand_loop-Safely (done ++ p ∷ []) shares c rest (again done ps p (joined shares) c h)
  expand_loop-Safely {ps = _ ∷ ps} done [] c (picks p rest) h =
      At-IsSafe json s (done ++ p ∷ ps) [] c h
  expand_loop-Safely {ps = _ ∷ ps} done (share ∷ shares) c (picks p rest) h =
      let all : List IpPool = done ++ p ∷ ps in
      let more : List Text = share ++ joined shares in
      and_then-Post (λ q c1. (extend json share p ≡ ok q) × At json s all more c1)
        (λ _. IsSafe json s) (IsSafe json s) (extend json share p, c) _
        (pure-Post _ _ (extend json share p) c (λ q run. (run, h)) (At-IsSafe json s all more c h))
        (λ q c1 (run, h1).
          let p1 : IpPool = record p { status = q.status } in
          and_then-Post (λ _. At json s (done ++ p1 ∷ ps) (joined shares)) (λ _. IsSafe json s)
            (IsSafe json s) (update_pool_status q c1) _
            (Post-weaken (λ _. At json s (done ++ p1 ∷ ps) (joined shares))
              (λ _. At json s (done ++ p1 ∷ ps) (joined shares)) (At json s all more)
              (IsSafe json s) (update_pool_status q c1) (λ _ _ k. k) (At-IsSafe json s all more)
              (update_pool_status-At json s done ps p q more (joined shares) c1
                (extend-Moves p q share (joined shares) run) h1))
            (λ _ c2 h2.
              expand_loop-Safely (done ++ p1 ∷ []) shares c2 rest
                (again done ps p1 (joined shares) c2 h2)))
