-- ===== src/Pool/Reaching.antt =====
-- Which pool the rounds of AllocateIP (pkg/ippool/ippool_client.go) come to.
use virtnet.Prelude.{
  ℕ, zero, suc, ◌<◌, ◌≤◌, ◌≡◌, refl, ap, ◌∙◌, ◌⊎◌, inl, inr, List, [], ◌∷◌, ◌++◌, arith, some, none,
  Text, lookup, insert, lookup-insert, text_eq_refl, true, Outcome, ok, err, panic, out_of_fuel,
  ◌>>=◌, conflict, timeout, length, All, take, drop, take-append-drop, All-append, false, sym,
  subst,
}
use virtnet.Ip.{Ip, Net}
use virtnet.Api.{IpPool, Pod, PoolIpAllocation}
use virtnet.Convert.{Json}
use virtnet.Convert.Laws.{Lawful}
use virtnet.Cluster.{Cluster, find_pool}
use virtnet.Retry.{retry_on_conflict, default_steps}
use virtnet.Retry.Laws.{retry_on_conflict-again, retry_on_conflict-done}
use virtnet.Pool.{PoolMap, SubnetPools, rotate, next_of, next}
use virtnet.Pool.Rotation.{rotate_times, rotate_times_round}
use virtnet.Pool.Allocate.{Progress, attempt, allocate_ip}
use virtnet.Pool.Conservation.{Holds}
use virtnet.Pool.Retries.{IsExhausted, try_pool-empty, attempt-takes}

next_of-rotate_ok :
    (s : SubnetPools) (name : Text) (t : SubnetPools)
    → rotate s ≡ ok (name, t)
    → next_of (some s) ≡ ok (name, t)
unfolding next_of rotate
next_of-rotate_ok s name t h = by_pools s.pools s.index h
  where
    by_pools :
        (pools : List Text) (i : ℕ)
        → rotate (record { pools = pools; index = i }) ≡ ok (name, t)
        → next_of (some (record { pools = pools; index = i })) ≡ ok (name, t)
    by_pools [] i e = cc
    by_pools (p ∷ ps) i e = e

-- The first of several calls of next, and those behind it.
rotate_times-first :
    (n : ℕ) (s s' : SubnetPools) (names : List Text)
    → rotate_times (suc n) s ≡ ok (names, s')
    → (name : Text) × (t : SubnetPools) × (rest : List Text) × (rotate s ≡ ok (name, t))
      × (rotate_times n t ≡ ok (rest, s'))
      × (names ≡ name ∷ rest)
unfolding rotate_times
rotate_times-first n s s' names h = by_first (rotate s) refl h
  where
    by_rest :
        (name : Text) (t : SubnetPools) (r : Outcome (List Text × SubnetPools))
        → rotate s ≡ ok (name, t)
        → rotate_times n t ≡ r
        → ◌>>=◌ {B = List Text × SubnetPools} r (λ y. ok (name ∷ y.0, y.1)) ≡ ok (names, s')
        → (name : Text) × (t : SubnetPools) × (rest : List Text) × (rotate s ≡ ok (name, t))
          × (rotate_times n t ≡ ok (rest, s'))
          × (names ≡ name ∷ rest)
    by_rest name t (ok (rest, u)) e f g = (name, t, rest, e, f ∙ cc, cc)
    by_rest name t (err x) e f g = cc
    by_rest name t panic e f g = cc
    by_rest name t out_of_fuel e f g = cc

    by_first :
        (r : Outcome (Text × SubnetPools))
        → rotate s ≡ r
        → ◌>>=◌ {B = List Text × SubnetPools} r (λ x.
          ◌>>=◌ {B = List Text × SubnetPools} (rotate_times n x.1) (λ y. ok (x.0 ∷ y.0, y.1)))
          ≡ ok (names, s')
        → (name : Text) × (t : SubnetPools) × (rest : List Text) × (rotate s ≡ ok (name, t))
          × (rotate_times n t ≡ ok (rest, s'))
          × (names ≡ name ∷ rest)
    by_first (ok (name, t)) e g = by_rest name t (rotate_times n t) e refl g
    by_first (err x) e g = cc
    by_first panic e g = cc
    by_first out_of_fuel e g = cc

module _ (net : Net) (json : Json) (lawful : Lawful json) (subnet : Text) (pod : Pod) where
  -- The pool of that name is stored, and has a free address.
  abbrev pub HasFree : Cluster → Text → Type 0
  HasFree c name =
      (pool : IpPool) × (allocated : List (Text × PoolIpAllocation)) × (ip : Text) × (rest : List
        Text)
      × (find_pool name c.pools ≡ some pool)
      × (pool.meta.name ≡ name)
      × Holds json pool.status allocated (ip ∷ rest)
      × (lookup ip allocated ≡ none)

  abbrev Empty : Cluster → Text → Type 0
  Empty c name = IsExhausted net json subnet pod c name

  -- `k` calls of next give pools without a free address, and the one behind them a pool with one.
  abbrev Reaches : Cluster → ℕ → SubnetPools → Type 0
  Reaches c zero s = (name : Text) × (t : SubnetPools) × (rotate s ≡ ok (name, t)) × HasFree c name
  Reaches c (suc k) s =
      (name : Text) × (t : SubnetPools) × (rotate s ≡ ok (name, t)) × Empty c name × Reaches c k t

  abbrev from : PoolMap → Cluster → Progress
  from m c = record { pool_map = m; no_unallocated = true; cluster = c }

  next-rotate :
      (m : PoolMap) (s : SubnetPools) (name : Text) (t : SubnetPools)
      → lookup subnet m ≡ some s
      → rotate s ≡ ok (name, t)
      → next m subnet ≡ ok (name, insert subnet t m)
  unfolding next
  next-rotate m s name t found h = rw (found, next_of-rotate_ok s name t h) refl

  attempt-skips :
      (m m' : PoolMap) (c : Cluster) (name : Text)
      → c.answers ≡ []
      → next m subnet ≡ ok (name, m')
      → Empty c name
      → attempt net json subnet pod (from m c) ≡ (err conflict, from m' c)
  unfolding attempt
  attempt-skips m m' c name quiet chosen (pool, allocated, there, holds) =
      rw
        (
          chosen,
          try_pool-empty net json subnet pod
              (record { pool_map = m'; no_unallocated = false; cluster = c }) name pool allocated
              quiet there holds,
        )
        refl

  retry_reaching :
      (k steps : ℕ) (m : PoolMap) (c : Cluster) (s : SubnetPools)
      → k < steps
      → c.answers ≡ []
      → lookup subnet m ≡ some s
      → Reaches c k s
      → (pool' : IpPool) × (ip : Ip) × ((retry_on_conflict steps
            (attempt net json subnet pod)
            (from m c)).0
          ≡ ok (pool', ip))
  unfolding retry_on_conflict
  retry_reaching k zero m c s lt quiet found r = absurd (omega arith)
  retry_reaching zero (suc steps) m c s lt quiet found (name, t, run, free) =
      let (pool, allocated, ip, rest, there, named, holds, new) = free in
      let (pool', round, _) =
        attempt-takes net json lawful subnet pod m (insert subnet t m) c name pool allocated ip rest
          (next-rotate m s name t found run) there named holds new quiet in
      (
        pool',
        net.parse_ip ip,
        ap (λ (x : Outcome (IpPool × Ip) × Progress). x.0)
            (retry_on_conflict-done steps (attempt net json subnet pod) (from m c) _ _ refl round),
      )
  retry_reaching (suc k) (suc steps) m c s lt quiet found (name, t, run, empty, r) =
      let m' : PoolMap = insert subnet t m in
      let skipped = attempt-skips m m' c name quiet (next-rotate m s name t found run) empty in
      let (pool', ip, e) =
        retry_reaching k steps m' c t (omega arith) quiet
          (rw (lookup-insert, text_eq_refl subnet) refl) r in
      (
        pool',
        ip,
        ap (λ (x : Outcome (IpPool × Ip) × Progress). x.0)
              (retry_on_conflict-again steps (attempt net json subnet pod) (from m c) (from m' c)
                skipped)
            ∙ e,
      )

  -- Some pool of the list has a free address.
  abbrev pub SomeFree : Cluster → List Text → Type 0
  SomeFree c [] = ⊥
  SomeFree c (name ∷ names) = HasFree c name ⊎ SomeFree c names

  SomeFree-swap : (c : Cluster) (xs ys : List Text) → SomeFree c (xs ++ ys) → SomeFree c (ys ++ xs)
  SomeFree-swap c xs ys h = elim (one_side xs h) [
    | inl left ↦ on_right ys left
    | inr right ↦ on_left ys right
  ]
    where
      one_side : (xs : List Text) → SomeFree c (xs ++ ys) → SomeFree c xs ⊎ SomeFree c ys
      one_side [] h = inr h
      one_side (x ∷ xs) (inl here) = inl (inl here)
      one_side (x ∷ xs) (inr there) = elim (one_side xs there) [
        | inl left ↦ inl (inr left)
        | inr right ↦ inr right
      ]

      on_right : (zs : List Text) → SomeFree c xs → SomeFree c (zs ++ xs)
      on_right [] h = h
      on_right (z ∷ zs) h = inr (on_right zs h)

      on_left : (zs : List Text) → SomeFree c zs → SomeFree c (zs ++ xs)
      on_left [] h = absurd h
      on_left (z ∷ zs) (inl here) = inl here
      on_left (z ∷ zs) (inr there) = inr (on_left zs there)

  -- One more call of next, that gives a pool without a free address.
  skip_one :
      (c : Cluster) (n : ℕ) (s : SubnetPools) (name : Text) (t : SubnetPools) (rest : List Text)
      → rotate s ≡ ok (name, t)
      → (HasFree c name ⊎ Empty c name)
      → SomeFree c (name ∷ rest)
      → (SomeFree c rest → (k : ℕ) × (k < n) × Reaches c k t)
      → (k : ℕ) × (k < suc n) × Reaches c k s
  skip_one c n s name t rest run (inl here) free later = (0, omega arith, (name, t, run, here))
  skip_one c n s name t rest run (inr empty) (inl here) later =
      (0, omega arith, (name, t, run, here))
  skip_one c n s name t rest run (inr empty) (inr there) later =
      let (k, lt, r) = later there in (suc k, omega arith, (name, t, run, empty, r))

  rotate_times-Reaches :
      (c : Cluster) (n : ℕ) (s s' : SubnetPools) (names : List Text)
      → rotate_times n s ≡ ok (names, s')
      → All (λ name. HasFree c name ⊎ Empty c name) names
      → SomeFree c names
      → (k : ℕ) × (k < n) × Reaches c k s
  unfolding rotate_times
  rotate_times-Reaches c zero s s' names run known free =
      let none_given : names ≡ [] = cc in absurd (subst (SomeFree c) none_given free)
  rotate_times-Reaches c (suc n) s s' names run known free =
      let (name, t, rest, first, others, same) = rotate_times-first n s s' names run in
      let known' = subst (All (λ x. HasFree c x ⊎ Empty c x)) same known in
      skip_one c n s name t rest first known'.0 (subst (SomeFree c) same free)
        (rotate_times-Reaches c n t s' rest others known'.1)

  All-swap {ℓ} : (P : Text → Type ℓ) (xs ys : List Text) → All P (xs ++ ys) → All P (ys ++ xs)
  All-swap P xs ys h = let (left, right) = parts xs h in All-append P ys xs right left
    where
      parts : (xs : List Text) → All P (xs ++ ys) → All P xs × All P ys
      parts [] h = (tt, h)
      parts (x ∷ xs) (p, h) = let (left, right) = parts xs h in ((p, left), right)

  -- On a server that refuses nothing: if the agent knows at most as many pools of a Subnet as
  -- AllocateIP has rounds, with its index in range, each of them is stored with a readable status
  -- and either has a free address, the first of which has no record, or has none, and some pool has
  -- one, then AllocateIP gives an address.
  pub allocate_ip-reaches :
      (m : PoolMap) (c : Cluster) (s : SubnetPools)
      → c.answers ≡ []
      → lookup subnet m ≡ some s
      → s.index < length s.pools
      → length s.pools ≤ default_steps
      → All (λ name. HasFree c name ⊎ IsExhausted net json subnet pod c name) s.pools
      → SomeFree c s.pools
      → (pool' : IpPool) × (ip : Ip) × ((allocate_ip net json m c subnet pod).0 ≡ ok (pool', ip))
  unfolding allocate_ip
  allocate_ip-reaches m c s quiet found range few known free =
      let whole = take-append-drop s.index s.pools in
      let (k, lt, r) =
        rotate_times-Reaches c (length s.pools) s s (drop s.index s.pools ++ take s.index s.pools)
          (rotate_times_round s range)
          (All-swap (λ x. HasFree c x ⊎ Empty c x) (take s.index s.pools) (drop s.index s.pools)
            (rw whole known))
          (SomeFree-swap c (take s.index s.pools) (drop s.index s.pools)
            (subst (SomeFree c) (sym whole) free)) in
      retry_reaching k default_steps m c s (omega arith) quiet found r

  retry-starved :
      (steps : ℕ) (m : PoolMap) (c : Cluster) (s s' : SubnetPools) (names : List Text)
      → c.answers ≡ []
      → lookup subnet m ≡ some s
      → rotate_times steps s ≡ ok (names, s')
      → All (Empty c) names
      → let result = retry_on_conflict steps (attempt net json subnet pod) (from m c) in
        (result.0 ≡ err timeout) × (result.1.cluster ≡ c)
  unfolding retry_on_conflict
  retry-starved zero m c s s' names quiet found run empty = (refl, refl)
  retry-starved (suc steps) m c s s' names quiet found run empty =
      let (name, t, rest, first, others, same) = rotate_times-first steps s s' names run in
      let m' : PoolMap = insert subnet t m in
      let empty' = subst (All (Empty c)) same empty in
      let skipped = attempt-skips m m' c name quiet (next-rotate m s name t found first) empty'.0 in
      rw
        (retry_on_conflict-again steps (attempt net json subnet pod) (from m c) (from m' c) skipped)
        (retry-starved steps m' c t s' rest quiet (rw (lookup-insert, text_eq_refl subnet) refl)
          others empty'.1)

  -- On a server that refuses nothing: if the pools that next gives in the rounds of AllocateIP are
  -- stored with a readable status and have no free address, AllocateIP ends with a timeout and has
  -- written nothing, whatever the other pools of the Subnet have.
  pub allocate_ip-starved :
      (m : PoolMap) (c : Cluster) (s s' : SubnetPools) (names : List Text)
      → c.answers ≡ []
      → lookup subnet m ≡ some s
      → rotate_times default_steps s ≡ ok (names, s')
      → All (IsExhausted net json subnet pod c) names
      → let result = allocate_ip net json m c subnet pod in
        (result.0 ≡ err timeout) × (result.1.cluster ≡ c)
  unfolding allocate_ip
  allocate_ip-starved m c s s' names = retry-starved default_steps m c s s' names
