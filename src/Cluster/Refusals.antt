-- ===== src/Cluster/Refusals.antt =====
-- What each call of the API server does to the stored pools, whether it is refused or not.
use virtnet.Prelude.{
  ◌≡◌, refl, sym, ap, ◌∙◌, inl, inr, List, [], ◌∷◌, ◌++◌, Option, none, some, Text, Error, Outcome,
  not_found, other, ok, err, Option-cases,
}
use virtnet.Api.{IpPool, Subnet, Endpoint}
use virtnet.Cluster.{
  Cluster, PoolCache, EndpointCache, IsCurrent, Call, answered, find_pool, set_status, owned_by,
  list_pools, update_pool_status, create_pool, delete_pool, get_pool, get_subnet, find_subnet,
  or_not_found, update_subnet_status, set_total, remove_pool, get_endpoint, find_endpoint,
  update_endpoint, replace_endpoint,
}
use virtnet.Cluster.Triples.{Post, Post-weaken}

-- The server has the same pools, and the same names to give.
abbrev pub SamePools : Cluster → Cluster → Type 0
SamePools c c1 = (c1.pools ≡ c.pools) × (c1.names ≡ c.names)

answered-Post {ℓ κ} :
    {A : Type ℓ} (Q : A → Cluster → Type κ) (E : Cluster → Type κ) (f : Call A) (c : Cluster)
    → ((c1 : Cluster) → SamePools c c1 → c1.subnets ≡ c.subnets → Post Q E (f c1))
    → ((c1 : Cluster) → SamePools c c1 → E c1)
    → Post Q E (answered f c)
unfolding answered
answered-Post Q E f c lets refuses = by_answers c.answers refl
  where
    by_answers : (answers : List (Option Error)) → c.answers ≡ answers → Post Q E (answered f c)
    by_answers [] e = rw e (lets (record c { answers = [] }) (refl, refl) refl)
    by_answers (none ∷ rest) e = rw e (lets (record c { answers = rest }) (refl, refl) refl)
    by_answers (some x ∷ rest) e = rw e (refuses (record c { answers = rest }) (refl, refl))

pub list_pools-Post :
    (cache : PoolCache) (owner : Text) (c : Cluster)
    → IsCurrent cache
    → Post
        (λ ps c1. (ps ≡ owned_by owner c.pools) × SamePools c c1)
        (SamePools c)
        (list_pools cache owner c)
unfolding list_pools
list_pools-Post cache owner c current =
    answered-Post (λ ps c1. (ps ≡ owned_by owner c.pools) × SamePools c c1) (SamePools c)
      (λ c1. (ok (owned_by owner (cache c1)), c1)) c
      (λ c1 same _. (ap (owned_by owner) (current c1 ∙ same.0), same)) (λ c1 same. same)

-- The pools are these, and the names are those of before.
abbrev pub HasPools : Cluster → List IpPool → Cluster → Type 0
HasPools c ps c1 = (c1.pools ≡ ps) × (c1.names ≡ c.names)

-- A change of the pool of a name, if there is one.
found_or_not :
    (c c1 : Cluster) (name : Text) (changed : List IpPool → List IpPool)
    → SamePools c c1
    → Post
        (λ (_ : Unit {0}). HasPools c (changed c.pools))
        (SamePools c)
        (elim (find_pool name c1.pools) as (λ _. Outcome (Unit {0}) × Cluster) [
          | none ↦ (err not_found, c1)
          | some _ ↦ (ok tt, record c1 { pools = changed c1.pools })
        ])
found_or_not c c1 name changed same = elim (Option-cases (find_pool name c1.pools)) [
  | inl absent ↦ rw absent same
  | inr (p, there) ↦ rw there (ap changed same.0, same.1)
]

pub update_pool_status-Post :
    (q : IpPool) (c : Cluster)
    → Post
        (λ _. HasPools c (set_status q.meta.name q.status c.pools))
        (SamePools c)
        (update_pool_status q c)
unfolding update_pool_status
update_pool_status-Post q c =
    answered-Post (λ _. HasPools c (set_status q.meta.name q.status c.pools)) (SamePools c)
      (λ c1. elim (find_pool q.meta.name c1.pools) [
        | none ↦ (err not_found, c1)
        | some _ ↦ (ok tt, record c1 { pools = set_status q.meta.name q.status c1.pools })
      ])
      c (λ c1 same _. found_or_not c c1 q.meta.name (set_status q.meta.name q.status) same)
      (λ c1 same. same)

pub delete_pool-Post :
    (q : IpPool) (c : Cluster)
    → Post (λ _. HasPools c (remove_pool q.meta.name c.pools)) (SamePools c) (delete_pool q c)
unfolding delete_pool
delete_pool-Post q c =
    answered-Post (λ _. HasPools c (remove_pool q.meta.name c.pools)) (SamePools c)
      (λ c1. elim (find_pool q.meta.name c1.pools) [
        | none ↦ (err not_found, c1)
        | some _ ↦ (ok tt, record c1 { pools = remove_pool q.meta.name c1.pools })
      ])
      c (λ c1 same _. found_or_not c c1 q.meta.name (remove_pool q.meta.name) same)
      (λ c1 same. same)

-- The server takes its next name for the pool.
abbrev pub HasCreated : IpPool → Cluster → Cluster → Type 0
HasCreated p c c1 =
    (suffix : Text) × (names : List Text) × (c.names ≡ suffix ∷ names)
    × (c1.pools
        ≡ c.pools ++ record p { meta = record p.meta { name = p.meta.name ++ suffix } } ∷ [])
    × (c1.names ≡ names)

create_named :
    (p : IpPool) (c c1 : Cluster) (ns : List Text)
    → c1.names ≡ ns
    → SamePools c c1
    → Post
        (λ (_ : Unit {0}). HasCreated p c)
        (SamePools c)
        (elim ns as (λ _. Outcome (Unit {0}) × Cluster) [
          | [] ↦ (err other, c1)
          | suffix ∷ names ↦ (
            ok tt,
            record c1 {
              pools =
                  c1.pools
                  ++ record p { meta = record p.meta { name = p.meta.name ++ suffix } } ∷ [];
              names = names;
            },
          )
        ])
create_named p c c1 [] e same = same
create_named p c c1 (suffix ∷ names) e same = (
  suffix,
  names,
  sym same.1 ∙ e,
  ap
      (λ (ps : List IpPool).
        ps ++ record p { meta = record p.meta { name = p.meta.name ++ suffix } } ∷ [])
      same.0,
  refl,
)

pub create_pool-Post :
    (p : IpPool) (c : Cluster) → Post (λ _. HasCreated p c) (SamePools c) (create_pool p c)
unfolding create_pool
create_pool-Post p c =
    answered-Post (λ _. HasCreated p c) (SamePools c)
      (λ c1. elim c1.names [
        | [] ↦ (err other, c1)
        | suffix ∷ names ↦ (
          ok tt,
          record c1 {
            pools =
                c1.pools ++ record p { meta = record p.meta { name = p.meta.name ++ suffix } } ∷ [];
            names = names;
          },
        )
      ])
      c (λ c1 same _. create_named p c c1 c1.names refl same) (λ c1 same. same)

pub get_pool-Post :
    (name : Text) (c : Cluster)
    → Post
        (λ p c1. SamePools c c1 × (find_pool name c1.pools ≡ some p))
        (SamePools c)
        (get_pool name c)
unfolding get_pool
get_pool-Post name c =
    answered-Post (λ p c1. SamePools c c1 × (find_pool name c1.pools ≡ some p)) (SamePools c)
      (λ c1. (or_not_found (find_pool name c1.pools), c1)) c
      (λ c1 same _. in_place c1 (find_pool name c1.pools) refl same) (λ c1 same. same)
  where
    in_place :
        (c1 : Cluster) (o : Option IpPool)
        → find_pool name c1.pools ≡ o
        → SamePools c c1
        → Post
            (λ p c2. SamePools c c2 × (find_pool name c2.pools ≡ some p))
            (SamePools c)
            (or_not_found o, c1)
    in_place c1 none e same = same
    in_place c1 (some p) e same = (same, e)

subnet_or_not :
    (c c1 : Cluster) (o : Option Subnet)
    → SamePools c c1
    → Post (λ s c2. SamePools c c2 × (o ≡ some s)) (SamePools c) (or_not_found o, c1)
subnet_or_not c c1 none same = same
subnet_or_not c c1 (some s) same = (same, refl)

pub get_subnet-Post :
    (name : Text) (c : Cluster)
    → Post
        (λ s c1. SamePools c c1 × (find_subnet name c.subnets ≡ some s))
        (SamePools c)
        (get_subnet name c)
unfolding get_subnet
get_subnet-Post name c =
    answered-Post (λ s c1. SamePools c c1 × (find_subnet name c.subnets ≡ some s)) (SamePools c)
      (λ c1. (or_not_found (find_subnet name c1.subnets), c1)) c
      (λ c1 same subnets.
        Post-weaken (λ s c2. SamePools c c2 × (find_subnet name c1.subnets ≡ some s))
          (λ s c2. SamePools c c2 × (find_subnet name c.subnets ≡ some s)) (SamePools c)
          (SamePools c) (or_not_found (find_subnet name c1.subnets), c1)
          (λ s c2 h. (h.0, sym (ap (find_subnet name) subnets) ∙ h.1)) (λ c2 h. h)
          (subnet_or_not c c1 (find_subnet name c1.subnets) same))
      (λ c1 same. same)

total_or_not :
    (c c1 : Cluster) (o : Option Subnet) (changed : List Subnet)
    → SamePools c c1
    → Post
        (λ (_ : Unit {0}). SamePools c)
        (SamePools c)
        (elim o as (λ _. Outcome (Unit {0}) × Cluster) [
          | none ↦ (err not_found, c1)
          | some _ ↦ (ok tt, record c1 { subnets = changed })
        ])
total_or_not c c1 none changed same = same
total_or_not c c1 (some s) changed same = same

pub update_subnet_status-Post :
    (s : Subnet) (c : Cluster) → Post (λ _. SamePools c) (SamePools c) (update_subnet_status s c)
unfolding update_subnet_status
update_subnet_status-Post s c =
    answered-Post (λ _. SamePools c) (SamePools c)
      (λ c1. elim (find_subnet s.meta.name c1.subnets) [
        | none ↦ (err not_found, c1)
        | some _ ↦
            (ok tt, record c1 { subnets = set_total s.meta.name s.total_ip_count c1.subnets })
      ])
      c
      (λ c1 same _.
        total_or_not c c1 (find_subnet s.meta.name c1.subnets)
          (set_total s.meta.name s.total_ip_count c1.subnets) same)
      (λ c1 same. same)

endpoint_or_not :
    (c c1 : Cluster) (o : Option Endpoint)
    → SamePools c c1
    → Post (λ (_ : Endpoint). SamePools c) (SamePools c) (or_not_found o, c1)
endpoint_or_not c c1 none same = same
endpoint_or_not c c1 (some e) same = same

pub get_endpoint-Post :
    (cache : EndpointCache) (namespace name : Text) (c : Cluster)
    → Post (λ _. SamePools c) (SamePools c) (get_endpoint cache namespace name c)
unfolding get_endpoint
get_endpoint-Post cache namespace name c =
    answered-Post (λ _. SamePools c) (SamePools c)
      (λ c1. (or_not_found (find_endpoint namespace name (cache c1)), c1)) c
      (λ c1 same _. endpoint_or_not c c1 (find_endpoint namespace name (cache c1)) same)
      (λ c1 same. same)

written_or_not :
    (c c1 : Cluster) (o : Option Endpoint) (changed : List Endpoint)
    → SamePools c c1
    → Post
        (λ (_ : Unit {0}). SamePools c)
        (SamePools c)
        (elim o as (λ _. Outcome (Unit {0}) × Cluster) [
          | none ↦ (err not_found, c1)
          | some _ ↦ (ok tt, record c1 { endpoints = changed })
        ])
written_or_not c c1 none changed same = same
written_or_not c c1 (some e) changed same = same

pub update_endpoint-Post :
    (e : Endpoint) (c : Cluster) → Post (λ _. SamePools c) (SamePools c) (update_endpoint e c)
unfolding update_endpoint
update_endpoint-Post e c =
    answered-Post (λ _. SamePools c) (SamePools c)
      (λ c1. elim (find_endpoint e.meta.namespace e.meta.name c1.endpoints) [
        | none ↦ (err not_found, c1)
        | some _ ↦ (ok tt, record c1 { endpoints = replace_endpoint e c1.endpoints })
      ])
      c
      (λ c1 same _.
        written_or_not c c1 (find_endpoint e.meta.namespace e.meta.name c1.endpoints)
          (replace_endpoint e c1.endpoints) same)
      (λ c1 same. same)
