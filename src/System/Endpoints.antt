-- ===== src/System/Endpoints.antt =====
-- Reconcile of an Endpoint (pkg/endpoint/endpoint_reconciler.go), whatever calls the server refuses.
use virtnet.Prelude.{
  if◌then◌else◌, ◌≡◌, refl, sym, ap, ◌∙◌, subst, true, false, Bool, List, [], ◌∷◌, ◌++◌, arith,
  some, Text, text_eq, contains, All, Error, Outcome, ok, err, panic, out_of_fuel, text_eq_iff,
  text_eq_refl,
}
use virtnet.Ip.{Net}
use virtnet.Ip.Merge.{dedup}
use virtnet.Api.{IpPool, Subnet, Endpoint}
use virtnet.Convert.{Json}
use virtnet.Convert.Laws.{Lawful}
use virtnet.Cluster.{Cluster, EndpointCache, find_pool, get_pool, update_endpoint, get_endpoint}
use virtnet.Cluster.Owned.{AreNamed}
use virtnet.Cluster.Triples.{Post, Post-any, and_then-Post, Post-weaken}
use virtnet.Cluster.Refusals.{SamePools, update_endpoint-Post, get_pool-Post, get_endpoint-Post}
use virtnet.Reconciler.{Result}
use virtnet.Endpoints.{
  release_pools, remove_text, ippool_finalizer, remove_finalizer, keep_found, get_pools, pool_names,
  release, reconcile,
}
use virtnet.Reconciler.Safe.{IsSafe, IsSafe-same}
use virtnet.Reconciler.SafeRun.{EndsSafely, requeue_on_conflict-Safely, done_on_not_found-Safely}
use virtnet.System.Found.{find_pool-name}
use virtnet.Inventory.Unique.{no_doubles}
use virtnet.System.Releases.{IsFound, HaveRead, release_pools-Safely}

IsFound-same :
    (c c1 : Cluster) (ps : List IpPool)
    → c1.pools ≡ c.pools
    → All (IsFound c) ps
    → All (IsFound c1) ps
IsFound-same c c1 [] e h = tt
IsFound-same c c1 (p ∷ ps) e (f, h) = (ap (find_pool p.meta.name) e ∙ f, IsFound-same c c1 ps e h)

All-append_one {ℓ κ} :
    {A : Type ℓ} (P : A → Type κ) (xs : List A) (x : A) → All P xs → P x → All P (xs ++ x ∷ [])
All-append_one P [] x h k = (k, tt)
All-append_one P (y ∷ xs) x (l, h) k = (l, All-append_one P xs x h k)

AreNamed-append_one :
    (ps : List IpPool) (p : IpPool)
    → AreNamed ps
    → All (λ (q : IpPool). text_eq q.meta.name p.meta.name ≡ false) ps
    → AreNamed (ps ++ p ∷ [])
AreNamed-append_one [] p named new = (tt, tt)
AreNamed-append_one (q ∷ ps) p (d, named) (k, new) = (
  All-append_one (λ (o : IpPool). text_eq q.meta.name o.meta.name ≡ false) ps p d k,
  AreNamed-append_one ps p named new,
)

contains_first : (x : Text) (xs : List Text) → contains x (x ∷ xs) ≡ true
unfolding contains
contains_first x xs = ground (arith, text_eq_refl x)

contains_later : (x y : Text) (xs : List Text) → contains x xs ≡ true → contains x (y ∷ xs) ≡ true
unfolding contains
contains_later x y xs h = ground arith

differs_from_listed :
    (x y : Text) (xs : List Text)
    → contains x xs ≡ false
    → contains y xs ≡ true
    → text_eq x y ≡ false
differs_from_listed x y xs absent there = ground (arith, text_eq_iff x y)

no_doubles-dedup : (xs : List Text) → no_doubles (dedup xs) ≡ true
unfolding no_doubles dedup
no_doubles-dedup [] = refl
no_doubles-dedup (x ∷ xs) = ground (arith, no_doubles-dedup xs)

module _ (net : Net) (json : Json) (lawful : Lawful json) (s : Subnet) where
  remove_finalizer-Safely :
      (e : Endpoint) (c : Cluster) → IsSafe json s c → EndsSafely json s (remove_finalizer e c)
  unfolding remove_finalizer
  remove_finalizer-Safely e c h =
      let written : Endpoint = record e {
        meta = record e.meta { finalizers = remove_text ippool_finalizer e.meta.finalizers };
      } in
      requeue_on_conflict-Safely json s (IsSafe json s) (update_endpoint written c) _
        (Post-weaken (λ _. SamePools c) (λ _. IsSafe json s) (SamePools c) (IsSafe json s)
          (update_endpoint written c) (λ _ c1. IsSafe-same json s c c1 h)
          (λ c1. IsSafe-same json s c c1 h) (update_endpoint-Post written c))
        (λ c1 h1. h1)

  -- None of the pools has one of the names.
  abbrev AreApart : List Text → List IpPool → Type 0
  AreApart names ps =
      (x : Text) → contains x names ≡ true → All (λ (p : IpPool). text_eq p.meta.name x ≡ false) ps

  keep_found-Safely :
      (name : Text) (names : List Text) (ps : List IpPool) (c : Cluster)
      → contains name names ≡ false
      → AreApart (name ∷ names) ps
      → HaveRead net json lawful s ps c
      → (r : Outcome IpPool × Cluster)
      → Post (λ p c1. SamePools c c1 × (find_pool name c1.pools ≡ some p)) (SamePools c) r
      → Post
          (λ qs c1. HaveRead net json lawful s qs c1 × AreApart names qs)
          (IsSafe json s)
          (keep_found r ps)
  unfolding keep_found
  keep_found-Safely name names ps c once apart (h, found, named) (ok p, c1) (same, there) =
      let named_so : p.meta.name ≡ name = find_pool-name name c1.pools p there in
      (
        (
          IsSafe-same json s c c1 h same,
          All-append_one (IsFound c1) ps p (IsFound-same c c1 ps same.0 found)
              (subst (λ (n : Text). find_pool n c1.pools ≡ some p) (sym named_so) there),
          AreNamed-append_one ps p named (
              subst (λ (n : Text). All (λ (q : IpPool). text_eq q.meta.name n ≡ false) ps)
                (sym named_so) (apart name (contains_first name names))),
        ),
        λ x h1.
            All-append_one (λ (q : IpPool). text_eq q.meta.name x ≡ false) ps p
              (apart x (contains_later x name names h1))
              (subst (λ (n : Text). text_eq n x ≡ false) (sym named_so)
                (differs_from_listed name x names once h1)),
      )
  keep_found-Safely name names ps c once apart (h, found, named) (err Error.not_found, c1) same = (
    (IsSafe-same json s c c1 h same, IsFound-same c c1 ps same.0 found, named),
    λ x h1. apart x (contains_later x name names h1),
  )
  keep_found-Safely name names ps c once apart h (err Error.conflict, c1) same =
      IsSafe-same json s c c1 h.0 same
  keep_found-Safely name names ps c once apart h (err Error.exists, c1) same =
      IsSafe-same json s c c1 h.0 same
  keep_found-Safely name names ps c once apart h (err Error.no_unallocated_ips, c1) same =
      IsSafe-same json s c c1 h.0 same
  keep_found-Safely name names ps c once apart h (err Error.timeout, c1) same =
      IsSafe-same json s c c1 h.0 same
  keep_found-Safely name names ps c once apart h (err Error.other, c1) same =
      IsSafe-same json s c c1 h.0 same
  keep_found-Safely name names ps c once apart h (panic, c1) same = IsSafe-same json s c c1 h.0 same
  keep_found-Safely name names ps c once apart h (out_of_fuel, c1) same =
      IsSafe-same json s c c1 h.0 same

  get_pools-Safely :
      (names : List Text) (ps : List IpPool) (c : Cluster)
      → no_doubles names ≡ true
      → AreApart names ps
      → HaveRead net json lawful s ps c
      → Post (HaveRead net json lawful s) (IsSafe json s) (get_pools names ps c)
  unfolding get_pools no_doubles contains
  get_pools-Safely [] ps c once apart h = h
  get_pools-Safely (name ∷ names) ps c once apart h =
      and_then-Post (λ qs c1. HaveRead net json lawful s qs c1 × AreApart names qs)
        (HaveRead net json lawful s) (IsSafe json s) (keep_found (get_pool name c) ps) _
        (keep_found-Safely name names ps c (ground arith) apart h (get_pool name c)
          (get_pool-Post name c))
        (λ qs c1 (h1, apart1). get_pools-Safely names qs c1 (ground arith) apart1 h1)

  either :
      (b : Bool) (x y : Outcome Result × Cluster)
      → EndsSafely json s x
      → EndsSafely json s y
      → EndsSafely json s (if b then x else y)
  either true x y h k = h
  either false x y h k = k

  release-Safely :
      (e : Endpoint) (c : Cluster) → IsSafe json s c → EndsSafely json s (release net json e c)
  unfolding release
  release-Safely e c h =
      either e.meta.is_deleted _ _
        (and_then-Post (HaveRead net json lawful s) (λ _. IsSafe json s) (IsSafe json s)
          (get_pools (dedup (pool_names e.current.ips)) [] c)
          (release_pools net json e.current.ips (remove_finalizer e))
          (get_pools-Safely (dedup (pool_names e.current.ips)) [] c
            (no_doubles-dedup (pool_names e.current.ips)) (λ _ _. tt) (h, tt, tt))
          (λ ps.
            release_pools-Safely net json lawful s e.current.ips (remove_finalizer e)
              (remove_finalizer-Safely e) ps))
        h

  -- A run of Reconcile for an Endpoint keeps the pools of a Subnet safe, whatever calls the server
  -- refuses and however the run ends, also from an Endpoint that a cache still shows.
  pub release-IsSafe :
      (cache : EndpointCache) (namespace name : Text) (c : Cluster)
      → IsSafe json s c
      → IsSafe json s (reconcile cache net json namespace name c).1
  unfolding reconcile
  release-IsSafe cache namespace name c h =
      Post-any (IsSafe json s) (reconcile cache net json namespace name c) (
        done_on_not_found-Safely json s (λ _. Unit) (get_endpoint cache namespace name c)
          (release net json)
          (Post-weaken (λ _. SamePools c) (λ _ c1. IsSafe json s c1 × Unit) (SamePools c)
            (IsSafe json s) (get_endpoint cache namespace name c)
            (λ _ c1 same. (IsSafe-same json s c c1 h same, tt)) (λ c1. IsSafe-same json s c c1 h)
            (get_endpoint-Post cache namespace name c))
          (λ e c1 h1 _. release-Safely e c1 h1))
