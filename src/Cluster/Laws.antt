-- ===== src/Cluster/Laws.antt =====
-- What the calls of the API server do, by its next answer.
use virtnet.Prelude.{
  ◌≡◌, refl, false, List, [], ◌∷◌, arith, Option, none, some, Text, text_eq, text_eq_iff, Error,
  Outcome, panic, out_of_fuel, ok, err, if◌then◌else◌,
}
use virtnet.Api.{IpPool, IpPoolStatus, Endpoint}
use virtnet.Cluster.{
  Cluster, Call, answered, and_then, find_pool, set_status, get_pool, update_pool_status,
  update_endpoint, delete_pool, remove_pool,
}

-- A server that refuses nothing more runs the call.
pub answered-quiet {ℓ} :
    {A : Type ℓ} (f : Call A) (c : Cluster) → c.answers ≡ [] → answered f c ≡ f c
unfolding answered
answered-quiet f c quiet = rw quiet refl

module _ (c : Cluster) (name : Text) (p : IpPool) (found : find_pool name c.pools ≡ some p) where
  pub get_pool-quiet : c.answers ≡ [] → get_pool name c ≡ (ok p, c)
  unfolding get_pool
  get_pool-quiet quiet = ground arith

  pub get_pool-passes :
      (rest : List (Option Error))
      → c.answers ≡ none ∷ rest
      → get_pool name c ≡ (ok p, record c { answers = rest })
  unfolding get_pool
  get_pool-passes rest e = ground arith

  -- An update writes the status of the stored pool of that name.
  pub update_pool_status-quiet :
      (q : IpPool)
      → q.meta.name ≡ name
      → c.answers ≡ []
      → update_pool_status q c ≡ (ok tt, record c { pools = set_status name q.status c.pools })
  unfolding update_pool_status
  update_pool_status-quiet q named quiet = ground arith

  -- A delete removes the pool of that name.
  pub delete_pool-quiet :
      (q : IpPool)
      → q.meta.name ≡ name
      → c.answers ≡ []
      → delete_pool q c ≡ (ok tt, record c { pools = remove_pool name c.pools })
  unfolding delete_pool
  delete_pool-quiet q named quiet = ground arith

pub update_pool_status-refused :
    (c : Cluster) (q : IpPool) (e : Error) (rest : List (Option Error))
    → c.answers ≡ some e ∷ rest
    → update_pool_status q c ≡ (err e, record c { answers = rest })
unfolding update_pool_status
update_pool_status-refused c q e rest h = ground arith

abbrev pub with_status : IpPoolStatus → Option IpPool → Option IpPool
with_status status none = none
with_status status (some p) = some (record p { status = status })

pub find_pool-set_status :
    (name other_name : Text) (status : IpPoolStatus) (ps : List IpPool)
    → find_pool name (set_status other_name status ps) ≡ (
        if text_eq other_name name
        then with_status status (find_pool name ps)
        else find_pool name ps)
unfolding find_pool set_status
find_pool-set_status name other_name status [] = ground arith
find_pool-set_status name other_name status (p ∷ ps) = ground (
  arith,
  find_pool-set_status name other_name status ps,
  text_eq_iff other_name name,
  text_eq_iff p.meta.name name,
  text_eq_iff p.meta.name other_name,
)

pub find_pool-other :
    (name written : Text) (status : IpPoolStatus) (ps qs : List IpPool)
    → qs ≡ set_status written status ps
    → text_eq written name ≡ false
    → find_pool name qs ≡ find_pool name ps
find_pool-other name written status ps qs e differ =
    rw (e, find_pool-set_status name written status ps, differ) refl

pub update_pool_status-ok :
    (q : IpPool) (c c1 : Cluster)
    → update_pool_status q c ≡ (ok tt, c1)
    → c1.pools ≡ set_status q.meta.name q.status c.pools
unfolding update_pool_status
update_pool_status-ok q c c1 h = ground arith

pub update_endpoint-ok :
    (e : Endpoint) (c c1 : Cluster) → update_endpoint e c ≡ (ok tt, c1) → c1.pools ≡ c.pools
unfolding update_endpoint
update_endpoint-ok e c c1 h = ground arith

-- A computation that goes on after a call gives a value only if the call did.
pub and_then-ok {ℓ κ} :
    {A : Type ℓ} {B : Type κ} (r : Outcome A × Cluster) (f : A → Call B) (b : B) (c2 : Cluster)
    → and_then r f ≡ (ok b, c2)
    → (a : A) × (c1 : Cluster) × (r ≡ (ok a, c1)) × (f a c1 ≡ (ok b, c2))
and_then-ok (ok a, c) f b c2 h = (a, c, refl, h)
and_then-ok (err e, c) f b c2 h = cc
and_then-ok (panic, c) f b c2 h = cc
and_then-ok (out_of_fuel, c) f b c2 h = cc
