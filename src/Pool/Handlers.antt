-- ===== src/Pool/Handlers.antt =====
-- AddFunc, DeleteFunc and next of pkg/ippool/ippool_client.go on the map of all Subnets.
use native.Mathlib.Nat.{mod-lt}
use virtnet.Prelude.{
  ℕ, zero, suc, ◌+◌, ◌%◌, ◌<◌, ◌≡◌, refl, ◌∙◌, ◌⊎◌, inl, inr, List, [], ◌∷◌, arith, Option, none,
  some, Text, text_eq, lookup, insert, length, get_elem?, get_elem?-some, ok, err, leb, other,
  if◌then◌else◌, All, subst, dec_lt, length-append, Bool-cases, Option-cases,
}
use virtnet.Api.{IpPool}
use virtnet.Cluster.{owner_of}
use virtnet.Pool.{
  SubnetPools, PoolMap, add_to, add_owned, on_add, remove_from, delete_owned, on_delete, rotate,
  next_of, next,
}

-- The index is in range, or 0.
abbrev pub IsInRange : SubnetPools → Type 0
IsInRange s = (s.index < length s.pools) ⊎ (s.index ≡ 0)

add_to-IsInRange : (s : SubnetPools) (name : Text) → IsInRange s → IsInRange (add_to (some s) name)
unfolding add_to
add_to-IsInRange s name h = ground (arith, length-append s.pools (name ∷ []))

remove_from-IsInRange : (s : SubnetPools) (name : Text) → IsInRange (remove_from s name)
unfolding remove_from
remove_from-IsInRange s name = ground arith

-- The pools of every Subnet in the map have their index in range.
abbrev pub AllInRange : PoolMap → Type 0
AllInRange [] = Unit
AllInRange ((_, s) ∷ m) = IsInRange s × AllInRange m

AllInRange-insert :
    (k : Text) (s : SubnetPools) (m : PoolMap)
    → IsInRange s
    → AllInRange m
    → AllInRange (insert k s m)
unfolding insert
AllInRange-insert k s [] h hs = (h, tt)
AllInRange-insert k s ((j, t) ∷ m) h (g, hs) = elim (Bool-cases (text_eq j k)) [
  | inl here ↦ rw here (h, hs)
  | inr there ↦ rw there (g, AllInRange-insert k s m h hs)
]

AllInRange-lookup :
    (k : Text) (m : PoolMap) (s : SubnetPools) → AllInRange m → lookup k m ≡ some s → IsInRange s
unfolding lookup
AllInRange-lookup k [] s hs e = cc
AllInRange-lookup k ((j, t) ∷ m) s (g, hs) e = ground (arith, AllInRange-lookup k m s hs)

add_owned-AllInRange :
    (owner : Text) (m : PoolMap) (name : Text) → AllInRange m → AllInRange (add_owned m owner name)
unfolding add_owned
add_owned-AllInRange [] m name hs = hs
add_owned-AllInRange (c ∷ owner) m name hs = elim (Option-cases (lookup (c ∷ owner) m)) [
  | inl e ↦ rw e (AllInRange-insert (c ∷ owner) _ m (inr refl) hs)
  | inr (s, e) ↦ rw e (
      AllInRange-insert (c ∷ owner) _ m
        (add_to-IsInRange s name (AllInRange-lookup (c ∷ owner) m s hs e)) hs)
]

delete_owned-AllInRange :
    (owner : Text) (m : PoolMap) (name : Text)
    → AllInRange m
    → AllInRange (delete_owned m owner name)
unfolding delete_owned
delete_owned-AllInRange [] m name hs = hs
delete_owned-AllInRange (c ∷ owner) m name hs = elim (Option-cases (lookup (c ∷ owner) m)) [
  | inl e ↦ rw (e, delete_owned) hs
  | inr (s, e) ↦
      rw (e, delete_owned) (AllInRange-insert (c ∷ owner) _ m (remove_from-IsInRange s name) hs)
]

-- Both event handlers keep every index in range, whatever the pool is that came or went.
pub handlers-AllInRange :
    (m : PoolMap) (p : IpPool) → AllInRange m → AllInRange (on_add m p) × AllInRange (on_delete m p)
unfolding on_add on_delete
handlers-AllInRange m p hs = (
  add_owned-AllInRange (owner_of p) m p.meta.name hs,
  delete_owned-AllInRange (owner_of p) m p.meta.name hs,
)

rotate-IsInRange :
    (s : SubnetPools)
    → 0 < length s.pools
    → (name : Text) × (s' : SubnetPools) × (rotate s ≡ ok (name, s'))
      × IsInRange s'
      × (s'.pools ≡ s.pools)
      × ((i : ℕ) × (get_elem? s.pools i ≡ some name))
unfolding rotate
rotate-IsInRange s pos =
    let i : ℕ = if leb (length s.pools) s.index then 0 else s.index in
    let (name, e) = get_elem?-some s.pools i (ground arith) in
    (
      name,
      record s { index = (i + 1) % length s.pools },
      rw (e, rotate) refl,
      inl (mod-lt (i + 1) pos),
      refl,
      (i, e),
    )

next_of-rotate : (s : SubnetPools) → 0 < length s.pools → next_of (some s) ≡ rotate s
unfolding next_of
next_of-rotate s pos = grind arith

next_of-empty : (s : SubnetPools) → ¬ (0 < length s.pools) → next_of (some s) ≡ err other
unfolding next_of
next_of-empty s empty = grind arith

-- What next does for one Subnet, from the pools that the map has for it.
next_of_outcome :
    (o : Option SubnetPools)
    → (next_of o ≡ err other)
      ⊎ ((name : Text) × (s : SubnetPools) × (next_of o ≡ ok (name, s)) × IsInRange s)
unfolding next_of
next_of_outcome none = inl refl
next_of_outcome (some s) = elim (dec_lt 0 (length s.pools)) [
  | yes pos ↦
      let (name, t, run, range, _, _) = rotate-IsInRange s pos in
      inr (name, t, next_of-rotate s pos ∙ run, range)
  | no empty ↦ inl (next_of-empty s empty)
]

-- A call of next never panics: it reports that there is no pool, or gives one and keeps every index
-- in range.
next_outcome :
    (m : PoolMap) (subnet : Text)
    → AllInRange m
    → (next m subnet ≡ err other)
      ⊎ ((name : Text) × (m' : PoolMap) × (next m subnet ≡ ok (name, m')) × AllInRange m')
unfolding next
next_outcome m subnet hs = elim (next_of_outcome (lookup subnet m)) [
  | inl e ↦ inl (rw e refl)
  | inr (name, s, e, range) ↦
      inr (name, insert subnet s m, rw e refl, AllInRange-insert subnet s m range hs)
]

All-get_elem? {ℓ} :
    (P : Text → Type ℓ) (xs : List Text) (i : ℕ) (x : Text)
    → All P xs
    → get_elem? xs i ≡ some x
    → P x
All-get_elem? P [] i x h e = cc
All-get_elem? P (y ∷ xs) zero x (p, h) e = let y-x : y ≡ x = cc in subst P (y-x) p
All-get_elem? P (y ∷ xs) (suc i) x (p, h) e = All-get_elem? P xs i x h e

-- With a pool to give, next gives one of the Subnet's pools, and the map has the same pools after.
pub next-member {ℓ} :
    (P : Text → Type ℓ) (m : PoolMap) (subnet : Text) (s : SubnetPools)
    → lookup subnet m ≡ some s
    → 0 < length s.pools
    → All P s.pools
    → (name : Text) × (t : SubnetPools) × (next m subnet ≡ ok (name, insert subnet t m))
      × P name
      × (t.pools ≡ s.pools)
unfolding next
next-member P m subnet s found pos h =
    let (name, t, run, _, same, (i, e)) = rotate-IsInRange s pos in
    (name, t, rw (found, next_of-rotate s pos, run) refl, All-get_elem? P s.pools i name h e, same)
