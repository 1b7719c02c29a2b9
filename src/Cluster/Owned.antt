-- ===== src/Cluster/Owned.antt =====
-- The pools that a list by owner label gives, through the other calls.
use virtnet.Prelude.{
  ◌≡◌, none, Option-cases, refl, ap, ◌∙◌, inl, inr, false, List, [], ◌∷◌, ◌++◌, arith, some, Text,
  text_eq, text_eq_iff, text_eq_refl, All, ok, subst, Bool-cases,
}
use virtnet.Api.{ObjectMeta, IpPool, IpPoolStatus}
use virtnet.Cluster.{
  Cluster, PoolCache, IsCurrent, find_pool, set_status, owner_of, owned_by, list_pools,
  update_pool_status, remove_pool, delete_pool,
}
use virtnet.Cluster.Laws.{answered-quiet, update_pool_status-quiet, delete_pool-quiet}

-- No two pools of the list have one name.
abbrev pub AreNamed : List IpPool → Type 0
AreNamed [] = Unit
AreNamed (p ∷ ps) = All (λ (q : IpPool). text_eq p.meta.name q.meta.name ≡ false) ps × AreNamed ps

pub list_pools-quiet :
    (cache : PoolCache) (owner : Text) (c : Cluster)
    → IsCurrent cache
    → c.answers ≡ []
    → list_pools cache owner c ≡ (ok (owned_by owner c.pools), c)
unfolding list_pools
list_pools-quiet cache owner c current quiet =
    answered-quiet (λ c1. (ok (owned_by owner (cache c1)), c1)) c quiet
    ∙ ap (λ ps. (ok (owned_by owner ps), c)) (current c)

pub owned_by-set_status :
    (owner name : Text) (status : IpPoolStatus) (ps : List IpPool)
    → owned_by owner (set_status name status ps) ≡ set_status name status (owned_by owner ps)
unfolding owned_by set_status owner_of
owned_by-set_status owner name status [] = refl
owned_by-set_status owner name status (p ∷ ps) =
    ground (arith, owned_by-set_status owner name status ps)

find_pool-absent :
    (owner name : Text) (ps : List IpPool)
    → find_pool name ps ≡ none
    → find_pool name (owned_by owner ps) ≡ none
unfolding owned_by find_pool
find_pool-absent owner name [] h = refl
find_pool-absent owner name (p ∷ ps) h = ground (arith, find_pool-absent owner name ps)

find_pool-there :
    (before after : List IpPool) (p : IpPool)
    → ¬ (find_pool p.meta.name (before ++ p ∷ after) ≡ none)
unfolding find_pool
find_pool-there [] after p h = ground (arith, text_eq_refl p.meta.name)
find_pool-there (b ∷ before) after p h = ground (arith, find_pool-there before after p)

find_pool-owned_by :
    (owner : Text) (ps before after : List IpPool) (p : IpPool)
    → owned_by owner ps ≡ before ++ p ∷ after
    → (q : IpPool) × (find_pool p.meta.name ps ≡ some q)
find_pool-owned_by owner ps before after p h = elim (Option-cases (find_pool p.meta.name ps)) [
  | inl absent ↦ absurd (
      find_pool-there before after p (
        subst (λ (qs : List IpPool). find_pool p.meta.name qs ≡ none) h
          (find_pool-absent owner p.meta.name ps absent)))
  | inr found ↦ found
]

pub set_status_new :
    (name : Text) (status : IpPoolStatus) (ps : List IpPool)
    → All (λ (q : IpPool). text_eq name q.meta.name ≡ false) ps
    → set_status name status ps ≡ ps
unfolding set_status
set_status_new name status [] h = refl
set_status_new name status (p ∷ ps) (d, h) = ground (
  arith,
  set_status_new name status ps h,
  text_eq_iff p.meta.name name,
  text_eq_iff name p.meta.name,
)

All-one {ℓ κ} :
    {A : Type ℓ} (P : A → Type κ) (before after : List A) (a : A)
    → All P (before ++ a ∷ after)
    → P a
All-one P [] after a (h, _) = h
All-one P (b ∷ before) after a (_, h) = All-one P before after a h

pub set_status-among :
    (before after : List IpPool) (p : IpPool) (status : IpPoolStatus)
    → AreNamed (before ++ p ∷ after)
    → set_status p.meta.name status (before ++ p ∷ after)
      ≡ before ++ record p { status = status } ∷ after
unfolding set_status
set_status-among [] after p status (new, named) =
    rw (text_eq_refl p.meta.name, set_status_new p.meta.name status after new) refl
set_status-among (b ∷ before) after p status (new, named) =
    let other : text_eq b.meta.name p.meta.name ≡ false =
      All-one (λ (q : IpPool). text_eq b.meta.name q.meta.name ≡ false) before after p new in
    rw (other, set_status-among before after p status named) refl

All-set_status :
    (name key : Text) (status : IpPoolStatus) (ps : List IpPool)
    → All (λ (q : IpPool). text_eq key q.meta.name ≡ false) ps
    → All (λ (q : IpPool). text_eq key q.meta.name ≡ false) (set_status name status ps)
unfolding set_status
All-set_status name key status [] h = tt
All-set_status name key status (p ∷ ps) (d, h) = elim (Bool-cases (text_eq p.meta.name name)) [
  | inl same ↦ rw same (d, All-set_status name key status ps h)
  | inr other ↦ rw other (d, All-set_status name key status ps h)
]

AreNamed-set_status :
    (name : Text) (status : IpPoolStatus) (ps : List IpPool)
    → AreNamed ps
    → AreNamed (set_status name status ps)
unfolding set_status
AreNamed-set_status name status [] h = tt
AreNamed-set_status name status (p ∷ ps) (new, h) = elim (Bool-cases (text_eq p.meta.name name)) [
  | inl same ↦
      rw same (All-set_status name p.meta.name status ps new, AreNamed-set_status name status ps h)
  | inr other ↦
      rw other (All-set_status name p.meta.name status ps new, AreNamed-set_status name status ps h)
]

-- The pools of an owner, and the server refuses nothing.
pub record IsView (owner : Text) (c : Cluster) (ps : List IpPool) : Type 0 where
  pub quiet : c.answers ≡ []
  pub listed : owned_by owner c.pools ≡ ps
  pub named : AreNamed ps

-- An update of a pool changes the status of that one pool.
pub update_pool_status-among :
    (owner : Text) (c : Cluster) (before after : List IpPool) (p q : IpPool)
    → IsView owner c (before ++ p ∷ after)
    → q.meta ≡ p.meta
    → (c1 : Cluster) × (update_pool_status q c ≡ (ok tt, c1))
      × IsView owner c1 (before ++ record p { status = q.status } ∷ after)
update_pool_status-among owner c before after p q view same =
    let (r, found) = find_pool-owned_by owner c.pools before after p view.listed in
    let status : IpPoolStatus = q.status in
    let name : Text = p.meta.name in
    let written : set_status name status (before ++ p ∷ after)
        ≡ before ++ record p { status = status } ∷ after =
      set_status-among before after p status view.named in
    (
      record c { pools = set_status name status c.pools },
      update_pool_status-quiet c name r found q (ap (λ (o : ObjectMeta). o.name) same) view.quiet,
      record {
        quiet = view.quiet;
        listed =
            owned_by-set_status owner name status c.pools
            ∙ ap (set_status name status) view.listed
            ∙ written;
        named =
            subst AreNamed written
              (AreNamed-set_status name status (before ++ p ∷ after) view.named);
      },
    )

pub owned_by-remove_pool :
    (owner name : Text) (ps : List IpPool)
    → owned_by owner (remove_pool name ps) ≡ remove_pool name (owned_by owner ps)
unfolding owned_by remove_pool owner_of
owned_by-remove_pool owner name [] = refl
owned_by-remove_pool owner name (p ∷ ps) = ground (arith, owned_by-remove_pool owner name ps)

remove_pool_new :
    (name : Text) (ps : List IpPool)
    → All (λ (q : IpPool). text_eq name q.meta.name ≡ false) ps
    → remove_pool name ps ≡ ps
unfolding remove_pool
remove_pool_new name [] h = refl
remove_pool_new name (p ∷ ps) (d, h) =
    ground
      (arith, remove_pool_new name ps h, text_eq_iff p.meta.name name, text_eq_iff name p.meta.name)

remove_pool_first :
    (p : IpPool) (ps : List IpPool) → AreNamed (p ∷ ps) → remove_pool p.meta.name (p ∷ ps) ≡ ps
unfolding remove_pool
remove_pool_first p ps (new, named) =
    rw (text_eq_refl p.meta.name) (remove_pool_new p.meta.name ps new)

-- A delete of the first pool of the owner leaves the others.
pub delete_pool-first :
    (owner : Text) (c : Cluster) (p : IpPool) (ps : List IpPool)
    → IsView owner c (p ∷ ps)
    → (c1 : Cluster) × (delete_pool p c ≡ (ok tt, c1)) × IsView owner c1 ps
delete_pool-first owner c p ps view =
    let (q, found) = find_pool-owned_by owner c.pools [] ps p view.listed in
    (
      record c { pools = remove_pool p.meta.name c.pools },
      delete_pool-quiet c p.meta.name q found p refl view.quiet,
      record {
        quiet = view.quiet;
        listed =
            owned_by-remove_pool owner p.meta.name c.pools
            ∙ ap (remove_pool p.meta.name) view.listed
            ∙ remove_pool_first p ps view.named;
        named = view.named.1;
      },
    )

pub All-owned_by :
    (owner name : Text) (ps : List IpPool)
    → All (λ (q : IpPool). text_eq name q.meta.name ≡ false) ps
    → All (λ (q : IpPool). text_eq name q.meta.name ≡ false) (owned_by owner ps)
unfolding owned_by
All-owned_by owner name [] h = tt
All-owned_by owner name (p ∷ ps) (d, h) = elim (Bool-cases (text_eq (owner_of p) owner)) [
  | inl own ↦ rw own (d, All-owned_by owner name ps h)
  | inr other ↦ rw other (All-owned_by owner name ps h)
]

pub AreNamed-owned_by :
    (owner : Text) (ps : List IpPool) → AreNamed ps → AreNamed (owned_by owner ps)
unfolding owned_by
AreNamed-owned_by owner [] h = tt
AreNamed-owned_by owner (p ∷ ps) (new, h) = elim (Bool-cases (text_eq (owner_of p) owner)) [
  | inl own ↦ rw own (All-owned_by owner p.meta.name ps new, AreNamed-owned_by owner ps h)
  | inr other ↦ rw other (AreNamed-owned_by owner ps h)
]
