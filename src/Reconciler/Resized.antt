-- ===== src/Reconciler/Resized.antt =====
-- What replicate (pkg/subnet/subnet_reconciler.go) leaves of the pools of a Subnet.
use virtnet.Prelude.{
  ℕ, zero, suc, ◌-◌, ◌≤◌, ◌≡◌, refl, sym, ap, ◌∙◌, keys, List, [], ◌∷◌, ◌++◌, arith, Text, ok,
  length, take, drop, map, subst, take-append-drop, length-take, length-drop, length-append,
  text_eq_refl,
}
use mathlib.Core.List.{append_assoc, append-nil}
use virtnet.Api.{IpPool, Subnet}
use virtnet.Convert.{Json}
use virtnet.Cluster.{Cluster, PoolCache, IsCurrent, owned_by}
use virtnet.Cluster.Owned.{AreNamed, IsView, list_pools-quiet, delete_pool-first}
use virtnet.Reconciler.Replicate.{new_pool, create_pools, delete_pools, replicate}
use virtnet.Reconciler.ReplicateLaws.{create_pool-quiet, owner_of-new_pool}
use virtnet.Reconciler.Stands.{Stands, AllStand}
use virtnet.Inventory.{Shelf, shelf, count, addresses, all_addresses, held}
use virtnet.Inventory.Refines.{new_pool-Represents}
use virtnet.Inventory.Unique.{count-append}

-- The pools that the server makes of the names that it has.
unfoldable pub created : Subnet → List Text → List IpPool
unfolding new_pool
created s [] = []
created s (suffix ∷ names) =
    record (new_pool s) {
      meta = record (new_pool s).meta { name = (new_pool s).meta.name ++ suffix };
    }
    ∷ created s names

empty_shelves : List Text → List Shelf
empty_shelves names = map (λ _. shelf [] []) names

pub owned_by-append :
    (owner : Text) (ps qs : List IpPool)
    → owned_by owner (ps ++ qs) ≡ owned_by owner ps ++ owned_by owner qs
unfolding owned_by
owned_by-append owner [] qs = refl
owned_by-append owner (p ∷ ps) qs = ground (arith, owned_by-append owner ps qs)

pub owned_by-created :
    (s : Subnet) (names : List Text) → owned_by s.meta.name (created s names) ≡ created s names
unfolding owned_by created
owned_by-created s [] = refl
owned_by-created s (suffix ∷ names) =
    rw
      (
        owner_of-new_pool s ((new_pool s).meta.name ++ suffix),
        text_eq_refl s.meta.name,
        owned_by-created s names,
      )
      refl

create_pools-quiet :
    (s : Subnet) (n : ℕ) (names : List Text) (c : Cluster)
    → c.answers ≡ []
    → c.names ≡ names
    → n ≤ length names
    → (c' : Cluster) × (create_pools n (new_pool s) c ≡ (ok tt, c'))
      × (c'.pools ≡ c.pools ++ created s (take n names))
      × (c'.answers ≡ [])
unfolding create_pools created
create_pools-quiet s zero names c quiet e enough = (c, refl, rw (append-nil) refl, quiet)
create_pools-quiet s (suc n) [] c quiet e enough = absurd (omega arith)
create_pools-quiet s (suc n) (suffix ∷ names) c quiet e enough =
    let p : IpPool = record (new_pool s) {
      meta = record (new_pool s).meta { name = (new_pool s).meta.name ++ suffix };
    } in
    let c1 : Cluster = record c { pools = c.pools ++ p ∷ []; names = names } in
    let (c', run, pools, still) = create_pools-quiet s n names c1 quiet refl (omega arith) in
    (
      c',
      rw (create_pool-quiet c (new_pool s) suffix names quiet e) run,
      pools ∙ append_assoc c.pools (p ∷ []) (created s (take n names)),
      still,
    )

delete_pools-IsView :
    (owner : Text) (gone ps : List IpPool) (c : Cluster)
    → IsView owner c (gone ++ ps)
    → (c' : Cluster) × (delete_pools gone c ≡ (ok tt, c')) × IsView owner c' ps
unfolding delete_pools
delete_pools-IsView owner [] ps c view = (c, refl, view)
delete_pools-IsView owner (p ∷ gone) ps c view =
    let (c1, run, view1) = delete_pool-first owner c p (gone ++ ps) view in
    let (c', rest, view') = delete_pools-IsView owner gone ps c1 view1 in (c', rw run rest, view')

new_pool-Stands :
    (json : Json) (s : Subnet) (name : Text)
    → Stands json
        (record (new_pool s) { meta = record (new_pool s).meta { name = name } })
        (shelf [] [])
unfolding new_pool
new_pool-Stands json s name = record { represents = new_pool-Represents json s; counted = refl }

created-AllStand :
    (json : Json) (s : Subnet) (names : List Text)
    → AllStand json (created s names) (empty_shelves names)
unfolding created empty_shelves
created-AllStand json s [] = tt
created-AllStand json s (suffix ∷ names) =
    (new_pool-Stands json s ((new_pool s).meta.name ++ suffix), created-AllStand json s names)

AllStand-drop :
    (json : Json) (n : ℕ) (ps : List IpPool) (ss : List Shelf)
    → AllStand json ps ss
    → AllStand json (drop n ps) (drop n ss)
AllStand-drop json zero ps ss h = h
AllStand-drop json (suc n) [] [] h = tt
AllStand-drop json (suc n) [] (s ∷ ss) h = absurd h
AllStand-drop json (suc n) (p ∷ ps) [] h = absurd h
AllStand-drop json (suc n) (p ∷ ps) (s ∷ ss) (_, h) = AllStand-drop json n ps ss h

AllStand-append :
    (json : Json) (ps qs : List IpPool) (ss ts : List Shelf)
    → AllStand json ps ss
    → AllStand json qs ts
    → AllStand json (ps ++ qs) (ss ++ ts)
AllStand-append json [] qs [] ts h k = k
AllStand-append json [] qs (s ∷ ss) ts h k = absurd h
AllStand-append json (p ∷ ps) qs [] ts h k = absurd h
AllStand-append json (p ∷ ps) qs (s ∷ ss) ts (r, h) k = (r, AllStand-append json ps qs ss ts h k)

all_addresses-empty_shelves :
    (ss : List Shelf) (names : List Text)
    → all_addresses (ss ++ empty_shelves names) ≡ all_addresses ss
unfolding all_addresses empty_shelves
all_addresses-empty_shelves [] [] = refl
all_addresses-empty_shelves [] (suffix ∷ names) = all_addresses-empty_shelves [] names
all_addresses-empty_shelves (s ∷ ss) names =
    ap (λ (xs : List Text). addresses s ++ xs) (all_addresses-empty_shelves ss names)

held-empty_shelves :
    (ss : List Shelf) (names : List Text) → held (ss ++ empty_shelves names) ≡ held ss
unfolding held empty_shelves
held-empty_shelves [] [] = refl
held-empty_shelves [] (suffix ∷ names) = held-empty_shelves [] names
held-empty_shelves (s ∷ ss) names =
    ap (λ (xs : List Text). keys s.used ++ xs) (held-empty_shelves ss names)

count-drop_le :
    (x : Text) (n : ℕ) (ss : List Shelf)
    → count x (all_addresses (drop n ss)) ≤ count x (all_addresses ss)
unfolding all_addresses
count-drop_le x zero ss = omega arith
count-drop_le x (suc n) [] = omega arith
count-drop_le x (suc n) (s ∷ ss) =
    omega (arith, count-drop_le x n ss, count-append x (addresses s) (all_addresses ss))

length-created : (s : Subnet) (names : List Text) → length (created s names) ≡ length names
unfolding created
length-created s [] = refl
length-created s (suffix ∷ names) = ap suc (length-created s names)

-- The names of the pools that replicate creates.
abbrev pub new_names : Subnet → List IpPool → Cluster → List Text
new_names s ps c = take (s.spec.replicas - length ps) c.names

-- On a server that refuses nothing and has new names, replicate leaves as many pools as the Subnet
-- asks for: if there are more, the first ones are deleted, with the addresses that are in use there;
-- if there are fewer, empty pools are added.
pub replicate-IsView :
    (cache : PoolCache) (json : Json) (s : Subnet) (c : Cluster) (ps : List IpPool)
    (ss : List Shelf)
    → IsCurrent cache
    → IsView s.meta.name c ps
    → AllStand json ps ss
    → s.spec.replicas - length ps ≤ length c.names
    → AreNamed (ps ++ created s (new_names s ps c))
    → (c' : Cluster) × (qs : List IpPool) × (ts : List Shelf) × (replicate cache s c ≡ (ok tt, c'))
      × IsView s.meta.name c' qs
      × AllStand json qs ts
      × (length qs ≡ s.spec.replicas)
      × (held ts ≡ held (drop (length ps - s.spec.replicas) ss))
      × ((x : Text) → count x (all_addresses ts) ≤ count x (all_addresses ss))
unfolding replicate
replicate-IsView cache json s c ps ss current view h enough new =
    let k : ℕ = length ps - s.spec.replicas in
    let n : ℕ = s.spec.replicas - length ps in
    let more : List IpPool = created s (take n c.names) in
    let (c1, run, pools, quiet) = create_pools-quiet s n c.names c view.quiet refl enough in
    let all : owned_by s.meta.name c1.pools ≡ ps ++ more =
      ap (owned_by s.meta.name) pools
      ∙ owned_by-append s.meta.name c.pools more
      ∙ rw (view.listed, owned_by-created s (take n c.names)) refl in
    let cut : ps ++ more ≡ take k ps ++ (drop k ps ++ more) =
      ap (λ (qs : List IpPool). qs ++ more) (sym (take-append-drop k ps))
      ∙ append_assoc (take k ps) (drop k ps) more in
    let (c', rest, view') =
      delete_pools-IsView s.meta.name (take k ps) (drop k ps ++ more) c1
        (record { quiet = quiet; listed = all ∙ cut; named = subst AreNamed cut new }) in
    (
      c',
      drop k ps ++ more,
      drop k ss ++ empty_shelves (take n c.names),
      rw (list_pools-quiet cache s.meta.name c current view.quiet, view.listed, run) rest,
      view',
      AllStand-append json (drop k ps) more (drop k ss) (empty_shelves (take n c.names))
          (AllStand-drop json k ps ss h) (created-AllStand json s (take n c.names)),
      omega (
        arith,
        length-append (drop k ps) more,
        length-drop k ps,
        length-created s (take n c.names),
        length-take n c.names,
      ),
      held-empty_shelves (drop k ss) (take n c.names),
      λ x. omega (
        arith,
        ap (count x) (all_addresses-empty_shelves (drop k ss) (take n c.names)),
        count-drop_le x k ss,
      ),
    )
