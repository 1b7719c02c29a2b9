-- ===== src/Reconciler/Stands.antt =====
-- The pools of a Subnet with right counts, beside the shelves that they stand for.
use virtnet.Prelude.{◌≡◌, List, [], ◌∷◌, ◌++◌, Text, length, refl}
use mathlib.Core.List.{append_assoc}
use virtnet.Api.{IpPool, PoolIpAllocation}
use virtnet.Convert.{Json, count_or_zero}
use virtnet.Cluster.{Cluster}
use virtnet.Cluster.Owned.{IsView}
use virtnet.Reconciler.ShareLaws.{IsCounted}
use virtnet.Inventory.{Shelf, shelf}
use virtnet.Inventory.Refines.{Represents, AllRepresent}

-- The pool stands for the shelf, and its count of free addresses is right.
pub record Stands (json : Json) (p : IpPool) (s : Shelf) : Type 0 where
  pub represents : Represents json p s
  pub counted : count_or_zero p.status.unallocated_ip_count ≡ length s.unused

abbrev pub AllStand : Json → List IpPool → List Shelf → Type 0
AllStand json [] [] = Unit
AllStand json (p ∷ ps) (s ∷ ss) = Stands json p s × AllStand json ps ss
AllStand json _ _ = ⊥

pub AllStand-AllRepresent :
    (json : Json) (ps : List IpPool) (ss : List Shelf)
    → AllStand json ps ss
    → AllRepresent json ps ss
AllStand-AllRepresent json [] [] h = tt
AllStand-AllRepresent json [] (s ∷ ss) h = absurd h
AllStand-AllRepresent json (p ∷ ps) [] h = absurd h
AllStand-AllRepresent json (p ∷ ps) (s ∷ ss) (r, h) =
    (r.represents, AllStand-AllRepresent json ps ss h)

-- A pool whose status was replaced by that of a pool with right counts.
pub IsCounted-Stands :
    (json : Json) (p q : IpPool) (used : List (Text × PoolIpAllocation)) (un : List Text)
    → IsCounted json q used un
    → Stands json (record p { status = q.status }) (shelf used un)
IsCounted-Stands json p q used un h = record {
  represents = h.holds;
  counted = rw (h.unallocated_count) refl;
}

pub IsView-reassoc :
    (owner : Text) (c : Cluster) (done rest : List IpPool) (p : IpPool)
    → IsView owner c ((done ++ p ∷ []) ++ rest)
    → IsView owner c (done ++ p ∷ rest)
IsView-reassoc owner c done rest p h = rw (append_assoc done (p ∷ []) rest) at h
