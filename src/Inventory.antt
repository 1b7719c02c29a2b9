-- ===== src/Inventory.antt =====
-- What pkg/ippool, pkg/endpoint and pkg/subnet do to the addresses of one Subnet, with the resources
-- left out: each pool is a shelf with addresses in use and addresses that are free.
pub mod Unique
pub mod Refines
pub mod Writes
pub mod Fresh
pub mod Held
pub mod Once
use virtnet.Prelude.{
  ℕ, suc, ◌+◌, ◌≤◌, ◌≡◌, List, [], ◌∷◌, ◌++◌, none, Text, text_eq, lookup, keys, take,
  if◌then◌else◌,
}
use virtnet.Api.{PoolIpAllocation}
use virtnet.Endpoints.Freed.{Allocations, free}

pub record Shelf : Type 0 where
  pub used : Allocations
  pub unused : List Text

abbrev pub shelf : Allocations → List Text → Shelf
shelf used unused = record { used = used; unused = unused }

unfoldable pub count : Text → List Text → ℕ
count x [] = 0
count x (y ∷ ys) = if text_eq y x then suc (count x ys) else count x ys

abbrev pub addresses : Shelf → List Text
addresses s = keys s.used ++ s.unused

unfoldable pub all_addresses : List Shelf → List Text
all_addresses [] = []
all_addresses (s ∷ ss) = addresses s ++ all_addresses ss

-- The addresses in use.
unfoldable pub held : List Shelf → List Text
held [] = []
held (s ∷ ss) = keys s.used ++ held ss

-- No address is on the shelves twice, whether used or unused.
abbrev pub IsUnique : List Shelf → Type 0
IsUnique ss = (x : Text) → count x (all_addresses ss) ≤ 1

-- Addresses to be added, each once, none of which is on a shelf.
abbrev pub IsFresh : List Text → List Shelf → Type 0
IsFresh share ss = (x : Text) → count x share + count x (all_addresses ss) ≤ 1

-- What may happen: the first unused address of a shelf is taken into use, addresses are given back,
-- unused addresses are dropped, addresses that no shelf has are added, and empty shelves come and
-- shelves go.
infix 40 ◌⟶◌ ◌⟶*◌
pub data ◌⟶◌ : List Shelf → List Shelf → Type 0 where
  takes :
      (before after : List Shelf) (used : Allocations) (ip : Text) (rest : List Text)
      (record_of : PoolIpAllocation)
      → lookup ip used ≡ none
      → before ++ shelf used (ip ∷ rest) ∷ after
        ⟶ before ++ shelf (used ++ (ip, record_of) ∷ []) rest ∷ after
  gives_back :
      (before after : List Shelf) (s : Shelf) (ks : List Text)
      → before ++ s ∷ after
        ⟶ before ++ shelf (free ks s.used).1 (s.unused ++ (free ks s.used).0) ∷ after
  drops :
      (before after : List Shelf) (s : Shelf) (n : ℕ)
      → before ++ s ∷ after ⟶ before ++ shelf s.used (take n s.unused) ∷ after
  adds :
      (before after : List Shelf) (s : Shelf) (share : List Text)
      → IsFresh share (before ++ s ∷ after)
      → before ++ s ∷ after ⟶ before ++ shelf s.used (s.unused ++ share) ∷ after
  opens : (ss : List Shelf) → ss ⟶ ss ++ shelf [] [] ∷ []
  closes : (before after : List Shelf) (s : Shelf) → before ++ s ∷ after ⟶ before ++ after

pub data ◌⟶*◌ : List Shelf → List Shelf → Type 0 where
  here : {ss : List Shelf} → ss ⟶* ss
  step : {ss ts us : List Shelf} → ss ⟶ ts → ts ⟶* us → ss ⟶* us
