-- ===== src/Inventory/Held.antt =====
-- Which addresses stay in use when shelves change.
use virtnet.Prelude.{
  ◌+◌, ◌≤◌, ◌≡◌, inl, inr, List, [], ◌∷◌, ◌++◌, arith, Text, keys, lookup, delete, Option-cases,
}
use virtnet.Api.{PoolIpAllocation}
use virtnet.Endpoints.Freed.{Allocations, free}
use virtnet.Inventory.{Shelf, count, addresses, all_addresses, held}
use virtnet.Inventory.Unique.{count-append, count-delete, count-keys_last}

held-append :
    (ss ts : List Shelf) (x : Text)
    → count x (held (ss ++ ts)) ≡ count x (held ss) + count x (held ts)
unfolding held count
held-append [] ts x = omega arith
held-append (s ∷ ss) ts x = omega (
  arith,
  count-append x (keys s.used) (held (ss ++ ts)),
  count-append x (keys s.used) (held ss),
  held-append ss ts x,
)

-- The addresses in use of one shelf among others.
pub held-one :
    (before after : List Shelf) (s : Shelf) (x : Text)
    → count x (held (before ++ s ∷ after))
      ≡ count x (held before) + count x (keys s.used) + count x (held after)
unfolding held
held-one before after s x =
    omega (arith, held-append before (s ∷ after) x, count-append x (keys s.used) (held after))

pub held-without :
    (before after : List Shelf) (x : Text)
    → count x (held (before ++ after)) ≡ count x (held before) + count x (held after)
held-without before after x = held-append before after x

pub held-all_addresses :
    (ss : List Shelf) (x : Text) → count x (held ss) ≤ count x (all_addresses ss)
unfolding held all_addresses
held-all_addresses [] x = omega arith
held-all_addresses (s ∷ ss) x = omega (
  arith,
  count-append x (keys s.used) (held ss),
  count-append x (addresses s) (all_addresses ss),
  count-append x (keys s.used) s.unused,
  held-all_addresses ss x,
)

-- What is not given back stays in use.
pub count-keeps_free :
    (x : Text) (ks : List Text) (m : Allocations)
    → count x ks ≡ 0
    → count x (keys m) ≤ count x (keys (free ks m).1)
unfolding count free
count-keeps_free x [] m h = omega arith
count-keeps_free x (k ∷ ks) m h = elim (Option-cases (lookup k m)) [
  | inl absent ↦ rw (absent, free) (count-keeps_free x ks m (ground arith))
  | inr (a, there) ↦
      rw (there, free)
        (ground (arith, count-keeps_free x ks (delete k m) (ground arith), count-delete x k m))
]

pub count-takes :
    (x ip : Text) (a : PoolIpAllocation) (m : Allocations)
    → count x (keys m) ≤ count x (keys (m ++ (ip, a) ∷ []))
count-takes x ip a m = omega (arith, count-keys_last x ip a m)
