-- ===== src/Inventory/Unique.antt =====
-- That no address is given twice, along any sequence of steps.
use virtnet.Prelude.{
  ℕ, zero, suc, ◌+◌, ◌≤◌, ◌<◌, ◌↔◌, not, ◌&&◌, ◌≡◌, refl, inl, inr, Bool, true, List, [], ◌∷◌, ◌++◌,
  none, some, arith, Text, text_eq, text_eq_iff, lookup, delete, keys, take, if◌then◌else◌,
  Option-cases, contains,
}
use virtnet.Api.{PoolIpAllocation}
use virtnet.Endpoints.Freed.{Allocations, free}
use virtnet.Inventory.{
  Shelf, shelf, count, addresses, all_addresses, IsUnique, ◌⟶◌, ◌⟶*◌, takes, gives_back, drops,
  adds, opens, closes, here, step,
}

pub count-append : (x : Text) (xs ys : List Text) → count x (xs ++ ys) ≡ count x xs + count x ys
unfolding count
count-append x [] ys = omega arith
count-append x (y ∷ xs) ys = ground (arith, count-append x xs ys)

pub contains-count : (x : Text) (xs : List Text) → (contains x xs ≡ true) ↔ (0 < count x xs)
unfolding contains count
contains-count x [] = ground arith
contains-count x (y ∷ xs) = ground (arith, contains-count x xs)

-- A test for lists without doubles.
unfoldable pub no_doubles : List Text → Bool
unfolding contains
no_doubles [] = true
no_doubles (y ∷ ys) = not (contains y ys) && no_doubles ys

pub count-no_doubles : (xs : List Text) → no_doubles xs ≡ true → (x : Text) → count x xs ≤ 1
unfolding no_doubles count
count-no_doubles [] h x = omega arith
count-no_doubles (y ∷ ys) h x =
    ground (arith, count-no_doubles ys (ground arith) x, contains-count y ys, text_eq_iff y x)

pub count-take_le : (x : Text) (n : ℕ) (xs : List Text) → count x (take n xs) ≤ count x xs
unfolding count
count-take_le x zero xs = omega arith
count-take_le x (suc n) [] = omega arith
count-take_le x (suc n) (y ∷ xs) = ground (arith, count-take_le x n xs)

pub count-keys_last :
    (x ip : Text) (a : PoolIpAllocation) (m : Allocations)
    → count x (keys (m ++ (ip, a) ∷ [])) ≡ count x (keys m) + count x (ip ∷ [])
unfolding count
count-keys_last x ip a [] = omega arith
count-keys_last x ip a ((j, b) ∷ m) = ground (arith, count-keys_last x ip a m)

pub count-delete :
    (x k : Text) (m : Allocations)
    → count x (keys (delete k m)) ≡ (if text_eq k x then 0 else count x (keys m))
unfolding count delete
count-delete x k [] = ground arith
count-delete x k ((j, a) ∷ m) =
    ground (arith, count-delete x k m, text_eq_iff k x, text_eq_iff j x, text_eq_iff j k)

count-lookup :
    (k : Text) (m : Allocations) (a : PoolIpAllocation) → lookup k m ≡ some a → 1 ≤ count k (keys m)
unfolding count lookup
count-lookup k [] a h = cc
count-lookup k ((j, b) ∷ m) a h = ground (arith, count-lookup k m a)

pub count-lookup-none : (k : Text) (m : Allocations) → count k (keys m) ≡ 0 → lookup k m ≡ none
unfolding count lookup
count-lookup-none k [] h = refl
count-lookup-none k ((j, b) ∷ m) h = ground (arith, count-lookup-none k m)

-- What is given back was in use.
pub count-free :
    (x : Text) (ks : List Text) (m : Allocations)
    → count x (keys (free ks m).1) + count x (free ks m).0 ≤ count x (keys m)
unfolding count free
count-free x [] m = omega arith
count-free x (k ∷ ks) m = elim (Option-cases (lookup k m)) [
  | inl absent ↦ rw (absent, free) (count-free x ks m)
  | inr (a, there) ↦
      rw (there, free)
        (ground (
          arith,
          count-free x ks (delete k m),
          count-delete x k m,
          count-lookup k m a,
          text_eq_iff k x,
        ))
]

pub all_addresses-append :
    (ss ts : List Shelf) (x : Text)
    → count x (all_addresses (ss ++ ts)) ≡ count x (all_addresses ss) + count x (all_addresses ts)
unfolding all_addresses count
all_addresses-append [] ts x = omega arith
all_addresses-append (s ∷ ss) ts x = omega (
  arith,
  count-append x (addresses s) (all_addresses (ss ++ ts)),
  count-append x (addresses s) (all_addresses ss),
  all_addresses-append ss ts x,
)

-- The addresses of one shelf among others.
pub count-one :
    (before after : List Shelf) (s : Shelf) (x : Text)
    → count x (all_addresses (before ++ s ∷ after))
      ≡ count x (all_addresses before)
        + (count x (keys s.used) + count x s.unused)
        + count x (all_addresses after)
unfolding all_addresses
count-one before after s x = omega (
  arith,
  all_addresses-append before (s ∷ after) x,
  count-append x (addresses s) (all_addresses after),
  count-append x (keys s.used) s.unused,
)

-- No step puts an address on the shelves twice.
pub ⟶-IsUnique : {ss ts : List Shelf} → ss ⟶ ts → IsUnique ss → IsUnique ts
unfolding count all_addresses
⟶-IsUnique (takes before after used ip rest record_of new) h x = ground (
  arith,
  h x,
  count-one before after (shelf used (ip ∷ rest)) x,
  count-one before after (shelf (used ++ (ip, record_of) ∷ []) rest) x,
  count-keys_last x ip record_of used,
)
⟶-IsUnique (gives_back before after s ks) h x = omega (
  arith,
  h x,
  count-one before after s x,
  count-one before after (shelf (free ks s.used).1 (s.unused ++ (free ks s.used).0)) x,
  count-append x s.unused (free ks s.used).0,
  count-free x ks s.used,
)
⟶-IsUnique (drops before after s n) h x = omega (
  arith,
  h x,
  count-one before after s x,
  count-one before after (shelf s.used (take n s.unused)) x,
  count-take_le x n s.unused,
)
⟶-IsUnique (adds before after s share fresh) h x = omega (
  arith,
  fresh x,
  count-one before after s x,
  count-one before after (shelf s.used (s.unused ++ share)) x,
  count-append x s.unused share,
)
⟶-IsUnique (opens ss) h x = omega (arith, h x, all_addresses-append ss (shelf [] [] ∷ []) x)
⟶-IsUnique (closes before after s) h x =
    omega (arith, h x, count-one before after s x, all_addresses-append before after x)

-- From shelves without doubles every sequence of steps leads to shelves without doubles.
pub ⟶*-IsUnique : {ss ts : List Shelf} → ss ⟶* ts → IsUnique ss → IsUnique ts
⟶*-IsUnique here h = h
⟶*-IsUnique (step first others) h = ⟶*-IsUnique others (⟶-IsUnique first h)
