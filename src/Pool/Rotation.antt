-- ===== src/Pool/Rotation.antt =====
-- The rotation over the pools of one Subnet: next of pkg/ippool/ippool_client.go.
use native.Mathlib.Nat.{mod-eq_of_lt, mod_self}
use native.Mathlib.Numerals.{add-one}
use virtnet.Prelude.{
  ℕ, zero, suc, ◌+◌, ◌%◌, ◌<◌, ◌≡◌, refl, sym, ap, List, [], ◌∷◌, ◌++◌, arith, some, Text, length,
  get_elem?, get_elem?-some, take, drop, Outcome, ok, ◌>>=◌, take-append-drop, length-append,
  length-drop, length-take,
}
use virtnet.Pool.{SubnetPools, rotate}

-- With a pool to give, next gives the pool at the index, and the index stays in range.
pub rotate_lem :
    (s : SubnetPools)
    → s.index < length s.pools
    → (name : Text) × (get_elem? s.pools s.index ≡ some name)
      × (rotate s ≡ ok (name, record s { index = (s.index + 1) % length s.pools }))
unfolding rotate
rotate_lem s h = let (name, e) = get_elem?-some s.pools s.index h in (name, e, ground arith)

-- `count` calls of next in a row, with the pools that they gave.
unfoldable pub rotate_times : ℕ → SubnetPools → Outcome (List Text × SubnetPools)
unfolding rotate
rotate_times zero s = ok ([], s)
rotate_times (suc count) s = do
  (name, s') ← rotate s
  (names, s'') ← rotate_times count s'
  ok (name ∷ names, s'')

abbrev at : List Text → ℕ → SubnetPools
at pools i = record { pools = pools; index = i }

rotate_inner :
    (pools : List Text) (i : ℕ) (name : Text)
    → get_elem? pools i ≡ some name
    → i + 1 < length pools
    → rotate (at pools i) ≡ ok (name, at pools (i + 1))
unfolding rotate
rotate_inner pools i name e h = ground (arith, mod-eq_of_lt {n = i + 1} {m = length pools} h)

rotate_last :
    (pools : List Text) (i : ℕ) (name : Text)
    → get_elem? pools i ≡ some name
    → i + 1 ≡ length pools
    → rotate (at pools i) ≡ ok (name, at pools 0)
unfolding rotate
rotate_last pools i name e h = ground (arith, mod_self (length pools))

drop-step :
    (i : ℕ) (xs : List Text) (x : Text) (rest : List Text)
    → drop i xs ≡ x ∷ rest
    → (get_elem? xs i ≡ some x) × (drop (suc i) xs ≡ rest)
drop-step zero [] x rest h = cc
drop-step zero (y ∷ xs) x rest h = (cc, cc)
drop-step (suc i) [] x rest h = cc
drop-step (suc i) (y ∷ xs) x rest h = drop-step i xs x rest h

rotate-to_end :
    (rest pools names : List Text) (i m k : ℕ) (x : Text) (s : SubnetPools)
    → drop i pools ≡ x ∷ rest
    → rotate_times m (at pools 0) ≡ ok (names, s)
    → length rest + m ≡ k
    → rotate_times (suc k) (at pools i) ≡ ok (x ∷ (rest ++ names), s)
unfolding rotate_times
rotate-to_end [] pools names i m k x s h r e =
    let e' : m ≡ k = omega arith in
    rw
      (
        rotate_last pools i x (drop-step i pools x [] h).0
            (omega (arith, ap length h, length-drop i pools)),
        ← e',
        r,
      )
      refl
rotate-to_end (y ∷ rest) pools names i m zero x s h r e = absurd (omega arith)
rotate-to_end (y ∷ rest) pools names i m (suc k) x s h r e =
    let (here, there) = drop-step i pools x (y ∷ rest) h in
    rw
      (
        rotate_inner pools i x here (omega (arith, ap length h, length-drop i pools)),
        rotate-to_end rest pools names (i + 1) m k y s (simp add-one there) r (omega arith),
      )
      refl

rotate-from :
    (names pools post : List Text) (i j : ℕ) (y : Text)
    → drop i pools ≡ names ++ y ∷ post
    → i + length names ≡ j
    → rotate_times (length names) (at pools i) ≡ ok (names, at pools j)
unfolding rotate_times
rotate-from [] pools post i j y h e = ap (λ n. ok ([], at pools n)) (omega arith)
rotate-from (x ∷ names) pools post i j y h e =
    let (here, there) = drop-step i pools x (names ++ y ∷ post) h in
    rw
      (
        rotate_inner pools i x here
            (omega (arith, ap length h, length-drop i pools, length-append names (y ∷ post))),
        rotate-from names pools post (i + 1) j y (simp add-one there) (omega arith),
      )
      refl

rotate_round :
    (pools rest : List Text) (i : ℕ) (x : Text)
    → drop i pools ≡ x ∷ rest
    → rotate_times (length pools) (at pools i) ≡ ok (drop i pools ++ take i pools, at pools i)
rotate_round pools rest i x h =
    let n : length pools ≡ suc (length rest + length (take i pools)) =
      omega (arith, ap length h, length-drop i pools, length-take i pools) in
    rw (n, h)
      (rotate-to_end rest pools (take i pools) i (length (take i pools)) _ x (at pools i) h
        (rotate-from (take i pools) pools rest 0 i x (rw (← h) (sym (take-append-drop i pools)))
          (omega (arith, ap length h, length-drop i pools, length-take i pools)))
        refl)

-- As many calls of next as a Subnet has pools give every pool once, in a round that starts at the
-- index, and bring the index back.
pub rotate_times_round :
    (s : SubnetPools)
    → s.index < length s.pools
    → rotate_times (length s.pools) s ≡ ok (drop s.index s.pools ++ take s.index s.pools, s)
rotate_times_round s h = from_drop (drop s.index s.pools) refl
  where
    from_drop :
        (rest : List Text)
        → drop s.index s.pools ≡ rest
        → rotate_times (length s.pools) s ≡ ok (drop s.index s.pools ++ take s.index s.pools, s)
    from_drop [] e = absurd (omega (arith, ap length e, length-drop s.index s.pools))
    from_drop (x ∷ rest) e = rotate_round s.pools rest s.index x e
