-- ===== src/Ip/Walk.antt =====
-- The loop of ParseIPRange (pkg/ip/iprange.go): where it ends and what it lists, and the ranges at
-- which it never ends.
use virtnet.Prelude.{
  ℕ, zero, suc, ◌+◌, ◌-◌, ◌^◌, ◌≤◌, ◌<◌, ◌≡◌, refl, ◌⊎◌, inl, inr, List, [], ◌∷◌, arith, ok,
  out_of_fuel, ◌>>=◌, dec_lt,
}
use virtnet.Ip.{Ip, nil_ip, v4, ip_to_int, int_to_ip, next_ip, cmp}
use virtnet.Ip.Range.{walk}

-- The IPv4 addresses from `a` on, `count` of them.
unfoldable pub addresses_from : ℕ → ℕ → List Ip
addresses_from a zero = []
addresses_from a (suc count) = v4 a ∷ addresses_from (a + 1) count

pub next_ip_inside : (a : ℕ) → 2 ^ 24 ≤ a + 1 → a + 1 < 2 ^ 32 → next_ip (v4 a) ≡ v4 (a + 1)
unfolding next_ip int_to_ip ip_to_int
next_ip_inside a lo hi = ground arith

next_ip_below : (a : ℕ) → a + 1 < 2 ^ 24 → next_ip (v4 a) ≡ nil_ip
unfolding next_ip int_to_ip ip_to_int
next_ip_below a lo = ground arith

next_ip_last : (a : ℕ) → a + 1 ≡ 2 ^ 32 → next_ip (v4 a) ≡ nil_ip
unfolding next_ip int_to_ip ip_to_int
next_ip_last a h = ground arith

next_ip_nil : next_ip nil_ip ≡ nil_ip
unfolding next_ip int_to_ip ip_to_int
next_ip_nil = refl

walk_step :
    (fuel a b : ℕ)
    → a ≤ b
    → walk (suc fuel) (v4 a) (v4 b) ≡ (walk fuel (next_ip (v4 a)) (v4 b) >>= λ ips. ok (v4 a ∷ ips))
unfolding walk cmp ip_to_int
walk_step fuel a b le = ground arith

walk_stop : (fuel a b : ℕ) → b < a → walk (suc fuel) (v4 a) (v4 b) ≡ ok []
unfolding walk cmp ip_to_int
walk_stop fuel a b lt = ground arith

-- With more fuel than addresses the loop lists every address of the range once, in order.
pub walk-addresses_from :
    (n fuel a b : ℕ)
    → 2 ^ 24 ≤ a + 1
    → b + 1 < 2 ^ 32
    → a + n ≡ b + 1
    → n < fuel
    → walk fuel (v4 a) (v4 b) ≡ ok (addresses_from a n)
unfolding addresses_from
walk-addresses_from n zero a b lo hi e f = absurd (omega arith)
walk-addresses_from zero (suc fuel) a b lo hi e f = rw (walk_stop fuel a b (omega arith)) refl
walk-addresses_from (suc n) (suc fuel) a b lo hi e f =
    rw
      (
        walk_step fuel a b (omega arith),
        next_ip_inside a (omega arith) (omega arith),
        walk-addresses_from n fuel (a + 1) b (omega arith) hi (omega arith) (omega arith),
      )
      refl

-- From the nil address the loop comes back to the nil address, which counts as 0.
walk_nil : (fuel : ℕ) (end : Ip) → walk fuel nil_ip end ≡ out_of_fuel
unfolding walk cmp ip_to_int
walk_nil zero end = refl
walk_nil (suc fuel) end = ground (arith, walk_nil fuel end, next_ip_nil)

-- The ranges at which the loop never ends: those that reach 255.255.255.255, and those that start
-- below 0.255.255.255 and so step through an address whose first byte is 0.
abbrev pub IsEndless : ℕ → ℕ → Type 0
IsEndless a b = (a ≤ b) × (b < 2 ^ 32) × ((a + 1 < 2 ^ 24) ⊎ (b + 1 ≡ 2 ^ 32))

walk_last :
    (n fuel a b : ℕ)
    → 2 ^ 24 ≤ a + 1
    → a + n ≡ b
    → b + 1 ≡ 2 ^ 32
    → walk fuel (v4 a) (v4 b) ≡ out_of_fuel
unfolding walk
walk_last n zero a b lo le e = refl
walk_last zero (suc fuel) a b lo le e =
    rw (walk_step fuel a b (omega arith), next_ip_last a (omega arith), walk_nil fuel (v4 b)) refl
walk_last (suc n) (suc fuel) a b lo le e =
    rw
      (
        walk_step fuel a b (omega arith),
        next_ip_inside a (omega arith) (omega arith),
        walk_last n fuel (a + 1) b (omega arith) (omega arith) e,
      )
      refl

walk_low : (fuel a b : ℕ) → a + 1 < 2 ^ 24 → a ≤ b → walk fuel (v4 a) (v4 b) ≡ out_of_fuel
unfolding walk
walk_low zero a b lo le = refl
walk_low (suc fuel) a b lo le =
    rw (walk_step fuel a b le, next_ip_below a lo, walk_nil fuel (v4 b)) refl

-- At an endless range no amount of fuel gives a result.
pub walk-endless : (fuel a b : ℕ) → IsEndless a b → walk fuel (v4 a) (v4 b) ≡ out_of_fuel
walk-endless fuel a b (le, hi, inl low) = walk_low fuel a b low le
walk-endless fuel a b (le, hi, inr last) = elim (dec_lt (a + 1) (2 ^ 24)) [
  | yes low ↦ walk_low fuel a b low le
  | no high ↦ walk_last (b - a) fuel a b (omega arith) (omega arith) last
]
