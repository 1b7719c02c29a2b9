-- ===== src/Networking/CallLaws.antt =====
-- Calls of the host that succeed (Networking.antt).
use virtnet.Prelude.{◌≡◌, refl, ap, ◌⊎◌, inl, inr, Error, Outcome, ok, err, panic, out_of_fuel}
use virtnet.Networking.{Step, and_then, forgive, is_exist}

-- A chain that succeeds succeeds at its first call and behind it.
pub and_then_ok {ℓ κ} :
    {S : Type 0} {A : Type ℓ} {B : Type κ} (r : Outcome A × S) (f : A → Step S B) (b : B) (s2 : S)
    → and_then r f ≡ (ok b, s2)
    → (a : A) × (s1 : S) × (r ≡ (ok a, s1)) × (f a s1 ≡ (ok b, s2))
and_then_ok (ok a, s) f b s2 h = (a, s, refl, h)
and_then_ok (err e, s) f b s2 h = cc
and_then_ok (panic, s) f b s2 h = cc
and_then_ok (out_of_fuel, s) f b s2 h = cc

-- A call that may be refused because the thing exists.
pub forgive-exists :
    {S : Type 0} (r : Outcome (Unit {0}) × S) (s2 : S)
    → forgive is_exist r ≡ (ok tt, s2)
    → (r ≡ (ok tt, s2)) ⊎ (r ≡ (err Error.exists, s2))
forgive-exists (ok tt, s) s2 h = inl h
forgive-exists (err Error.exists, s) s2 h = inr cc
forgive-exists (err Error.conflict, s) s2 h = cc
forgive-exists (err Error.not_found, s) s2 h = cc
forgive-exists (err Error.no_unallocated_ips, s) s2 h = cc
forgive-exists (err Error.timeout, s) s2 h = cc
forgive-exists (err Error.other, s) s2 h = cc
forgive-exists (panic, s) s2 h = cc
forgive-exists (out_of_fuel, s) s2 h = cc

pub forgive-state :
    {S : Type 0} (r : Outcome (Unit {0}) × S) (s2 : S) → forgive is_exist r ≡ (ok tt, s2) → r.1 ≡ s2
forgive-state r s2 h = elim (forgive-exists r s2 h) [
  | inl e ↦ ap (λ p. p.1) e
  | inr e ↦ ap (λ p. p.1) e
]
