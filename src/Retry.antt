-- ===== src/Retry.antt =====
-- pkg/utils/retry/retry.go: RetryOnConflictWithContext over OnErrorWithContext. The wait between
-- two rounds and the cancelling of the context are left out.
pub mod Laws
use virtnet.Prelude.{
  ℕ, zero, suc, Bool, true, false, Error, Outcome, ok, err, panic, out_of_fuel, timeout,
}

-- apierrors.IsConflict
abbrev pub is_conflict : Error → Bool
is_conflict Error.conflict = true
is_conflict Error.not_found = false
is_conflict Error.exists = false
is_conflict Error.no_unallocated_ips = false
is_conflict Error.timeout = false
is_conflict Error.other = false

-- The error of the call is one to retry on.
abbrev pub retriable {ℓ} : {A : Type ℓ} → Outcome A → Bool
retriable (ok a) = false
retriable (err e) = is_conflict e
retriable panic = false
retriable out_of_fuel = false

-- DefaultRetry.Steps
abbrev pub default_steps : ℕ
default_steps = 5

-- At most `steps` rounds: a conflict starts the next one, anything else is the result.
unfoldable pub retry_on_conflict {ℓ κ} :
    {A : Type ℓ} {S : Type κ} → ℕ → (S → Outcome A × S) → S → Outcome A × S
retry_on_conflict zero f s = (err timeout, s)
retry_on_conflict (suc steps) f s = elim (retriable (f s).0) [
  | true ↦ retry_on_conflict steps f (f s).1
  | false ↦ f s
]
