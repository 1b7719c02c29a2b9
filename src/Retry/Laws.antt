-- ===== src/Retry/Laws.antt =====
-- One round of pkg/utils/retry/retry.go.
use virtnet.Prelude.{
  ℕ, zero, inl, inr, Bool-cases, suc, ◌≡◌, ap, ◌∙◌, Bool, true, false, conflict, Outcome, err,
}
use virtnet.Retry.{retriable, retry_on_conflict}

module _ {ℓ κ} {A : Type ℓ} {S : Type κ} (steps : ℕ) (f : S → Outcome A × S) (s s' : S) where
  -- A round that ends in a conflict is followed by the others, from the state that it left.
  pub retry_on_conflict-again :
      f s ≡ (err conflict, s') → retry_on_conflict (suc steps) f s ≡ retry_on_conflict steps f s'
  unfolding retry_on_conflict
  retry_on_conflict-again h =
      ap
        (λ (x : Outcome A × S). elim (retriable x.0) as (λ _. Outcome A × S) [
          | true ↦ retry_on_conflict steps f x.1
          | false ↦ x
        ])
        h

  -- A round that ends in anything else is the last.
  pub retry_on_conflict-done :
      (r : Outcome A)
      → retriable r ≡ false
      → f s ≡ (r, s')
      → retry_on_conflict (suc steps) f s ≡ (r, s')
  unfolding retry_on_conflict
  retry_on_conflict-done r e h =
      ap
        (λ (x : Outcome A × S). elim (retriable x.0) as (λ _. Outcome A × S) [
          | true ↦ retry_on_conflict steps f x.1
          | false ↦ x
        ])
        h
      ∙ ap
          (λ (b : Bool). elim b as (λ _. Outcome A × S) [
            | true ↦ retry_on_conflict steps f s'
            | false ↦ (r, s')
          ])
          e

-- What every round keeps, the rounds keep.
pub retry_on_conflict-keeps {ℓ κ ι} :
    {A : Type ℓ} {S : Type κ} (P : S → Type ι) (f : S → Outcome A × S)
    → ((s : S) → P s → P (f s).1)
    → (steps : ℕ) (s : S) → P s
    → P (retry_on_conflict steps f s).1
unfolding retry_on_conflict
retry_on_conflict-keeps P f keeps zero s h = h
retry_on_conflict-keeps P f keeps (suc steps) s h = elim (Bool-cases (retriable (f s).0)) [
  | inl again ↦
      rw (retry_on_conflict, again) (retry_on_conflict-keeps P f keeps steps (f s).1 (keeps s h))
  | inr last ↦ rw (retry_on_conflict, last) (keeps s h)
]
