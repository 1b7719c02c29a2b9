-- ===== src/Cluster/Triples.antt =====
-- Triples for calls of the API server, which may refuse any of them: what holds before a
-- computation, what holds behind a value, and what holds behind any other end.
use virtnet.Prelude.{
  ℕ, zero, suc, ◌≡◌, refl, true, false, Error, Outcome, ok, err, panic, out_of_fuel,
}
use virtnet.Retry.{retriable, retry_on_conflict}
use virtnet.Cluster.{Cluster, Call, and_then}

abbrev pub Post {ℓ κ} :
    {A : Type ℓ} → (A → Cluster → Type κ) → (Cluster → Type κ) → Outcome A × Cluster → Type κ
Post Q E (ok a, c) = Q a c
Post Q E (err e, c) = E c
Post Q E (panic, c) = E c
Post Q E (out_of_fuel, c) = E c

abbrev pub Triple {ℓ κ} :
    {A : Type ℓ}
    → (Cluster → Type κ)
    → Call A
    → (A → Cluster → Type κ)
    → (Cluster → Type κ)
    → Type κ
Triple P m Q E = (c : Cluster) → P c → Post Q E (m c)

pub and_then-Post {ℓ κ ι} :
    {A : Type ℓ} {B : Type κ} (Q : A → Cluster → Type ι) (R : B → Cluster → Type ι)
    (E : Cluster → Type ι) (r : Outcome A × Cluster) (k : A → Call B)
    → Post Q E r
    → ((a : A) → Triple (Q a) (k a) R E)
    → Post R E (and_then r k)
and_then-Post Q R E (ok a, c) k h rest = rest a c h
and_then-Post Q R E (err e, c) k h rest = h
and_then-Post Q R E (panic, c) k h rest = h
and_then-Post Q R E (out_of_fuel, c) k h rest = h

pub pure-Post {ℓ κ} :
    {A : Type ℓ} (Q : A → Cluster → Type κ) (E : Cluster → Type κ) (r : Outcome A) (c : Cluster)
    → ((a : A) → r ≡ ok a → Q a c)
    → E c
    → Post Q E (r, c)
pure-Post Q E (ok a) c value other_end = value a refl
pure-Post Q E (err e) c value other_end = other_end
pure-Post Q E panic c value other_end = other_end
pure-Post Q E out_of_fuel c value other_end = other_end

pub Post-weaken {ℓ κ ι} :
    {A : Type ℓ} (Q : A → Cluster → Type κ) (R : A → Cluster → Type ι) (E : Cluster → Type κ)
    (F : Cluster → Type ι) (r : Outcome A × Cluster)
    → ((a : A) (c : Cluster) → Q a c → R a c)
    → ((c : Cluster) → E c → F c)
    → Post Q E r
    → Post R F r
Post-weaken Q R E F (ok a, c) value other_end h = value a c h
Post-weaken Q R E F (err e, c) value other_end h = other_end c h
Post-weaken Q R E F (panic, c) value other_end h = other_end c h
Post-weaken Q R E F (out_of_fuel, c) value other_end h = other_end c h

pub Post-both {ℓ κ} :
    {A : Type ℓ} (Q R : A → Cluster → Type κ) (E F : Cluster → Type κ) (r : Outcome A × Cluster)
    → Post Q E r
    → Post R F r
    → Post (λ a c. Q a c × R a c) (λ c. E c × F c) r
Post-both Q R E F (ok a, c) h k = (h, k)
Post-both Q R E F (err e, c) h k = (h, k)
Post-both Q R E F (panic, c) h k = (h, k)
Post-both Q R E F (out_of_fuel, c) h k = (h, k)

-- What holds behind every end.
pub Post-any {ℓ κ} :
    {A : Type ℓ} (P : Cluster → Type κ) (r : Outcome A × Cluster) → Post (λ _. P) P r → P r.1
Post-any P (ok a, c) h = h
Post-any P (err e, c) h = h
Post-any P (panic, c) h = h
Post-any P (out_of_fuel, c) h = h

-- A call that leaves what held before it when it fails may be tried again.
pub retry_on_conflict-Post {ℓ κ} :
    {A : Type ℓ} (P : Cluster → Type κ) (f : Call A) (Q : A → Cluster → Type κ) (steps : ℕ)
    → Triple P f Q P
    → Triple P (retry_on_conflict steps f) Q P
unfolding retry_on_conflict
retry_on_conflict-Post P f Q zero keeps c h = h
retry_on_conflict-Post {A = A} P f Q (suc steps) keeps c h =
    by_result (f c) (keeps c h) (retry_on_conflict-Post P f Q steps keeps)
  where
    by_result :
        (r : Outcome A × Cluster)
        → Post Q P r
        → Triple P (retry_on_conflict steps f) Q P
        → Post Q P (elim (retriable r.0) as (λ _. Outcome A × Cluster) [
          | true ↦ retry_on_conflict steps f r.1
          | false ↦ r
        ])
    by_result (ok a, c1) k again = k
    by_result (err Error.conflict, c1) k again = again c1 k
    by_result (err Error.not_found, c1) k again = k
    by_result (err Error.exists, c1) k again = k
    by_result (err Error.no_unallocated_ips, c1) k again = k
    by_result (err Error.timeout, c1) k again = k
    by_result (err Error.other, c1) k again = k
    by_result (panic, c1) k again = k
    by_result (out_of_fuel, c1) k again = k
