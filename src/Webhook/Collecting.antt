-- ===== src/Webhook/Collecting.antt =====
-- How ValidateUpdate (pkg/subnet/ippool_webhook.go) collects the errors of its validators.
use virtnet.Prelude.{
  ◌≡◌, refl, subst, ap, ◌∙◌, List, [], ◌∷◌, Option, none, some, Outcome, ok, err, panic,
  out_of_fuel,
}
use virtnet.Cluster.{Cluster, Call, and_then, pure}
use virtnet.Webhook.{FieldError, Verdict, or_report, unless_error}
use virtnet.Webhook.Admit.{append_error, collect}

-- The same pools and Subnets are stored.
pub record SameStored (c c' : Cluster) : Type 0 where
  pub same_pools : c'.pools ≡ c.pools
  pub same_subnets : c'.subnets ≡ c.subnets

pub SameStored-same : (c c' : Cluster) → c' ≡ c → SameStored c c'
SameStored-same c c' e = record {
  same_pools = ap (λ (x : Cluster). x.pools) e;
  same_subnets = ap (λ (x : Cluster). x.subnets) e;
}

pub SameStored-chain : (c c1 c2 : Cluster) → SameStored c c1 → SameStored c1 c2 → SameStored c c2
SameStored-chain c c1 c2 h k = record {
  same_pools = k.same_pools ∙ h.same_pools;
  same_subnets = k.same_subnets ∙ h.same_subnets;
}

pub or_report-passes {ℓ} :
    {A : Type ℓ} (e : FieldError) (r : Outcome A × Cluster) (f : A → Verdict) (c2 : Cluster)
    → or_report e r f ≡ (ok none, c2)
    → (a : A) × (c1 : Cluster) × (r ≡ (ok a, c1)) × (f a c1 ≡ (ok none, c2))
or_report-passes e (ok a, c) f c2 h = (a, c, refl, h)
or_report-passes e (err x, c) f c2 h = cc
or_report-passes e (panic, c) f c2 h = cc
or_report-passes e (out_of_fuel, c) f c2 h = cc

pub unless_error-passes :
    (r : Outcome (Option FieldError) × Cluster) (v : Verdict) (c2 : Cluster)
    → unless_error r v ≡ (ok none, c2)
    → (c1 : Cluster) × (r ≡ (ok none, c1)) × (v c1 ≡ (ok none, c2))
unless_error-passes (ok none, c) v c2 h = (c, refl, h)
unless_error-passes (ok (some e), c) v c2 h = cc
unless_error-passes (err x, c) v c2 h = cc
unless_error-passes (panic, c) v c2 h = cc
unless_error-passes (out_of_fuel, c) v c2 h = cc

pub append_error-nothing :
    (errors : List FieldError) (e : Option FieldError)
    → append_error errors e ≡ []
    → (errors ≡ []) × (e ≡ none)
append_error-nothing errors none h = (h, refl)
append_error-nothing [] (some e) h = cc
append_error-nothing (x ∷ errors) (some e) h = cc

-- The rest of a handler gives the result only if no error has been collected.
abbrev pub WantsNone {ℓ} : {B : Type ℓ} → (List FieldError → Call B) → B → Cluster → Type ℓ
WantsNone k b c' = (errors : List FieldError) (c : Cluster) → k errors c ≡ (ok b, c') → errors ≡ []

-- Such a result is given only if there was no error before the validator, and it passes.
pub collect-passes {ℓ} :
    {B : Type ℓ} (k : List FieldError → Call B) (b : B) (c' : Cluster)
    → WantsNone k b c'
    → (errors : List FieldError) (v : Verdict) (c : Cluster)
    → and_then (collect errors v c) k ≡ (ok b, c')
    → (errors ≡ []) × (c1 : Cluster) × (v c ≡ (ok none, c1)) × (k [] c1 ≡ (ok b, c'))
collect-passes {B = B} k b c' wants errors v c h = by_answer (v c) h
  where
    by_answer :
        (r : Outcome (Option FieldError) × Cluster)
        → and_then (and_then r (λ e. pure (ok (append_error errors e)))) k ≡ (ok b, c')
        → (errors ≡ []) × (c1 : Cluster) × (r ≡ (ok none, c1)) × (k [] c1 ≡ (ok b, c'))
    by_answer (ok e, c1) g =
        let (nothing, passes) =
          append_error-nothing errors e (wants (append_error errors e) c1 g) in
        (
          nothing,
          c1,
          rw passes refl,
          subst (λ (es : List FieldError). k es c1 ≡ (ok b, c'))
              (wants (append_error errors e) c1 g) g,
        )
    by_answer (err x, c1) g = cc
    by_answer (panic, c1) g = cc
    by_answer (out_of_fuel, c1) g = cc
