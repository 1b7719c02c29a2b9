-- ===== src/Webhook/Admit.antt =====
-- pkg/subnet/subnet_mutate.go and pkg/subnet/ippool_webhook.go: mutateSubnet, Default, ValidateCreate
-- and ValidateUpdate.
use virtnet.Prelude.{
  ℕ, List, [], ◌∷◌, ◌++◌, Option, none, some, if◌then◌else◌, Text, bytes, contains, Outcome, ok,
  err, panic, out_of_fuel,
}
use virtnet.Ip.{Net, ipv4}
use virtnet.Ip.Merge.{merge_ip_ranges}
use virtnet.Api.{Subnet}
use virtnet.Convert.{Json}
use virtnet.Cluster.{Call, and_then, pure, ◌>>=◌}
use virtnet.Webhook.{ips_field, exclude_ips_field, FieldError, invalid, Verdict}
use virtnet.Webhook.Validate.{
  validate_subnet_should_not_be_changed, validate_subnet_gateway, validate_subnet_exclude_ips,
  validate_subnet_cidr, validate_subnet_ips, validate_subnet_ip_in_use,
}

-- A list of ranges is merged if it is not empty.
abbrev pub merged : Net → ℕ → List Text → Outcome (List Text)
merged net fuel [] = ok []
merged net fuel (r ∷ rs) = merge_ip_ranges net fuel ipv4 (r ∷ rs)

-- mutateSubnet, with the Subnet that it leaves behind.
unfoldable pub mutate_subnet : Net → ℕ → Subnet → Outcome (Subnet × Option FieldError)
unfolding merge_ip_ranges
mutate_subnet net fuel s =
    if s.meta.is_deleted then ok (s, none) else (elim (merged net fuel s.spec.ips) [
      | ok ips ↦
          let s1 : Subnet = record s { spec = record s.spec { ips = ips } } in
          elim (merged net fuel s.spec.exclude_ips) [
            | ok exclude_ips ↦
                ok (record s1 { spec = record s1.spec { exclude_ips = exclude_ips } }, none)
            | err _ ↦ ok (s1, some (invalid exclude_ips_field))
            | panic ↦ panic
            | out_of_fuel ↦ out_of_fuel
          ]
      | err _ ↦ ok (s, some (invalid ips_field))
      | panic ↦ panic
      | out_of_fuel ↦ out_of_fuel
    ])

abbrev pub append_error : List FieldError → Option FieldError → List FieldError
append_error errors none = errors
append_error errors (some e) = errors ++ e ∷ []

-- Appends the error of a validator to those found so far.
abbrev pub collect : List FieldError → Verdict → Call (List FieldError)
collect errors v c = and_then (v c) (λ e. pure (ok (append_error errors e)))

-- Default: the errors of mutateSubnet, as a list.
unfoldable pub default : Net → ℕ → Subnet → Outcome (Subnet × List FieldError)
unfolding mutate_subnet
default net fuel s = elim (mutate_subnet net fuel s) [
  | ok (s', e) ↦ ok (s', append_error [] e)
  | err e ↦ err e
  | panic ↦ panic
  | out_of_fuel ↦ out_of_fuel
]

-- ValidateCreate: the Subnet is admitted if no error is found.
unfoldable pub validate_create : Net → ℕ → Subnet → Call (List FieldError)
unfolding validate_subnet_gateway validate_subnet_exclude_ips validate_subnet_cidr
    validate_subnet_ips
validate_create net fuel s = do
  e1 ← collect [] (validate_subnet_gateway net s)
  e2 ← collect e1 (validate_subnet_exclude_ips net fuel ipv4 s.spec.subnet s.spec.exclude_ips)
  e3 ← collect e2 (validate_subnet_cidr net s)
  collect e3 (validate_subnet_ips net fuel s)

-- v1alpha1.SubnetFinalizer
abbrev pub subnet_finalizer : Text
subnet_finalizer = bytes "subnets.virtnet.io"

-- The answer to an update: admitted, forbidden because the Subnet is going away, or the errors.
pub data Answer : Type 0 where
  admitted terminating : Answer
  denied : List FieldError → Answer

abbrev pub answer_of : List FieldError → Answer
answer_of [] = admitted
answer_of (e ∷ es) = denied (e ∷ es)

-- ValidateUpdate
unfoldable pub validate_update : Net → Json → ℕ → Subnet → Subnet → Call Answer
unfolding validate_subnet_should_not_be_changed validate_subnet_gateway validate_subnet_exclude_ips
    validate_subnet_ips validate_subnet_ip_in_use contains
validate_update net json fuel old new =
    if new.meta.is_deleted
    then pure (ok (if contains subnet_finalizer new.meta.finalizers then terminating else admitted))
    else (do
      e1 ←
          collect (append_error [] (validate_subnet_should_not_be_changed old new))
            (validate_subnet_gateway net new)
      e2 ←
          collect e1
            (validate_subnet_exclude_ips net fuel ipv4 new.spec.subnet new.spec.exclude_ips)
      e3 ← collect e2 (validate_subnet_ips net fuel new)
      e4 ← collect e3 (validate_subnet_ip_in_use net json fuel new)
      pure (ok (answer_of e4)))
