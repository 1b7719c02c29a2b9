-- ===== src/Webhook.antt =====
-- pkg/subnet/subnet_mutate.go, subnet_validate.go and ippool_webhook.go: the admission of a Subnet.
-- Of a `field.Error` the model keeps the kind and the field; the message is left out, and so is the
-- call of ConvertIPsToIPRanges that only serves a message.
pub mod Validate
pub mod Admit
pub mod Laws
pub mod Defaulting
pub mod Overlap
pub mod Collecting
pub mod Gateway
pub mod Passing
pub mod Using
pub mod Admitted
use virtnet.Prelude.{
  ℕ, ◌+◌, Bool, true, false, not, ◌&&◌, ◌||◌, List, [], ◌∷◌, ◌++◌, map, Option, none, some,
  if◌then◌else◌, Text, bytes, text_eq, contains, keys, length, Error, Outcome, ok, err, panic,
  out_of_fuel,
}
use virtnet.Ip.{Ip, Net, ipv4}
use virtnet.Ip.Cidr.{contains_ip, is_cidr, is_cidr_overlap}
use virtnet.Ip.Range.{contains_ip_range, ip_range_contains_ip}
use virtnet.Ip.Merge.{merge_ip_ranges}
use virtnet.Ip.Sets.{ips_intersection_set, assemble_total_ips}
use virtnet.Api.{IpPool, Subnet, SubnetSpec}
use virtnet.Convert.{Json, unmarshal_allocated_ips, entries}
use virtnet.Cluster.{Cluster, Call, and_then, pure, ◌>>=◌, list_subnets, list_pools}
use virtnet.Reconciler.Gather.{is_empty}

pub data Field : Type 0 where
  ips_field gateway_field exclude_ips_field subnet_field : Field

-- field.Invalid, field.Forbidden and field.InternalError
pub data FieldError : Type 0 where
  invalid forbidden internal_error : Field → FieldError

-- A validator returns a nil pointer or an error.
abbrev pub Verdict : Type 0
Verdict = Call (Option FieldError)

abbrev pub pass : Option FieldError
pass = none

-- Turns an error of a call into an error of the field.
abbrev pub or_report {ℓ} :
    {A : Type ℓ}
    → FieldError
    → Outcome A × Cluster
    → (A → Verdict)
    → Outcome (Option FieldError) × Cluster
or_report e (ok a, c) f = f a c
or_report e (err _, c) f = (ok (some e), c)
or_report e (panic, c) f = (panic, c)
or_report e (out_of_fuel, c) f = (out_of_fuel, c)

-- The first error ends a loop of checks.
abbrev pub unless_error :
    Outcome (Option FieldError) × Cluster → Verdict → Outcome (Option FieldError) × Cluster
unless_error (ok none, c) f = f c
unless_error (ok (some e), c) f = (ok (some e), c)
unless_error (err e, c) f = (err e, c)
unless_error (panic, c) f = (panic, c)
unless_error (out_of_fuel, c) f = (out_of_fuel, c)

abbrev pub invalid_unless : Bool → Field → Option FieldError
invalid_unless true f = none
invalid_unless false f = some (invalid f)
