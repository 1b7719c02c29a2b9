-- ===== src/Tests/Admissions.antt =====
-- The theorem on the admission of an update at a concrete input.
use virtnet.Prelude.{◌≡◌, refl, [], ◌∷◌, some, ok, bytes, text_eq}
use virtnet.Api.{Subnet}
use virtnet.Cluster.{Cluster}
use virtnet.Webhook.Admit.{admitted, validate_update}
use virtnet.Webhook.Admitted.{IsAdmissible, validate_update-IsAdmissible}
use virtnet.Tests.{dotted, plain}
use virtnet.Tests.Pools.{named, web_1, cluster_with}
use virtnet.Tests.Subnets.{web}

-- The update gives the Subnet a gateway.
abbrev with_gateway : Subnet
with_gateway = record web { spec = record web.spec { gateway = some (bytes "10.0.0.1") } }

-- A Subnet of another name with the address 10.0.0.9 alone, which the first one excludes.
abbrev neighbour : Subnet
neighbour = record web {
  meta = named (bytes "other");
  spec = record web.spec { ips = bytes "10.0.0.9" ∷ []; exclude_ips = [] };
}

abbrev c : Cluster
c = record (cluster_with (web_1 ∷ []) []) { subnets = web ∷ neighbour ∷ [] }

update_run : validate_update dotted plain 4 web with_gateway c ≡ (ok admitted, c)
unfolding validate_update dotted plain text_eq
update_run = refl

validate_update-IsAdmissible_example : IsAdmissible dotted plain 4 web with_gateway c
validate_update-IsAdmissible_example =
    validate_update-IsAdmissible dotted plain 4 web with_gateway c c refl update_run
