-- ===== src/Reconciler/Expand.antt =====
-- pkg/subnet/subnet_reconciler.go, ippoolExpansion: the pools that need it share what is left.
use virtnet.Prelude.{
  ℕ, zero, suc, ◌+◌, Bool, true, false, ◌||◌, List, [], ◌∷◌, ◌++◌, Option, none, some,
  if◌then◌else◌, Text, length, Outcome, ok, err, panic,
}
use virtnet.Prelude
use virtnet.Api.{IpPool}
use virtnet.Convert.{
  Json, unmarshal_unallocated_ips, unmarshal_allocated_ips, marshal_unallocated_ips, entries,
}
use virtnet.Cluster.{Call, pure, ◌>>=◌, ◌>>◌, update_pool_status}
use virtnet.Reconciler.Split.{split_unallocated_ips}
use virtnet.Reconciler.Gather.{is_empty}

-- The pool with more free addresses.
unfoldable pub extend : Json → List Text → IpPool → Outcome IpPool
unfolding unmarshal_unallocated_ips unmarshal_allocated_ips marshal_unallocated_ips
extend json more p = Prelude.◌>>=◌ (unmarshal_unallocated_ips json p.status.unallocated_ips) λ ips.
    Prelude.◌>>=◌ (marshal_unallocated_ips json (ips ++ more)) λ raw.
      Prelude.◌>>=◌ (unmarshal_allocated_ips json p.status.allocated_ips) λ allocated.
        ok (record p {
          status = record p.status {
            unallocated_ips = raw;
            unallocated_ip_count = some (length (ips ++ more));
            total_ip_count = some (length (entries allocated) + length (ips ++ more));
          };
        })

-- The loop over the pools; it ends when the shares are used up.
unfoldable pub expand_loop : Json → List IpPool → List (List Text) → Call (Unit {0})
unfolding extend update_pool_status
expand_loop json [] shares = pure (ok tt)
expand_loop json (p ∷ ps) [] = pure (ok tt)
expand_loop json (p ∷ ps) (share ∷ shares) = do
  p' ← pure (extend json share p)
  update_pool_status p'
  expand_loop json ps shares

-- ippoolExpansion
unfoldable pub ippool_expansion : Json → List IpPool → List Text → Call (Unit {0})
unfolding split_unallocated_ips expand_loop
ippool_expansion json needs remaining =
    if is_empty needs || is_empty remaining
    then pure (ok tt)
    else expand_loop json needs (split_unallocated_ips remaining (length needs))
