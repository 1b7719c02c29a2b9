-- ===== src/Networking/Checking.antt =====
-- pkg/networking/ipchecking/ipchecking.go, the check of an IPv6 address: the probes and the replies.
use virtnet.Prelude.{
  ℕ, zero, suc, Bool, true, false, List, [], ◌∷◌, if◌then◌else◌, Text, text_eq, Error, Outcome, ok,
  err, panic, out_of_fuel, other,
}
use virtnet.Ip.{Ip, ip_equal}
use virtnet.Networking.{Step, ◌>>=◌, ◌>>◌, pure}

-- A message with the fields that are read: a neighbour advertisement has a target and options,
-- and an option is a link layer address or another one.
pub data LinkOption : Type 0 where
  link_layer_address : Text → LinkOption
  other_option : LinkOption

pub data Message : Type 0 where
  neighbor_advertisement : Ip → List LinkOption → Message
  other_message : Message

-- The vendored ndp connection; the error `timeout` stands for one with Timeout.
pub record Ndp (S : Type 0) : Type 0 where
  pub solicited_node_multicast : Ip → Outcome Ip
  pub write_to : Ip → Step S (Unit {0})
  pub set_read_deadline : Step S (Unit {0})
  pub read_from : Step S Message

-- What one probe gives without an error of the connection: the address in the reply, or errRetry.
pub data Probe : Type 0 where
  replied : Text → Probe
  retry : Probe

-- The reply that is looked for: an advertisement for the address with one option, a link address.
unfoldable pub probe_of : Ip → Message → Probe
unfolding ip_equal
probe_of ip6 (neighbor_advertisement target (link_layer_address addr ∷ [])) =
    if ip_equal target ip6 then replied addr else retry
probe_of ip6 _ = retry

-- sendReceiveLoop's result: NDPFoundReply with the address, or no error.
pub data Found : Type 0 where
  found_reply : Text → Found
  no_reply : Found

-- An error with another text around it, which is no timeout any more.
abbrev wrapped {ℓ} : {S : Type 0} {A : Type ℓ} → Outcome A × S → Outcome A × S
wrapped (ok a, s) = (ok a, s)
wrapped (err e, s) = (err other, s)
wrapped (panic, s) = (panic, s)
wrapped (out_of_fuel, s) = (out_of_fuel, s)

-- `neterr.Timeout()`
abbrev is_timeout : Error → Bool
is_timeout Error.timeout = true
is_timeout _ = false

-- What the loop makes of one probe, with the rounds that are left: it goes on when there was no
-- reply, or none in time.
abbrev pub after_probe : {S : Type 0} → Step S Found → Outcome Probe × S → Outcome Found × S
after_probe rest (ok (replied addr), s) = (ok (found_reply addr), s)
after_probe rest (ok retry, s) = rest s
after_probe rest (err e, s) = if is_timeout e then rest s else (err e, s)
after_probe rest (panic, s) = (panic, s)
after_probe rest (out_of_fuel, s) = (out_of_fuel, s)

-- What ipCheckingByNDP makes of the loop's result, with the address of the own interface; an error
-- of the loop is no conflict.
abbrev pub verdict : {S : Type 0} → Text → Outcome Found × S → Outcome (Unit {0}) × S
verdict own (ok (found_reply addr), s) = if text_eq addr own then (ok tt, s) else (err other, s)
verdict own (ok no_reply, s) = (ok tt, s)
verdict own (err e, s) = (ok tt, s)
verdict own (panic, s) = (panic, s)
verdict own (out_of_fuel, s) = (out_of_fuel, s)

module _ {S : Type 0} (ndp : Ndp S) where
  -- sendReceive
  unfoldable pub send_receive : Ip → Step S Probe
  unfolding probe_of
  send_receive ip6 = (λ s. wrapped (ndp.solicited_node_multicast ip6, s)) >>= λ snm.
      (λ s. wrapped (ndp.write_to snm s))
      >> (λ s. wrapped (ndp.set_read_deadline s))
      >> do msg ← ndp.read_from; pure (ok (probe_of ip6 msg))

  -- sendReceiveLoop
  unfoldable pub send_receive_loop : ℕ → Ip → Step S Found
  unfolding send_receive
  send_receive_loop zero ip6 s = (ok no_reply, s)
  send_receive_loop (suc retries) ip6 s =
      after_probe (send_receive_loop retries ip6) (send_receive ip6 s)

  -- ipCheckingByNDP
  unfoldable pub ip_checking_by_ndp : ℕ → Ip → Text → Step S (Unit {0})
  unfolding send_receive_loop text_eq
  ip_checking_by_ndp retries ip6 own s = verdict own (send_receive_loop retries ip6 s)
