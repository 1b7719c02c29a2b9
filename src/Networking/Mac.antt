-- ===== src/Networking/Mac.antt =====
-- pkg/networking/networking/mac.go: hardware addresses made from IP addresses, and neighbours.
use virtnet.Prelude.{
  ℕ, zero, suc, ◌+◌, ◌-◌, ◌/◌, ◌%◌, List, [], ◌∷◌, ◌++◌, Option, none, some, if◌then◌else◌, ltb,
  ◌==◌, Text, take, drop, length, Outcome, ok, err, panic, other,
}
use virtnet.Ip.{Ip, nil_ip, v4, v6}
use virtnet.Networking.{Netlink, Step, family_all, ◌>>=◌, ◌>>◌, pure, in_netns, forgive, is_exist}
use virtnet.Networking.Addresses.{ip_address_by_name}

-- big.Int.Bytes: the bytes without leading zeros; an address has at most 16.
unfoldable pub byte_list : ℕ → ℕ → List ℕ
byte_list zero n = []
byte_list (suc fuel) n =
    let front = byte_list fuel (n / 256) in if n == 0 then [] else front ++ n % 256 ∷ []

unfoldable pub hex_digit : ℕ → ℕ
hex_digit d = if ltb d 10 then 48 + d else 87 + d

-- hex.Encode
unfoldable pub hex_encode : List ℕ → Text
unfolding hex_digit
hex_encode [] = []
hex_encode (b ∷ bs) = hex_digit (b / 16) ∷ hex_digit (b % 16) ∷ hex_encode bs

abbrev pub zeros : ℕ → Text
zeros zero = []
zeros (suc n) = 0 ∷ zeros n

-- The buffer of zero bytes, with the text written to its front.
unfoldable pub buffer : ℕ → Text → Text
buffer size text = text ++ zeros (size - length text)

-- The matches of `.{2}`: pairs of bytes, as there is no line break among them.
unfoldable pub pairs : Text → List Text
pairs (a ∷ b ∷ rest) = (a ∷ b ∷ []) ∷ pairs rest
pairs _ = []

-- bytes.Join
unfoldable pub join : ℕ → List Text → Text
join sep [] = []
join sep (t ∷ []) = t
join sep (t ∷ u ∷ ts) = t ++ sep ∷ join sep (u ∷ ts)

-- convertHex2Mac
unfoldable pub convert_hex_to_mac : Text → Text
unfolding pairs join
convert_hex_to_mac hex_code = join b':' (take 4 (pairs hex_code))

-- inetAton; the buffer has `hex.EncodedLen` of the number of bits.
unfoldable pub inet_aton : Ip → Outcome Text
unfolding byte_list hex_encode buffer convert_hex_to_mac
inet_aton nil_ip = err other
inet_aton (v4 n) = ok (convert_hex_to_mac (buffer 64 (hex_encode (byte_list 16 n))))
inet_aton (v6 n) = ok (convert_hex_to_mac (drop 24 (buffer 256 (hex_encode (byte_list 16 n)))))

module _ {S : Type 0} (nl : Netlink S) where
  -- `ips[0]`, which panics at an empty list.
  abbrev first_ip : List Ip → Outcome Ip
  first_ip [] = panic
  first_ip (ip ∷ ips) = ok ip

  -- OverwriteHwAddress; net.ParseMAC of parseMac is the argument `parse_mac`, and panics on error.
  unfoldable pub overwrite_hw_address : (Text → Option Text) → Text → Text → Step S Text
  unfolding inet_aton ip_address_by_name
  overwrite_hw_address parse_mac mac_prefix iface = do
    ips ← ip_address_by_name nl iface family_all
    ip ← pure (first_ip ips)
    suffix ← pure (inet_aton ip)
    let hw_addr = mac_prefix ++ b':' ∷ suffix
    in_netns nl (do
      link ← nl.link_by_name iface
      mac ← pure (elim (parse_mac hw_addr) [ none ↦ panic | some mac ↦ ok mac ])
      nl.link_set_hardware_addr link mac)
    pure (ok hw_addr)

  -- GetHwAddressByName: the address of the host's end and of the pod's end.
  unfoldable pub get_hw_address_by_name : Text → Text → Step S (Text × Text)
  get_hw_address_by_name pod_veth_pair_name host_veth_pair_name = do
    pod_link ← in_netns nl (nl.link_by_name pod_veth_pair_name)
    host_link ← nl.link_by_name host_veth_pair_name
    pure (ok (host_link.hardware_addr, pod_link.hardware_addr))

  -- GetHostVethName
  unfoldable pub get_host_veth_name : Text → Step S Text
  get_host_veth_name pod_veth_pair_name = do
    parent_index ← in_netns nl (do
      link ← nl.link_by_name pod_veth_pair_name
      pure (elim link.parent_index [ none ↦ err other | some i ↦ ok i ]))
    host_link ← nl.link_by_index parent_index
    pure (ok host_link.name)

  -- AddStaticNeighborTable: a neighbour that exists is no error.
  unfoldable pub add_static_neighbor_table : ℕ → Ip → Text → Step S (Unit {0})
  add_static_neighbor_table link_index dst_ip hw_address s =
      forgive is_exist (
        nl.neigh_add (record { link_index = link_index; ip = dst_ip; hardware_addr = hw_address })
          s)
