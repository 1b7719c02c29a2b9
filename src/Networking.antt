-- ===== src/Networking.antt =====
-- pkg/networking/networking over an interface to the vendored netlink, which the kernel stands
-- behind: the state of the host and of the pod's network namespace is a parameter of the model.
pub mod CallLaws
pub mod MovingLaws
pub mod Mac
pub mod MacLaws
pub mod Addresses
pub mod Routes
pub mod Moving
pub mod Checking
pub mod CheckingLaws
pub mod Arp
pub mod ArpLaws
use virtnet.Prelude.{
  ℕ, if◌then◌else◌, Bool, true, false, List, [], ◌∷◌, Option, none, some, Text, Outcome, ok, err,
  panic, out_of_fuel, other, Error,
}
use virtnet.Ip.{Ip, IpNet, nil_ip}

-- netlink.FAMILY_V4, FAMILY_V6 and FAMILY_ALL; any other number is an unknown family.
pub data Family : Type 0 where
  family_v4 family_v6 family_all family_unknown : Family

pub record Link : Type 0 where
  pub index : ℕ
  pub name : Text
  pub hardware_addr : Text
  -- The index of the peer; `none` is a negative number.
  pub parent_index : Option ℕ

-- netlink.SCOPE_UNIVERSE and SCOPE_LINK
pub data Scope : Type 0 where
  scope_universe scope_link : Scope

pub record NextHop : Type 0 where
  pub link_index : ℕ
  pub gw : Ip

pub record Route : Type 0 where
  pub link_index : ℕ
  pub scope : Scope
  pub dst : Option IpNet
  pub src : Ip
  pub gw : Ip
  pub table : ℕ
  pub family : Family
  pub multi_path : List NextHop
  pub mtu : ℕ

pub record Rule : Type 0 where
  pub table : ℕ
  pub mark : Option ℕ
  pub family : Option Family
  pub priority : Option ℕ
  pub dst : Option IpNet
  pub src : Option IpNet

-- netlink.NewRule
abbrev pub new_rule : Rule
new_rule = record { table = 0; mark = none; family = none; priority = none; dst = none; src = none }

pub record Neigh : Type 0 where
  pub link_index : ℕ
  pub ip : Ip
  pub hardware_addr : Text

-- A call that reads and changes the state of the host.
abbrev pub Step {ℓ} : Type 0 → Type ℓ → Type ℓ
Step S A = S → Outcome A × S

-- The calls of netlink, of the pod's network namespace and of the vendored helpers. `not_found`
-- stands for os.IsNotExist and LinkNotFoundError, `exists` for os.IsExist.
pub record Netlink (S : Type 0) : Type 0 where
  pub link_by_name : Text → Step S Link
  pub link_by_index : ℕ → Step S Link
  pub link_list : Step S (List Link)
  pub link_add : Text → Step S (Unit {0})
  pub link_del : Link → Step S (Unit {0})
  pub link_set_up : Text → Step S (Unit {0})
  pub link_set_hardware_addr : Link → Text → Step S (Unit {0})
  pub link_set_bond_slave : Link → Text → Step S (Unit {0})
  pub addr_list : Link → Family → Step S (List Ip)
  pub route_get : Ip → Step S (List Route)
  pub route_list : Option Link → Family → Step S (List Route)
  pub route_list_table : Family → ℕ → Step S (List Route)
  pub route_add : Route → Step S (Unit {0})
  pub route_del : Route → Step S (Unit {0})
  pub rule_add : Rule → Step S (Unit {0})
  pub rule_del : Rule → Step S (Unit {0})
  pub neigh_list : Family → Step S (List Neigh)
  pub neigh_add : Neigh → Step S (Unit {0})
  pub neigh_del : Neigh → Step S (Unit {0})
  -- mac.GenerateRandMAC
  pub generate_rand_mac : Step S Text
  -- ip.SetupVethWithName: the pod's end, the host's end, the address; gives the pod's interface.
  pub setup_veth_with_name : Text → Text → Text → Step S Text
  -- The change to the pod's namespace in NetNS.Do, and the change back.
  pub enter : Step S (Unit {0})
  pub leave : S → S
  -- IP.IsMulticast and IP.IsLinkLocalUnicast
  pub is_multicast : Ip → Bool
  pub is_link_local_unicast : Ip → Bool
  -- The match of a regular expression; `none` if it does not compile.
  pub matches : Text → Option (Text → Bool)

-- Goes on with the value of a call, or stops with its failure.
abbrev pub and_then {ℓ κ} :
    {S : Type 0} {A : Type ℓ} {B : Type κ} → Outcome A × S → (A → Step S B) → Outcome B × S
and_then (ok a, s) f = f a s
and_then (err e, s) f = (err e, s)
and_then (panic, s) f = (panic, s)
and_then (out_of_fuel, s) f = (out_of_fuel, s)

infixl 5 ◌>>=◌ ◌>>◌
abbrev pub ◌>>=◌ {ℓ κ} :
    {S : Type 0} {A : Type ℓ} {B : Type κ} → Step S A → (A → Step S B) → Step S B
◌>>=◌ m f s = and_then (m s) f

abbrev pub ◌>>◌ {ℓ} : {S : Type 0} {B : Type ℓ} → Step S (Unit {0}) → Step S B → Step S B
m >> k = m >>= λ _. k

abbrev pub pure {ℓ} : {S : Type 0} {A : Type ℓ} → Outcome A → Step S A
pure r s = (r, s)

-- An error of that kind counts as success.
abbrev pub forgive : {S : Type 0} → (Error → Bool) → Outcome (Unit {0}) × S → Outcome (Unit {0}) × S
forgive f (ok a, s) = (ok a, s)
forgive f (err e, s) = if f e then (ok tt, s) else (err e, s)
forgive f (panic, s) = (panic, s)
forgive f (out_of_fuel, s) = (out_of_fuel, s)

-- The result of a call that is not looked at; a panic still is one.
abbrev pub ignore_error {ℓ} : {S : Type 0} {A : Type ℓ} → Outcome A × S → Outcome (Unit {0}) × S
ignore_error (ok a, s) = (ok tt, s)
ignore_error (err e, s) = (ok tt, s)
ignore_error (panic, s) = (panic, s)
ignore_error (out_of_fuel, s) = (out_of_fuel, s)

-- The list of a call whose error is logged only.
abbrev pub or_nothing {ℓ} : {S : Type 0} {A : Type ℓ} → Outcome (List A) × S → Outcome (List A) × S
or_nothing (ok xs, s) = (ok xs, s)
or_nothing (err e, s) = (ok [], s)
or_nothing (panic, s) = (panic, s)
or_nothing (out_of_fuel, s) = (out_of_fuel, s)

-- os.IsExist
abbrev pub is_exist : Error → Bool
is_exist Error.exists = true
is_exist _ = false

-- os.IsNotExist
abbrev pub is_not_exist : Error → Bool
is_not_exist Error.not_found = true
is_not_exist _ = false

-- NetNS.Do
abbrev pub in_netns {ℓ} : {S : Type 0} {A : Type ℓ} → Netlink S → Step S A → Step S A
in_netns nl f s = and_then (nl.enter s) λ _ s1. let r = f s1 in (r.0, nl.leave r.1)
