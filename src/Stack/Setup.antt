-- ===== src/Stack/Setup.antt =====
-- NewNetworkStack and setupRouting. tcpip.NewSubnet and the errors of netstack are parameters.
pub mod Laws
use wirez.Net.Ip.{IpNet, is_nil, to4, to16}
use wirez.Prelude.{
  ℕ, Option, none, some, List, [], ◌∷◌, ◌++◌, ◌≡◌, refl, append_assoc, append-nil, sym, ◌∙◌, ap,
  Bytes, if◌then◌else◌,
}
use wirez.Throw.{Error, Result, Outcome, ok, throw, panic, throw_if, throw2, ◌>>=◌, ◌>>◌, bind-ok}

-- tcpip.Route, whose subnet is an address with a mask.
pub record Route : Type 0 where
  pub destination : Bytes × Bytes
  pub nic : ℕ

-- defaultNICID.
abbrev pub default_nic : ℕ
default_nic = 1

-- What setupRouting makes of the address of a network: 4 bytes if it is an IPv4 address.
abbrev pub subnet_addr : Bytes → Bytes
subnet_addr ip = if is_nil (to4 ip) then to16 ip else to4 ip

module _ (parse_cidr : Bytes → Result (Bytes × IpNet))
    (new_subnet : Bytes → Bytes → Result (Bytes × Bytes)) where
  abbrev pub subnet_of : Bytes → Outcome (Bytes × Bytes)
  subnet_of network = do
    (_, n) ← throw2 (parse_cidr network)
    throw2 (new_subnet (subnet_addr n.ip) n.mask)

  -- setupRouting, on the table of routes.
  unfoldable pub setup_routing : List Route → Bytes → Outcome (List Route)
  setup_routing table network = do
    subnet ← subnet_of network
    ok (table ++ record { destination = subnet; nic = default_nic } ∷ [])

  abbrev pub setup_all : List Route → List Bytes → Outcome (List Route)
  setup_all table [] = ok table
  setup_all table (n ∷ ns) = setup_routing table n >>= λ later. setup_all later ns

  -- NewNetworkStack behind the handlers, for the errors of CreateNIC, SetPromiscuousMode and
  -- SetSpoofing: the routes of the stack.
  unfoldable pub new_network_stack :
      Option Error → Option Error → Option Error → List Bytes → Outcome (List Route)
  new_network_stack nic promiscuous spoofing networks = do
    throw_if nic
    throw_if promiscuous
    throw_if spoofing
    setup_all [] networks
