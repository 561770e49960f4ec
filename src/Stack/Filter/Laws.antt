-- ===== src/Stack/Filter/Laws.antt =====
-- About the filter table.
use wirez.Prelude.{◌≤◌, ◌≡◌, ◌⊎◌, Bool, true, false, Bytes, length}
use wirez.Stack.Filter.{Header, Packet, icmp_of}

-- An echo request or its reply, whole enough to carry a type.
abbrev pub IsEcho : Header → Bool → Bytes → Type 0
IsEcho k true h =
    (k.icmp6_minimum ≤ length h)
    × ((k.icmp6_type h ≡ k.icmp6_echo_request) ⊎ (k.icmp6_type h ≡ k.icmp6_echo_reply))
IsEcho k false h =
    (k.icmp4_minimum ≤ length h)
    × ((k.icmp4_type h ≡ k.icmp4_echo) ⊎ (k.icmp4_type h ≡ k.icmp4_echo_reply))

-- What may pass between the container and the stack.
abbrev pub IsAllowed : Header → Bool → Packet → Type 0
IsAllowed k v6 p =
    (p.protocol ≡ k.tcp)
    ⊎ ((p.protocol ≡ k.udp) ⊎ ((p.protocol ≡ icmp_of k v6) × IsEcho k v6 p.transport_header))
