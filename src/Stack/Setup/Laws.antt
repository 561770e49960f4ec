-- ===== src/Stack/Setup/Laws.antt =====
-- About the routes of a new stack.
use mathlib.Core.Path.{subst}
use wirez.Net.Ip.{IpNet}
use wirez.Prelude.{Option, List, [], ◌∷◌, ◌++◌, ◌≡◌, append_assoc, append-nil, sym, ◌∙◌, ap, Bytes}
use wirez.Stack.Setup.{Route, default_nic, subnet_of, setup_routing, setup_all, new_network_stack}
use wirez.Throw.{Error, Result, ok, throw_if, bind-ok, ok-injective}

module _ (parse_cidr : Bytes → Result (Bytes × IpNet))
    (new_subnet : Bytes → Bytes → Result (Bytes × Bytes)) where
  -- The routes of a list of networks, in its order.
  pub data Routed : List Bytes → List Route → Type 0 where
    no_route : Routed [] []
    routed :
        {n : Bytes} {ns : List Bytes} {subnet : Bytes × Bytes} {rs : List Route}
        → subnet_of parse_cidr new_subnet n ≡ ok subnet
        → Routed ns rs
        → Routed (n ∷ ns) (record { destination = subnet; nic = default_nic } ∷ rs)

  setup_all-Routed :
      (table : List Route) (ns : List Bytes) {out : List Route}
      → setup_all parse_cidr new_subnet table ns ≡ ok out
      → (rs : List Route) × (out ≡ table ++ rs) × Routed ns rs
  unfolding setup_routing
  setup_all-Routed table [] e = ([], sym (ok-injective e) ∙ sym (append-nil table), no_route)
  setup_all-Routed table (n ∷ ns) e =
      let (later, first, rest) = bind-ok (setup_routing parse_cidr new_subnet table n) _ e in
      let (subnet, found, made) = bind-ok (subnet_of parse_cidr new_subnet n) _ first in
      let (rs, is, all) = setup_all-Routed later ns rest in
      let route : Route = record { destination = subnet; nic = default_nic } in
      (
        route ∷ rs,
        is ∙ ap (λ t. t ++ rs) (sym (ok-injective made)) ∙ append_assoc table (route ∷ []) rs,
        routed found all,
      )

  -- A stack that comes up has one route to each network it was given, in their order and all to its
  -- one interface, and no other route.
  pub new_network_stack_ok :
      (nic promiscuous spoofing : Option Error) (networks : List Bytes) {table : List Route}
      → new_network_stack parse_cidr new_subnet nic promiscuous spoofing networks ≡ ok table
      → Routed networks table
  unfolding new_network_stack
  new_network_stack_ok nic promiscuous spoofing networks {table} e =
      let (x, a, f) = bind-ok (throw_if nic) _ e in
      let (y, b, g) = bind-ok (throw_if promiscuous) _ f in
      let (z, c, h) = bind-ok (throw_if spoofing) _ g in
      let (rs, is, all) = setup_all-Routed [] networks h in subst (Routed networks) (sym is) all
