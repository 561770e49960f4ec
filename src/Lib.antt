-- ===== src/Lib.antt =====
-- wirez: the parts of the program that decide where a connection goes and how it gets there.
--
-- wirez runs a command in a network namespace of its own and carries its traffic through a chain
-- of proxies. A connection of the container is handed to a connector: localForwardingConnector
-- (connect.go) applies the -L mappings, refuses the network of the TUN device, sends the -B networks
-- out directly, through NAT64 where needed, and gives the rest to the chain of proxies that
-- buildProxyChain (run.go) makes of the -F hops. A SOCKS5 hop (socks5.go) dials the proxy through
-- the hop before it, negotiates and requests. UDP flows of one source share an association
-- (udp_assoc.go), which demultiplexes the replies. An HTTP hop (httpproxy.go) asks for a tunnel with
-- CONNECT. The stack (network_stack.go) hands the container's connections to a connector, and filters
-- its packets. The connection that a connector returns is relayed to the container's (transport.go).
-- DNS queries go to the -D upstreams (resolver.go).
--
-- The files and what they model:
--   Prelude    shared names; tests, lists, byte strings, and a Go map as an association list
--   Net        net.JoinHostPort, net.SplitHostPort, strconv and net.IPNet, hostPort of connect.go;
--              net.ParseIP and IP.String are the interface Net/IpText, with their documented laws
--   Throw      throw.go: a function that may throw returns an Outcome, a Go pair a Result
--   Conn       a connection under explicit state: unread bytes, bytes sent, deadline, closed
--   Socks      socks5.go: Wire the formats, Session the handshake, the request and connect,
--              Associate the connections of a UDP association, Dial the loop that opens a flow
--   Route      connect.go: Mapper, Nat64, and Dial, which composes them
--   Dns        resolver.go: Upstreams the failover, for one query and, in Shared, for queries that
--              run at the same time, Policy and resolveDNS, Stream the TCP framing, Server the
--              handlers of the container's queries and the exchange with an upstream, Serve the
--              loops that start the handlers
--   Udp        udp_assoc.go: Association with its flows, its operations as steps; Slots, the
--              associations that the UDP connector of socks5.go shares, as a step relation
--   Config     config.go and the parsing in resolver.go: Mapping -L, Proxies -F, Options the others;
--              the chain of proxies of run.go
--   Relay      transport.go: the two relays as a step relation, and Transport on their reports
--   Http       httpproxy.go: Tunnel, over Reader, which is bufio and net/textproto, and Base64
--   Stack      network_stack.go: Filter the rules for packets, Handlers the handlers of TCP and UDP,
--              Echo the ICMP responder, Setup the routes; TimeoutConn of transport.go
--   Chain      run.go with the connectors of socks5.go and httpproxy.go: a dial through all hops
--   Wiring     run.go: what the parts are made with, from the texts of the flags
--   Container  run_container.go, run.go, root.go: Files the resolv.conf and hosts of the container,
--              Launch the flags, the ids of the processes, the descriptors and the exit status,
--              Namespace the system calls that set up the container, Protocol the two processes and
--              the control socket between them, Exit the status of the command on its way out
--   Tests      concrete runs, with the theorems applied to them
-- A function keeps its Go name in snake_case: socks5ParseUDPDatagram is parse_udp_datagram, and
-- localForwardingConnector.DialContext is dial. A number of a fixed width is a natural number with
-- its bound written out. An error keeps its arguments; its text is not modelled.
--
-- Loops: the answers of a DNS message are read with one round more than the parser has resources
-- left, which is enough because each round that goes on uses one up. The digits of n are printed
-- with n + 1 rounds, more than n has digits. The header of an HTTP answer is read with one round
-- more than there are bytes, and handleDNSStream with more rounds than its client sends bytes: each
-- round takes a byte at least. The loop that opens a UDP flow runs on fuel, one round more than
-- there are associations that close in between. Processes and queries that run at
-- the same time take their steps in the order of a list, which may be any list. Every other loop is
-- recursion on the list it ranges over.
--
-- Outside the source and therefore parameters: net.ParseIP and IP.String, net.ParseCIDR, url.Parse,
-- dnsmessage, the exchange with an upstream, the connectors below a connector, how far bufio reads
-- ahead, which lines net/textproto takes as header fields, which errors are timeouts, and of gVisor
-- the constants and accessors of headers and the traversal of a table of rules.
--
-- Not modelled: gVisor's netstack and the calls that only set it up, what a system call does in the
-- kernel (processes, mounts, netlink), the JSON of the control socket, of which a message is a value,
-- what makes a timer fire, and the command line that the package flag parses.
pub mod Prelude
pub mod Net
pub mod Throw
pub mod Conn
pub mod Socks
pub mod Route
pub mod Dns
pub mod Udp
pub mod Config
pub mod Relay
pub mod Http
pub mod Stack
pub mod Container
pub mod Chain
pub mod Wiring
pub mod Tests
