-- ===== src/Config/Options/Chains.antt =====
-- About buildProxyChain of run.go, by the number of its hops.
use wirez.Config.Options.{
  Chain, direct, via_socks5, over_udp, unsupported_udp, is_http, hop, tcp_hops, udp_hops,
  build_proxy_chain,
}
use wirez.Prelude.{◌≡◌, refl, ◌∙◌, ◌||◌, Bool, true, false, List, [], ◌∷◌, ◌++◌, arith}
use wirez.Socks.Session.{ProxyAddr}

abbrev has_http : List ProxyAddr → Bool
has_http [] = false
has_http (p ∷ ps) = is_http p.scheme || has_http ps

tcp_hops-append :
    (c : Chain) (ps : List ProxyAddr) (p : ProxyAddr)
    → (tcp_hops c (ps ++ p ∷ [])).0 ≡ hop (tcp_hops c ps).0 p
unfolding tcp_hops
tcp_hops-append c [] p = refl
tcp_hops-append c (q ∷ qs) p = tcp_hops-append (hop c q) qs p

tcp_hops-http : (c : Chain) (ps : List ProxyAddr) → (tcp_hops c ps).2 ≡ has_http ps
unfolding tcp_hops
tcp_hops-http c [] = refl
tcp_hops-http c (q ∷ qs) = rw (tcp_hops-http (hop c q) qs) refl

udp_hops-append :
    (c u : Chain) (ps : List ProxyAddr) (p : ProxyAddr)
    → udp_hops u (tcp_hops c (ps ++ p ∷ [])).1 (ps ++ p ∷ [])
      ≡ over_udp (tcp_hops c ps).0 (udp_hops u (tcp_hops c ps).1 ps) p
unfolding tcp_hops udp_hops
udp_hops-append c u [] p = refl
udp_hops-append c u (q ∷ qs) p = udp_hops-append (hop c q) (over_udp c u q) qs p

has_http-append :
    (ps : List ProxyAddr) (p : ProxyAddr)
    → has_http (ps ++ p ∷ []) ≡ false
    → (has_http ps ≡ false) × (is_http p.scheme ≡ false)
has_http-append [] p h = (refl, ground arith)
has_http-append (q ∷ qs) p h =
    let rest = has_http-append qs p (ground arith) in (ground arith, rest.1)

-- Of SOCKS5 hops alone, one hop more is reached through all the others: its TCP connections and the
-- control connection of its UDP associations are opened through the TCP chain before it, and its
-- datagrams go through the UDP chain before it.
pub build_proxy_chain-append :
    (ps : List ProxyAddr) (p : ProxyAddr)
    → has_http (ps ++ p ∷ []) ≡ false
    → ((build_proxy_chain (ps ++ p ∷ [])).0 ≡ via_socks5 (build_proxy_chain ps).0 p)
      × ((build_proxy_chain (ps ++ p ∷ [])).1
          ≡ over_udp (build_proxy_chain ps).0 (build_proxy_chain ps).1 p)
unfolding build_proxy_chain
build_proxy_chain-append ps p h =
    let (few, last) = has_http-append ps p h in
    (
      tcp_hops-append direct ps p ∙ rw last refl,
      rw (tcp_hops-http direct (ps ++ p ∷ []), h, tcp_hops-http direct ps, few)
          (udp_hops-append direct direct ps p),
    )

-- One HTTP hop anywhere is no UDP at all.
pub build_proxy_chain_http :
    (ps : List ProxyAddr) → has_http ps ≡ true → (build_proxy_chain ps).1 ≡ unsupported_udp
unfolding build_proxy_chain
build_proxy_chain_http ps h = rw (tcp_hops-http direct ps, h) refl
