-- ===== src/Tests/Config.antt =====
-- The mapping ":80:[::1...]:8080" in the concrete spelling of addresses, and two proxies.
use wirez.Config.Mapping.Laws.{IsMappable}
use wirez.Net.HostPort.Laws.{IsHost}
use wirez.Net.Plain.{plain}
use wirez.Prelude.{refl, false, none, List, [], Bytes, bytes}
use wirez.Route.Mapper.{Mapper}
use wirez.Socks.Session.{ProxyAddr, socks5, http}

abbrev six : Bytes
six = bytes "0:0:0:0:0:0:0:0:0:0:0:0:0:0:0:1"

any-IsMappable : IsMappable plain []
any-IsMappable = record {
  no_open = refl;
  no_close = refl;
  no_slash = refl;
  literal = λ e. absurd (cc);
}

abbrev first : ProxyAddr
first = record { scheme = socks5; address = bytes "p:1080"; auth = none }

abbrev second : ProxyAddr
second = record { scheme = socks5; address = bytes "q:1080"; auth = none }

abbrev web : ProxyAddr
web = record { scheme = http; address = bytes "w:8080"; auth = none }

six-IsHost : IsHost six
six-IsHost = record { no_open = refl; no_close = refl }
