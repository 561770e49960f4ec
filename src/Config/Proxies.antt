-- ===== src/Config/Proxies.antt =====
-- parseProxyURL and parseProxyURLs of config.go, and its two flag types. url.Parse is a parameter:
-- what it gives of a URL that it accepts is a record of the fields that the program uses.
use wirez.Config.Options.{each}
use wirez.Net.HostPort.{split_host_port}
use wirez.Prelude.{
  sym, ℕ, ◌+◌, ◌≡◌, ap, ◌∙◌, ◌&&◌, ◌||◌, not, Bool, false, Option, List, [], ◌∷◌, ◌++◌, Bytes,
  bytes, equal, ◌==◌, if◌then◌else◌,
}
use wirez.Socks.Session.{Userinfo, Scheme, socks5, http, ProxyAddr}
use wirez.Throw.{
  bind-ok, failure, ok-injective, value, message_of, Result, Outcome, ok, throw, throw2, ◌>>=◌,
}

pub record Url : Type 0 where
  pub scheme : Bytes
  pub host : Bytes
  pub user : Option Userinfo

-- strings.Trim(s, " ").
unfoldable trim_left : Bytes → Bytes
trim_left [] = []
trim_left (c ∷ s) = let rest = trim_left s in if c == b' ' then rest else c ∷ s

abbrev without_blank : ℕ → Bytes → Bytes
without_blank c [] = if c == b' ' then [] else c ∷ []
without_blank c (d ∷ s) = c ∷ d ∷ s

unfoldable trim_right : Bytes → Bytes
trim_right [] = []
trim_right (c ∷ s) = without_blank c (trim_right s)

-- strings.Contains(s, "//").
unfoldable pub has_slashes : Bytes → Bool
has_slashes (c ∷ d ∷ s) = (c == b'/' && d == b'/') || has_slashes (d ∷ s)
has_slashes _ = false

abbrev pub with_scheme : Bytes → Bytes
with_scheme s = if not (has_slashes s) then bytes "socks5://" ++ s else s

-- The switch on the scheme.
abbrev pub scheme_of : Bytes → Bytes → Outcome Scheme
scheme_of s url =
    if equal s (bytes "socks5") || equal s (bytes "socks5h")
    then ok socks5
    else if equal s (bytes "http")
    then ok http
    else throw (message_of (bytes "unsupported proxy scheme") url)

module _ (parse : Bytes → Result Url) where
  -- parseProxyURL, behind the trim.
  abbrev pub parse_url : Bytes → Outcome ProxyAddr
  parse_url url = do
    u ← throw2 (parse url)
    scheme ← scheme_of u.scheme url
    _ ← throw2 (split_host_port u.host)
    ok (record { scheme = scheme; address = u.host; auth = u.user })

  unfoldable pub parse_proxy_url : Bytes → Outcome ProxyAddr
  unfolding trim_left trim_right
  parse_proxy_url proxy_url = parse_url (with_scheme (trim_right (trim_left proxy_url)))

  -- parseProxyURLs.
  unfoldable pub parse_proxy_urls : List Bytes → Outcome (List ProxyAddr)
  unfolding each parse_proxy_url
  parse_proxy_urls proxy_urls = each parse_proxy_url proxy_urls

-- stringArrayFlag.Set and countFlag.Set.
abbrev pub set_string_array : Bytes → List Bytes → List Bytes
set_string_array s f = f ++ s ∷ []

abbrev pub set_count : ℕ → ℕ
set_count n = n + 1

-- What parseProxyURL gives is a hop that can be dialed: its address is a host with a port, and its
-- scheme and its user are those of the URL.
pub parse_url_ok :
    (parse : Bytes → Result Url) (url : Bytes) {p : ProxyAddr}
    → parse_url parse url ≡ ok p
    → (u : Url) × (parse url ≡ value u)
      × (scheme_of u.scheme url ≡ ok p.scheme)
      × (p.address ≡ u.host)
      × (p.auth ≡ u.user)
      × ((h : Bytes × Bytes) × (split_host_port p.address ≡ value h))
parse_url_ok parse url {p} e =
    let (u, a, f) = bind-ok (throw2 (parse url)) _ e in
    let (scheme, b, g) = bind-ok (scheme_of u.scheme url) _ f in
    let (h, c, k) = bind-ok (throw2 (split_host_port u.host)) _ g in
    let same = ok-injective k in
    (
      u,
      throw2_ok (parse url) a,
      b ∙ ap (λ (q : ProxyAddr). ok q.scheme) same,
      ap (λ (q : ProxyAddr). q.address) (sym same),
      ap (λ (q : ProxyAddr). q.auth) (sym same),
      (
        h,
        ap (λ (q : ProxyAddr). split_host_port q.address) (sym same)
            ∙ throw2_ok (split_host_port u.host) c,
      ),
    )
  where
    throw2_ok : {A : Type 0} (r : Result A) {x : A} → throw2 r ≡ ok x → r ≡ value x
    throw2_ok (value y) q = ap value (ok-injective q)
    throw2_ok (failure y) q = cc q
