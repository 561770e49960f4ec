-- ===== src/Container/Files/Laws.antt =====
-- About what programs in the container read from resolv.conf and hosts.
use wirez.Config.Mapping.{split}
use wirez.Container.Files.{
  is_space, fields, join, keep_lines, resolv_conf_content, trimmed, trim_newlines, host_line,
  own_hosts, host_entries, hosts_content,
}
use wirez.Container.Files.Fields.{
  no_space-All, no_space, IsWord, literal-IsWord, directives-append, of_lines, directives,
  directives-join,
}
use wirez.Container.Files.Kept.{only_kept, directives-keep_lines}
use wirez.Net.IpText.{IpText}
use wirez.Prelude.{
  ℕ, zero, suc, ◌≡◌, inl, inr, refl, sym, ap, ◌∙◌, Bool, true, false, List, [], ◌∷◌, ◌++◌,
  append_assoc, append-nil, Bytes, bytes, All, All-append, Bool-cases, ◌==◌, ==_iff,
}

-- The server that the container asks: the resolver at 127.0.0.1 if there is one, the address behind
-- the TUN device otherwise.
abbrev pub server : IpText → Bytes → Bool → Bytes
server t peer true = bytes "127.0.0.1"
server t peer false = t.ip_string peer

directives_behind_server :
    (w : Bytes) (ls : List Bytes)
    → IsWord w
    → directives ((bytes "nameserver " ++ (w ++ b'\n' ∷ [])) ++ keep_lines ls)
      ≡ (bytes "nameserver" ∷ w ∷ []) ∷ only_kept (of_lines ls)
directives_behind_server w ls v =
    let kept = keep_lines ls in
    let text : (bytes "nameserver " ++ (w ++ b'\n' ∷ [])) ++ kept
        ≡ join (bytes "nameserver" ∷ w ∷ []) ++ b'\n' ∷ kept =
      ap (λ x. bytes "nameserver " ++ x) (append_assoc w (b'\n' ∷ []) kept) in
    ap directives text
    ∙ directives-join (bytes "nameserver") (w ∷ []) kept
        (literal-IsWord b'n' (bytes "ameserver") refl, (v, tt))
    ∙ ap (λ x. (bytes "nameserver" ∷ w ∷ []) ∷ x) (directives-keep_lines ls)

-- The resolver of the container reads one nameserver, 127.0.0.1 if there is a local resolver and the
-- address behind the TUN device if there is none, and then exactly the search, domain, options and sortlist lines of the host's file,
-- field by field and in their order. The name of the server's address has no space in it.
pub resolv_conf_content-directives :
    (t : IpText) (peer : Bytes) (dns : Bool) (host_resolv : Bytes)
    → IsWord (server t peer dns)
    → directives (resolv_conf_content t peer dns host_resolv)
      ≡ (bytes "nameserver" ∷ server t peer dns ∷ []) ∷ only_kept (directives host_resolv)
unfolding resolv_conf_content
resolv_conf_content-directives t peer true host_resolv v =
    directives_behind_server (bytes "127.0.0.1") (split b'\n' host_resolv) v
resolv_conf_content-directives t peer false host_resolv v =
    directives_behind_server (t.ip_string peer) (split b'\n' host_resolv) v

-- Newlines at the end of a file make no difference.
abbrev newlines : ℕ → Bytes
newlines zero = []
newlines (suc n) = b'\n' ∷ newlines n

directives-nil : directives [] ≡ []
unfolding of_lines split fields
directives-nil = refl

directives-newlines : (n : ℕ) → directives (newlines n) ≡ []
directives-newlines zero = directives-nil
directives-newlines (suc n) =
    directives-append [] (newlines n) ∙ rw (directives-nil, directives-newlines n) refl

directives_behind : (s : Bytes) (n : ℕ) → directives (s ++ newlines n) ≡ directives s
directives_behind s zero = ap directives (append-nil s)
directives_behind s (suc n) =
    directives-append s (newlines n)
    ∙ ap (λ x. directives s ++ x) (directives-newlines n)
    ∙ append-nil (directives s)

trim_newlines_rest : (s : Bytes) → (n : ℕ) × (s ≡ trim_newlines s ++ newlines n)
unfolding trim_newlines
trim_newlines_rest [] = (0, refl)
trim_newlines_rest (c ∷ s) = let (n, e) = trim_newlines_rest s in with_first (trim_newlines s) n e
  where
    with_first :
        (r : Bytes) (n : ℕ) → s ≡ r ++ newlines n → (m : ℕ) × (c ∷ s ≡ trimmed c r ++ newlines m)
    with_first [] n e = elim (Bool-cases (c == b'\n')) [
      | inl k ↦ (suc n, rw k (rw ((==_iff c b'\n').0 k, e) refl))
      | inr k ↦ (n, rw k (ap (◌∷◌ c) e))
    ]
    with_first (d ∷ r) n e = (n, ap (◌∷◌ c) e)

directives-trim_newlines : (s : Bytes) → directives (trim_newlines s) ≡ directives s
directives-trim_newlines s =
    let (n, e) = trim_newlines_rest s in
    sym (directives_behind (trim_newlines s) n) ∙ ap directives (sym e)

host_line-directives :
    (address f : Bytes) (fs : List Bytes) (rest : Bytes)
    → All IsWord (address ∷ f ∷ fs)
    → directives (host_line address (join (f ∷ fs)) ++ rest) ≡ (address ∷ f ∷ fs) ∷ directives rest
host_line-directives address f fs rest v =
    let names = join (f ∷ fs) in
    let text : host_line address names ++ rest ≡ join (address ∷ f ∷ fs) ++ b'\n' ∷ rest =
      append_assoc address (b' ' ∷ (names ++ b'\n' ∷ [])) rest
      ∙ ap (λ x. address ++ b' ' ∷ x) (append_assoc names (b'\n' ∷ []) rest)
      ∙ sym (append_assoc address (b' ' ∷ names) (b'\n' ∷ rest)) in
    ap directives text ∙ directives-join address (f ∷ fs) rest v

-- The entries that are the program's own.
abbrev pub own_entries : Bytes → Bytes → List (List Bytes)
own_entries peer hostname =
    let names = hostname ∷ (hostname ++ bytes ".localdomain") ∷ [] in
    (bytes "127.0.0.1" ∷ bytes "localhost" ∷ [])
    ∷ (bytes "::1" ∷ bytes "localhost" ∷ [])
    ∷ (peer ∷ bytes "localhost" ∷ [])
    ∷ (bytes "127.0.0.1" ∷ names)
    ∷ (bytes "::1" ∷ names)
    ∷ []

IsWord-append :
    (w : Bytes) (c : ℕ) (s : Bytes) → IsWord w → no_space (c ∷ s) ≡ true → IsWord (w ++ c ∷ s)
IsWord-append [] c s v h = literal-IsWord c s h
IsWord-append (d ∷ w) c s v h =
    (λ e. cc, All-append (λ x. is_space x ≡ false) (d ∷ w) (c ∷ s) v.1 (no_space-All (c ∷ s) h))

module _ (peer hostname : Bytes) (p : IsWord peer) (n : IsWord hostname) where
  own-directives : directives (own_hosts peer hostname) ≡ own_entries peer hostname
  own-directives =
      let loopback = literal-IsWord b'1' (bytes "27.0.0.1") refl in
      let six = literal-IsWord b':' (bytes ":1") refl in
      let local = literal-IsWord b'l' (bytes "ocalhost") refl in
      let full = IsWord-append hostname b'.' (bytes "localdomain") n refl in
      let long = hostname ++ bytes ".localdomain" in
      let fqdn = hostname ++ b' ' ∷ long in
      let fifth = host_line (bytes "::1") fqdn in
      let fourth = host_line (bytes "127.0.0.1") fqdn ++ fifth in
      let third = host_line peer (bytes "localhost") ++ fourth in
      let second = host_line (bytes "::1") (bytes "localhost") ++ third in
      let e₅ =
        ap directives (sym (append-nil fifth))
        ∙ host_line-directives (bytes "::1") hostname (long ∷ []) [] (six, (n, (full, tt)))
        ∙ ap (λ x. (bytes "::1" ∷ hostname ∷ long ∷ []) ∷ x) directives-nil in
      let e₄ =
        host_line-directives (bytes "127.0.0.1") hostname (long ∷ []) fifth
          (loopback, (n, (full, tt)))
        ∙ ap (λ x. (bytes "127.0.0.1" ∷ hostname ∷ long ∷ []) ∷ x) e₅ in
      let e₃ =
        host_line-directives peer (bytes "localhost") [] fourth (p, (local, tt))
        ∙ ap (λ x. (peer ∷ bytes "localhost" ∷ []) ∷ x) e₄ in
      let e₂ =
        host_line-directives (bytes "::1") (bytes "localhost") [] third (six, (local, tt))
        ∙ ap (λ x. (bytes "::1" ∷ bytes "localhost" ∷ []) ∷ x) e₃ in
      host_line-directives (bytes "127.0.0.1") (bytes "localhost") [] second (loopback, (local, tt))
      ∙ ap (λ x. (bytes "127.0.0.1" ∷ bytes "localhost" ∷ []) ∷ x) e₂

  -- A program in the container that looks through its hosts file finds all of the host's entries,
  -- in their order and first, and behind them the loopback addresses and the address behind the TUN
  -- device for localhost and the loopback addresses for the container's own name, whatever the
  -- host's file is and however it ends. The two texts that are put in have no space in them.
  pub hosts_content-directives :
      (host_hosts : Bytes)
      → directives (hosts_content peer hostname host_hosts)
        ≡ directives host_hosts ++ own_entries peer hostname
  unfolding hosts_content
  hosts_content-directives host_hosts =
      entries (trim_newlines host_hosts)
      ∙ ap (λ x. x ++ own_entries peer hostname) (directives-trim_newlines host_hosts)
    where
      entries :
          (s : Bytes)
          → directives (host_entries (own_hosts peer hostname) s)
            ≡ directives s ++ own_entries peer hostname
      entries [] = own-directives ∙ ap (λ x. x ++ own_entries peer hostname) (sym directives-nil)
      entries (c ∷ s) =
          directives-append (c ∷ s) (own_hosts peer hostname)
          ∙ ap (λ x. directives (c ∷ s) ++ x) own-directives
