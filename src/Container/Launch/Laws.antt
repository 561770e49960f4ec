-- ===== src/Container/Launch/Laws.antt =====
-- About the launch of the container: who its processes are, and what is handed over.
use wirez.Container.Files.{fields}
use wirez.Container.Launch.{
  ℤ, is_negative, not_positive, RunFlags, check_flags, uint64_max, of_fields,
  is_initial_user_namespace_root, IdMap, SysProcAttr, uint32, one_id, container_attr, command_attr,
  sent_fds, receive_fds, taken_fds,
}
use wirez.Net.Decimal.{itoa, parse_uint-itoa}
use wirez.Prelude.{
  ℕ, ◌+◌, ◌-◌, ◌≤◌, ◌<◌, ◌≡◌, ◌≢◌, ◌↔◌, ◌&&◌, refl, sym, ap, ◌∙◌, Bool, true, false, Option, none,
  some, List, [], ◌∷◌, Bytes, length, ltb, leb, lt→ltb, ◌==◌, ==_iff, if◌then◌else◌, if_both, arith,
}
use wirez.Throw.{value, ok}

-- Whole numbers that are not negative, and those above zero.
abbrev pub IsNatural : ℤ → Type 0
IsNatural n = is_negative n ≡ false

abbrev pub IsPositive : ℤ → Type 0
IsPositive n = not_positive n ≡ false

some_proxy : (xs : List Bytes) → ((length xs == 0) ≡ false) ↔ (xs ≢ [])
some_proxy [] = (λ e. absurd (cc e), λ n. absurd (n refl))
some_proxy (x ∷ xs) = (λ e q. cc q, λ n. ground arith)

-- The flags that are run with are those with a user and a group that are not negative, a proxy to
-- forward through, and timeouts that are positive, or zero for TCP.
pub check_flags_iff :
    (f : RunFlags)
    → (check_flags f ≡ ok tt) ↔ (
        IsNatural f.uid
        × IsNatural f.gid
        × (f.forward_proxies ≢ [])
        × IsPositive f.connect_timeout
        × IsPositive f.udp_timeout
        × IsNatural f.tcp_timeout)
unfolding check_flags
check_flags_iff f = ground (arith, some_proxy f.forward_proxies)

-- The process of root in the initial user namespace is told by its map: whatever stands between and
-- behind them, the first three fields of the map are the decimals 0, 0 and a size above one.
pub is_initial_user_namespace_root_iff :
    (euid a b n : ℕ) (text : Bytes) (fs : List Bytes)
    → fields text ≡ itoa a ∷ itoa b ∷ itoa n ∷ fs
    → a ≤ uint64_max
    → b ≤ uint64_max
    → n ≤ uint64_max
    → (is_initial_user_namespace_root euid (value text) ≡ true)
      ↔ ((euid ≡ 0) × (a ≡ 0) × (b ≡ 0) × (1 < n))
unfolding is_initial_user_namespace_root
is_initial_user_namespace_root_iff euid a b n text fs e l m k =
    let whole : of_fields (fields text) ≡ (a == 0 && b == 0 && ltb 1 n) =
      rw
        (
          e,
          parse_uint-itoa uint64_max a l,
          parse_uint-itoa uint64_max b m,
          parse_uint-itoa uint64_max n k,
        )
        refl in
    rw whole (ground (arith, ==_iff euid 0, ==_iff a 0, ==_iff b 0))

-- What an id of a namespace is in the namespace around it, by the map of the namespace.
abbrev pub to_parent : List IdMap → ℕ → Option ℕ
to_parent [] i = none
to_parent (m ∷ ms) i =
    let later = to_parent ms i in
    if leb m.container_id i && ltb i (m.container_id + m.size)
    then some (m.host_id + (i - m.container_id))
    else later

-- The ids of a process that is started by a process with the ids u and g, in its own namespace, and
-- then as its starter's namespace knows them.
abbrev pub own_ids : SysProcAttr → ℕ → ℕ → ℕ × ℕ
own_ids a u g = elim (a.credential) [ none ↦ (u, g) | some c ↦ c ]

abbrev pub outside : SysProcAttr → (SysProcAttr → List IdMap) → ℕ → Option ℕ
outside a maps i = if a.new_user then to_parent (maps a) i else some i

abbrev pub and_then : Option ℕ → (ℕ → Option ℕ) → Option ℕ
and_then none f = none
and_then (some i) f = f i

to_parent-one_id : (i j k : ℕ) → k ≡ i → to_parent (one_id i j) k ≡ some j
to_parent-one_id i j k e =
    let low : leb i k ≡ true = ground (arith, e) in
    let high : ltb k (i + 1) ≡ true = lt→ltb k (i + 1) (omega (arith, e)) in
    let at : j + (k - i) ≡ j = omega (arith, e) in rw (low, high, at) refl

uint32-small : (n : ℕ) → n < 4294967296 → uint32 n ≡ n
uint32-small n l = omega (arith, l)

-- A command that its starter, a process in the container with the ids u and g, runs as uid and gid,
-- and that the host knows as euid and egid.
pub record RunsAs (container command : SysProcAttr) (u g uid gid euid egid : ℕ) : Type 0 where
  pub uid_is : (own_ids command u g).0 ≡ uid
  pub gid_is : (own_ids command u g).1 ≡ gid
  pub host_uid :
      and_then
        (outside command (λ a. a.uid_mappings) (own_ids command u g).0)
        (outside container (λ a. a.uid_mappings))
      ≡ some euid
  pub host_gid :
      and_then
        (outside command (λ a. a.gid_mappings) (own_ids command u g).1)
        (outside container (λ a. a.gid_mappings))
      ≡ some egid

-- Without privileges, and with ids that fit 32 bits, the command runs as whoever it is told to be
-- in the container, and on the host, through the maps of the namespaces around it, as the user and
-- the group that started the program.
pub command_attr-RunsAs :
    (uid gid euid egid : ℕ)
    → uid < 4294967296
    → gid < 4294967296
    → let container = container_attr false gid euid egid in
      let (u, g) = own_ids container euid egid in
      RunsAs container (command_attr false uid gid u g) u g uid gid euid egid
unfolding container_attr command_attr
command_attr-RunsAs uid gid euid egid l k =
    if_both (λ c. RunsAs (container_attr false gid euid egid) c 0 (uint32 gid) uid gid euid egid)
      (uid == 0)
      (λ e. record {
        uid_is = sym ((==_iff uid 0).0 e);
        gid_is = uint32-small gid k;
        host_uid = to_parent-one_id 0 euid 0 refl;
        host_gid = to_parent-one_id gid egid (uint32 gid) (uint32-small gid k);
      })
      (λ e. record {
        uid_is = uint32-small uid l;
        gid_is = uint32-small gid k;
        host_uid =
            ap (λ o. and_then o (to_parent (one_id 0 euid)))
              (to_parent-one_id uid 0 (uint32 uid) (uint32-small uid l))
            ∙ to_parent-one_id 0 euid 0 refl;
        host_gid =
            ap (λ o. and_then o (to_parent (one_id gid egid)))
              (to_parent-one_id gid (uint32 gid) (uint32 gid) (uint32-small gid k))
            ∙ to_parent-one_id gid egid (uint32 gid) (uint32-small gid k);
      })

-- The two halves agree on the descriptors: what the container sends is taken as the TUN device and,
-- with the resolver, its two sockets.
pub taken_fds-sent_fds :
    (dns : Bool) (tun udp tcp : ℕ)
    → taken_fds dns (sent_fds dns tun udp tcp) ≡ ok (tun, if dns then some (udp, tcp) else none)
unfolding receive_fds
taken_fds-sent_fds true tun udp tcp = refl
taken_fds-sent_fds false tun udp tcp = refl
