-- ===== src/Container/Namespace.antt =====
-- The system calls of run_container.go that set up the container: the TUN device, the loopback,
-- the sockets of the resolver, the network, and the files that are mounted over the host's. A call
-- is recorded with its arguments; what it does in the kernel is not modelled.
use wirez.Config.Mapping.{split}
use wirez.Container.Files.{tun_network_addr}
use wirez.Net.Decimal.{itoa}
use wirez.Prelude.{ℕ, Bool, true, false, List, [], ◌∷◌, ◌++◌, Bytes, bytes, if◌then◌else◌}

-- The gateway of a default route, and whether an address skips duplicate detection.
pub data Gateway : Type 0 where
  address_of : Bytes → Gateway
  none_v6 : Gateway

pub data Effect : Type 0 where
  set_hostname : Bytes → Effect
  close_on_exec : ℕ → Effect
  open_tun : Bytes → Effect
  set_queue_length : Bytes → ℕ → Effect
  link_up : Bytes → Effect
  add_address : Bytes → Bytes → Bool → Effect
  add_default_route : Bytes → Gateway → Effect
  bind_datagram : Bytes → ℕ → Effect
  listen_stream : Bytes → ℕ → Effect
  make_temp : Effect
  write_file : Bytes → Bytes → Effect
  mount_private : Bytes → Effect
  mount_tmpfs : Bytes → Effect
  mount_bind : Bytes → Bytes → Effect
  unmount : Bytes → Effect
  remove : Bytes → Effect

-- loDevice, tunDevice and tunNetworkAddrV6.
abbrev pub lo_device : Bytes
lo_device = bytes "lo"

abbrev pub tun_device : Bytes
tun_device = bytes "tun0"

abbrev pub tun_network_addr_v6 : Bytes
tun_network_addr_v6 = bytes "2001:db8:1:1::1/64"

-- setupLoopback; an error of the first call is ignored.
abbrev pub setup_loopback : List Effect
setup_loopback = add_address lo_device (bytes "127.0.0.1/8") false ∷ link_up lo_device ∷ []

-- createResolverSockets.
abbrev pub create_resolver_sockets : List Effect
create_resolver_sockets =
    bind_datagram (bytes "127.0.0.1") 53 ∷ listen_stream (bytes "127.0.0.1") 53 ∷ []

-- allowPing, whose error is ignored.
abbrev pub allow_ping : ℕ → List Effect
allow_ping gid =
    write_file (bytes "/proc/sys/net/ipv4/ping_group_range")
      (itoa gid ++ b' ' ∷ (itoa gid ++ b'\n' ∷ []))
    ∷ []

-- tunQueueLength.
abbrev pub tun_queue_length : ℕ
tun_queue_length = 10000

-- setupIPAddress.
abbrev pub setup_ip_address : Bytes → Bytes → List Effect
setup_ip_address device network_addr =
    set_queue_length device tun_queue_length
    ∷ link_up device
    ∷ add_address device network_addr false
    ∷ []

abbrev pub setup_v6 : List Effect
setup_v6 =
    add_address tun_device tun_network_addr_v6 true ∷ add_default_route tun_device none_v6 ∷ []

-- setupIPNetwork.
unfoldable pub setup_ip_network : Bool → ℕ → List Effect
setup_ip_network ipv6 gid =
    setup_loopback
    ++ (allow_ping gid
        ++ (setup_ip_address tun_device tun_network_addr
            ++ add_default_route tun_device (address_of tun_network_addr)
              ∷ (if ipv6 then setup_v6 else [])))

-- makeMountsPrivate.
abbrev pub make_mounts_private : Effect
make_mounts_private = mount_private (bytes "/")

-- filepath.Base of a path with no slash at its end.
abbrev pub last_of : Bytes → List Bytes → Bytes
last_of s [] = s
last_of s (t ∷ ts) = last_of t ts

abbrev pub base : Bytes → Bytes
base path = last_of [] (split b'/' path)

-- bindMountFile, for the directory that os.MkdirTemp made.
unfoldable pub bind_mount_file : Bytes → Bytes → Bytes → List Effect
bind_mount_file tmp_dir target content =
    let tmp_file = tmp_dir ++ b'/' ∷ base target in
    make_temp
    ∷ mount_tmpfs tmp_dir
    ∷ write_file tmp_file content
    ∷ mount_bind tmp_file target
    ∷ unmount tmp_dir
    ∷ remove tmp_dir
    ∷ []
