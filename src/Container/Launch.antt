-- ===== src/Container/Launch.antt =====
-- runRun of run.go up to the start of the container, the identity of the processes in run.go and
-- run_container.go, the descriptors between the two, and the exit code of root.go.
pub mod Laws
use wirez.Container.Files.{fields}
use wirez.Net.Decimal.{parse_uint}
use wirez.Prelude.{
  ℕ, zero, suc, ◌+◌, ◌-◌, ◌%◌, ◌&&◌, ◌||◌, not, Bool, true, false, Option, none, some, List, [],
  ◌∷◌, ◌++◌, Bytes, bytes, length, ltb, ◌==◌, if◌then◌else◌,
}
use wirez.Throw.{
  Error, message, message_code, Result, value, failure, Fault, index_out_of_range, Outcome, ok,
  throw, panic, throw2, guard, ◌>>=◌, ◌>>◌,
}

pub data ℤ : Type 0 where
  pos : ℕ → ℤ
  negsuc : ℕ → ℤ

abbrev pub is_negative : ℤ → Bool
is_negative (pos n) = false
is_negative (negsuc n) = true

-- `n <= 0`.
abbrev pub not_positive : ℤ → Bool
not_positive (pos n) = n == 0
not_positive (negsuc n) = true

-- runFlags, as far as runRun tests it.
pub record RunFlags : Type 0 where
  pub uid : ℤ
  pub gid : ℤ
  pub forward_proxies : List Bytes
  pub connect_timeout : ℤ
  pub tcp_timeout : ℤ
  pub udp_timeout : ℤ

-- The tests of runRun, in their order.
unfoldable pub check_flags : RunFlags → Outcome (Unit {0})
check_flags f = do
  guard (not (is_negative f.uid)) (message (bytes "uid is negative"))
  guard (not (is_negative f.gid)) (message (bytes "gid is negative"))
  guard (not (length f.forward_proxies == 0)) (message (bytes "forward proxies list is empty"))
  guard
      (not
        (not_positive f.connect_timeout || not_positive f.udp_timeout || is_negative f.tcp_timeout))
      (message (bytes "timeouts must be positive (-tcp-timeout may be 0)"))

-- A number of 64 bits.
abbrev pub uint64_max : ℕ
uint64_max = 18446744073709551615

-- The test of the first line of /proc/self/uid_map.
abbrev pub is_whole_map : Option ℕ → Option ℕ → Option ℕ → Bool
is_whole_map (some container) (some host) (some size) = container == 0 && host == 0 && ltb 1 size
is_whole_map _ _ _ = false

abbrev pub of_fields : List Bytes → Bool
of_fields (a ∷ b ∷ n ∷ fs) =
    is_whole_map (parse_uint uint64_max a) (parse_uint uint64_max b) (parse_uint uint64_max n)
of_fields _ = false

abbrev pub of_uid_map : Result Bytes → Bool
of_uid_map (failure e) = false
of_uid_map (value data') = of_fields (fields data')

-- isInitialUserNamespaceRoot, for the effective uid and what reading the file gives.
unfoldable pub is_initial_user_namespace_root : ℕ → Result Bytes → Bool
is_initial_user_namespace_root euid uid_map = if not (euid == 0) then false else of_uid_map uid_map

-- syscall.SysProcIDMap and syscall.SysProcAttr, as far as they say who a process is.
pub record IdMap : Type 0 where
  pub container_id : ℕ
  pub host_id : ℕ
  pub size : ℕ

pub record SysProcAttr : Type 0 where
  pub new_user : Bool
  pub credential : Option (ℕ × ℕ)
  pub uid_mappings : List IdMap
  pub gid_mappings : List IdMap

abbrev pub uint32 : ℕ → ℕ
uint32 n = n % 4294967296

abbrev pub one_id : ℕ → ℕ → List IdMap
one_id container host = record { container_id = container; host_id = host; size = 1 } ∷ []

-- The container process, which runRun starts with its own effective ids.
unfoldable pub container_attr : Bool → ℕ → ℕ → ℕ → SysProcAttr
container_attr true gid euid egid = record {
  new_user = false;
  credential = none;
  uid_mappings = [];
  gid_mappings = [];
}
container_attr false gid euid egid = record {
  new_user = true;
  credential = some (0, uint32 gid);
  uid_mappings = one_id 0 euid;
  gid_mappings = one_id gid egid;
}

-- The command, which runContainer starts with the effective ids that it has in the container.
unfoldable pub command_attr : Bool → ℕ → ℕ → ℕ → ℕ → SysProcAttr
command_attr true uid gid euid egid = record {
  new_user = false;
  credential = some (uint32 uid, uint32 gid);
  uid_mappings = [];
  gid_mappings = [];
}
command_attr false uid gid euid egid =
    if uid == 0
    then record { new_user = false; credential = none; uid_mappings = []; gid_mappings = [] }
    else record {
      new_user = true;
      credential = some (uint32 uid, uint32 gid);
      uid_mappings = one_id uid euid;
      gid_mappings = one_id gid egid;
    }

-- The descriptors that runContainer sends.
abbrev pub sent_fds : Bool → ℕ → ℕ → ℕ → List ℕ
sent_fds dns tun udp tcp = tun ∷ (if dns then udp ∷ tcp ∷ [] else [])

abbrev pub want_fds : Bool → ℕ
want_fds use_dns = if use_dns then 3 else 1

-- ReceiveFds, for the descriptors of the message; none arrive from a container that died first.
unfoldable pub receive_fds : ℕ → List ℕ → Outcome (List ℕ)
receive_fds want [] =
    throw (message (bytes "wirez child exited before sending network file descriptors"))
receive_fds want (fd ∷ fds) =
    if not (length (fd ∷ fds) == want)
    then throw
        (message_code (bytes "received network file descriptors, not as many as wanted") want)
    else ok (fd ∷ fds)

-- tunFd, dnsUDPFd and dnsTCPFd; `none` stands for -1.
abbrev pub assigned_fds : Bool → List ℕ → Outcome (ℕ × Option (ℕ × ℕ))
assigned_fds true (tun ∷ udp ∷ tcp ∷ fds) = ok (tun, some (udp, tcp))
assigned_fds false (tun ∷ fds) = ok (tun, none)
assigned_fds _ _ = panic index_out_of_range

abbrev pub taken_fds : Bool → List ℕ → Outcome (ℕ × Option (ℕ × ℕ))
taken_fds use_dns sent = receive_fds (want_fds use_dns) sent >>= assigned_fds use_dns

-- exitCode, for the signal that ended the command, if one did, and ExitCode.
abbrev pub exit_code : Option ℕ → ℕ → ℕ
exit_code (some signal) code = 128 + signal
exit_code none code = code

-- The status of main, where `exited` is errors.As to an *exec.ExitError.
abbrev pub main_status : (Error → Option (Option ℕ × ℕ)) → Outcome (Unit {0}) → Outcome ℕ
main_status exited (ok x) = ok 0
main_status exited (throw e) = ok (elim (exited e) [ none ↦ 1 | some s ↦ exit_code s.0 s.1 ])
main_status exited (panic p) = panic p
