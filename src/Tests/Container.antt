-- ===== src/Tests/Container.antt =====
-- The container's files, and the launch of a command as an ordinary user.
use wirez.Container.Files.{fields, nameserver, resolv_conf_content, hosts_content}
use wirez.Container.Files.Fields.{IsWord, directives, literal-IsWord}
use wirez.Container.Files.Kept.{only_kept}
use wirez.Container.Files.Laws.{
  own_entries, resolv_conf_content-directives, hosts_content-directives,
}
use wirez.Container.Launch.{is_initial_user_namespace_root, container_attr, command_attr}
use wirez.Container.Launch.Laws.{RunsAs, command_attr-RunsAs}
use wirez.Container.Exit.{Ended, exited, signaled, entry_of, runs, wirez_end}
use wirez.Container.Exit.Laws.{wirez_end-shell_status}
use wirez.Container.Protocol.{
  Config, Turn, child_goes, child_fails, parent_goes, over, run, run_container, started,
}
use wirez.Container.Protocol.Orderly.{IsUp}
use wirez.Container.Protocol.Safety.{all_calls, run_container-IsUp}
use wirez.Container.Protocol.Contained.{IsContained, nowhere, run_container-IsContained}
use wirez.Container.Protocol.Healthy.{IsGoing, child, parent}
use wirez.Container.Protocol.Progress.{run_container-runs}
use wirez.Net.Decimal.{itoa}
use wirez.Net.Plain.{plain}
use wirez.Prelude.{
  suc, All, ℕ, zero, ◌<◌, ◌≡◌, ◌≢◌, ◌↔◌, refl, ◌++◌, Bool, true, false, Option, none, some, List,
  [], ◌∷◌, Bytes, bytes, arith,
}
use wirez.Throw.{message_code, cause, Error, value}

abbrev host_resolv : Bytes
host_resolv = bytes "nameserver 8.8.8.8" ++ b'\n' ∷ (bytes " search  a.b c" ++ b'\n' ∷ [])

local-IsWord : IsWord (bytes "127.0.0.1")
local-IsWord = literal-IsWord b'1' (bytes "27.0.0.1") refl

resolv_conf_content-directives_example :
    directives (resolv_conf_content plain [] true host_resolv)
    ≡ (bytes "nameserver" ∷ bytes "127.0.0.1" ∷ []) ∷ only_kept (directives host_resolv)
resolv_conf_content-directives_example =
    resolv_conf_content-directives plain [] true host_resolv local-IsWord

resolv_runs :
    only_kept (directives host_resolv) ≡ (bytes "search" ∷ bytes "a.b" ∷ bytes "c" ∷ []) ∷ []
unfolding wirez.Container.Files.Fields.of_lines fields wirez.Config.Mapping.split
    wirez.Prelude.equal
resolv_runs = refl

hosts_content-directives_example :
    directives (hosts_content (bytes "10.1.1.2") (bytes "box") (bytes "1.1.1.1 one"))
    ≡ directives (bytes "1.1.1.1 one") ++ own_entries (bytes "10.1.1.2") (bytes "box")
hosts_content-directives_example =
    hosts_content-directives (bytes "10.1.1.2") (bytes "box")
      (literal-IsWord b'1' (bytes "0.1.1.2") refl) (literal-IsWord b'b' (bytes "ox") refl)
      (bytes "1.1.1.1 one")

command_attr-RunsAs_example :
    RunsAs
      (container_attr false 100 501 20)
      (command_attr false 1000 100 0 100)
      0
      100
      1000
      100
      501
      20
unfolding container_attr
command_attr-RunsAs_example = command_attr-RunsAs 1000 100 501 20 (omega arith) (omega arith)

whole_map_runs : is_initial_user_namespace_root 0 (value (bytes "  0   0 4294967295")) ≡ true
unfolding is_initial_user_namespace_root fields wirez.Net.Decimal.parse_uint
    wirez.Net.Decimal.digits_value
whole_map_runs = refl

mapped_runs : is_initial_user_namespace_root 0 (value (bytes "  0 501 1")) ≡ false
unfolding is_initial_user_namespace_root fields wirez.Net.Decimal.parse_uint
    wirez.Net.Decimal.digits_value
mapped_runs = refl

-- A container with a resolver, and the two processes that take turns until its command runs.
abbrev box : Config
box = record {
  dns = true;
  ipv6 = false;
  gid = 100;
  hostname = bytes "box";
  pipe = 3;
  tun = 7;
  udp = 8;
  tcp = 9;
  mtu = 1500;
  tmp_resolv = bytes "/tmp/wirez-1";
  tmp_hosts = bytes "/tmp/wirez-2";
  resolv_conf = bytes "nameserver 127.0.0.1";
  hosts = bytes "127.0.0.1 box";
}

abbrev turns : ℕ → List Turn
turns zero = []
turns (suc n) = child_goes ∷ parent_goes ∷ turns n

box_runs : (run true (turns 40) (started (run_container box))).running ≡ true
unfolding run_container wirez.Container.Protocol.parent_step wirez.Container.Launch.receive_fds
    wirez.Container.Namespace.setup_ip_network wirez.Container.Namespace.bind_mount_file
box_runs = refl

-- The container fails before it has sent anything, and runRun ends with it.
box_fails :
    (run true (child_goes ∷ child_fails ∷ parent_goes ∷ []) (started (run_container box))).parent
    ≡ over
unfolding run_container wirez.Container.Protocol.parent_step
box_fails = refl

run_container-IsUp_example :
    (let w = run true (turns 40) (started (run_container box)) in
      IsUp box w.stack w.resolver × (w.done ≡ all_calls box))
run_container-IsUp_example = run_container-IsUp box (turns 40) box_runs

run_container-runs_example :
    (us : List Turn) × All IsGoing us
    × ((run true ((parent_goes ∷ child_goes ∷ []) ++ us) (started (run_container box))).running
        ≡ true)
run_container-runs_example =
    run_container-runs box (parent_goes ∷ child_goes ∷ []) (parent, (child, tt))

run_container-IsContained_example :
    IsContained false nowhere (run true (turns 40) (started (run_container box))).done
run_container-IsContained_example = run_container-IsContained box (turns 40) box_runs

-- An ExitError that keeps the code, or the signal, of its process.
abbrev exit_error : Ended → Error
exit_error (exited n) = cause n
exit_error (signaled s) = message_code [] s

abbrev seen : Error → Option (Option ℕ × ℕ)
seen (cause n) = some (none, n)
seen (message_code m s) = some (some s, 255)
seen _ = none

wirez_end-shell_status_example : wirez_end exit_error seen (signaled 9) ≡ exited 137
wirez_end-shell_status_example =
    wirez_end-shell_status exit_error seen (λ n. refl) (λ s. (255, refl)) (signaled 9) (omega arith)

arguments_run :
    entry_of (bytes "wirez" ∷ bytes "-F" ∷ bytes "a:1" ∷ []) ≡ runs (bytes "-F" ∷ bytes "a:1" ∷ [])
unfolding wirez.Prelude.equal
arguments_run = refl
