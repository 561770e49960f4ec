-- ===== src/Container/Protocol.antt =====
-- runRun of run.go and runContainer of run_container.go from the start of the container on, as two
-- processes that talk over the control socket. Their steps come in any order, and any step of
-- either may fail, which ends the process; a process that is gone is seen by the other as EOF.
pub mod Orderly
pub mod Safety
pub mod Contained
pub mod Healthy
pub mod Running
pub mod Progress
use wirez.Container.Launch.{taken_fds, sent_fds}
use wirez.Container.Namespace.{
  Effect, set_hostname, close_on_exec, open_tun, setup_loopback, create_resolver_sockets,
  setup_ip_network, make_mounts_private, bind_mount_file, tun_device,
}
use wirez.Prelude.{
  ℕ, Bool, true, false, Option, none, some, List, [], ◌∷◌, ◌++◌, Bytes, bytes, map, if◌then◌else◌,
}
use wirez.Throw.{Outcome, ok, throw, panic}

-- What one half is told by its flags and by the system: the descriptors that it opens, the MTU of
-- the device, the temporary directories, and the contents of the two files.
pub record Config : Type 0 where
  pub dns : Bool
  pub ipv6 : Bool
  pub gid : ℕ
  pub hostname : Bytes
  pub pipe : ℕ
  pub tun : ℕ
  pub udp : ℕ
  pub tcp : ℕ
  pub mtu : ℕ
  pub tmp_resolv : Bytes
  pub tmp_hosts : Bytes
  pub resolv_conf : Bytes
  pub hosts : Bytes

pub data Message : Type 0 where
  rights : List ℕ → Message
  mtu_is : ℕ → Message

-- What runContainer does next.
pub data Instr : Type 0 where
  does : Effect → Instr
  sends : Message → Instr
  receives_ack : Instr
  runs_command : Instr

module _ (c : Config) where
  -- The calls in front of the first message, and those behind the ACK.
  abbrev pub opening : List Effect
  opening =
      set_hostname c.hostname
      ∷ close_on_exec c.pipe
      ∷ open_tun tun_device
      ∷ close_on_exec c.tun
      ∷ (if c.dns then setup_loopback ++ create_resolver_sockets else [])

  abbrev pub files : List Effect
  files =
      make_mounts_private
      ∷ (bind_mount_file c.tmp_resolv (bytes "/etc/resolv.conf") c.resolv_conf
          ++ bind_mount_file c.tmp_hosts (bytes "/etc/hosts") c.hosts)

  abbrev pub network_and_files : List Effect
  network_and_files = setup_ip_network c.ipv6 c.gid ++ files

  -- runContainer.
  unfoldable pub run_container : List Instr
  run_container =
      map does opening
      ++ sends (rights (sent_fds c.dns c.tun c.udp c.tcp))
        ∷ sends (mtu_is c.mtu)
        ∷ receives_ack
        ∷ (map does network_and_files ++ runs_command ∷ [])

-- The descriptors of the container as runRun has them: the device's, and the resolver's.
abbrev pub Taken : Type 0
Taken = ℕ × Option (ℕ × ℕ)

-- Where runRun is, from proc.Start on.
pub data Parent : Type 0 where
  receiving_fds : Parent
  receiving_mtu : Taken → Parent
  building : Taken → ℕ → Parent
  resolving : Taken → Parent
  acking waiting over : Parent

pub record World : Type 0 where
  -- the container: what it has still to do, what it has done, and whether it lives
  pub todo : List Instr
  pub done : List Effect
  pub alive : Bool
  -- whether the command has been started
  pub running : Bool
  pub parent : Parent
  -- the device and the MTU under the stack, and the sockets of the resolver
  pub stack : Option (ℕ × ℕ)
  pub resolver : Option (ℕ × ℕ)
  -- what is under way on the control socket; nothing is read of an ACK but that it is one
  pub to_parent : List Message
  pub ack : Bool

-- Whose turn it is, and whether the step fails. A container whose parent is gone is killed: that is
-- a failure of the container.
pub data Turn : Type 0 where
  child_goes child_fails parent_goes parent_fails : Turn

abbrev pub is_over : Parent → Bool
is_over over = true
is_over _ = false

-- The container is gone: it has ended, by its error or killed, and so has its end of the socket.
abbrev pub child_ends : World → World
child_ends w = record w { todo = []; alive = false }

-- A step of the container, for what it does next. It waits for the ACK as long as runRun may send
-- it, and a message to a process that is gone is an error.
abbrev pub child_step : List Instr → World → World
child_step [] w = child_ends w
child_step (does e ∷ is) w = record w { todo = is; done = w.done ++ e ∷ [] }
child_step (sends m ∷ is) w =
    if is_over w.parent
    then child_ends w
    else record w { todo = is; to_parent = w.to_parent ++ m ∷ [] }
child_step (receives_ack ∷ is) w =
    if w.ack
    then record w { todo = is; ack = false }
    else if is_over w.parent
    then child_ends w
    else w
child_step (runs_command ∷ is) w = record w { todo = is; running = true }

abbrev pub parent_ends : World → World
parent_ends w = record w { parent = over }

-- runRun waits for a message that the container may still send.
abbrev pub starved : World → World
starved w = if w.alive then w else parent_ends w

module _ (use_dns : Bool) where
  abbrev pub taken_then : World → List Message → Outcome Taken → World
  taken_then w ms (ok x) = record w { parent = receiving_mtu x; to_parent = ms }
  taken_then w ms (throw e) = parent_ends w
  taken_then w ms (panic p) = parent_ends w

  -- ReceiveFds, with the descriptors that are taken from it.
  abbrev pub receive_rights : World → List Message → World
  receive_rights w [] = starved w
  receive_rights w (rights fds ∷ ms) = taken_then w ms (taken_fds use_dns fds)
  receive_rights w (mtu_is n ∷ ms) = taken_then w ms (taken_fds use_dns [])

  -- ReceiveMTU: what comes with descriptors is no JSON.
  abbrev pub receive_mtu : Taken → World → List Message → World
  receive_mtu x w [] = starved w
  receive_mtu x w (mtu_is n ∷ ms) = record w { parent = building x n; to_parent = ms }
  receive_mtu x w (rights fds ∷ ms) = parent_ends w

  -- A step of runRun: NewNetworkStack over the device, startDNSResolver over the sockets, SendACK,
  -- and proc.Wait, which returns when the container is gone.
  unfoldable pub parent_step : Parent → World → World
  parent_step receiving_fds w = receive_rights w w.to_parent
  parent_step (receiving_mtu x) w = receive_mtu x w w.to_parent
  parent_step (building (tun, dns) n) w = record w {
    parent = resolving (tun, dns);
    stack = some (tun, n);
  }
  parent_step (resolving (tun, dns)) w = record w { parent = acking; resolver = dns }
  parent_step acking w =
      if w.alive then record w { parent = waiting; ack = true } else parent_ends w
  parent_step waiting w = if w.alive then w else parent_ends w
  parent_step over w = w

  abbrev pub turn : Turn → World → World
  turn child_goes w = child_step w.todo w
  turn child_fails w = child_ends w
  turn parent_goes w = parent_step w.parent w
  turn parent_fails w = parent_ends w

  abbrev pub run : List Turn → World → World
  run [] w = w
  run (t ∷ ts) w = run ts (turn t w)

-- The container has been started with a program.
abbrev pub started : List Instr → World
started program = record {
  todo = program;
  done = [];
  alive = true;
  running = false;
  parent = receiving_fds;
  stack = none;
  resolver = none;
  to_parent = [];
  ack = false;
}
