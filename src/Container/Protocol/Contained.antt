-- ===== src/Container/Protocol/Contained.antt =====
-- About the files that run_container.go writes and mounts.
use mathlib.Core.Path.{subst}
use wirez.Container.Namespace.{
  Effect, write_file, mount_private, mount_tmpfs, mount_bind, unmount, remove, setup_ip_network,
  bind_mount_file, base,
}
use wirez.Container.Protocol.{files, Config, Turn, run, run_container, started, network_and_files}
use wirez.Container.Protocol.Safety.{all_calls, run_container-IsUp}
use wirez.Prelude.{
  append-nil, ◌≡◌, refl, sym, ◌⊎◌, inl, inr, Bool, true, false, List, [], ◌∷◌, ◌++◌, Bytes, bytes,
  Bool-cases,
}

-- The directory in which a file is staged: none, one with a tmpfs on it, or one that is empty again.
pub data Staging : Type 0 where
  nowhere : Staging
  mounted emptied : Bytes → Staging

-- A file in the directory, which is on the tmpfs.
abbrev pub OnTmpfs : Staging → Bytes → Type 0
OnTmpfs s path = (dir name : Bytes) × (s ≡ mounted dir) × (path ≡ dir ++ b'/' ∷ name)

abbrev pub ping_range : Bytes
ping_range = bytes "/proc/sys/net/ipv4/ping_group_range"

-- The calls leave the host's files alone: they write nothing but files of their own tmpfs and the
-- range of groups for ping, mount nothing before all mounts are private, bind nothing but files of
-- their own tmpfs, and remove a directory only when its tmpfs is gone. None is left at the end.
abbrev pub IsContained : Bool → Staging → List Effect → Type 0
IsContained private s [] = s ≡ nowhere
IsContained private s (mount_private p ∷ es) = (p ≡ bytes "/") × IsContained true s es
IsContained private s (mount_tmpfs d ∷ es) =
    (private ≡ true) × (s ≡ nowhere) × IsContained private (mounted d) es
IsContained private s (write_file p c ∷ es) =
    (OnTmpfs s p ⊎ (p ≡ ping_range)) × IsContained private s es
IsContained private s (mount_bind p target ∷ es) =
    (private ≡ true) × OnTmpfs s p × IsContained private s es
IsContained private s (unmount d ∷ es) = (s ≡ mounted d) × IsContained private (emptied d) es
IsContained private s (remove d ∷ es) = (s ≡ emptied d) × IsContained private nowhere es
IsContained private s (_ ∷ es) = IsContained private s es

bind_mount_file-IsContained :
    (dir target content : Bytes) (rest : List Effect)
    → IsContained true nowhere rest
    → IsContained true nowhere (bind_mount_file dir target content ++ rest)
unfolding bind_mount_file
bind_mount_file-IsContained dir target content rest h = (
  refl,
  refl,
  (inl (dir, base target, refl, refl), (refl, (dir, base target, refl, refl), (refl, (refl, h)))),
)

files-IsContained : (c : Config) → IsContained false nowhere (files c)
files-IsContained c =
    let second : List Effect = bind_mount_file c.tmp_hosts (bytes "/etc/hosts") c.hosts in
    let last =
      subst (IsContained true nowhere) (append-nil second)
        (bind_mount_file-IsContained c.tmp_hosts (bytes "/etc/hosts") c.hosts [] refl) in
    (
      refl,
      bind_mount_file-IsContained c.tmp_resolv (bytes "/etc/resolv.conf") c.resolv_conf second last,
    )

network-IsContained : (c : Config) → IsContained false nowhere (network_and_files c)
unfolding setup_ip_network
network-IsContained c = (
  inr refl,
  elim (Bool-cases c.ipv6) [
    | inl v ↦ rw v (files-IsContained c)
    | inr v ↦ rw v (files-IsContained c)
  ],
)

all_calls-IsContained : (c : Config) → IsContained false nowhere (all_calls c)
all_calls-IsContained c = elim (Bool-cases c.dns) [
  | inl d ↦ rw d (network-IsContained c)
  | inr d ↦ rw d (network-IsContained c)
]

-- When the command is started, whatever steps led there, the calls that were made left the host's
-- files alone: nothing was written but the range of groups for ping and files on a tmpfs that the
-- container had mounted; nothing was mounted before all mounts were private, and only such files
-- were bound; a directory was removed only when its tmpfs was gone, and each one was.
pub run_container-IsContained :
    (c : Config) (ts : List Turn)
    → (run c.dns ts (started (run_container c))).running ≡ true
    → IsContained false nowhere (run c.dns ts (started (run_container c))).done
run_container-IsContained c ts r =
    let (up, e) = run_container-IsUp c ts r in
    subst (IsContained false nowhere) (sym e) (all_calls-IsContained c)
