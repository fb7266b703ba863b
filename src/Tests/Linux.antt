-- ===== src/Tests/Linux.antt =====
-- A child that joins its client's namespaces, and the descriptors that are opened for it.
use mathlib.Core.List.{reverse}
use vpn_passthrough.Prelude.{
  ℕ, ◌<◌, ◌^◌, nat_eq, string_eq, ◌==◌, elem, if◌then◌else◌, ◌≡◌, refl, Bool, true, false, Option,
  none, some, List, [], ◌∷◌, ◌++◌, arith,
}
use vpn_passthrough.Linux.{
  Call, setns, newns, newnet, close, setuid, ChildFds, Options, container_caps, cap_mask, preexec,
}
use vpn_passthrough.Linux.Capabilities.{has, cap_mask_exact}
use vpn_passthrough.Linux.Preexec.{planned_calls, preexec_completes, preexec_isolates}
use vpn_passthrough.Linux.Cgroup.{parse_cgroupv2_path}
use vpn_passthrough.Linux.Opening.{
  FilePath, proc_ns, cgroup_procs, System, make_preexec_fn, parent_fds, close_parent_fds,
}
use vpn_passthrough.Linux.Closing.{close_parent_fds_all}

abbrev two_caps : List ℕ
two_caps = 40 ∷ 5 ∷ []

cap_mask_exact_example :
    (mask : ℕ × ℕ) × (cap_mask two_caps (0, 0) ≡ some mask)
    × (mask.0 < 2 ^ 32)
    × (mask.1 < 2 ^ 32)
    × ((c : ℕ) → c < 64 → has mask c ≡ (if elem c two_caps then 1 else 0))
cap_mask_exact_example = cap_mask_exact two_caps (omega arith, (omega arith, tt))

mask_of_two : cap_mask two_caps (0, 0) ≡ some (32, 256)
unfolding cap_mask
mask_of_two = refl

no_third_word : cap_mask (64 ∷ []) (0, 0) ≡ none
unfolding cap_mask
no_third_word = refl

mask_of_container : cap_mask container_caps (0, 0) ≡ some (2818844155, 0)
unfolding cap_mask container_caps
mask_of_container = refl

abbrev options : Options
options = record {
  username = "me";
  uid = 1000;
  gid = 1000;
  cwd = some "/home/me";
  client_pid = some 77;
  ambient_capabilities = some two_caps;
}

abbrev fds : ChildFds
fds = record {
  mnt = 3;
  net = 4;
  cgroup_ns = some 5;
  uts = some 6;
  ipc = some 7;
  cgroup_procs = none;
}

abbrev always : Call → Bool
always c = true

abbrev but_setuid : Call → Bool
but_setuid (setuid uid) = false
but_setuid c = true

abbrev never : Call → Bool
never c = false

preexec_completes_example :
    preexec always options fds [] ≡ (true, planned_calls options fds (32, 256))
unfolding cap_mask
preexec_completes_example = preexec_completes always options fds (32, 256) refl refl

preexec_isolates_example :
    ((preexec never options fds []).0 ≡ false)
    × (left : List Call) × (setns fds.mnt newns ∷ close fds.mnt ∷ setns fds.net newnet ∷ []
        ≡ (preexec never options fds []).1 ++ left)
preexec_isolates_example = preexec_isolates never options fds refl

-- "1:a:" and "0::/a"
abbrev two_lines : List (List ℕ)
two_lines = (49 ∷ 58 ∷ 97 ∷ 58 ∷ []) ∷ (48 ∷ 58 ∷ 58 ∷ 47 ∷ 97 ∷ []) ∷ []

path_found : parse_cgroupv2_path (some two_lines) ≡ some (47 ∷ 97 ∷ [])
unfolding parse_cgroupv2_path
path_found = refl

abbrev opens : FilePath → Option ℕ
opens (proc_ns pid kind) = some pid
opens (cgroup_procs path) = some 9

abbrev system : System
system = record {
  opens = opens;
  cgroup_lines = λ pid. some two_lines;
  user = λ name. some (1000, 1000);
}

abbrev opened_fds : ChildFds
opened_fds = record {
  mnt = 12;
  net = 12;
  cgroup_ns = some 77;
  uts = some 77;
  ipc = some 77;
  cgroup_procs = some 9;
}

close_parent_fds_all_example :
    close_parent_fds (parent_fds opened_fds)
    ≡ ([], reverse (make_preexec_fn system "me" 12 (some 77) []).1)
unfolding make_preexec_fn
close_parent_fds_all_example = close_parent_fds_all system "me" 12 (some 77) opened_fds refl

-- Where the second descriptor cannot be opened, the first is left open: there is no function to
-- close it.
abbrev only_mnt : FilePath → Option ℕ
only_mnt (proc_ns pid kind) = if kind == "mnt" then some 3 else none
only_mnt path = none

mnt_left_open :
    make_preexec_fn (record system { opens = only_mnt }) "me" 12 none [] ≡ (none, 3 ∷ [])
unfolding make_preexec_fn
mnt_left_open = refl
