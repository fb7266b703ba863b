-- ===== src/Linux.antt =====
-- `make_preexec_fn` of app/packages/server/src/radium226/vpn_passthrough/server/linux.py. Each call
-- of the system is a value; whether it succeeds is asked of the system, which stands outside.
pub mod Bits
pub mod Capabilities
mod Straight
pub mod Preexec
pub mod Opening
pub mod Cgroup
pub mod Closing
use Prim.Native.Nat.{bit_or}
use vpn_passthrough.Prelude.{
  ℕ, ◌^◌, ◌/◌, ◌%◌, String, Bool, true, false, Option, none, some, List, [], ◌∷◌, ◌++◌, or_else,
  if◌then◌else◌, nat_eq, ◌==◌,
}

-- The `CLONE_NEW…` constants.
pub data NsType : Type 0 where
  newns newnet newuts newipc newcgroup : NsType

-- One of the two `_CapData`.
pub record CapData : Type 0 where
  pub effective : ℕ
  pub permitted : ℕ
  pub inheritable : ℕ

-- What `_preexec` asks of the system; `join` writes the identifier of the process.
pub data Call : Type 0 where
  setns : ℕ → NsType → Call
  close join : ℕ → Call
  keep_caps : Call
  initgroups : String → ℕ → Call
  setuid : ℕ → Call
  capset : CapData → CapData → Call
  raise_ambient : ℕ → Call
  chdir : String → Call

-- The descriptors that are opened for the child.
pub record ChildFds : Type 0 where
  pub mnt : ℕ
  pub net : ℕ
  pub cgroup_ns : Option ℕ
  pub uts : Option ℕ
  pub ipc : Option ℕ
  pub cgroup_procs : Option ℕ

-- The arguments of `make_preexec_fn`, with what `getpwnam` gives for the user.
pub record Options : Type 0 where
  pub username : String
  pub uid : ℕ
  pub gid : ℕ
  pub cwd : Option String
  pub client_pid : Option ℕ
  pub ambient_capabilities : Option (List ℕ)

-- `_CONTAINER_CAPS`
unfoldable pub container_caps : List ℕ
container_caps = 0 ∷ 1 ∷ 3 ∷ 4 ∷ 5 ∷ 6 ∷ 7 ∷ 8 ∷ 10 ∷ 13 ∷ 18 ∷ 27 ∷ 29 ∷ 31 ∷ []

-- `cap_mask[cap // 32] |= 1 << (cap % 32)`; there are two words, and no third.
unfoldable pub add_cap : ℕ → ℕ × ℕ → Option (ℕ × ℕ)
add_cap cap (low, high) =
    if cap / 32 == 0
    then some (bit_or low (2 ^ (cap % 32)), high)
    else if cap / 32 == 1
    then some (low, bit_or high (2 ^ (cap % 32)))
    else none

-- The loop over the capabilities.
unfoldable pub cap_mask : List ℕ → ℕ × ℕ → Option (ℕ × ℕ)
unfolding add_cap
cap_mask [] mask = some mask
cap_mask (cap ∷ caps) mask = elim (add_cap cap mask) [
  | none ↦ none
  | some mask' ↦ cap_mask caps mask'
]

-- `ambient_capabilities`, or the default ones.
unfoldable pub caps_to_use : Options → List ℕ
caps_to_use o = or_else o.ambient_capabilities container_caps

abbrev pub all_sets : ℕ → CapData
all_sets mask = record { effective = mask; permitted = mask; inheritable = mask }

-- What runs in the child: whether it goes on, and the calls made.
abbrev pub Child : Type 0
Child = List Call → Bool × List Call

abbrev pub continue : Bool × List Call → Child → Bool × List Call
continue (true, log) k = k log
continue (false, log) k = (false, log)

infixl 5 ◌>>◌
abbrev pub ◌>>◌ : Child → Child → Child
m >> k = λ log. continue (m log) k

abbrev pub skip : Child
skip log = (true, log)

abbrev pub stop : Child
stop log = (false, log)

module _ (succeeds : Call → Bool) where
  -- A call that raises where it fails.
  unfoldable pub perform : Call → Child
  perform c log = (succeeds c, log ++ c ∷ [])

  -- A call whose failure is logged.
  unfoldable pub attempt : Call → Child
  attempt c log = (true, log ++ c ∷ [])

  -- The client's namespace is entered where there is a descriptor.
  unfoldable pub enter_client : NsType → Option ℕ → Child
  unfolding perform attempt
  enter_client type none = skip
  enter_client type (some fd) = attempt (setns fd type) >> perform (close fd)

  unfoldable pub join_cgroup : Option ℕ → Child
  unfolding perform attempt
  join_cgroup none = skip
  join_cgroup (some fd) = attempt (join fd) >> perform (close fd)

  unfoldable pub raise_all : List ℕ → Child
  unfolding perform
  raise_all [] = skip
  raise_all (cap ∷ caps) = perform (raise_ambient cap) >> raise_all caps

  unfoldable pub change_directory : Option String → Child
  unfolding perform
  change_directory none = skip
  change_directory (some cwd) = perform (chdir cwd)

  -- `capset` with the mask, if it could be built.
  unfoldable pub set_caps : Option (ℕ × ℕ) → Child
  unfolding perform
  set_caps none = stop
  set_caps (some (low, high)) = perform (capset (all_sets low) (all_sets high))

  -- `_preexec`
  unfoldable pub preexec : Options → ChildFds → Child
  unfolding perform enter_client join_cgroup raise_all change_directory set_caps
  preexec o fds = do
    perform (setns fds.mnt newns)
    perform (close fds.mnt)
    perform (setns fds.net newnet)
    perform (close fds.net)
    enter_client newcgroup fds.cgroup_ns
    enter_client newuts fds.uts
    enter_client newipc fds.ipc
    join_cgroup fds.cgroup_procs
    perform keep_caps
    perform (initgroups o.username o.gid)
    perform (setuid o.uid)
    set_caps (cap_mask (caps_to_use o) (0, 0))
    raise_all (caps_to_use o)
    change_directory o.cwd
