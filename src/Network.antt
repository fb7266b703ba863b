-- ===== src/Network.antt =====
-- The context managers that a tunnel enters, as the calls that they make: Namespace.create,
-- NetworkInterfaces.add, Internet.share, KillSwitch.activate, VpeerPortForward.setup, DNS.setup and
-- DNSLeakGuard.activate, of app/packages/server/src/radium226/vpn_passthrough/server/.
pub mod Managers
pub mod Cleanup
pub mod Filter
pub mod Undo
use vpn_passthrough.Prelude.{
  ℕ, ◌+◌, ◌%◌, String, Bool, true, false, Option, none, some, List, [], ◌∷◌, ◌++◌, if◌then◌else◌,
}

-- `vpt{slot}v`, `vpt{slot}p` and `lo`.
pub data Interface : Type 0 where
  veth vpeer : ℕ → Interface
  lo : Interface

-- An address: one that was asked for or computed, or `10.200.{slot}.{host}`.
pub data Address : Type 0 where
  given : String → Address
  private : ℕ → ℕ → Address

-- A rule of a ruleset, in the order in which it is tried.
pub data Rule : Type 0 where
  accept_to : Interface → String → Rule
  drop_from drop_dns_from drop_dns_to : Interface → Rule
  dnat_to_loopback : String → Interface → List ℕ → Rule
  accept_tunnels masquerade : Rule

-- A table of nftables, by what its name is made of.
pub data Table : Type 0 where
  kill_switch_table leak_guard_table : Interface → Table
  internet_table : String → Table
  vpeer_port_forward_table inner_leak_guard_table : Table

-- A forward chain of the host that drops: family, table and name.
pub record Chain : Type 0 where
  pub family : String
  pub table : String
  pub name : String

-- The files of a namespace's directory, and those of the host that they are mounted on.
pub data File : Type 0 where
  pid_file resolv_conf nsswitch_conf dnsmasq_conf : String → File
  etc_resolv_conf etc_nsswitch_conf : File

-- What a context manager does to the system; `int` arguments stand for their decimals.
pub data Command : Type 0 where
  link_add : Interface → Interface → Command
  link_netns : Interface → ℕ → Command
  addr_add : Address → ℕ → Interface → Command
  link_up link_delete : Interface → Command
  route_default : Address → Command
  route_add : String → Address → Command
  ip_forward list_chains : Command
  load : Table → List Rule → Command
  delete_table : Table → Command
  insert_rule : Chain → String → Interface → Command
  delete_rule : Chain → ℕ → Command
  route_localnet : Interface → Bool → Command
  make_directory remove_directory : String → Command
  write : File → List String → Command
  touch unlink : File → Command
  mount_bind : File → File → Command
  spawn_unshare : String → Option ℕ → Command
  spawn_dnsmasq : String → Command
  terminate : String → Command

-- Where a command runs: on the host, or with `preexec_fn=namespace.enter`.
pub data Place : Type 0 where
  on_host inside_namespace : Place

abbrev pub Call : Type 0
Call = Place × Command

-- `checked` raises when the command fails; `unchecked` goes on.
pub data Step : Type 0 where
  checked unchecked : Call → Step

-- What a `@asynccontextmanager` does before its `try`, in it up to the `yield`, and in its
-- `finally`.
pub record Manager : Type 0 where
  pub before : List Step
  pub inside : List Step
  pub leave : List Call

-- What stands outside: which calls succeed, the drop chains that nft lists, and the handle that it
-- gives for a rule.
pub record System : Type 0 where
  pub succeeds : Call → Bool
  pub chains : List Chain
  pub handle : Call → Option ℕ

module _ (sys : System) where
  -- The calls that were made, and whether none raised.
  unfoldable pub run_steps : List Step → List Call × Bool
  run_steps [] = ([], true)
  run_steps (unchecked c ∷ steps) = let (calls, ok) = run_steps steps in (c ∷ calls, ok)
  run_steps (checked c ∷ steps) =
      let (calls, ok) = run_steps steps in
      if sys.succeeds c then (c ∷ calls, ok) else (c ∷ [], false)

  -- The `try`, after what stands before it.
  unfoldable pub inside_try :
      List Call → List Call → List Call × Bool → List Call × Option (List Call)
  inside_try leave made (calls, true) = (made ++ calls, some leave)
  inside_try leave made (calls, false) = (made ++ calls ++ leave, none)

  unfoldable pub enter_after :
      List Step → List Call → List Call × Bool → List Call × Option (List Call)
  unfolding inside_try run_steps
  enter_after inside leave (made, true) = inside_try leave made (run_steps inside)
  enter_after inside leave (made, false) = (made, none)

  -- The calls made by `enter_async_context`, and those that leaving will make; none where it
  -- raised.
  unfoldable pub enter : Manager → List Call × Option (List Call)
  unfolding enter_after
  enter m = enter_after m.inside m.leave (run_steps m.before)
