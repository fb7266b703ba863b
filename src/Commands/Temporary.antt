-- ===== src/Commands/Temporary.antt =====
-- `lookup_or_create_tunnel` of _helpers.py, the commands that run a process in its tunnel, run-process
-- and debug-tunnel, and create-tunnel, which destroys its tunnel when it is stopped.
use vpn_passthrough.Prelude.{
  ℕ, String, string_eq, ◌≡◌, refl, ap, Bool, true, false, Option, none, some, List, [], or_else,
  if◌then◌else◌, beq_refl,
}
use vpn_passthrough.Prelude.Dict.{lookup, contains}
use vpn_passthrough.Messages.{TunnelInfo, TunnelCreated, DestroyTunnel, ℤ}
use vpn_passthrough.Service.State.{Service}
use vpn_passthrough.Service.Tunnels.{awaited}
use vpn_passthrough.Service.Tunnels.Destroy.{destroy_releases}
use vpn_passthrough.Client.{
  Daemon, Outcome, returned, raised, waiting, Caller, RunOptions, run_process_of, lookup_tunnel,
  destroy_tunnel_of, destroyed, await,
}
use vpn_passthrough.Client.Tunnels.{Arguments, named, Choice, create_tunnel_of, go_on}
use vpn_passthrough.Client.Daemon.{Outside, answer_if, handle, serve}

-- The keyword arguments for a temporary tunnel.
abbrev pub temporary_arguments : Option String → Option String → Bool → Arguments
temporary_arguments region_id backend_name kill_switch = record {
  region_id = region_id;
  names_of_ports_to_forward = none;
  backend_name = backend_name;
  veth_cidr = none;
  kill_switch = kill_switch;
  rebind_ports_every = none;
  ports_to_forward_from_vpeer_to_loopback = none;
  dns_overrides = none;
  extra_routes = none;
}

-- What a `finally` makes of the end of its `try`.
abbrev pub after_finally : {A B : Type 0} → Outcome A → Outcome B → Outcome A
after_finally r (returned _) = r
after_finally r (raised e) = raised e
after_finally r waiting = waiting

-- The options of run-process, with the working directory and the group of its caller;
-- `kill_switch` is whether it is "yes", `args` what follows the command.
pub record RunProcessOptions : Type 0 where
  pub tunnel_name : Option String
  pub region_id : Option String
  pub backend_name : Option String
  pub kill_switch : Option Bool
  pub kill_with : Option ℕ
  pub configure_with : Option String
  pub drop_caps : Bool
  pub command : String
  pub args : List String
  pub cwd : String
  pub gid : ℕ

-- The keyword arguments of run-process, but for the tunnel's name.
abbrev pub process_options : RunProcessOptions → RunOptions
process_options o = record {
  args = some o.args;
  kill_with = o.kill_with;
  tunnel_name = none;
  cwd = some o.cwd;
  username = none;
  gid = some o.gid;
  ambient_capabilities = if o.drop_caps then some [] else none;
  on_pid_received = true;
  configure_with = o.configure_with;
}

-- The keyword arguments of debug-tunnel, but for the tunnel's name.
abbrev pub debug_options : String → RunOptions
debug_options cwd = record {
  args = some [];
  kill_with = none;
  tunnel_name = none;
  cwd = some cwd;
  username = none;
  gid = none;
  ambient_capabilities = none;
  on_pid_received = false;
  configure_with = none;
}

-- The identifiers of the requests that are sent.
pub record Ids : Type 0 where
  pub regions : String
  pub create : String
  pub lookup : String
  pub destroy : String

module _ {S : Type 0} (daemon : Daemon S) (choice : Choice) (ids : Ids) where
  -- The `finally`, which does not run while the body does not end.
  unfoldable pub leave : {A : Type 0} → String → Outcome A × S → Outcome A × S
  leave name (waiting, s) = (waiting, s)
  leave name (returned a, s) =
      let (d, s') = destroy_tunnel_of daemon ids.destroy name false s in
      (after_finally (returned a) d, s')
  leave name (raised e, s) =
      let (d, s') = destroy_tunnel_of daemon ids.destroy name false s in
      (after_finally {B = Unit {0}} (raised e) d, s')

  -- `lookup_or_create_tunnel` around a body; `name` is that of the temporary tunnel.
  unfoldable pub in_tunnel :
      {A : Type 0}
      → Option String
      → String
      → Arguments
      → (TunnelInfo → S → Outcome A × S)
      → S
      → Outcome A × S
  unfolding leave
  in_tunnel (some tunnel_name) name args body s =
      go_on body (lookup_tunnel daemon ids.lookup tunnel_name s)
  in_tunnel none name args body s =
      go_on (λ t s'. leave name (body t.tunnel s'))
        (create_tunnel_of daemon choice ids.regions ids.create (named name) args s)

  -- What run-process does in its tunnel.
  unfoldable pub run_in : Caller → String → String → RunOptions → TunnelInfo → S → Outcome ℤ × S
  run_in caller id command o info s =
      let (p, s') =
        run_process_of daemon caller id command (record o { tunnel_name = some info.name }) s in
      (p.1, s')

  -- The command run-process, up to its exit code; `name` is that of a temporary tunnel.
  unfoldable pub run_process_command :
      RunProcessOptions → Caller → String → String → S → Outcome ℤ × S
  unfolding in_tunnel run_in
  run_process_command o caller id name =
      in_tunnel o.tunnel_name name
        (temporary_arguments o.region_id o.backend_name (or_else o.kill_switch true))
        (run_in caller id o.command (process_options o))

  -- The command debug-tunnel, up to its exit code and but for the terminal.
  unfoldable pub debug_tunnel_command :
      Option String
      → Option String
      → Option String
      → String
      → Caller
      → String
      → String
      → S
      → Outcome ℤ × S
  unfolding in_tunnel run_in
  debug_tunnel_command tunnel_name region_id backend_name cwd caller id name =
      in_tunnel tunnel_name name (temporary_arguments region_id backend_name true)
        (run_in caller id "bash" (debug_options cwd))

  -- The command create-tunnel; `meanwhile` is what happens until it is stopped, if it is.
  unfoldable pub create_tunnel_command :
      String → Arguments → (S → Outcome (Unit {0}) × S) → S → Outcome (Unit {0}) × S
  unfolding leave
  create_tunnel_command name args meanwhile s =
      go_on (λ t s'. leave name (meanwhile s'))
        (create_tunnel_of daemon choice ids.regions ids.create (named name) args s)

-- Whether it ends.
abbrev pub ends : {A : Type 0} → Outcome A → Bool
ends waiting = false
ends (returned a) = true
ends (raised e) = true

leave-removes :
    {A : Type 0} (o : Outside) (choice : Choice) (ids : Ids) (name : String) (r : Outcome A)
    (s : Service)
    → ends r ≡ true
    → or_else (lookup name s.rebind_tasks) none ≡ none
    → ((leave (serve o) choice ids name (r, s)).0 ≡ r)
      × (contains name (leave (serve o) choice ids name (r, s)).1.namespaces ≡ false)
      × (contains name (leave (serve o) choice ids name (r, s)).1.exit_stacks ≡ false)
unfolding leave destroy_tunnel_of serve handle await awaited
leave-removes o choice ids name waiting s h k = cc
leave-removes o choice ids name (returned a) s h k =
    let r : DestroyTunnel = record { id = ids.destroy; name = name; wait = false } in
    let (e, d) = destroy_releases o.ends r s k refl in
    (
      ap (λ x. after_finally (returned a) (await destroyed (answer_if o x))) e,
      rw (d.1 name, beq_refl name) refl,
      rw (d.2 name, beq_refl name) refl,
    )
leave-removes o choice ids name (raised error) s h k =
    let r : DestroyTunnel = record { id = ids.destroy; name = name; wait = false } in
    let (e, d) = destroy_releases o.ends r s k refl in
    (
      ap (λ x. after_finally {B = Unit {0}} (raised error) (await destroyed (answer_if o x))) e,
      rw (d.1 name, beq_refl name) refl,
      rw (d.2 name, beq_refl name) refl,
    )

-- When no tunnel is named, the temporary tunnel could be created, and the body ends, by returning or
-- by raising, in a state where no rebinding task of that tunnel has failed, then the command ends as
-- the body did, and the service it leaves has neither a namespace nor an exit stack under the temporary name.
pub temporary_tunnel_removed :
    {A : Type 0} (o : Outside) (choice : Choice) (ids : Ids) (name : String) (args : Arguments)
    (body : TunnelInfo → Service → Outcome A × Service) (s s1 s2 : Service) (t : TunnelCreated)
    (r : Outcome A)
    → create_tunnel_of (serve o) choice ids.regions ids.create (named name) args s
      ≡ (returned t, s1)
    → body t.tunnel s1 ≡ (r, s2)
    → ends r ≡ true
    → or_else (lookup name s2.rebind_tasks) none ≡ none
    → ((in_tunnel (serve o) choice ids none name args body s).0 ≡ r)
      × (contains name (in_tunnel (serve o) choice ids none name args body s).1.namespaces ≡ false)
      × (contains name (in_tunnel (serve o) choice ids none name args body s).1.exit_stacks ≡ false)
unfolding in_tunnel
temporary_tunnel_removed o choice ids name args body s s1 s2 t r h1 h2 e k =
    rw (h1, h2) (leave-removes o choice ids name r s2 e k)
