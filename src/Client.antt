-- ===== src/Client.antt =====
-- `Client` of app/packages/client/src/radium226/vpn_passthrough/client/client.py. A request that is
-- sent through the ipc client is an exchange with a daemon: the events that came, and how it ended.
pub mod Tunnels
pub mod Config
pub mod Responses
pub mod Regions
pub mod Daemon
pub mod RoundTrip
pub mod Connected
use vpn_passthrough.Prelude.{
  ℕ, String, string_eq, ◌==◌, Bool, true, false, Option, none, some, List, [], ◌∷◌, ◌++◌, or_else,
  if◌then◌else◌,
}
use vpn_passthrough.Prelude.Dict.{Dict}
use vpn_passthrough.Messages.{
  Message, RunProcess, KillProcess, DestroyTunnel, Country, TunnelInfo, ℤ, pos, run_process,
  kill_process, destroy_tunnel, list_regions, list_tunnels, process_started, process_restarted,
  process_terminated, command_not_found, process_killed, tunnel_destroyed, regions_listed,
  tunnels_listed,
}
use vpn_passthrough.Service.State.{find_tunnel}

-- How `ipc.request` ends: the response was handed to `on_response`, or an exception is raised, or it
-- does not end.
pub data Answer : Type 0 where
  answered : Message → Answer
  failed : String → String → Answer
  disconnected : Answer
  pending : Answer

pub record Exchange : Type 0 where
  pub events : List Message
  pub answer : Answer

-- What stands at the other end, with its state.
abbrev pub Daemon : Type 0 → Type 0
Daemon S = Message → S → Exchange × S

pub data ClientError : Type 0 where
  request_failed : String → String → ClientError
  connection_error index_error key_error : ClientError

-- How a method of the client ends; `waiting` where what it awaits is never set.
pub data Outcome {ℓ} (A : Type ℓ) : Type ℓ where
  returned : A → Outcome A
  raised : ClientError → Outcome A
  waiting : Outcome A

abbrev pub set_result : {A : Type 0} → Option A → Outcome A
set_result none = waiting
set_result (some a) = returned a

-- The request has ended, and then the future is awaited; `taken` is what `on_response` sets.
unfoldable pub await : {A : Type 0} → (Message → Option A) → Answer → Outcome A
await taken (answered m) = set_result (taken m)
await taken (failed type text) = raised (request_failed type text)
await taken disconnected = raised connection_error
await taken pending = waiting

-- What each `on_response` sets.
abbrev pub exit_code : Message → Option ℤ
exit_code (process_terminated m) = some m.exit_code
exit_code (command_not_found m) = some (pos 127)
exit_code _ = none

abbrev pub killed : Message → Option (Unit {0})
killed (process_killed m) = some tt
killed _ = none

abbrev pub destroyed : Message → Option (Unit {0})
destroyed (tunnel_destroyed m) = some tt
destroyed _ = none

abbrev pub regions : Message → Option (List Country)
regions (regions_listed m) = some m.countries
regions _ = none

abbrev pub tunnels : Message → Option (List TunnelInfo)
tunnels (tunnels_listed m) = some m.tunnels
tunnels _ = none

-- The identifiers for which `on_pid_received` is called.
abbrev pub pids : Bool → List Message → List ℕ
pids wanted [] = []
pids wanted (process_started m ∷ events) =
    let later = pids wanted events in if wanted then m.pid ∷ later else later
pids wanted (process_restarted m ∷ events) =
    let later = pids wanted events in if wanted then m.pid ∷ later else later
pids wanted (_ ∷ events) = pids wanted events

-- The process of the client: `getuser`, `getpid` and the environment.
pub record Caller : Type 0 where
  pub user : String
  pub pid : ℕ
  pub environ : Dict String String

-- The keyword arguments of `run_process`; whether there is an `on_pid_received`.
pub record RunOptions : Type 0 where
  pub args : Option (List String)
  pub kill_with : Option ℕ
  pub tunnel_name : Option String
  pub cwd : Option String
  pub username : Option String
  pub gid : Option ℕ
  pub ambient_capabilities : Option (List ℕ)
  pub on_pid_received : Bool
  pub configure_with : Option String

-- `username or getpass.getuser()`
abbrev pub user_or_else : Option String → String → String
user_or_else none user = user
user_or_else (some name) user = if name == "" then user else name

-- The request that `run_process` sends under an identifier.
unfoldable pub run_request : Caller → String → String → RunOptions → RunProcess
run_request caller id command o = record {
  id = id;
  command = command;
  args = or_else o.args [];
  kill_with = o.kill_with;
  tunnel_name = o.tunnel_name;
  cwd = o.cwd;
  username = some (user_or_else o.username caller.user);
  gid = o.gid;
  ambient_capabilities = o.ambient_capabilities;
  client_pid = some caller.pid;
  env = caller.environ;
  configure_with = o.configure_with;
}

module _ {S : Type 0} (daemon : Daemon S) where
  -- The calls of `on_pid_received`, and the exit code.
  unfoldable pub run_process_of :
      Caller → String → String → RunOptions → S → (List ℕ × Outcome ℤ) × S
  unfolding run_request await
  run_process_of caller id command o s =
      let (x, s') = daemon (run_process (run_request caller id command o)) s in
      ((pids o.on_pid_received x.events, await exit_code x.answer), s')

  unfoldable pub kill_process_of : String → ℕ → ℕ → S → Outcome (Unit {0}) × S
  unfolding await
  kill_process_of id pid signal s =
      let (x, s') = daemon (kill_process (record { id = id; pid = pid; signal = signal })) s in
      (await killed x.answer, s')

  unfoldable pub regions_of : String → Option String → S → Outcome (List Country) × S
  unfolding await
  regions_of id backend_name s =
      let (x, s') = daemon (list_regions (record { id = id; backend_name = backend_name })) s in
      (await regions x.answer, s')

  unfoldable pub tunnels_of : String → S → Outcome (List TunnelInfo) × S
  unfolding await
  tunnels_of id s =
      let (x, s') = daemon (list_tunnels (record { id = id })) s in (await tunnels x.answer, s')

  unfoldable pub destroy_tunnel_of : String → String → Bool → S → Outcome (Unit {0}) × S
  unfolding await
  destroy_tunnel_of id name wait s =
      let (x, s') = daemon (destroy_tunnel (record { id = id; name = name; wait = wait })) s in
      (await destroyed x.answer, s')

-- `if info is None: raise KeyError`
abbrev pub found : Option TunnelInfo → Outcome TunnelInfo
found none = raised key_error
found (some info) = returned info

unfoldable pub look_among : String → Outcome (List TunnelInfo) → Outcome TunnelInfo
unfolding find_tunnel
look_among name (returned infos) = found (find_tunnel name infos)
look_among name (raised e) = raised e
look_among name waiting = waiting

-- `lookup_tunnel`
unfoldable pub lookup_tunnel :
    {S : Type 0} → Daemon S → String → String → S → Outcome TunnelInfo × S
unfolding look_among tunnels_of
lookup_tunnel daemon id name s = let (r, s') = tunnels_of daemon id s in (look_among name r, s')
