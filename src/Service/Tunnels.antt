-- ===== src/Service/Tunnels.antt =====
-- The handlers of service.py that create, start, stop and list tunnels. A handler that waits is two
-- functions, before and after its `await`.
pub mod Frames
pub mod Destroy
pub mod Coherence
pub mod Rounds
pub mod Reachable
use vpn_passthrough.Prelude.{
  ℕ, ◌+◌, String, string_eq, nat_eq, ◌==◌, Bool, true, false, Option, none, some, List, [], ◌∷◌,
  ◌++◌, or_else, elem, map, ◌&&◌, if◌then◌else◌,
}
use vpn_passthrough.Prelude.Dict.{Dict, lookup, contains, insert, erase}
use vpn_passthrough.Messages.{
  Message, CreateTunnel, StartTunnel, DestroyTunnel, ListRegions, ListTunnels, Country, TunnelInfo,
  config_used, tunnel_started, tunnel_created, tunnel_stopped, tunnel_destroyed, regions_listed,
  tunnels_listed, ports_rebound,
}
use vpn_passthrough.Service.State.{
  Resource, forwarded_port, TunnelContext, Host, Error, key_error, not_entered, Result, ok, err,
  Service, acquire, current_tunnels, find_tunnel, emit, notify_changed, notify_tunnel_updated,
}
use vpn_passthrough.Service.Backends.{resolve_backend}
use vpn_passthrough.Service.Setup.{Request, setup_tunnel, unwind}

-- `dns_overrides or None` and `extra_routes or None`
unfoldable pub none_if_empty : {A : Type 0} → List A → Option (List A)
none_if_empty [] = none
none_if_empty (x ∷ xs) = some (x ∷ xs)

unfoldable pub create_request : CreateTunnel → Option String → Request
unfolding none_if_empty
create_request r target = record {
  name = r.name;
  region_id = r.region_id;
  names_of_ports_to_forward = r.names_of_ports_to_forward;
  target = target;
  backend_name = r.backend_name;
  veth_cidr = r.veth_cidr;
  kill_switch = r.kill_switch;
  ports_to_forward_from_vpeer_to_loopback = r.ports_to_forward_from_vpeer_to_loopback;
  client_pid = none;
  dns_overrides = none_if_empty r.dns_overrides;
  extra_routes = none_if_empty r.extra_routes;
}

unfoldable pub start_request : StartTunnel → Option String → Request
unfolding none_if_empty
start_request r target = record {
  name = r.name;
  region_id = r.region_id;
  names_of_ports_to_forward = r.names_of_ports_to_forward;
  target = target;
  backend_name = r.backend_name;
  veth_cidr = r.veth_cidr;
  kill_switch = r.kill_switch;
  ports_to_forward_from_vpeer_to_loopback = r.ports_to_forward_from_vpeer_to_loopback;
  client_pid = none;
  dns_overrides = none_if_empty r.dns_overrides;
  extra_routes = none_if_empty r.extra_routes;
}

-- `TunnelInfo(name=…)`
abbrev pub unknown_tunnel : String → TunnelInfo
unknown_tunnel name = record {
  name = name;
  vpn_connected = false;
  region_id = none;
  public_ip = none;
  gateway_ip = none;
  tun_ip = none;
  forwarded_ports = [];
  veth = none;
  veth_ip = none;
  vpeer = none;
  vpeer_ip = none;
  processes = [];
}

-- A rebinding task is created where the request asks for one.
unfoldable pub start_rebinding : String → Option ℕ → Service → Service
start_rebinding name none s = s
start_rebinding name (some every) s = record s { rebind_tasks = insert name none s.rebind_tasks }

-- What `handle_create_tunnel` does after `_setup_tunnel`.
unfoldable pub created : CreateTunnel → Service → Service
unfolding start_rebinding notify_changed
created r s = notify_changed (start_rebinding r.name r.rebind_ports_every s)

unfoldable pub finish_create :
    CreateTunnel → Result (Unit {0}) × Service → Result (Message × List ℕ) × Service
unfolding created
finish_create r (err e, s) = (err e, s)
finish_create r (ok _, s) =
    let s' = created r s in
    (
      ok (
        tunnel_created (record {
          request_id = r.id;
          name = r.name;
          tunnel = or_else (find_tunnel r.name (current_tunnels s')) (unknown_tunnel r.name);
        }),
        [],
      ),
      s',
    )

unfoldable pub handle_create_tunnel :
    Host → CreateTunnel → Option String → Service → Result (Message × List ℕ) × Service
unfolding finish_create
handle_create_tunnel host r target s =
    finish_create r (setup_tunnel host (create_request r target) s)

-- The task of a rebinding loop, where the request asks for one.
abbrev pub begin_task : String → Option ℕ → Dict String (Option Error) → Dict String (Option Error)
begin_task id none tasks = tasks
begin_task id (some every) tasks = insert id none tasks

-- What `handle_start_tunnel` does between `_setup_tunnel` and `await stop`.
unfoldable pub started : StartTunnel → String → Service → Service
unfolding notify_changed emit
started r id s =
    let s' = emit (some id) (tunnel_started (record { name = r.name })) (notify_changed s) in
    record s' {
      emit_fns = insert r.name id s'.emit_fns;
      stop_signals = insert r.name false s'.stop_signals;
      start_tasks = begin_task id r.rebind_ports_every s'.start_tasks;
    }

unfoldable pub finish_start :
    StartTunnel → String → Result (Unit {0}) × Service → Result (Unit {0}) × Service
unfolding started
finish_start r id (err e, s) = (err e, s)
finish_start r id (ok _, s) = (ok tt, started r id s)

-- `handle_start_tunnel` up to `await stop`; `id` is the request that `emit` belongs to.
unfoldable pub handle_start_tunnel :
    Host → StartTunnel → String → Service → Result (Unit {0}) × Service
unfolding finish_start emit
handle_start_tunnel host r id s =
    let config = config_used (record {
      region_id = r.region_id;
      backend_name = r.backend_name;
      names_of_ports_to_forward = r.names_of_ports_to_forward;
    }) in
    finish_start r id (setup_tunnel host (start_request r (some id)) (emit (some id) config s))

-- The `finally` of `handle_start_tunnel` and its `return`, with what awaiting the cancelled rebinding
-- task raises: then nothing is taken out of the tables, and nothing is answered.
unfoldable pub end_start :
    StartTunnel → String → Option Error → Service → Result (Message × List ℕ) × Service
end_start r id (some e) s = (err e, record s { start_tasks = erase id s.start_tasks })
end_start r id none s = (
  ok (tunnel_stopped (record { request_id = r.id; name = r.name }), []),
  record s {
    emit_fns = erase r.name s.emit_fns;
    stop_signals = erase r.name s.stop_signals;
    start_tasks = erase id s.start_tasks;
  },
)

-- `handle_start_tunnel` from `await stop`, which returns once the signal is done; `id` is the request
-- that `emit` belongs to.
unfoldable pub stop_waiting :
    StartTunnel → String → Service → Option (Result (Message × List ℕ) × Service)
unfolding end_start
stop_waiting r id s =
    if or_else (lookup r.name s.stop_signals) false
    then some (end_start r id (or_else (lookup id s.start_tasks) none) s)
    else none

-- `handle_destroy_tunnel` up to where it waits for the processes: the service, and what awaiting
-- the cancelled rebinding task raises.
unfoldable pub begin_destroy : DestroyTunnel → Service → Option Error × Service
begin_destroy r s = (
  or_else (lookup r.name s.rebind_tasks) none,
  record s {
    shutting_down =
        if elem r.name s.shutting_down then s.shutting_down else r.name ∷ s.shutting_down;
    active_processes = erase r.name s.active_processes;
    rebind_waiters = erase r.name s.rebind_waiters;
    rebind_tasks = erase r.name s.rebind_tasks;
  },
)

-- `self._shutting_down.discard(…)`
unfoldable pub discard : String → List String → List String
discard name [] = []
discard name (x ∷ xs) = let rest = discard name xs in if x == name then rest else x ∷ rest

-- `stop.set_result(None)`, if there is a signal
unfoldable pub signal_stop : String → Dict String Bool → Dict String Bool
signal_stop name signals = if contains name signals then insert name true signals else signals

-- `handle_destroy_tunnel` from the end of its processes to `await stack.aclose()`: the tunnel is out of
-- the tables, and its stack is still to be closed.
unfoldable pub remove_tunnel : DestroyTunnel → Service → List Resource × Service
unfolding signal_stop
remove_tunnel r s = (
  or_else (lookup r.name s.exit_stacks) [],
  record s {
    namespaces = erase r.name s.namespaces;
    tunnel_contexts = erase r.name s.tunnel_contexts;
    processes = erase r.name s.processes;
    stop_signals = signal_stop r.name s.stop_signals;
    exit_stacks = erase r.name s.exit_stacks;
  },
)

-- What follows `await stack.aclose()`, `finally` included.
unfoldable pub end_destroy : DestroyTunnel → Service → Service
unfolding notify_changed discard
end_destroy r s =
    let closed = notify_changed s in
    record closed { shutting_down = discard r.name closed.shutting_down }

-- The rest of `handle_destroy_tunnel`, once the processes have ended. No other task runs during its
-- `await stack.aclose()`.
unfoldable pub complete_destroy : DestroyTunnel → Service → Service
unfolding remove_tunnel end_destroy
complete_destroy r s = let p = remove_tunnel r s in end_destroy r (unwind p.0 p.1)

unfoldable pub finish_destroy :
    DestroyTunnel → Option Error × Service → Result (Message × List ℕ) × Service
unfolding complete_destroy discard
finish_destroy r (some e, s) = (err e, record s { shutting_down = discard r.name s.shutting_down })
finish_destroy r (none, s) =
    (ok (tunnel_destroyed (record { request_id = r.id; name = r.name }), []), complete_destroy r s)

-- The processes for which `handle_destroy_tunnel` waits.
unfoldable pub awaited : DestroyTunnel → Service → List ℕ
awaited r s = if r.wait then map (λ p. p.0) (or_else (lookup r.name s.active_processes) []) else []

abbrev pub all_ended : (ℕ → Bool) → List ℕ → Bool
all_ended ended [] = true
all_ended ended (pid ∷ pids) = ended pid && all_ended ended pids

abbrev pub answered_with :
    Result (Message × List ℕ) × Service → Option (Result (Message × List ℕ)) × Service
answered_with (a, s) = (some a, s)

-- Behind the rebinding task: the wait for the processes, which may not end, and the rest.
unfoldable pub wait_for :
    DestroyTunnel → Bool → Option Error × Service → Option (Result (Message × List ℕ)) × Service
unfolding finish_destroy
wait_for r all (some e, s) = answered_with (finish_destroy r (some e, s))
wait_for r true (none, s) = answered_with (finish_destroy r (none, s))
wait_for r false (none, s) = (none, s)

-- `handle_destroy_tunnel` where no other task runs while it waits; `ended` tells which processes end.
-- There is no answer while it waits for a process that does not.
unfoldable pub handle_destroy_tunnel :
    (ℕ → Bool) → DestroyTunnel → Service → Option (Result (Message × List ℕ)) × Service
unfolding begin_destroy awaited wait_for
handle_destroy_tunnel ended r s = wait_for r (all_ended ended (awaited r s)) (begin_destroy r s)

-- The regions of a backend are outside.
unfoldable pub handle_list_regions :
    Host → (String → List Country) → ListRegions → Service → Result (Message × List ℕ)
handle_list_regions host regions r s =
    elim (resolve_backend host s.backends s.default_backend_name r.backend_name) [
      | err e ↦ err e
      | ok backend ↦
          ok (regions_listed (record { request_id = r.id; countries = regions backend.0 }), [])
    ]

unfoldable pub handle_list_tunnels : ListTunnels → Service → Message × List ℕ
unfolding current_tunnels
handle_list_tunnels r s =
    (tunnels_listed (record { request_id = r.id; tunnels = current_tunnels s }), [])
