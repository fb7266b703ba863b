-- ===== src/Service/State.antt =====
-- The state of `Service`, and the resources that a tunnel holds. What the service does to the host
-- and to its clients is recorded in order: `trace` for the context managers that it enters and
-- leaves, `events` for the messages emitted to a request, `updates` for `on_tunnels_changed`.
use vpn_passthrough.Prelude.{
  ℕ, String, string_eq, nat_eq, ◌==◌, Bool, Option, none, some, List, [], ◌∷◌, ◌++◌, map, is_some,
  if◌then◌else◌,
}
use vpn_passthrough.Prelude.Dict.{Dict, lookup}
use vpn_passthrough.Messages.{Message, TunnelInfo, ProcessInfo, BackendInfo, tunnel_status_updated}

-- One context manager, as `_setup_tunnel` and `_rebind_loop` call it.
pub data Resource : Type 0 where
  namespace : String → Option ℕ → Resource
  network_interfaces : String → Option String → Option (List String) → Resource
  internet : String → Resource
  vpeer_port_forward : String → List ℕ → Resource
  vpn : String → Dict String String → String → String → Resource
  dns : String → Option (List String) → Option (Dict String (List String)) → Resource
  kill_switch : String → String → Option (List String) → Resource
  forwarded_port : String → ℕ → Resource

pub data Action : Type 0 where
  acquire release : Resource → Action

-- The properties of `NetworkInterfaces` that the service reads.
pub record Interfaces : Type 0 where
  pub veth : String
  pub veth_ip : String
  pub vpeer : String
  pub vpeer_ip : String

-- `_TunnelContext`; `forward_port` tells whether the session's function is there.
pub record TunnelContext : Type 0 where
  pub public_ip : String
  pub gateway_ip : String
  pub tun_ip : String
  pub forwarded_ports : Dict String ℕ
  pub veth : String
  pub veth_ip : String
  pub vpeer : String
  pub vpeer_ip : String
  pub region_id : Option String
  pub forward_port : Bool

-- `Session` of the `vpn` package, without its function.
pub record Session : Type 0 where
  pub gateway_ip : String
  pub tun_ip : String
  pub dns_servers : List String
  pub server_ip : Option String

-- What stands outside: whether a context manager is entered without an exception, what it gives,
-- and whether a backend type is installed.
pub record Host : Type 0 where
  pub enters : Resource → Bool
  pub interfaces : String → Option String → Interfaces
  pub session : String → Dict String String → String → Session
  pub port : ℕ → ℕ
  pub remote_ip : String → Option String
  pub installed : String → Bool

-- What the service raises.
pub data Error : Type 0 where
  tunnel_exists backend_required backend_not_found backend_not_installed : Error
  not_entered : Resource → Error
  key_error : Error
  few_descriptors tunnel_name_required username_required preexec_failed process_gone : Error

pub data Result {ℓ} (A : Type ℓ) : Type ℓ where
  ok : A → Result A
  err : Error → Result A

-- `namespaces` and the dictionary of processes in use are modelled by their keys; the function of
-- an `emit` by the request it belongs to; a rebinding task by the exception that ended it, if one
-- did; a stop signal by whether it is done; a rebind waiter by a number, and `woken` holds those
-- that are done.
pub record Service : Type 0 where
  pub backends : List BackendInfo
  pub default_backend_name : Option String
  pub observed : Bool
  pub exit_stacks : Dict String (List Resource)
  pub namespaces : Dict String (Unit {0})
  pub tunnel_contexts : Dict String TunnelContext
  pub processes : Dict String (Dict ℕ ProcessInfo)
  pub stop_signals : Dict String Bool
  pub emit_fns : Dict String String
  pub rebind_waiters : Dict String (List ℕ)
  pub rebind_tasks : Dict String (Option Error)
  pub start_tasks : Dict String (Option Error)
  pub active_processes : Dict String (Dict ℕ (Unit {0}))
  pub shutting_down : List String
  pub next_port : ℕ
  pub woken : List ℕ
  pub trace : List Action
  pub events : List (String × Message)
  pub updates : List (List TunnelInfo)

-- What `_current_tunnels` shows of a context, if there is one.
abbrev shown {ℓ} : {A : Type ℓ} → (TunnelContext → A) → Option TunnelContext → Option A
shown field none = none
shown field (some ctx) = some (field ctx)

unfoldable pub tunnel_info : Service → String → TunnelInfo
tunnel_info s name =
    let ctx = lookup name s.tunnel_contexts in
    record {
      name = name;
      vpn_connected = is_some ctx;
      region_id = elim ctx [ none ↦ none | some c ↦ c.region_id ];
      public_ip = shown (λ c. c.public_ip) ctx;
      gateway_ip = shown (λ c. c.gateway_ip) ctx;
      tun_ip = shown (λ c. c.tun_ip) ctx;
      forwarded_ports = elim ctx [ none ↦ [] | some c ↦ c.forwarded_ports ];
      veth = shown (λ c. c.veth) ctx;
      veth_ip = shown (λ c. c.veth_ip) ctx;
      vpeer = shown (λ c. c.vpeer) ctx;
      vpeer_ip = shown (λ c. c.vpeer_ip) ctx;
      processes = elim (lookup name s.processes) [ none ↦ [] | some ps ↦ map (λ p. p.1) ps ];
    }

-- `_current_tunnels`
unfoldable pub current_tunnels : Service → List TunnelInfo
unfolding tunnel_info
current_tunnels s = map (λ n. tunnel_info s n.0) s.namespaces

-- `next((tunnel for tunnel in … if tunnel.name == name), None)`
unfoldable pub find_tunnel : String → List TunnelInfo → Option TunnelInfo
find_tunnel name [] = none
find_tunnel name (t ∷ ts) = if t.name == name then some t else find_tunnel name ts

-- `emit` of a request; `_discard_emit` is none.
unfoldable pub emit : Option String → Message → Service → Service
emit none event s = s
emit (some id) event s = record s { events = s.events ++ (id, event) ∷ [] }

-- The call of `on_tunnels_changed`, if there is one.
unfoldable pub notify_changed : Service → Service
unfolding current_tunnels
notify_changed s =
    if s.observed then record s { updates = s.updates ++ current_tunnels s ∷ [] } else s

-- `await emit_fn(TunnelStatusUpdated(info=info), [])`, if there is an `info`.
unfoldable pub emit_info : String → Option TunnelInfo → Service → Service
unfolding emit
emit_info id none s = s
emit_info id (some info) s = emit (some id) (tunnel_status_updated (record { info = info })) s

-- The second half of `_notify_tunnel_updated`, with the function that it found.
unfoldable pub emit_status : String → Option String → Service → Service
unfolding emit_info find_tunnel
emit_status name none s = s
emit_status name (some id) s = emit_info id (find_tunnel name (current_tunnels s)) s

-- `_notify_tunnel_updated`
unfoldable pub notify_tunnel_updated : String → Service → Service
unfolding notify_changed emit_status
notify_tunnel_updated name s =
    let s' = notify_changed s in emit_status name (lookup name s'.emit_fns) s'
