-- ===== src/Messages.antt =====
-- The protocol of the daemon: the message classes of
-- app/packages/messages/src/radium226/vpn_passthrough/messages/__init__.py, what each request class
-- declares for its response and its events, and the codec's `encode_error`. JSON itself is
-- pydantic's and stands outside.
pub mod Types
pub mod Classes
pub mod Declared
pub use Types.*
unfoldable pub use Classes.*
use vpn_passthrough.Prelude.{String, Option, none, some}
use vpn_passthrough.Ipc.Protocol.{TypeExpr, never, cls, union, forward_ref, Protocol}
use vpn_passthrough.Ipc.Client.{Messages, Shape, request, response, error_response, other}

-- The union of `_TYPE_ADAPTER`.
pub data Message : Type 0 where
  run_process : RunProcess → Message
  kill_process : KillProcess → Message
  create_tunnel : CreateTunnel → Message
  start_tunnel : StartTunnel → Message
  destroy_tunnel : DestroyTunnel → Message
  list_regions : ListRegions → Message
  list_tunnels : ListTunnels → Message
  process_started : ProcessStarted → Message
  process_restarted : ProcessRestarted → Message
  connected_to_vpn : ConnectedToVpn → Message
  dns_configured : DnsConfigured → Message
  config_used : ConfigUsed → Message
  tunnel_started : TunnelStarted → Message
  tunnel_status_updated : TunnelStatusUpdated → Message
  ports_rebound : PortsRebound → Message
  process_terminated : ProcessTerminated → Message
  command_not_found : CommandNotFound → Message
  process_killed : ProcessKilled → Message
  tunnel_created : TunnelCreated → Message
  tunnel_destroyed : TunnelDestroyed → Message
  tunnel_stopped : TunnelStopped → Message
  regions_listed : RegionsListed → Message
  tunnels_listed : TunnelsListed → Message
  request_failed : RequestFailed → Message

abbrev pub class_of : Message → MessageType
class_of (run_process m) = is_run_process
class_of (kill_process m) = is_kill_process
class_of (create_tunnel m) = is_create_tunnel
class_of (start_tunnel m) = is_start_tunnel
class_of (destroy_tunnel m) = is_destroy_tunnel
class_of (list_regions m) = is_list_regions
class_of (list_tunnels m) = is_list_tunnels
class_of (process_started m) = is_process_started
class_of (process_restarted m) = is_process_restarted
class_of (connected_to_vpn m) = is_connected_to_vpn
class_of (dns_configured m) = is_dns_configured
class_of (config_used m) = is_config_used
class_of (tunnel_started m) = is_tunnel_started
class_of (tunnel_status_updated m) = is_tunnel_status_updated
class_of (ports_rebound m) = is_ports_rebound
class_of (process_terminated m) = is_process_terminated
class_of (command_not_found m) = is_command_not_found
class_of (process_killed m) = is_process_killed
class_of (tunnel_created m) = is_tunnel_created
class_of (tunnel_destroyed m) = is_tunnel_destroyed
class_of (tunnel_stopped m) = is_tunnel_stopped
class_of (regions_listed m) = is_regions_listed
class_of (tunnels_listed m) = is_tunnels_listed
class_of (request_failed m) = is_request_failed

-- `Response` and `ErrorResponse` are structural: what counts is the field `request_id`, with
-- `error_type` and `message`.
abbrev pub shape : Message → Shape
shape (run_process m) = request m.id
shape (kill_process m) = request m.id
shape (create_tunnel m) = request m.id
shape (start_tunnel m) = request m.id
shape (destroy_tunnel m) = request m.id
shape (list_regions m) = request m.id
shape (list_tunnels m) = request m.id
shape (process_started _) = other
shape (process_restarted _) = other
shape (connected_to_vpn _) = other
shape (dns_configured _) = other
shape (config_used _) = other
shape (tunnel_started _) = other
shape (tunnel_status_updated _) = other
shape (ports_rebound _) = other
shape (process_terminated m) = response m.request_id
shape (command_not_found m) = response m.request_id
shape (process_killed m) = response m.request_id
shape (tunnel_created m) = response m.request_id
shape (tunnel_destroyed m) = response m.request_id
shape (tunnel_stopped m) = response m.request_id
shape (regions_listed m) = response m.request_id
shape (tunnels_listed m) = response m.request_id
shape (request_failed m) = error_response m.request_id m.error_type m.message

-- `__response_type__`
unfoldable pub response_type : MessageType → Option (TypeExpr MessageType)
response_type is_run_process = some (union (cls is_process_terminated) (cls is_command_not_found))
response_type is_kill_process = some (cls is_process_killed)
response_type is_create_tunnel = some (cls is_tunnel_created)
response_type is_start_tunnel = some (forward_ref (cls is_tunnel_stopped))
response_type is_destroy_tunnel = some (cls is_tunnel_destroyed)
response_type is_list_regions = some (cls is_regions_listed)
response_type is_list_tunnels = some (cls is_tunnels_listed)
response_type _ = none

-- `__event_type__`
unfoldable pub event_type : MessageType → Option (TypeExpr MessageType)
event_type is_run_process = some (union (cls is_process_started) (cls is_process_restarted))
event_type is_kill_process = some (never)
event_type is_create_tunnel = some (union (cls is_connected_to_vpn) (cls is_dns_configured))
event_type is_start_tunnel = some (
    forward_ref (
      union
        (union
          (union
            (union (union (cls is_config_used) (cls is_tunnel_started)) (cls is_connected_to_vpn))
            (cls is_dns_configured))
          (cls is_tunnel_status_updated))
        (cls is_ports_rebound)))
event_type is_destroy_tunnel = some (never)
event_type is_list_regions = some (never)
event_type is_list_tunnels = some (never)
event_type _ = none

abbrev pub protocol : Protocol MessageType
protocol = record { response_type = response_type; event_type = event_type }

abbrev pub messages : Messages MessageType Message
messages = record { class_of = class_of; shape = shape }

-- `_encode_error`, for an exception with its class name and its text.
unfoldable pub encode_error : String → String × String → Message
encode_error id (name, text) =
    request_failed (record { request_id = id; error_type = name; message = text })
