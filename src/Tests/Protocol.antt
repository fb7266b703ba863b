-- ===== src/Tests/Protocol.antt =====
-- The declared classes of the daemon's requests.
use vpn_passthrough.Prelude.{◌≡◌, refl, true, some, elem, [], ◌∷◌}
use vpn_passthrough.Ipc.Protocol.{
  cls, union, flatten_event_types, resolve_type, verdict, validate_response, validate_event,
}
use vpn_passthrough.Ipc.Protocol.Laws.{validate_event-routes}
use vpn_passthrough.Messages.{
  Message, shape, response_type, event_type, protocol, tunnel_destroyed, dns_configured,
}
use vpn_passthrough.Messages.Classes.{
  message_type_eq, is_create_tunnel, is_connected_to_vpn, is_dns_configured, is_destroy_tunnel,
}
use vpn_passthrough.Messages.Declared.{is_response, accepted_response_shape}

validate_event-routes_example :
    validate_event protocol is_create_tunnel is_dns_configured
    ≡ verdict (
        some (
          elem is_dns_configured (
            flatten_event_types
              (resolve_type (union (cls is_connected_to_vpn) (cls is_dns_configured))))))
unfolding event_type resolve_type
validate_event-routes_example =
    validate_event-routes protocol is_create_tunnel is_dns_configured
      (union (cls is_connected_to_vpn) (cls is_dns_configured)) refl (tt, tt)

abbrev pub destroyed : Message
destroyed = tunnel_destroyed (record { request_id = "r1"; name = "home" })

accepted_response_shape_example : is_response (shape destroyed) ≡ true
unfolding validate_response response_type
accepted_response_shape_example = accepted_response_shape is_destroy_tunnel destroyed refl

abbrev pub configured : Message
configured = dns_configured (record { nameservers = "10.0.0.1" ∷ [] })
