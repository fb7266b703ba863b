-- ===== src/Tests/Client.antt =====
-- A client with one pending request for a tunnel.
use vpn_passthrough.Prelude.{
  ℕ, String, string_eq, nat_eq, ◌==◌, ◌≡◌, ◌≢◌, refl, Bool, true, false, none, some, [], ◌∷◌,
  or_else, All, if◌then◌else◌,
}
use vpn_passthrough.Prelude.Dict.{lookup, erase}
use vpn_passthrough.Ipc.Protocol.{validate_response}
use vpn_passthrough.Ipc.Client.{
  Client, Entry, Outcome, connection_error, result, receive_message, connection_closed,
}
use vpn_passthrough.Ipc.Client.Responses.{
  connection_closed_settles, response_completes, invalid_response_strands,
}
use vpn_passthrough.Messages.{
  Message, protocol, messages, response_type, tunnel_created, tunnel_destroyed,
  request_failed as failed_request, dns_configured,
}
use vpn_passthrough.Messages.Classes.{
  MessageType, message_type_eq, is_create_tunnel, is_connected_to_vpn, is_dns_configured,
}
use vpn_passthrough.Service.Tunnels.{unknown_tunnel}

abbrev always : Message → Bool
always m = true

abbrev entry : Entry MessageType Message
entry = record {
  future = 0;
  class = is_create_tunnel;
  on_event = some always;
  on_response = some always;
}

-- The request `r1` is pending.
abbrev waiting_client : Client MessageType Message
waiting_client = record {
  pending = ("r1", entry) ∷ [];
  event_routing = (is_connected_to_vpn, "r1" ∷ []) ∷ (is_dns_configured, "r1" ∷ []) ∷ [];
  futures = [];
  next_future = 1;
  calls = [];
}

abbrev idle_client : Client MessageType Message
idle_client = record { pending = []; event_routing = []; futures = []; next_future = 0; calls = [] }

abbrev made_home : Message
made_home =
    tunnel_created (record { request_id = "r1"; name = "home"; tunnel = unknown_tunnel "home" })

abbrev destroyed : Message
destroyed = tunnel_destroyed (record { request_id = "r1"; name = "home" })

abbrev refused : Message
refused =
    failed_request (record { request_id = "r1"; error_type = "ValueError"; message = "exists" })

abbrev configured : Message
configured = dns_configured (record { nameservers = [] })

connection_closed_settles_example :
    All
      (λ p.
        lookup p.1.future (connection_closed waiting_client).futures
        ≡ some (or_else (lookup p.1.future waiting_client.futures) connection_error))
      waiting_client.pending
    × ((g : ℕ) (o : Outcome)
        → lookup g waiting_client.futures ≡ some o
        → lookup g (connection_closed waiting_client).futures ≡ some o)
    × ((connection_closed waiting_client).pending ≡ [])
    × ((connection_closed waiting_client).event_routing ≡ [])
connection_closed_settles_example = connection_closed_settles waiting_client

response_completes_example :
    let s' = receive_message protocol messages made_home waiting_client in
    (lookup 0 s'.futures ≡ some (or_else (lookup 0 waiting_client.futures) result))
    × ((g : ℕ) → 0 ≢ g → lookup g s'.futures ≡ lookup g waiting_client.futures)
    × ((j : String)
        → lookup j s'.pending ≡ (if "r1" == j then none else lookup j waiting_client.pending))
    × (s'.event_routing ≡ waiting_client.event_routing)
unfolding lookup validate_response response_type
response_completes_example =
    response_completes protocol messages made_home waiting_client "r1" entry refl refl refl refl

invalid_response_strands_example :
    lookup 0
      (connection_closed (receive_message protocol messages destroyed waiting_client)).futures
    ≡ none
unfolding lookup erase validate_response response_type
invalid_response_strands_example =
    invalid_response_strands protocol messages destroyed waiting_client "r1" entry refl refl refl
      refl tt

abbrev first : String
first = "r1"

different : first ≢ "r2"
different e = let p : false ≡ true = (string_eq.beq_iff first "r2").1 e in cc
