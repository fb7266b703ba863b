-- ===== src/Tests/Server.antt =====
-- A server with one handler, over a codec that encodes a message by the number of its class.
use vpn_passthrough.Prelude.{
  ℕ, ◌+◌, String, string_eq, nat_eq, ◌≡◌, refl, true, false, none, some, List, [], ◌∷◌, ◌++◌, map,
}
use vpn_passthrough.Prelude.Dict.{Dict}
use vpn_passthrough.Ipc.Framing.{Frame}
use vpn_passthrough.Ipc.Server.{Run, emit, reply, Codec, Exceptions, Wire, Registry, handle_request}
use vpn_passthrough.Ipc.Server.Responses.{to_frame, AllDeclared, IsAnswer, request_answered}
use vpn_passthrough.Messages.{
  Message, protocol, messages, class_of, encode_error, create_tunnel, tunnel_created,
  dns_configured,
}
use vpn_passthrough.Messages.Classes.{MessageType, message_type_eq, number, is_create_tunnel}
use vpn_passthrough.Service.Tunnels.{unknown_tunnel}

abbrev codec : Codec Message (String × String)
codec = record {
  encode = λ m. (number (class_of m) + 1) ∷ [];
  decode = λ b. none;
  encode_error = some encode_error;
}

abbrev exceptions : Exceptions (String × String)
exceptions = record {
  no_handler = ("ValueError", "no handler");
  invalid_type = ("TypeError", "invalid type");
  disconnected = ("ConnectionError", "disconnected");
}

abbrev wire : Wire
wire = record { sent = []; sends = []; closed = false }

abbrev handlers : Dict MessageType (Message → List ℕ → Run Message (String × String))
handlers =
    (
      is_create_tunnel,
      λ m fds. emit (dns_configured (record { nameservers = [] })) [] (
          reply
            (tunnel_created
              (record { request_id = "r1"; name = "home"; tunnel = unknown_tunnel "home" }))
            []),
    )
    ∷ []

abbrev create_home : Message
create_home = create_tunnel (record {
  id = "r1";
  name = "home";
  region_id = none;
  names_of_ports_to_forward = [];
  backend_name = none;
  veth_cidr = none;
  kill_switch = true;
  rebind_ports_every = none;
  ports_to_forward_from_vpeer_to_loopback = [];
  dns_overrides = [];
  extra_routes = [];
})

request_answered_example :
    let w' = handle_request protocol messages codec exceptions handlers "r1" create_home [] wire in
    (events : List (Message × List ℕ)) × (last : Frame) × (w'.sent
      ≡ wire.sent ++ (map (to_frame protocol messages codec exceptions) events ++ last ∷ []))
    × AllDeclared protocol messages codec exceptions is_create_tunnel events
    × IsAnswer protocol messages codec exceptions "r1" is_create_tunnel encode_error last
request_answered_example =
    request_answered protocol messages codec exceptions handlers "r1" create_home [] wire
      encode_error refl refl

abbrev registry : Registry
registry = record { opened = 1 ∷ 2 ∷ []; closed = [] }
