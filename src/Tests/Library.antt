-- ===== src/Tests/Library.antt =====
-- The client's methods against a service on a host where everything succeeds.
use mathlib.Core.List.{Memᴰ}
use mathlib.Core.List.Memᴰ.{head}
use vpn_passthrough.Prelude.{string_eq, ◌≡◌, refl, true, false, none, some, List, [], ◌∷◌}
use vpn_passthrough.Prelude.Dict.{lookup, contains, insert}
use vpn_passthrough.Ipc.Protocol.{validate_response}
use vpn_passthrough.Messages.Classes.{message_type_eq, is_run_process}
use vpn_passthrough.Messages.{Message, Country, TunnelCreated, command_not_found, response_type}
use vpn_passthrough.Service.State.{Service, tunnel_info, emit}
use vpn_passthrough.Service.Backends.{resolve_backend}
use vpn_passthrough.Service.Setup.{setup_tunnel}
use vpn_passthrough.Service.Tunnels.{create_request, handle_create_tunnel}
use vpn_passthrough.Client.{Outcome, returned, waiting, lookup_tunnel, destroy_tunnel_of}
use vpn_passthrough.Client.Tunnels.{
  TunnelConfig, Arguments, configured, Choice, Callbacks, create_tunnel_of,
}
use vpn_passthrough.Client.Responses.{takes, accepted_response_taken}
use vpn_passthrough.Client.Daemon.{Outside, serve}
use vpn_passthrough.Client.RoundTrip.{lookup_tunnel-create_tunnel, lookup_tunnel-destroy_tunnel}
use vpn_passthrough.Tests.Tunnels.{good, empty, served}

abbrev france : Country
france = record { region_id = "fr"; name = "France"; country = "FR"; port_forward = true }

abbrev spain : Country
spain = record { region_id = "es"; name = "Spain"; country = "ES"; port_forward = false }

abbrev outside : List Country → Outside
outside countries = record {
  host = good;
  regions = λ backend. countries;
  attempts = λ r. [];
  prepared = λ r. true;
  killable = λ r. true;
  ends = λ pid. true;
  fds = 0 ∷ 1 ∷ 2 ∷ [];
  describe = λ e. ("Error", "");
}

abbrev pub both : Outside
both = outside (spain ∷ france ∷ [])

abbrev only_spain : Outside
only_spain = outside (spain ∷ [])

abbrev pub first : Choice
first [] = none
first (c ∷ cs) = some c

first_member : (cs : List Country) (c : Country) → first cs ≡ some c → Memᴰ c cs
first_member [] c h = cc
first_member (d ∷ cs) c h = head (cc)

abbrev pub wanted : Arguments
wanted = record {
  region_id = none;
  names_of_ports_to_forward = some ("web" ∷ []);
  backend_name = some "dummy";
  veth_cidr = none;
  kill_switch = true;
  rebind_ports_every = none;
  ports_to_forward_from_vpeer_to_loopback = none;
  dns_overrides = none;
  extra_routes = none;
}

abbrev pub config : TunnelConfig
config = record {
  name = "home";
  region_id = some "fr";
  names_of_ports_to_forward = [];
  backend_name = some "dummy";
  veth_cidr = none;
  kill_switch = true;
  rebind_ports_every = none;
  ports_to_forward_from_vpeer_to_loopback = [];
  dns_overrides = [];
  extra_routes = [];
}

abbrev pub callbacks : Callbacks
callbacks = record {
  on_ready = true;
  on_config_used = false;
  on_tunnel_status_updated = true;
  on_ports_rebound = false;
}

abbrev missing : Message
missing = command_not_found (record { request_id = "r1"; command = "ls" })

accepted_response_taken_example : takes is_run_process missing ≡ true
unfolding validate_response response_type
accepted_response_taken_example = accepted_response_taken is_run_process missing refl

abbrev pub result : Outcome TunnelCreated → TunnelCreated
result (returned t) = t
result _ = record { request_id = ""; name = ""; tunnel = tunnel_info empty "" }

abbrev made : Outcome TunnelCreated × Service
made = create_tunnel_of (serve both) first "r0" "r1" (configured config) wanted empty

lookup_tunnel-create_tunnel_example :
    (contains (result made.0).name empty.namespaces ≡ false)
    × ((result made.0).name ≡ "home")
    × ((lookup_tunnel (serve both) "r2" (result made.0).name made.1).0
        ≡ returned (result made.0).tunnel)
unfolding lookup create_tunnel_of serve setup_tunnel create_request resolve_backend
lookup_tunnel-create_tunnel_example =
    lookup_tunnel-create_tunnel both first "r0" "r1" empty (configured config) wanted
      (result made.0) "r2" refl

-- A process is in use in the tunnel, and does not end.
abbrev busy : Service
busy = record served { active_processes = ("home", (7, tt) ∷ []) ∷ [] }

abbrev endless : Outside
endless = record both { ends = λ pid. false }

lookup_tunnel-destroy_tunnel_example :
    ((destroy_tunnel_of (serve endless) "r3" "home" true busy).0 ≡ waiting)
    × ((lookup_tunnel
          (serve endless)
          "r4"
          "home"
          (destroy_tunnel_of (serve endless) "r3" "home" true busy).1).0
        ≡ (lookup_tunnel (serve endless) "r4" "home" busy).0)
unfolding handle_create_tunnel lookup setup_tunnel create_request resolve_backend emit insert
lookup_tunnel-destroy_tunnel_example =
    lookup_tunnel-destroy_tunnel endless "r3" "r4" "home" true busy refl
