-- ===== src/Tests/Tunnels.antt =====
-- A host on which everything succeeds, and one tunnel without a VPN and one with the dummy VPN.
use vpn_passthrough.Prelude.{
  ℕ, ◌+◌, String, string_eq, ◌≡◌, ◌⊎◌, refl, not, Bool, true, false, Option, none, some, List, [],
  ◌∷◌,
}
use vpn_passthrough.Prelude.Dict.{lookup, insert, contains}
use vpn_passthrough.Messages.{Message, TunnelInfo, CreateTunnel, DestroyTunnel, tunnel_destroyed}
use vpn_passthrough.Service.State.{
  Resource, vpn, forwarded_port, Host, tunnel_exists, tunnel_info, not_entered, Result, ok, err,
  Service, emit,
}
use vpn_passthrough.Service.Backends.{resolve_backend}
use vpn_passthrough.Service.Setup.{Request, run_setup, setup_tunnel}
use vpn_passthrough.Service.Setup.Overlap.{late_setup_disconnects}
use vpn_passthrough.Service.Rebinding.{rebind_round}
use vpn_passthrough.Service.Rebinding.Failure.{destroy_after_failed_round}
use vpn_passthrough.Client.Connected.{tunnel_of, created_shows_connected}
use vpn_passthrough.Service.Setup.Outcome.{
  Established, CleanedUp, setup-Established, setup_cleans_up,
}
use vpn_passthrough.Service.Tunnels.{
  create_request, handle_create_tunnel, awaited, handle_destroy_tunnel,
}
use vpn_passthrough.Service.Tunnels.Destroy.{Restored, Stays, destroy-create}
use vpn_passthrough.Service.Tunnels.Reachable.{fresh_service}

-- Whether it is the VPN's.
abbrev is_vpn : Resource → Bool
is_vpn (vpn _ _ _ _) = true
is_vpn _ = false

abbrev host : (Resource → Bool) → Host
host enters = record {
  enters = enters;
  interfaces = λ name cidr. record {
    veth = "v0";
    veth_ip = "10.0.0.1";
    vpeer = "v1";
    vpeer_ip = "10.0.0.2";
  };
  session = λ type credentials region. record {
    gateway_ip = "10.1.0.1";
    tun_ip = "10.1.0.2";
    dns_servers = "10.1.0.3" ∷ [];
    server_ip = some "1.2.3.4";
  };
  port = λ n. 40000 + n;
  remote_ip = λ name. some "1.2.3.5";
  installed = λ type. true;
}

abbrev pub good : Host
good = host (λ r. true)

abbrev bad : Host
bad = host (λ r. not (is_vpn r))

abbrev pub request : Option String → CreateTunnel
request region = record {
  id = "r1";
  name = "home";
  region_id = region;
  names_of_ports_to_forward = "web" ∷ [];
  backend_name = some "dummy";
  veth_cidr = none;
  kill_switch = true;
  rebind_ports_every = some 1000;
  ports_to_forward_from_vpeer_to_loopback = [];
  dns_overrides = [];
  extra_routes = [];
}

abbrev pub destroy_home : DestroyTunnel
destroy_home = record { id = "r2"; name = "home"; wait = false }

abbrev pub empty : Service
empty = fresh_service [] none true

abbrev with_vpn : Request
with_vpn = create_request (request (some "fr")) (some "r1")

setup-Established_example : Established "home" empty (setup_tunnel good with_vpn empty).1
unfolding setup_tunnel create_request lookup resolve_backend
setup-Established_example = setup-Established good with_vpn empty refl

abbrev vpn_down : Resource
vpn_down = vpn "dummy" [] "home" "fr"

setup_cleans_up_example :
    ((not_entered vpn_down ≡ tunnel_exists)
      × ((setup_tunnel bad with_vpn empty).1 ≡ empty)
      × (contains "home" empty.namespaces ≡ true))
    ⊎ CleanedUp "home" empty (setup_tunnel bad with_vpn empty).1
unfolding setup_tunnel create_request lookup resolve_backend
setup_cleans_up_example = setup_cleans_up bad with_vpn empty (not_entered vpn_down) refl

-- The service with the tunnel, and with a rebinding task that has failed.
abbrev pub served : Service
served = (handle_create_tunnel good (request (some "fr")) (some "r1") empty).1

-- A host on which no port can be forwarded any more.
abbrev is_port : Resource → Bool
is_port (forwarded_port _ _) = true
is_port _ = false

abbrev no_ports : Host
no_ports = host (λ r. not (is_port r))

abbrev failed_task : Service
failed_task = (rebind_round no_ports "home" none served).1

destroy_after_failed_round_example :
    ((handle_destroy_tunnel (λ pid. true) destroy_home failed_task).0
      ≡ some (err (not_entered (forwarded_port "home" 1))))
    × Stays "home" failed_task (handle_destroy_tunnel (λ pid. true) destroy_home failed_task).1
unfolding handle_create_tunnel lookup setup_tunnel create_request resolve_backend emit insert
    rebind_round
destroy_after_failed_round_example =
    destroy_after_failed_round no_ports (λ pid. true) destroy_home served
      (not_entered (forwarded_port "home" 1)) refl refl

late_setup_disconnects_example :
    let s' = (run_setup bad with_vpn served).1 in
    (contains "home" s'.namespaces ≡ true)
    × (lookup "home" s'.exit_stacks ≡ lookup "home" served.exit_stacks)
    × ((tunnel_info s' "home").vpn_connected ≡ false)
    × ((tunnel_info s' "home").region_id ≡ none)
    × ((tunnel_info s' "home").public_ip ≡ none)
    × (rebind_round good "home" none s' ≡ (ok false, s'))
unfolding handle_create_tunnel lookup setup_tunnel run_setup create_request resolve_backend emit
    insert
late_setup_disconnects_example =
    late_setup_disconnects bad with_vpn served (not_entered vpn_down) good none refl refl

abbrev value : Result (Message × List ℕ) → Message × List ℕ
value (ok v) = v
value (err e) = (tunnel_destroyed (record { request_id = ""; name = "" }), [])

abbrev reply : Message × List ℕ
reply = value (handle_create_tunnel good (request (some "fr")) (some "r1") empty).0

destroy-create_example :
    Restored "home" empty
      (handle_destroy_tunnel
        (λ pid. true)
        destroy_home
        (handle_create_tunnel good (request (some "fr")) (some "r1") empty).1).1
unfolding handle_create_tunnel lookup setup_tunnel create_request resolve_backend emit insert
    awaited
destroy-create_example =
    destroy-create good (request (some "fr")) (some "r1") empty "r2" false (λ pid. true) reply refl
      refl refl

-- An answer for a tunnel without a VPN.
abbrev isolated : Message × List ℕ
isolated = value (handle_create_tunnel good (request none) (some "r1") empty).0

created_shows_connected_example :
    (t : TunnelInfo) × (tunnel_of isolated.0 ≡ some t)
    × (t.name ≡ "home")
    × (t.vpn_connected ≡ true)
unfolding handle_create_tunnel lookup setup_tunnel create_request resolve_backend emit insert
created_shows_connected_example =
    created_shows_connected good (request none) (some "r1") empty isolated refl
