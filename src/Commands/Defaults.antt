-- ===== src/Commands/Defaults.antt =====
-- A command without options asks for what the tunnel's configuration says, but for the backend.
use vpn_passthrough.Prelude.{String, ◌≡◌, refl, none, []}
use vpn_passthrough.Client.{Daemon}
use vpn_passthrough.Client.Tunnels.{
  TunnelConfig, Arguments, named, configured, from_config, resolved, Choice, Callbacks,
  create_tunnel_of, start_tunnel_of,
}
use vpn_passthrough.Commands.{Options, or_text, overrides_of, routes_of, arguments}

abbrev pub no_options : Options
no_options = record {
  region_id = none;
  backend_name = none;
  names_of_ports_to_forward = [];
  rebind_ports_every = none;
  veth_cidr = none;
  kill_switch = none;
  ports_to_forward_from_vpeer_to_loopback = [];
  dns_overrides_raw = [];
  extra_routes_raw = [];
}

-- The configuration with no backend named.
abbrev pub without_backend : TunnelConfig → TunnelConfig
without_backend config = record config { backend_name = none }

-- Without options, create-tunnel and start-tunnel do exactly what the client does with the tunnel's
-- configuration from which the backend is taken out: every value of it is handed on except the
-- backend, so that the tunnel is made with the daemon's default backend whatever it says.
pub commands_without_backend :
    {S : Type 0} (daemon : Daemon S) (choice : Choice) (regions_id id : String)
    (config : TunnelConfig) (args : Arguments) (cb : Callbacks) (s : S)
    → (create_tunnel_of daemon choice regions_id id
          (named config.name)
          (arguments no_options config)
          s
        ≡ create_tunnel_of daemon choice regions_id id (configured (without_backend config)) args s)
      × (start_tunnel_of daemon choice regions_id id
            (named config.name)
            (arguments no_options config)
            cb
            s
          ≡ start_tunnel_of daemon choice regions_id id
              (configured (without_backend config))
              args
              cb
              s)
unfolding arguments from_config create_tunnel_of start_tunnel_of resolved or_text overrides_of
    routes_of
commands_without_backend daemon choice regions_id id config args cb s = (refl, refl)
