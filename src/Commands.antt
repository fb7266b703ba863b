-- ===== src/Commands.antt =====
-- The commands of app/packages/app/src/radium226/vpn_passthrough/app/commands that create, start and
-- use tunnels: from their options to the client's methods.
pub mod Entry
pub mod Overrides
pub mod Defaults
pub mod Temporary
use vpn_passthrough.Prelude.{
  ℕ, String, string_eq, ◌==◌, Bool, true, Option, none, some, List, [], ◌∷◌, ◌++◌, or_else,
  if◌then◌else◌,
}
use vpn_passthrough.Prelude.Dict.{Dict, lookup, insert}
use vpn_passthrough.Service.Tunnels.{none_if_empty}
use vpn_passthrough.Client.Tunnels.{TunnelConfig, Arguments}
use vpn_passthrough.Commands.Entry.{partition}

-- The options that create-tunnel and start-tunnel share; `kill_switch` is whether it is "yes".
pub record Options : Type 0 where
  pub region_id : Option String
  pub backend_name : Option String
  pub names_of_ports_to_forward : List String
  pub rebind_ports_every : Option ℕ
  pub veth_cidr : Option String
  pub kill_switch : Option Bool
  pub ports_to_forward_from_vpeer_to_loopback : List ℕ
  pub dns_overrides_raw : List String
  pub extra_routes_raw : List String

-- `TunnelConfig(name=name)`
abbrev pub empty_config : String → TunnelConfig
empty_config name = record {
  name = name;
  region_id = none;
  names_of_ports_to_forward = [];
  backend_name = none;
  veth_cidr = none;
  kill_switch = true;
  rebind_ports_every = none;
  ports_to_forward_from_vpeer_to_loopback = [];
  dns_overrides = [];
  extra_routes = [];
}

-- `text or default`
unfoldable pub or_text : Option String → Option String → Option String
or_text none default = default
or_text (some text) default = if text == "" then default else some text

-- `value if value is not None else default`
abbrev pub or_option : {A : Type 0} → Option A → Option A → Option A
or_option none default = default
or_option (some value) default = some value

-- `list(values) if values else default`
abbrev pub or_list : {A : Type 0} → List A → List A → List A
or_list [] default = default
or_list (x ∷ xs) default = x ∷ xs

-- `dns_overrides.setdefault(domain, []).append(ip)`
unfoldable pub add_override :
    String × String → Dict String (List String) → Dict String (List String)
add_override (domain, ip) overrides =
    insert domain (or_else (lookup domain overrides) [] ++ ip ∷ []) overrides

-- The loop over the entries.
unfoldable pub collect : List String → Dict String (List String) → Dict String (List String)
unfolding add_override partition
collect [] overrides = overrides
collect (entry ∷ entries) overrides = collect entries (add_override (partition entry) overrides)

unfoldable pub overrides_of :
    List String → Dict String (List String) → Option (Dict String (List String))
unfolding collect none_if_empty
overrides_of [] default = none_if_empty default
overrides_of (entry ∷ entries) default = some (collect (entry ∷ entries) [])

unfoldable pub routes_of : List String → List String → Option (List String)
unfolding none_if_empty
routes_of [] default = none_if_empty default
routes_of (route ∷ routes) default = some (route ∷ routes)

-- What both commands hand to the client's method.
unfoldable pub arguments : Options → TunnelConfig → Arguments
unfolding or_text overrides_of routes_of
arguments o config = record {
  region_id = or_text o.region_id config.region_id;
  names_of_ports_to_forward =
      some (or_list o.names_of_ports_to_forward config.names_of_ports_to_forward);
  backend_name = o.backend_name;
  veth_cidr = or_text o.veth_cidr config.veth_cidr;
  kill_switch = or_else o.kill_switch config.kill_switch;
  rebind_ports_every = or_option o.rebind_ports_every config.rebind_ports_every;
  ports_to_forward_from_vpeer_to_loopback = some (
      or_list o.ports_to_forward_from_vpeer_to_loopback
        config.ports_to_forward_from_vpeer_to_loopback);
  dns_overrides = overrides_of o.dns_overrides_raw config.dns_overrides;
  extra_routes = routes_of o.extra_routes_raw config.extra_routes;
}

-- `tunnel_configs.get(name, TunnelConfig(name=name))`
unfoldable pub config_of : Dict String TunnelConfig → String → TunnelConfig
config_of configs name = or_else (lookup name configs) (empty_config name)
