-- ===== src/Client/Tunnels.antt =====
-- `create_tunnel` and `start_tunnel` of client.py.
use vpn_passthrough.Prelude.{
  ℕ, String, Bool, true, false, Option, none, some, List, [], ◌∷◌, ◌++◌, or_else, if◌then◌else◌,
}
use vpn_passthrough.Prelude.Dict.{Dict}
use vpn_passthrough.Messages.{
  Message, CreateTunnel, StartTunnel, Country, TunnelCreated, TunnelInfo, ConfigUsed, PortsRebound,
  create_tunnel, start_tunnel, tunnel_created, tunnel_stopped, config_used, tunnel_started,
  tunnel_status_updated, ports_rebound,
}
use vpn_passthrough.Service.Tunnels.{none_if_empty}
use vpn_passthrough.Client.{
  Daemon, Outcome, returned, raised, waiting, index_error, await, regions_of,
}

-- `TunnelConfig` of config.py.
pub record TunnelConfig : Type 0 where
  pub name : String
  pub region_id : Option String
  pub names_of_ports_to_forward : List String
  pub backend_name : Option String
  pub veth_cidr : Option String
  pub kill_switch : Bool
  pub rebind_ports_every : Option ℕ
  pub ports_to_forward_from_vpeer_to_loopback : List ℕ
  pub dns_overrides : Dict String (List String)
  pub extra_routes : List String

-- The keyword arguments.
pub record Arguments : Type 0 where
  pub region_id : Option String
  pub names_of_ports_to_forward : Option (List String)
  pub backend_name : Option String
  pub veth_cidr : Option String
  pub kill_switch : Bool
  pub rebind_ports_every : Option ℕ
  pub ports_to_forward_from_vpeer_to_loopback : Option (List ℕ)
  pub dns_overrides : Option (Dict String (List String))
  pub extra_routes : Option (List String)

pub data NameOrConfig : Type 0 where
  named : String → NameOrConfig
  configured : TunnelConfig → NameOrConfig

-- The arguments that take the place of the given ones.
unfoldable pub from_config : TunnelConfig → Arguments
unfolding none_if_empty
from_config c = record {
  region_id = c.region_id;
  names_of_ports_to_forward = some c.names_of_ports_to_forward;
  backend_name = c.backend_name;
  veth_cidr = c.veth_cidr;
  kill_switch = c.kill_switch;
  rebind_ports_every = c.rebind_ports_every;
  ports_to_forward_from_vpeer_to_loopback = some c.ports_to_forward_from_vpeer_to_loopback;
  dns_overrides = none_if_empty c.dns_overrides;
  extra_routes = none_if_empty c.extra_routes;
}

-- The `isinstance` of both methods.
unfoldable pub resolved : NameOrConfig → Arguments → String × Arguments
unfolding from_config
resolved (named name) a = (name, a)
resolved (configured c) a = (c.name, from_config c)

-- `[country for country in countries if country.port_forward]`
unfoldable pub forwarding : List Country → List Country
forwarding [] = []
forwarding (c ∷ cs) = let rest = forwarding cs in if c.port_forward then c ∷ rest else rest

unfoldable pub candidates : Option (List String) → List Country → List Country
unfolding forwarding
candidates none countries = countries
candidates (some []) countries = countries
candidates (some (p ∷ ps)) countries = forwarding countries

-- `random.choice`, which stands outside, gives none for an empty list.
abbrev pub Choice : Type 0
Choice = List Country → Option Country

abbrev pub chosen : Option Country → Outcome String
chosen none = raised index_error
chosen (some country) = returned country.region_id

unfoldable pub choose_among :
    Choice → Option (List String) → Outcome (List Country) → Outcome String
unfolding candidates
choose_among choice names (returned countries) = chosen (choice (candidates names countries))
choose_among choice names (raised e) = raised e
choose_among choice names waiting = waiting

unfoldable pub create_message : String → String → String → Arguments → CreateTunnel
create_message id name region a = record {
  id = id;
  name = name;
  region_id = some region;
  names_of_ports_to_forward = or_else a.names_of_ports_to_forward [];
  backend_name = a.backend_name;
  veth_cidr = a.veth_cidr;
  kill_switch = a.kill_switch;
  rebind_ports_every = a.rebind_ports_every;
  ports_to_forward_from_vpeer_to_loopback = or_else a.ports_to_forward_from_vpeer_to_loopback [];
  dns_overrides = or_else a.dns_overrides [];
  extra_routes = or_else a.extra_routes [];
}

unfoldable pub start_message : String → String → String → Arguments → StartTunnel
start_message id name region a = record {
  id = id;
  name = name;
  region_id = some region;
  names_of_ports_to_forward = or_else a.names_of_ports_to_forward [];
  backend_name = a.backend_name;
  rebind_ports_every = a.rebind_ports_every;
  veth_cidr = a.veth_cidr;
  kill_switch = a.kill_switch;
  ports_to_forward_from_vpeer_to_loopback = or_else a.ports_to_forward_from_vpeer_to_loopback [];
  dns_overrides = or_else a.dns_overrides [];
  extra_routes = or_else a.extra_routes [];
}

abbrev pub created : Message → Option TunnelCreated
created (tunnel_created m) = some m
created _ = none

abbrev pub stopped : Message → Option (Unit {0})
stopped (tunnel_stopped m) = some tt
stopped _ = none

-- Which of the callbacks of `start_tunnel` are given.
pub record Callbacks : Type 0 where
  pub on_ready : Bool
  pub on_config_used : Bool
  pub on_tunnel_status_updated : Bool
  pub on_ports_rebound : Bool

-- A call of one of them.
pub data Called : Type 0 where
  called_ready : Called
  called_config_used : ConfigUsed → Called
  called_tunnel_status_updated : TunnelInfo → Called
  called_ports_rebound : PortsRebound → Called

abbrev pub call_if : Bool → Called → List Called
call_if true c = c ∷ []
call_if false c = []

-- `on_event` of `start_tunnel`
unfoldable pub on_event : Callbacks → Message → List Called
on_event cb (config_used m) = call_if cb.on_config_used (called_config_used m)
on_event cb (tunnel_started m) = call_if cb.on_ready called_ready
on_event cb (tunnel_status_updated m) =
    call_if cb.on_tunnel_status_updated (called_tunnel_status_updated m.info)
on_event cb (ports_rebound m) = call_if cb.on_ports_rebound (called_ports_rebound m)
on_event cb _ = []

unfoldable pub on_events : Callbacks → List Message → List Called
unfolding on_event
on_events cb [] = []
on_events cb (event ∷ events) = on_event cb event ++ on_events cb events

-- Goes on with a value.
abbrev pub go_on : {A B S : Type 0} → (A → S → Outcome B × S) → Outcome A × S → Outcome B × S
go_on f (returned a, s) = f a s
go_on f (raised e, s) = (raised e, s)
go_on f (waiting, s) = (waiting, s)

-- The same for `start_tunnel`: without a region no callback is called.
abbrev pub start_with :
    {A S : Type 0}
    → (A → S → (List Called × Outcome (Unit {0})) × S)
    → Outcome A × S
    → (List Called × Outcome (Unit {0})) × S
start_with f (returned a, s) = f a s
start_with f (raised e, s) = (([], raised e), s)
start_with f (waiting, s) = (([], waiting), s)

module _ {S : Type 0} (daemon : Daemon S) (choice : Choice) (regions_id id : String) where
  -- The region that is asked for, or one that the daemon lists.
  unfoldable pub choose_region : Arguments → S → Outcome String × S
  unfolding choose_among regions_of
  choose_region a s = elim a.region_id [
    | some region ↦ (returned region, s)
    | none ↦
        let (r, s') = regions_of daemon regions_id a.backend_name s in
        (choose_among choice a.names_of_ports_to_forward r, s')
  ]

  unfoldable pub send_create : String → Arguments → String → S → Outcome TunnelCreated × S
  unfolding create_message await
  send_create name a region s =
      let (x, s') = daemon (create_tunnel (create_message id name region a)) s in
      (await created x.answer, s')

  unfoldable pub send_start :
      Callbacks → String → Arguments → String → S → (List Called × Outcome (Unit {0})) × S
  unfolding start_message await on_events
  send_start cb name a region s =
      let (x, s') = daemon (start_tunnel (start_message id name region a)) s in
      ((on_events cb x.events, await stopped x.answer), s')

  -- `create_tunnel`
  unfoldable pub create_tunnel_of : NameOrConfig → Arguments → S → Outcome TunnelCreated × S
  unfolding resolved choose_region send_create
  create_tunnel_of name_or_config args s =
      let (name, a) = resolved name_or_config args in go_on (send_create name a) (choose_region a s)

  -- `start_tunnel`, with the calls of the callbacks.
  unfoldable pub start_tunnel_of :
      NameOrConfig → Arguments → Callbacks → S → (List Called × Outcome (Unit {0})) × S
  unfolding resolved choose_region send_start
  start_tunnel_of name_or_config args cb s =
      let (name, a) = resolved name_or_config args in
      start_with (send_start cb name a) (choose_region a s)
