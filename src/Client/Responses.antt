-- ===== src/Client/Responses.antt =====
-- What reaches the methods of the client: every response that the protocol accepts sets the future,
-- and a configuration stands for the arguments that it names.
use mathlib.Core.Path.{fun_ext}
use vpn_passthrough.Prelude.{
  String, ◌≡◌, refl, ap, Bool, true, false, some, List, [], ◌∷◌, or_else, is_some, arith,
}
use vpn_passthrough.Ipc.Protocol.{accepted, validate_response}
use vpn_passthrough.Messages.Classes.{
  MessageType, message_type_eq, is_run_process, is_kill_process, is_create_tunnel, is_start_tunnel,
  is_destroy_tunnel, is_list_regions, is_list_tunnels,
}
use vpn_passthrough.Messages.{
  Message, CreateTunnel, StartTunnel, create_tunnel, start_tunnel, class_of, response_type,
  protocol,
}
use vpn_passthrough.Service.Tunnels.{none_if_empty}
use vpn_passthrough.Client.{Daemon, await, exit_code, killed, destroyed, regions, tunnels}
use vpn_passthrough.Client.Tunnels.{
  TunnelConfig, Arguments, named, configured, from_config, resolved, Choice, create_message,
  start_message, go_on, start_with, on_events, created, stopped, Callbacks, choose_region,
  send_create, send_start, create_tunnel_of, start_tunnel_of,
}

-- Whether the method that sends requests of a class sets its future for a message.
unfoldable pub takes : MessageType → Message → Bool
takes is_run_process m = is_some (exit_code m)
takes is_kill_process m = is_some (killed m)
takes is_create_tunnel m = is_some (created m)
takes is_start_tunnel m = is_some (stopped m)
takes is_destroy_tunnel m = is_some (destroyed m)
takes is_list_regions m = is_some (regions m)
takes is_list_tunnels m = is_some (tunnels m)
takes _ m = false

-- A message that the protocol accepts as the response to a request of some class sets the future of
-- the client's method for that class: with it no method is left waiting.
pub accepted_response_taken :
    (c : MessageType) (m : Message)
    → validate_response protocol c (class_of m) ≡ accepted
    → takes c m ≡ true
unfolding validate_response response_type takes
accepted_response_taken c m h = ground arith

-- The same arguments, with each written out.
abbrev pub arguments_of : TunnelConfig → Arguments
arguments_of c = record {
  region_id = c.region_id;
  names_of_ports_to_forward = some c.names_of_ports_to_forward;
  backend_name = c.backend_name;
  veth_cidr = c.veth_cidr;
  kill_switch = c.kill_switch;
  rebind_ports_every = c.rebind_ports_every;
  ports_to_forward_from_vpeer_to_loopback = some c.ports_to_forward_from_vpeer_to_loopback;
  dns_overrides = some c.dns_overrides;
  extra_routes = some c.extra_routes;
}

or_else-none_if_empty : {A : Type 0} (xs : List A) → or_else (none_if_empty xs) [] ≡ xs
unfolding none_if_empty
or_else-none_if_empty [] = refl
or_else-none_if_empty (x ∷ xs) = refl

module _ (id name : String) (c : TunnelConfig) where
  same_create :
      ◌≡◌ {A = String → CreateTunnel}
        (λ region. create_message id name region (from_config c))
        (λ region. create_message id name region (arguments_of c))
  unfolding create_message from_config
  same_create = fun_ext λ region.
      rw (or_else-none_if_empty c.dns_overrides, or_else-none_if_empty c.extra_routes) refl

  same_start :
      ◌≡◌ {A = String → StartTunnel}
        (λ region. start_message id name region (from_config c))
        (λ region. start_message id name region (arguments_of c))
  unfolding start_message from_config
  same_start = fun_ext λ region.
      rw (or_else-none_if_empty c.dns_overrides, or_else-none_if_empty c.extra_routes) refl

-- A tunnel that is given by a configuration is created and started exactly as one that is given by
-- its name with the configuration's values as keyword arguments: the same requests are sent, the
-- same callbacks called, with the same end.
pub configured_as_named :
    {S : Type 0} (daemon : Daemon S) (choice : Choice) (regions_id id : String) (c : TunnelConfig)
    (args : Arguments) (cb : Callbacks) (s : S)
    → (create_tunnel_of daemon choice regions_id id (configured c) args s
        ≡ create_tunnel_of daemon choice regions_id id (named c.name) (arguments_of c) s)
      × (start_tunnel_of daemon choice regions_id id (configured c) args cb s
          ≡ start_tunnel_of daemon choice regions_id id (named c.name) (arguments_of c) cb s)
unfolding create_tunnel_of start_tunnel_of resolved from_config send_create send_start
    create_message start_message choose_region
configured_as_named daemon choice regions_id id c args cb s =
    let chosen = choose_region daemon choice regions_id id (arguments_of c) s in
    (
      ap
          (λ message.
            go_on
              (λ region t.
                let (x, t') = daemon (create_tunnel (message region)) t in
                (await created x.answer, t'))
              chosen)
          (same_create id c.name c),
      ap
          (λ message.
            start_with
              (λ region t.
                let (x, t') = daemon (start_tunnel (message region)) t in
                ((on_events cb x.events, await stopped x.answer), t'))
              chosen)
          (same_start id c.name c),
    )
