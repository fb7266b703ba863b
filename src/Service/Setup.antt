-- ===== src/Service/Setup.antt =====
-- `_setup_tunnel` of service.py. A tunnel is built under an `AsyncExitStack`, whose top is the head
-- of a list; an exception leaves all context managers of the stack, the last entered first.
pub mod Growth
pub mod Ensures
pub mod Outcome
pub mod Overlap
use vpn_passthrough.Prelude.{
  ℕ, ◌+◌, String, string_eq, ◌||◌, Bool, true, false, Option, none, some, List, [], ◌∷◌, ◌++◌, map,
  or_else, is_some, if◌then◌else◌,
}
use vpn_passthrough.Prelude.Dict.{Dict, contains, insert, erase}
use vpn_passthrough.Messages.{dns_configured, connected_to_vpn}
use vpn_passthrough.Service.State.{
  Resource, namespace, network_interfaces, internet, vpeer_port_forward, vpn, dns, kill_switch,
  forwarded_port, acquire, release, Interfaces, TunnelContext, Host, tunnel_exists, not_entered,
  Result, ok, err, Service, emit,
}
use vpn_passthrough.Service.Backends.{resolve_backend}

-- The arguments of `_setup_tunnel`; `target` is the request that `emit` belongs to.
pub record Request : Type 0 where
  pub name : String
  pub region_id : Option String
  pub names_of_ports_to_forward : List String
  pub target : Option String
  pub backend_name : Option String
  pub veth_cidr : Option String
  pub kill_switch : Bool
  pub ports_to_forward_from_vpeer_to_loopback : List ℕ
  pub client_pid : Option ℕ
  pub dns_overrides : Option (Dict String (List String))
  pub extra_routes : Option (List String)

-- The service together with the stack that is being filled.
pub record Building : Type 0 where
  pub service : Service
  pub stack : List Resource

abbrev pub Setup : Type 0 → Type 0
Setup A = Building → Result A × Building

abbrev pub continue : {A B : Type 0} → Result A → (A → Setup B) → Setup B
continue (ok a) f b = f a b
continue (err e) f b = (err e, b)

infixl 5 ◌>>=◌ ◌>>◌
abbrev pub ◌>>=◌ : {A B : Type 0} → Setup A → (A → Setup B) → Setup B
◌>>=◌ m f b = let (r, b') = m b in continue r f b'

abbrev pub ◌>>◌ : {A B : Type 0} → Setup A → Setup B → Setup B
m >> k = m >>= λ _. k

abbrev pub pure : {A : Type 0} → A → Setup A
pure a b = (ok a, b)

abbrev pub lift : {A : Type 0} → Result A → Setup A
lift r b = (r, b)

abbrev pub modify : (Service → Service) → Setup (Unit {0})
modify f b = (ok tt, record b { service = f b.service })

-- Whether the context manager is entered without an exception.
unfoldable pub entered : Bool → Resource → Setup (Unit {0})
entered true r b = (
  ok tt,
  record {
    service = record b.service { trace = b.service.trace ++ acquire r ∷ [] };
    stack = r ∷ b.stack;
  },
)
entered false r b = (err (not_entered r), b)

-- `stack.aclose()`
abbrev pub unwind : List Resource → Service → Service
unwind stack s = record s { trace = s.trace ++ map release stack }

module _ (host : Host) where
  -- `stack.enter_async_context(…)`
  unfoldable pub enter : Resource → Setup (Unit {0})
  unfolding entered
  enter r = entered (host.enters r) r

  -- `session.forward_port()` is entered, and gives a port.
  unfoldable pub forward_port : String → Setup ℕ
  unfolding enter
  forward_port name b =
      let n = b.service.next_port in
      (do
        enter (forwarded_port name n)
        modify (λ s. record s { next_port = n + 1 })
        pure (host.port n))
        b

  -- The loop over the names of the ports.
  unfoldable pub forward_ports : String → List String → Dict String ℕ → Setup (Dict String ℕ)
  unfolding forward_port
  forward_ports name [] ports = pure ports
  forward_ports name (p ∷ ps) ports =
      forward_port name >>= λ port. forward_ports name ps (insert p port ports)

  module _ (q : Request) where
    abbrev interfaces : Interfaces
    interfaces = host.interfaces q.name q.veth_cidr

    -- `kill_switch and session.server_ip is not None`
    unfoldable pub activate_kill_switch : Bool → Option String → Setup (Unit {0})
    unfolding enter
    activate_kill_switch true (some ip) = enter (kill_switch q.name ip q.extra_routes)
    activate_kill_switch true none = pure tt
    activate_kill_switch false ip = pure tt

    abbrev keep_context : TunnelContext → Setup (Unit {0})
    keep_context ctx =
        modify (λ s. record s { tunnel_contexts = insert q.name ctx s.tunnel_contexts })

    -- The branch with a VPN, from the backend that was resolved.
    unfoldable pub connect_with : String → String × Dict String String → Setup (Unit {0})
    unfolding enter activate_kill_switch forward_ports
    connect_with region (type, credentials) =
        let session = host.session type credentials region in
        do
          enter (vpn type credentials q.name region)
          enter (dns q.name (some session.dns_servers) q.dns_overrides)
          activate_kill_switch q.kill_switch session.server_ip
          modify (emit q.target (dns_configured (record { nameservers = session.dns_servers })))
          ports ← forward_ports q.name q.names_of_ports_to_forward []
          let remote_ip = or_else (host.remote_ip q.name) ""
          modify (
              emit q.target (
                connected_to_vpn (record {
                  remote_ip = remote_ip;
                  gateway_ip = session.gateway_ip;
                  tun_ip = session.tun_ip;
                  forwarded_ports = ports;
                })))
          keep_context (record {
            public_ip = remote_ip;
            gateway_ip = session.gateway_ip;
            tun_ip = session.tun_ip;
            forwarded_ports = ports;
            veth = interfaces.veth;
            veth_ip = interfaces.veth_ip;
            vpeer = interfaces.vpeer;
            vpeer_ip = interfaces.vpeer_ip;
            region_id = some region;
            forward_port = true;
          })

    -- The branch with a VPN.
    unfoldable pub connect : String → Setup (Unit {0})
    unfolding connect_with
    connect region b =
        let default = b.service.default_backend_name in
        (lift (resolve_backend host b.service.backends default q.backend_name)
            >>= connect_with region)
          b

    -- The branch without.
    unfoldable pub isolate : Setup (Unit {0})
    unfolding enter
    isolate = do
      enter (dns q.name none q.dns_overrides)
      modify (emit q.target (dns_configured (record { nameservers = [] })))
      keep_context (record {
        public_ip = "";
        gateway_ip = "";
        tun_ip = "";
        forwarded_ports = [];
        veth = interfaces.veth;
        veth_ip = interfaces.veth_ip;
        vpeer = interfaces.vpeer;
        vpeer_ip = interfaces.vpeer_ip;
        region_id = none;
        forward_port = false;
      })

    -- `region_id is not None and (backend_name is not None or …)`
    unfoldable pub vpn_or_not : Option String → Bool → Setup (Unit {0})
    unfolding connect isolate
    vpn_or_not (some region) true = connect region
    vpn_or_not (some region) false = isolate
    vpn_or_not none has_backend = isolate

    -- The body of the `try`, by whether there is a backend name.
    unfoldable pub build_with : Bool → Setup (Unit {0})
    unfolding enter vpn_or_not
    build_with has_backend = do
      enter (namespace q.name q.client_pid)
      enter (network_interfaces q.name q.veth_cidr q.extra_routes)
      enter (internet q.name)
      enter (vpeer_port_forward q.name q.ports_to_forward_from_vpeer_to_loopback)
      vpn_or_not q.region_id has_backend

    unfoldable pub build : Setup (Unit {0})
    unfolding build_with
    build b = build_with (is_some q.backend_name || is_some b.service.default_backend_name) b

    -- The two lines that end the `try`.
    unfoldable pub register : Building → Service
    register b = record b.service {
      namespaces = insert q.name tt b.service.namespaces;
      exit_stacks = insert q.name b.stack b.service.exit_stacks;
    }

    -- The `except`.
    unfoldable pub abandon : Building → Service
    abandon b =
        unwind b.stack
          (record b.service { tunnel_contexts = erase q.name b.service.tunnel_contexts })

    unfoldable pub finish : Result (Unit {0}) × Building → Result (Unit {0}) × Service
    unfolding register abandon
    finish (ok _, b) = (ok tt, register b)
    finish (err e, b) = (err e, abandon b)

    -- The `try`, which begins with an empty stack; other tasks may have run since the check.
    unfoldable pub run_setup : Service → Result (Unit {0}) × Service
    unfolding finish build
    run_setup s = finish (build (record { service = s; stack = [] }))

    -- `_setup_tunnel` where no other setup runs between the check and the end.
    unfoldable pub setup_tunnel : Service → Result (Unit {0}) × Service
    unfolding run_setup
    setup_tunnel s =
        if contains q.name s.namespaces
        then (err tunnel_exists, s)
        else run_setup (record s { rebind_waiters = insert q.name [] s.rebind_waiters })
