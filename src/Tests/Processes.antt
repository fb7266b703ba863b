-- ===== src/Tests/Processes.antt =====
-- A process that runs in a tunnel that is there, and ends by itself.
use vpn_passthrough.Prelude.{string_eq, true, none, some, [], ◌∷◌}
use vpn_passthrough.Messages.{RunProcess, pos}
use vpn_passthrough.Service.State.{Host, Service}
use vpn_passthrough.Service.Tunnels.Reachable.{fresh_service}
use vpn_passthrough.Service.Processes.{
  not_run, terminated, rebound, Attempt, Settled, handle_run_process,
}
use vpn_passthrough.Service.Processes.Descriptors.{run_process_closes}

abbrev host : Host
host = record {
  enters = λ r. true;
  interfaces = λ name cidr. record { veth = "v"; veth_ip = "a"; vpeer = "p"; vpeer_ip = "b" };
  session = λ type credentials region. record {
    gateway_ip = "g";
    tun_ip = "t";
    dns_servers = [];
    server_ip = none;
  };
  port = λ n. n;
  remote_ip = λ name. none;
  installed = λ type. true;
}

abbrev with_tunnel : Service
with_tunnel = record (fresh_service [] none true) { namespaces = ("home", tt) ∷ [] }

abbrev run_request : RunProcess
run_request = record {
  id = "r1";
  command = "curl";
  args = [];
  kill_with = none;
  tunnel_name = some "home";
  cwd = none;
  username = some "me";
  gid = none;
  ambient_capabilities = none;
  client_pid = none;
  env = [];
  configure_with = none;
}

abbrev ends : Attempt
ends = record {
  rendered = λ ctx. some ("curl", []);
  configured = not_run;
  pid = some 42;
  meanwhile = λ s. s;
  ending = terminated (pos 3);
}

abbrev restarts : Attempt
restarts = record {
  rendered = λ ctx. some ("curl", []);
  configured = not_run;
  pid = some 41;
  meanwhile = λ s. s;
  ending = rebound true;
}

run_process_closes_example : Settled (10 ∷ 11 ∷ 12 ∷ []) (
    handle_run_process host run_request "r1"
      (restarts ∷ ends ∷ [])
      true
      (10 ∷ 11 ∷ 12 ∷ [])
      with_tunnel)
run_process_closes_example =
    run_process_closes host run_request "r1" (restarts ∷ ends ∷ []) true (10 ∷ 11 ∷ 12 ∷ [])
      with_tunnel
