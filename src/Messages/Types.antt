-- ===== src/Messages/Types.antt =====
-- The message classes of app/packages/messages/src/radium226/vpn_passthrough/messages/__init__.py,
-- a record for each with its fields; the field `type` is the constructor of `Message`. A `float` of
-- seconds is a natural number of milliseconds.
use vpn_passthrough.Prelude.{ℕ, String, Bool, Option, List}
use vpn_passthrough.Prelude.Dict.{Dict}

-- Whole numbers, `negsuc n` being -(n + 1).
pub data ℤ : Type 0 where
  pos negsuc : ℕ → ℤ

abbrev pub TunnelName : Type 0
TunnelName = String

pub record ProcessTerminated : Type 0 where
  pub request_id : String
  pub exit_code : ℤ

pub record CommandNotFound : Type 0 where
  pub request_id : String
  pub command : String

pub record ProcessStarted : Type 0 where
  pub pid : ℕ

pub record ProcessRestarted : Type 0 where
  pub pid : ℕ
  pub forwarded_ports : Dict String ℕ

pub record RunProcess : Type 0 where
  pub id : String
  pub command : String
  pub args : List String
  pub kill_with : Option ℕ
  pub tunnel_name : Option String
  pub cwd : Option String
  pub username : Option String
  pub gid : Option ℕ
  pub ambient_capabilities : Option (List ℕ)
  pub client_pid : Option ℕ
  pub env : Dict String String
  pub configure_with : Option String

pub record ProcessKilled : Type 0 where
  pub request_id : String
  pub pid : ℕ

pub record KillProcess : Type 0 where
  pub id : String
  pub pid : ℕ
  pub signal : ℕ

pub record ProcessInfo : Type 0 where
  pub pid : ℕ
  pub command : String
  pub args : List String

pub record BackendInfo : Type 0 where
  pub name : String
  pub type : String
  pub credentials : Dict String String

pub record TunnelInfo : Type 0 where
  pub name : String
  pub vpn_connected : Bool
  pub region_id : Option String
  pub public_ip : Option String
  pub gateway_ip : Option String
  pub tun_ip : Option String
  pub forwarded_ports : Dict String ℕ
  pub veth : Option String
  pub veth_ip : Option String
  pub vpeer : Option String
  pub vpeer_ip : Option String
  pub processes : List ProcessInfo

pub record TunnelCreated : Type 0 where
  pub request_id : String
  pub name : String
  pub tunnel : TunnelInfo

pub record TunnelDestroyed : Type 0 where
  pub request_id : String
  pub name : String

pub record ConnectedToVpn : Type 0 where
  pub remote_ip : String
  pub gateway_ip : String
  pub tun_ip : String
  pub forwarded_ports : Dict String ℕ

pub record DnsConfigured : Type 0 where
  pub nameservers : List String

pub record CreateTunnel : Type 0 where
  pub id : String
  pub name : String
  pub region_id : Option String
  pub names_of_ports_to_forward : List String
  pub backend_name : Option String
  pub veth_cidr : Option String
  pub kill_switch : Bool
  pub rebind_ports_every : Option ℕ
  pub ports_to_forward_from_vpeer_to_loopback : List ℕ
  pub dns_overrides : Dict String (List String)
  pub extra_routes : List String

pub record ConfigUsed : Type 0 where
  pub region_id : Option String
  pub backend_name : Option String
  pub names_of_ports_to_forward : List String

pub record TunnelStarted : Type 0 where
  pub name : String

pub record TunnelStatusUpdated : Type 0 where
  pub info : TunnelInfo

pub record PortsRebound : Type 0 where
  pub forwarded_ports : Dict String ℕ

pub record TunnelStopped : Type 0 where
  pub request_id : String
  pub name : String

pub record StartTunnel : Type 0 where
  pub id : String
  pub name : String
  pub region_id : Option String
  pub names_of_ports_to_forward : List String
  pub backend_name : Option String
  pub rebind_ports_every : Option ℕ
  pub veth_cidr : Option String
  pub kill_switch : Bool
  pub ports_to_forward_from_vpeer_to_loopback : List ℕ
  pub dns_overrides : Dict String (List String)
  pub extra_routes : List String

pub record DestroyTunnel : Type 0 where
  pub id : String
  pub name : String
  pub wait : Bool

pub record Country : Type 0 where
  pub region_id : String
  pub name : String
  pub country : String
  pub port_forward : Bool

pub record RegionsListed : Type 0 where
  pub request_id : String
  pub countries : List Country

pub record ListRegions : Type 0 where
  pub id : String
  pub backend_name : Option String

pub record TunnelsListed : Type 0 where
  pub request_id : String
  pub tunnels : List TunnelInfo

pub record ListTunnels : Type 0 where
  pub id : String

pub record RequestFailed : Type 0 where
  pub request_id : String
  pub error_type : String
  pub message : String
