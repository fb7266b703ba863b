-- ===== src/Network/Managers.antt =====
-- The context managers themselves.
use vpn_passthrough.Prelude.{
  ℕ, ◌+◌, ◌%◌, String, Bool, true, false, Option, none, some, List, [], ◌∷◌, ◌++◌, map, or_else,
  if◌then◌else◌, ◌<>◌,
}
use vpn_passthrough.Prelude.Dict.{Dict}
use vpn_passthrough.Network.{
  Interface, veth, vpeer, lo, Address, given, private, Rule, accept_to, drop_from, drop_dns_from,
  drop_dns_to, dnat_to_loopback, accept_tunnels, masquerade, kill_switch_table, leak_guard_table,
  internet_table, vpeer_port_forward_table, inner_leak_guard_table, Chain, File, pid_file,
  resolv_conf, nsswitch_conf, dnsmasq_conf, etc_resolv_conf, etc_nsswitch_conf, link_add,
  link_netns, addr_add, link_up, link_delete, route_default, route_add, ip_forward, list_chains,
  load, delete_table, insert_rule, delete_rule, route_localnet, make_directory, remove_directory,
  write, touch, unlink, mount_bind, spawn_unshare, spawn_dnsmasq, terminate, on_host,
  inside_namespace, Call, Step, checked, unchecked, Manager, System,
}

-- `int(hashlib.md5(…).hexdigest()[:4], 16) % 254 + 1`, from the digest's number.
unfoldable pub slot_of : ℕ → ℕ
slot_of digest = digest % 254 + 1

-- `ipaddress.IPv4Network`: its hosts and its prefix length.
pub record IPv4Network : Type 0 where
  pub hosts : List String
  pub prefix_len : ℕ

-- `NetworkInterfaces`
pub record Addresses : Type 0 where
  pub veth_ip : Address
  pub vpeer_ip : Address
  pub prefix_len : ℕ

-- `hosts[1]` and `hosts[0]` for the two ends; none where there is no second host.
abbrev pub two_hosts : List String → ℕ → Option Addresses
two_hosts [] prefix_len = none
two_hosts (first ∷ []) prefix_len = none
two_hosts (first ∷ second ∷ more) prefix_len =
    some (record { veth_ip = given second; vpeer_ip = given first; prefix_len = prefix_len })

abbrev pub hosts_of : Option IPv4Network → Option Addresses
hosts_of none = none
hosts_of (some network) = two_hosts network.hosts network.prefix_len

-- The addresses of both ends, none where one of the lines raises; `parse` is
-- `ipaddress.IPv4Network(cidr, strict=False)`, with none where that raises.
unfoldable pub addresses : (String → Option IPv4Network) → ℕ → Option String → Option Addresses
addresses parse slot none =
    some (record { veth_ip = private slot 2; vpeer_ip = private slot 1; prefix_len = 24 })
addresses parse slot (some cidr) = hosts_of (parse cidr)

-- `NetworkInterfaces.add` from where the addresses are known.
unfoldable pub add_with : ℕ → ℕ → Addresses → Option (List String) → Manager
add_with slot pid a extra_routes = record {
  before = checked (on_host, link_add (veth slot) (vpeer slot)) ∷ [];
  inside =
      checked (on_host, link_netns (vpeer slot) pid)
      ∷ checked (on_host, addr_add a.veth_ip a.prefix_len (veth slot))
      ∷ checked (on_host, link_up (veth slot))
      ∷ checked (inside_namespace, addr_add a.vpeer_ip a.prefix_len (vpeer slot))
      ∷ checked (inside_namespace, link_up (vpeer slot))
      ∷ checked (inside_namespace, link_up lo)
      ∷ checked (inside_namespace, route_default a.veth_ip)
      ∷ map (λ route. checked (inside_namespace, route_add route a.veth_ip))
          (or_else extra_routes []);
  leave = (on_host, link_delete (veth slot)) ∷ [];
}

abbrev pub manager_of : Option Addresses → ℕ → ℕ → Option (List String) → Option Manager
manager_of none slot pid extra_routes = none
manager_of (some a) slot pid extra_routes = some (add_with slot pid a extra_routes)

-- `NetworkInterfaces.add`, without the addresses that no caller passes; none where it raises before
-- it calls anything.
unfoldable pub add :
    (String → Option IPv4Network) → ℕ → ℕ → Option String → Option (List String) → Option Manager
unfolding addresses
add parse slot pid cidr extra_routes = manager_of (addresses parse slot cidr) slot pid extra_routes

-- The rules of the kill switch's chain, whose policy is to accept.
unfoldable pub kill_switch_rules : Interface → String → Option (List String) → List Rule
kill_switch_rules i server_ip extra_routes =
    accept_to i server_ip ∷ map (λ route. accept_to i route) (or_else extra_routes [])
    ++ drop_from i ∷ []

-- `KillSwitch.activate`
unfoldable pub activate : Interface → String → Option (List String) → Manager
unfolding kill_switch_rules
activate i server_ip extra_routes = record {
  before =
      checked (on_host, load (kill_switch_table i) (kill_switch_rules i server_ip extra_routes))
      ∷ [];
  inside = [];
  leave = (on_host, delete_table (kill_switch_table i)) ∷ [];
}

-- `VpeerPortForward.setup`
unfoldable pub forward_ports : Interface → List ℕ → Manager
forward_ports i [] = record { before = []; inside = []; leave = [] }
forward_ports i (p ∷ ps) = record {
  before =
      unchecked (inside_namespace, route_localnet i true)
      ∷ checked (
        inside_namespace,
        load vpeer_port_forward_table
            (dnat_to_loopback "tcp" i (p ∷ ps) ∷ dnat_to_loopback "udp" i (p ∷ ps) ∷ []),
      )
      ∷ [];
  inside = [];
  leave =
      (inside_namespace, delete_table vpeer_port_forward_table)
      ∷ (inside_namespace, route_localnet i false)
      ∷ [];
}

-- The two rules that are inserted into each chain of the host that drops.
unfoldable pub insertions : Interface → List Chain → List (Chain × Call)
insertions i [] = []
insertions i (chain ∷ chains) =
    (chain, (on_host, insert_rule chain "iifname" i))
    ∷ (chain, (on_host, insert_rule chain "oifname" i))
    ∷ insertions i chains

-- The calls that delete the rules whose insertion gave a handle.
unfoldable pub deletion : Chain → Option ℕ → List Call
deletion chain none = []
deletion chain (some handle) = (on_host, delete_rule chain handle) ∷ []

unfoldable pub deletions : System → List (Chain × Call) → List Call
unfolding deletion
deletions sys [] = []
deletions sys ((chain, c) ∷ more) = deletion chain (sys.handle c) ++ deletions sys more

-- `Internet.share`
unfoldable pub share : System → String → Interface → Manager
unfolding insertions deletions
share sys nft_name i =
    let inserted = insertions i sys.chains in
    record {
      before =
          checked (on_host, ip_forward)
          ∷ checked (on_host, load (internet_table nft_name) (accept_tunnels ∷ masquerade ∷ []))
          ∷ checked (on_host, list_chains)
          ∷ map (λ rule. unchecked rule.1) inserted;
      inside = [];
      leave = deletions sys inserted ++ (on_host, delete_table (internet_table nft_name)) ∷ [];
    }

-- `DNSLeakGuard.activate`
unfoldable pub guard : System → Interface → Interface → Manager
guard sys outside peer =
    let inner : Call = (inside_namespace, load inner_leak_guard_table (drop_dns_to peer ∷ [])) in
    let outer : Call = (on_host, delete_table (leak_guard_table outside)) in
    record {
      before =
          checked (on_host, load (leak_guard_table outside) (drop_dns_from outside ∷ []))
          ∷ unchecked inner
          ∷ [];
      inside = [];
      leave =
          if sys.succeeds inner
          then (inside_namespace, delete_table inner_leak_guard_table) ∷ outer ∷ []
          else outer ∷ [];
    }

-- `/etc/resolv.conf` or `/etc/nsswitch.conf` of the host: there, a broken symbolic link, or absent.
pub data Target : Type 0 where
  present broken_link absent : Target

unfoldable pub prepare : File → Target → List Step
prepare file present = []
prepare file broken_link = unchecked (on_host, unlink file) ∷ unchecked (on_host, touch file) ∷ []
prepare file absent = unchecked (on_host, touch file) ∷ []

-- The lines of dnsmasq.conf that name servers: one of the tunnel's, or one for a domain.
unfoldable pub server_lines : List String → List String
server_lines [] = []
server_lines (server ∷ servers) = ("server=" <> server) ∷ server_lines servers

unfoldable pub domain_lines : String → List String → List String
domain_lines domain [] = []
domain_lines domain (server ∷ servers) =
    ("server=/" <> domain <> "/" <> server) ∷ domain_lines domain servers

unfoldable pub override_lines : Dict String (List String) → List String
unfolding domain_lines
override_lines [] = []
override_lines ((domain, servers) ∷ more) = domain_lines domain servers ++ override_lines more

unfoldable pub dnsmasq_lines :
    Option (List String) → Option (Dict String (List String)) → List String
unfolding server_lines override_lines
dnsmasq_lines nameservers overrides =
    "no-resolv"
      ∷ "listen-address=127.0.0.1"
      ∷ "bind-interfaces"
      ∷ server_lines (or_else nameservers ("1.1.1.1" ∷ []))
    ++ override_lines (or_else overrides [])

abbrev nsswitch_lines : List String
nsswitch_lines =
    "# Created by VPN PassThrough" ∷ "" ∷ "passwd:   files" ∷ "group:    files" ∷ "shadow:   files"
    ∷ "hosts:    files dns" ∷ "networks: files" ∷ "protocols: files" ∷ "services: files" ∷ []

-- `DNS.setup` of the namespace `name`, with the two files of the host as they are. The kill after
-- five seconds is left out.
unfoldable pub dns_setup :
    String → Target → Bool → Option (List String) → Option (Dict String (List String)) → Manager
unfolding prepare dnsmasq_lines
dns_setup name resolv_target nsswitch_exists nameservers overrides = record {
  before =
      unchecked (
        on_host,
        write (resolv_conf name)
            ("# Created by VPN PassThrough" ∷ "" ∷ "nameserver 127.0.0.1" ∷ []),
      )
        ∷ unchecked (on_host, write (nsswitch_conf name) nsswitch_lines)
        ∷ prepare etc_resolv_conf resolv_target
      ++ prepare etc_nsswitch_conf (if nsswitch_exists then present else absent)
      ++ checked (inside_namespace, mount_bind (resolv_conf name) etc_resolv_conf)
        ∷ checked (inside_namespace, mount_bind (nsswitch_conf name) etc_nsswitch_conf)
        ∷ unchecked (on_host, write (dnsmasq_conf name) (dnsmasq_lines nameservers overrides))
        ∷ checked (inside_namespace, spawn_dnsmasq name)
        ∷ [];
  inside = [];
  leave =
      (inside_namespace, terminate name)
      ∷ (on_host, unlink (dnsmasq_conf name))
      ∷ (on_host, unlink (resolv_conf name))
      ∷ (on_host, unlink (nsswitch_conf name))
      ∷ [];
}

-- `Namespace.create` of a valid name; `pid` is the number of the process that holds the namespaces.
unfoldable pub create : String → String → Option ℕ → Manager
create name pid client_pid = record {
  before =
      unchecked (on_host, make_directory name)
      ∷ checked (on_host, spawn_unshare name client_pid)
      ∷ unchecked (on_host, write (pid_file name) (pid ∷ []))
      ∷ [];
  inside = [];
  leave =
      (on_host, terminate name)
      ∷ (on_host, unlink (pid_file name))
      ∷ (on_host, remove_directory name)
      ∷ [];
}
