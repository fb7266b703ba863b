-- ===== src/Pia.antt =====
-- The backend of app/packages/pia/src/radium226/vpn_passthrough/pia/__init__.py: the choice of a
-- server from the provider's list, which is downloaded and decoded outside.
pub mod UpScript
pub mod Connect
pub mod Servers
pub mod Ports
use vpn_passthrough.Prelude.{
  ℕ, String, string_eq, ◌==◌, Bool, false, Option, none, some, List, [], ◌∷◌, or_else,
  if◌then◌else◌,
}

-- A region of the list; `servers` are the addresses under "ovpnudp", if there are any.
pub record ListedRegion : Type 0 where
  pub id : String
  pub name : String
  pub country : String
  pub port_forward : Option Bool
  pub servers : Option (List String)

-- The list; `groups` are the ports of the groups under "ovpnudp".
pub record ServerList : Type 0 where
  pub groups : Option (List (Option (List ℕ)))
  pub regions : List ListedRegion

-- `Region` of the `vpn` package.
pub record Region : Type 0 where
  pub id : String
  pub name : String
  pub country : String
  pub port_forward : Bool

pub data ServerError : Type 0 where
  no_servers not_found index_error : ServerError

pub data Fetched {ℓ} (A : Type ℓ) : Type ℓ where
  fetched : A → Fetched A
  failed : ServerError → Fetched A

-- `_fetch_regions`
unfoldable pub fetch_regions : List ListedRegion → List Region
fetch_regions [] = []
fetch_regions (r ∷ rs) =
    record {
      id = r.id;
      name = r.name;
      country = r.country;
      port_forward = or_else r.port_forward false;
    }
    ∷ fetch_regions rs

-- `xs[0]`
abbrev pub first_of {ℓ} : {A : Type ℓ} → List A → Fetched A
first_of [] = failed index_error
first_of (x ∷ xs) = fetched x

-- `.get("ovpnudp", [{}])[0].get("ports", [1198])`
abbrev pub ports_of : Fetched (Option (List ℕ)) → Fetched (List ℕ)
ports_of (fetched none) = fetched (1198 ∷ [])
ports_of (fetched (some ports)) = fetched ports
ports_of (failed e) = failed e

unfoldable pub fetch_ports : Option (List (Option (List ℕ))) → Fetched (List ℕ)
fetch_ports groups = ports_of (first_of (or_else groups (none ∷ [])))

-- The server and the port of a region that is found.
unfoldable pub server_of : List ℕ → List String → Fetched (String × ℕ)
server_of ports [] = failed no_servers
server_of [] (ip ∷ ips) = failed index_error
server_of (port ∷ ports) (ip ∷ ips) = fetched (ip, port)

unfoldable pub find_server : List ℕ → String → List ListedRegion → Fetched (String × ℕ)
unfolding server_of
find_server ports id [] = failed not_found
find_server ports id (r ∷ rs) =
    if r.id == id then server_of ports (or_else r.servers []) else find_server ports id rs

unfoldable pub with_ports : String → List ListedRegion → Fetched (List ℕ) → Fetched (String × ℕ)
unfolding find_server
with_ports id regions (fetched ports) = find_server ports id regions
with_ports id regions (failed e) = failed e

-- `_fetch_server`
unfoldable pub fetch_server : ServerList → String → Fetched (String × ℕ)
unfolding with_ports fetch_ports
fetch_server list id = with_ports id list.regions (fetch_ports list.groups)
