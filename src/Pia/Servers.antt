-- ===== src/Pia/Servers.antt =====
-- Which regions have a server: those that are listed.
use vpn_passthrough.Prelude.{
  ℕ, String, string_eq, ◌==◌, ◌≡◌, ◌↔◌, refl, Bool, false, List, [], ◌∷◌, any, or_else, Bool-cases,
  inl, inr,
}
use vpn_passthrough.Pia.{
  ListedRegion, ServerList, not_found, fetched, failed, fetch_regions, fetch_ports, server_of,
  find_server, with_ports, fetch_server,
}

server_of_found : (ports : List ℕ) (ips : List String) → server_of ports ips ≡ failed not_found → ⊥
unfolding server_of
server_of_found ports [] h = cc
server_of_found [] (ip ∷ ips) h = cc
server_of_found (p ∷ ps) (ip ∷ ips) h = cc

-- Whether `list_regions` names a region.
abbrev pub lists : String → List ListedRegion → Bool
lists id regions = any (λ r. r.id == id) (fetch_regions regions)

find_server_missing :
    (ports : List ℕ) (id : String) (rs : List ListedRegion)
    → (find_server ports id rs ≡ failed not_found) ↔ (lists id rs ≡ false)
unfolding find_server fetch_regions
find_server_missing ports id [] = (λ h. refl, λ h. refl)
find_server_missing ports id (r ∷ rs) = elim (Bool-cases (r.id == id)) [
  | inl e ↦ rw e (λ h. absurd (server_of_found ports (or_else r.servers []) h), λ h. cc)
  | inr e ↦ rw e (find_server_missing ports id rs)
]

-- Where the list names the ports for OpenVPN, a connection to a region fails for want of the region
-- exactly where `list_regions` does not name it, so that no region that a client can choose is
-- missing; it may still have no server.
pub fetch_server_missing :
    (list : ServerList) (id : String) (ports : List ℕ)
    → fetch_ports list.groups ≡ fetched ports
    → (fetch_server list id ≡ failed not_found) ↔ (lists id list.regions ≡ false)
unfolding fetch_server with_ports
fetch_server_missing list id ports h = rw h (find_server_missing ports id list.regions)
