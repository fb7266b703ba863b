-- ===== src/Network/Filter.antt =====
-- What the kill switch lets through, by the way nftables reads a chain: the first rule that applies
-- decides, and else the policy of the chain.
use vpn_passthrough.Prelude.{
  nat_beq, ◌||◌, ◌&&◌, ◌≡◌, Bool, true, false, Option, List, [], ◌∷◌, ◌++◌, String, map, or_else,
  any, not, if◌then◌else◌, arith,
}
use vpn_passthrough.Network.{
  Interface, veth, vpeer, lo, Rule, accept_to, drop_from, drop_dns_from, drop_dns_to,
  dnat_to_loopback, accept_tunnels, masquerade,
}
use vpn_passthrough.Network.Managers.{kill_switch_rules}

-- A packet that is forwarded, and whether its destination lies in an address or a network.
pub record Packet : Type 0 where
  pub incoming : Interface
  pub to : String → Bool

abbrev pub same_interface : Interface → Interface → Bool
same_interface (veth m) (veth n) = nat_beq m n
same_interface (vpeer m) (vpeer n) = nat_beq m n
same_interface lo lo = true
same_interface _ _ = false

-- The verdict of a chain, of which only the rules of the kill switch are spoken of here: none of
-- the other rules stands in that chain.
unfoldable pub passes : Packet → List Rule → Bool
passes p [] = true
passes p (accept_to i network ∷ rules) =
    let rest = passes p rules in if same_interface p.incoming i && p.to network then true else rest
passes p (drop_from i ∷ rules) =
    let rest = passes p rules in if same_interface p.incoming i then false else rest
passes p (drop_dns_from i ∷ rules) = passes p rules
passes p (drop_dns_to i ∷ rules) = passes p rules
passes p (dnat_to_loopback protocol i ports ∷ rules) = passes p rules
passes p (accept_tunnels ∷ rules) = true
passes p (masquerade ∷ rules) = passes p rules

-- The rules behind the first: the extra routes, then the drop.
passes-routes :
    (p : Packet) (i : Interface) (routes : List String)
    → passes p (map (λ route. accept_to i route) routes ++ drop_from i ∷ [])
      ≡ (not (same_interface p.incoming i) || any p.to routes)
unfolding passes
passes-routes p i [] = ground arith
passes-routes p i (route ∷ routes) = ground (arith, passes-routes p i routes)

-- With the kill switch of an interface, a forwarded packet passes exactly when it came in
-- elsewhere, or its destination is the server or lies in one of the extra routes.
pub kill_switch_passes :
    (p : Packet) (i : Interface) (server_ip : String) (extra_routes : Option (List String))
    → passes p (kill_switch_rules i server_ip extra_routes) ≡ (
        not (same_interface p.incoming i) || (p.to server_ip || any p.to (or_else extra_routes [])))
unfolding passes kill_switch_rules
kill_switch_passes p i server_ip extra_routes =
    ground (arith, passes-routes p i (or_else extra_routes []))
