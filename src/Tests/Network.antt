-- ===== src/Tests/Network.antt =====
-- A system on which the loopback of the namespace cannot be brought up, and nft cannot list chains.
use vpn_passthrough.Prelude.{
  String, Option, if◌then◌else◌, ◌≡◌, ◌⊎◌, refl, Bool, true, false, none, some, List, [], ◌∷◌, ◌++◌,
  string_eq, ◌==◌, or_else, All, any, not, ◌||◌,
}
use vpn_passthrough.Network.{
  veth, vpeer, lo, link_up, link_add, link_delete, delete_table, list_chains, internet_table,
  on_host, Call, Manager, System, enter,
}
use vpn_passthrough.Network.Managers.{
  IPv4Network, add_with, insertions, add, share, create, kill_switch_rules,
}
use vpn_passthrough.Network.Cleanup.{cidr_usable, enter_if, add_cleans_up}
use vpn_passthrough.Network.Undo.{IsUndone, share_undoes}
use vpn_passthrough.Network.Filter.{Packet, same_interface, passes, kill_switch_passes}

abbrev works : Call → Bool
works (place, link_up lo) = false
works (place, list_chains) = false
works _ = true

abbrev system : System
system = record {
  succeeds = works;
  chains = record { family = "inet"; table = "filter"; name = "FORWARD" } ∷ [];
  handle = λ c. some 4;
}

abbrev manager : Manager
manager = create "home" "42" none

-- Only two texts are networks, one of them with a single host.
abbrev parse : String → Option IPv4Network
parse cidr =
    if cidr == "10.0.0.0/24"
    then some (record { hosts = "10.0.0.1" ∷ "10.0.0.2" ∷ "10.0.0.3" ∷ []; prefix_len = 24 })
    else if cidr == "10.0.0.7/32"
    then some (record { hosts = "10.0.0.7" ∷ []; prefix_len = 32 })
    else none

abbrev failing : List Call
failing = (enter_if system (add parse 7 42 (some "10.0.0.0/24") none)).0

add_cleans_up_example :
    ((cidr_usable parse (some "10.0.0.0/24") ≡ false) × (failing ≡ []))
    ⊎ ((cidr_usable parse (some "10.0.0.0/24") ≡ true)
        × (((system.succeeds (on_host, link_add (veth 7) (vpeer 7)) ≡ false)
              × (failing ≡ (on_host, link_add (veth 7) (vpeer 7)) ∷ []))
            ⊎ ((made : List Call) × (failing
                  ≡ (on_host, link_add (veth 7) (vpeer 7)) ∷ made
                    ++ (on_host, link_delete (veth 7)) ∷ []))))
unfolding enter add add_with
add_cleans_up_example = add_cleans_up system parse 7 42 (some "10.0.0.0/24") none failing refl

single_host : enter_if system (add parse 7 42 (some "10.0.0.7/32") none) ≡ ([], none)
unfolding add
single_host = refl

-- A system on which everything works.
abbrev good_system : System
good_system = record system { succeeds = λ c. true }

share_undoes_example :
    All
      (IsUndone good_system (share good_system "home" (veth 7)).leave)
      (insertions (veth 7) good_system.chains)
    × ((deleted : List Call) × ((share good_system "home" (veth 7)).leave
          ≡ deleted ++ (on_host, delete_table (internet_table "home")) ∷ []))
unfolding enter share
share_undoes_example =
    share_undoes good_system "home" (veth 7)
      (enter good_system (share good_system "home" (veth 7))).0
      (share good_system "home" (veth 7)).leave refl

abbrev packet : Packet
packet = record { incoming = veth 7; to = λ network. network == "9.9.9.9" }

kill_switch_passes_example :
    passes packet (kill_switch_rules (veth 7) "1.2.3.4" (some ("10.0.0.0/8" ∷ []))) ≡ (
      not (same_interface packet.incoming (veth 7))
      || (packet.to "1.2.3.4" || any packet.to (or_else (some ("10.0.0.0/8" ∷ [])) [])))
kill_switch_passes_example = kill_switch_passes packet (veth 7) "1.2.3.4" (some ("10.0.0.0/8" ∷ []))
