-- ===== src/Client/Regions.antt =====
-- Which region `create_tunnel` and `start_tunnel` take where none is asked for.
use mathlib.Core.List.{Memᴰ}
use mathlib.Core.List.Memᴰ.{head, tail}
use vpn_passthrough.Prelude.{
  String, ◌≡◌, refl, ap, ◌∙◌, Bool, true, false, not, ◌&&◌, Option, none, some, List, [], ◌∷◌,
  if◌then◌else◌,
}
use vpn_passthrough.Messages.{Country}
use vpn_passthrough.Client.{Daemon, Outcome, returned, raised, waiting, index_error, regions_of}
use vpn_passthrough.Client.Tunnels.{
  Arguments, named, resolved, forwarding, candidates, Choice, chosen, choose_among, choose_region,
  create_tunnel_of,
}

-- Whether ports are to be forwarded.
abbrev pub wants_ports : Option (List String) → Bool
wants_ports none = false
wants_ports (some []) = false
wants_ports (some (p ∷ ps)) = true

pick-cons :
    (c d : Country) (cs : List Country) (b : Bool)
    → d.port_forward ≡ b
    → (Memᴰ c (forwarding cs) → Memᴰ c cs × (c.port_forward ≡ true))
    → Memᴰ c (if b then d ∷ forwarding cs else forwarding cs)
    → Memᴰ c (d ∷ cs) × (c.port_forward ≡ true)
pick-cons c d cs true e h (head p) = (head p, ap (λ x. x.port_forward) p ∙ e)
pick-cons c d cs true e h (tail m) = let (n, f) = h m in (tail n, f)
pick-cons c d cs false e h m = let (n, f) = h m in (tail n, f)

mem_of_mem-forwarding :
    (c : Country) (cs : List Country) → Memᴰ c (forwarding cs) → Memᴰ c cs × (c.port_forward ≡ true)
unfolding forwarding
mem_of_mem-forwarding c [] m = elim m [ ]
mem_of_mem-forwarding c (d ∷ cs) m =
    pick-cons c d cs d.port_forward refl (mem_of_mem-forwarding c cs) m

-- A country that may be chosen for the names of the ports.
abbrev pub Fits : Option (List String) → List Country → Country → Type 0
Fits names countries c = Memᴰ c countries × ((wants_ports names && not c.port_forward) ≡ false)

candidates-Fits :
    (names : Option (List String)) (countries : List Country) (c : Country)
    → Memᴰ c (candidates names countries)
    → Fits names countries c
unfolding candidates
candidates-Fits none countries c m = (m, refl)
candidates-Fits (some []) countries c m = (m, refl)
candidates-Fits (some (p ∷ ps)) countries c m =
    let (n, f) = mem_of_mem-forwarding c countries m in (n, rw f refl)

chosen-returned :
    (o : Option Country) (region : String)
    → chosen o ≡ returned region
    → (c : Country) × (o ≡ some c) × (c.region_id ≡ region)
chosen-returned none region h = cc
chosen-returned (some c) region h = (c, refl, cc)

choose_among-returned :
    (choice : Choice) (names : Option (List String)) (r : Outcome (List Country)) (region : String)
    → choose_among choice names r ≡ returned region
    → (countries : List Country) × (r ≡ returned countries)
      × (chosen (choice (candidates names countries)) ≡ returned region)
unfolding choose_among
choose_among-returned choice names (returned countries) region h = (countries, refl, h)
choose_among-returned choice names (raised e) region h = cc
choose_among-returned choice names waiting region h = cc

module _ {S : Type 0} (daemon : Daemon S) (choice : Choice) (regions_id id : String) (a : Arguments)
    (s : S) (unspecified : a.region_id ≡ none) where
  -- Where no region is asked for and one is chosen, the daemon has listed it for the backend that
  -- is asked for, and it forwards ports if ports are to be forwarded. The choice gives a member of
  -- the list that it is given, if it gives one.
  pub chosen_region-Fits :
      (region : String)
      → ((cs : List Country) (c : Country) → choice cs ≡ some c → Memᴰ c cs)
      → (choose_region daemon choice regions_id id a s).0 ≡ returned region
      → (countries : List Country) × (c : Country) × ((regions_of daemon regions_id a.backend_name
            s).0
          ≡ returned countries)
        × (c.region_id ≡ region)
        × Fits a.names_of_ports_to_forward countries c
  unfolding choose_region
  chosen_region-Fits region member h =
      let names = a.names_of_ports_to_forward in
      let (countries, e, k) =
        choose_among-returned choice names (regions_of daemon regions_id a.backend_name s).0 region
          (rw unspecified at h) in
      let (c, p, q) = chosen-returned (choice (candidates names countries)) region k in
      (
        countries,
        c,
        e,
        q,
        candidates-Fits names countries c (member (candidates names countries) c p),
      )

  -- Where no region is asked for and no listed region will do, for want of any or of one that
  -- forwards ports, no request to create the tunnel is sent: an `IndexError` is raised, and the
  -- daemon has only been asked for its regions. The choice gives none for an empty list.
  pub no_region_fails :
      (name : String) (countries : List Country)
      → choice [] ≡ none
      → (regions_of daemon regions_id a.backend_name s).0 ≡ returned countries
      → candidates a.names_of_ports_to_forward countries ≡ []
      → create_tunnel_of daemon choice regions_id id (named name) a s
        ≡ (raised index_error, (regions_of daemon regions_id a.backend_name s).1)
  unfolding create_tunnel_of resolved choose_region choose_among
  no_region_fails name countries empty listed none_left =
      rw (unspecified, listed, none_left, empty) refl
