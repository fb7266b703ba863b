-- ===== src/Tests/Pia.antt =====
-- A small list of servers, a pipe with two DNS servers, and a provider that answers.
use vpn_passthrough.Prelude.{
  ℕ, ltb, string_eq, String, ◌≡◌, refl, Bool, true, false, none, some, List, [], ◌∷◌, map,
}
use vpn_passthrough.Pia.{ListedRegion, ServerList, no_servers, fetched, failed, fetch_server}
use vpn_passthrough.Pia.UpScript.{Environ, print_line, up_script, connected, read_connection_info}
use vpn_passthrough.Pia.UpScript.RoundTrip.{
  Pushed, dns_server, other, environ, read_connection_info-up_script, gateway_alone_connects,
}
use vpn_passthrough.Pia.Connect.{Held, connect, started, Outcomes, opened, closed, connect_closes}
use vpn_passthrough.Pia.Ports.{
  Signed, get_token, get_signature, bind, Provider, forward_port, forward_port_keeps_bound,
}

abbrev listed : String → List String → ListedRegion
listed id servers = record {
  id = id;
  name = id;
  country = id;
  port_forward = none;
  servers = some servers;
}

abbrev list : ServerList
list = record { groups = none; regions = listed "fr" ("1.2.3.4" ∷ []) ∷ listed "es" [] ∷ [] }

found_fr : fetch_server list "fr" ≡ fetched ("1.2.3.4", 1198)
unfolding fetch_server
found_fr = refl

none_in_es : fetch_server list "es" ≡ failed no_servers
unfolding fetch_server
none_in_es = refl

-- Up to the blank.
abbrev is_space : ℕ → Bool
is_space c = ltb c 33

abbrev pushed : List Pushed
pushed = dns_server (51 ∷ []) ∷ other (88 ∷ []) ∷ dns_server (52 ∷ []) ∷ []

abbrev variables : Environ
variables = environ (49 ∷ []) (50 ∷ []) pushed

read_connection_info-up_script_example :
    read_connection_info is_space (up_script (environ (49 ∷ []) (50 ∷ []) pushed))
    ≡ some (
        connected (record {
          gateway_ip = 49 ∷ [];
          tun_ip = 50 ∷ [];
          dns_servers = (51 ∷ []) ∷ (52 ∷ []) ∷ [];
        }))
read_connection_info-up_script_example =
    read_connection_info-up_script is_space refl (49 ∷ []) (50 ∷ []) pushed (refl, tt) (refl, tt)
      (tt, ((λ e. cc, λ ip e. cc), (tt, tt))) ((refl, tt), ((refl, tt), tt))

two_servers :
    read_connection_info is_space (up_script variables)
    ≡ some (
        connected (record {
          gateway_ip = 49 ∷ [];
          tun_ip = 50 ∷ [];
          dns_servers = (51 ∷ []) ∷ (52 ∷ []) ∷ [];
        }))
unfolding read_connection_info up_script
two_servers = refl

gateway_alone_connects_example :
    read_connection_info is_space (print_line (49 ∷ []))
    ≡ some (connected (record { gateway_ip = 49 ∷ []; tun_ip = []; dns_servers = (49 ∷ []) ∷ [] }))
gateway_alone_connects_example = gateway_alone_connects is_space refl (49 ∷ []) (refl, tt)

abbrev all : Held → Bool
all h = true

connect_closes_example :
    opened all (connect is_space list "fr" (started (some (up_script variables)))).1
    ≡ closed all (connect is_space list "fr" (started (some (up_script variables)))).1
connect_closes_example = connect_closes is_space list "fr" (some (up_script variables)) all

abbrev unstarted : Outcomes
unstarted = record { spawns = false; pipe_connects = false; stream = none }

abbrev signed : Signed
signed = record { payload = "p"; signature = "s" }

abbrev provider : Provider
provider = record {
  token = λ user password. some "t";
  signed = λ gateway token. some signed;
  number = λ payload. some 40000;
  binds = λ gateway signed. true;
}

forward_port_keeps_bound_example :
    forward_port provider "10.0.0.1" "me" "pw" (true ∷ false ∷ []) ≡ (
      some 40000,
      get_token "me" "pw"
          ∷ get_signature "10.0.0.1" "t"
          ∷ bind "10.0.0.1" signed
          ∷ map (λ _. bind "10.0.0.1" signed) (true ∷ false ∷ []),
    )
forward_port_keeps_bound_example =
    forward_port_keeps_bound provider "10.0.0.1" "me" "pw" "t" signed 40000 (true ∷ false ∷ []) refl
      refl refl refl
