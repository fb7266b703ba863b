-- ===== src/Tests/Commands.antt =====
-- The commands of the command line, run on small options and against a service.
use vpn_passthrough.Prelude.{string_eq, String, ◌≡◌, refl, true, false, none, some, List, [], ◌∷◌}
use vpn_passthrough.Prelude.Dict.{lookup, contains, insert}
use vpn_passthrough.Messages.{TunnelInfo, TunnelCreated}
use vpn_passthrough.Service.State.{Service, emit}
use vpn_passthrough.Service.Backends.{resolve_backend}
use vpn_passthrough.Service.Setup.{setup_tunnel}
use vpn_passthrough.Service.Tunnels.{create_request, handle_create_tunnel}
use vpn_passthrough.Client.{Outcome, raised, key_error}
use vpn_passthrough.Client.Tunnels.{named, create_tunnel_of}
use vpn_passthrough.Client.Daemon.{serve}
use vpn_passthrough.Commands.{add_override, collect}
use vpn_passthrough.Commands.Entry.{partition}
use vpn_passthrough.Commands.Temporary.{
  temporary_arguments, Ids, in_tunnel, temporary_tunnel_removed,
}
use vpn_passthrough.Tests.Tunnels.{empty}
use vpn_passthrough.Tests.Library.{both, first, result}

abbrev entries : List String
entries = "a=1" ∷ "b=2" ∷ "a=3" ∷ "c" ∷ []

grouped_by_domain :
    collect entries [] ≡ ("a", "1" ∷ "3" ∷ []) ∷ ("b", "2" ∷ []) ∷ ("c", "" ∷ []) ∷ []
unfolding collect add_override partition lookup insert
grouped_by_domain = refl

abbrev ids : Ids
ids = record { regions = "r0"; create = "r1"; lookup = "r2"; destroy = "r3" }

abbrev temporary : Outcome TunnelCreated × Service
temporary =
    create_tunnel_of (serve both) first "r0" "r1" (named "temp")
      (temporary_arguments none (some "dummy") true) empty

-- A body that raises.
abbrev fails : TunnelInfo → Service → Outcome String × Service
fails info s = (raised key_error, s)

abbrev after : Outcome String × Service
after =
    in_tunnel (serve both) first ids none "temp" (temporary_arguments none (some "dummy") true)
      fails empty

temporary_tunnel_removed_example :
    (after.0 ≡ raised key_error)
    × (contains "temp" after.1.namespaces ≡ false)
    × (contains "temp" after.1.exit_stacks ≡ false)
unfolding lookup create_tunnel_of serve setup_tunnel create_request resolve_backend
    handle_create_tunnel emit insert
temporary_tunnel_removed_example =
    temporary_tunnel_removed both first ids "temp" (temporary_arguments none (some "dummy") true)
      fails empty temporary.1 temporary.1 (result temporary.0) (raised key_error) refl refl refl
      refl
