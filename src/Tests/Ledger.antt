-- ===== src/Tests/Ledger.antt =====
-- What becomes of the ledger when a tunnel is created, rebound and destroyed.
use vpn_passthrough.Prelude.{◌+◌, string_eq, ◌≡◌, refl, Bool, true, none, some, List, [], or_else}
use vpn_passthrough.Prelude.Dict.{lookup, insert, erase}
use vpn_passthrough.Service.State.{Resource, Service, emit}
use vpn_passthrough.Service.Backends.{resolve_backend}
use vpn_passthrough.Service.Setup.{setup_tunnel}
use vpn_passthrough.Service.Tunnels.{
  create_request, handle_create_tunnel, begin_destroy, finish_destroy,
}
use vpn_passthrough.Service.Rebinding.{rebind_round}
use vpn_passthrough.Service.Rebinding.Growth.{Grown, rebind_round-Grown}
use vpn_passthrough.Service.Tunnels.Reachable.{
  Step, reachable-Coherent, creates, begins_destroying, finishes_destroying, rebinds, Reaches, here,
  after,
}
use vpn_passthrough.Service.Ledger.Conservation.{count_acquired, count_released, count_held}
use vpn_passthrough.Service.Ledger.Refinement.{
  Promised, Step-Promised, acquired_accounted, all_released,
}
use vpn_passthrough.Tests.Tunnels.{good, request, destroy_home, empty, served}

abbrev rebound_once : Service
rebound_once = (rebind_round good "home" (some "r1") served).1

abbrev destroying : Service
destroying = (begin_destroy destroy_home rebound_once).1

abbrev gone : Service
gone = (finish_destroy destroy_home (none, destroying)).1

rebound_reached : Reaches empty rebound_once
rebound_reached =
    after (after here (creates good (request (some "fr")) (some "r1") empty))
      (rebinds good "home" (some "r1") served)

gone_reached : Reaches empty gone
gone_reached =
    after (after rebound_reached (begins_destroying destroy_home rebound_once))
      (finishes_destroying destroy_home none destroying)

abbrev every : Resource → Bool
every r = true

served_reached : Reaches empty served
served_reached = after here (creates good (request (some "fr")) (some "r1") empty)

-- The round in which the tunnel's one port is forwarded again.
abbrev round : Step served rebound_once
round = rebinds good "home" (some "r1") served

Step-Promised_example : Promised round
Step-Promised_example = Step-Promised round (reachable-Coherent [] none true served served_reached)

acquired_accounted_example :
    count_acquired every rebound_once.trace
    ≡ count_released every rebound_once.trace + count_held every rebound_once.exit_stacks
acquired_accounted_example = acquired_accounted [] none true rebound_once rebound_reached every

all_released_example : count_acquired every gone.trace ≡ count_released every gone.trace
unfolding handle_create_tunnel lookup setup_tunnel create_request resolve_backend emit insert erase
    begin_destroy finish_destroy rebind_round
all_released_example = all_released [] none true gone gone_reached every refl

-- Nine context managers have been entered before the tunnel is gone.
rebound_count : count_acquired every gone.trace ≡ 9
unfolding handle_create_tunnel lookup setup_tunnel create_request resolve_backend emit insert erase
    begin_destroy finish_destroy rebind_round
rebound_count = refl

abbrev stack : List Resource
stack = or_else (lookup "home" served.exit_stacks) []

rebind_round-Grown_example : Grown "home" 1 stack (rebind_round good "home" (some "r1") served).1
unfolding handle_create_tunnel lookup setup_tunnel create_request resolve_backend emit insert
    rebind_round
rebind_round-Grown_example =
    rebind_round-Grown good "home" (some "r1") _ stack served refl refl refl
