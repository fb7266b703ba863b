-- ===== src/Service/Rebinding.antt =====
-- `_rebind_loop` of service.py, one round at a time.
pub mod Growth
pub mod Failure
use vpn_passthrough.Prelude.{
  ℕ, ◌+◌, String, string_eq, nat_eq, Bool, true, false, Option, none, some, List, [], ◌∷◌, ◌++◌,
  or_else, if◌then◌else◌,
}
use vpn_passthrough.Prelude.Dict.{Dict, lookup, contains, insert}
use vpn_passthrough.Messages.{ports_rebound}
use vpn_passthrough.Service.State.{
  Resource, forwarded_port, TunnelContext, Host, Error, key_error, not_entered, Result, ok, err,
  Service, acquire, emit, notify_tunnel_updated,
}

-- `self.exit_stacks[tunnel_name].enter_async_context(ctx.forward_port())`: the loop over the ports.
-- The new ports, or what was raised.
unfoldable pub push_port : Host → String → Option (List Resource) → Service → Result ℕ × Service
push_port host name none s = (err key_error, s)
push_port host name (some stack) s =
    let r = forwarded_port name s.next_port in
    if host.enters r
    then (
      ok (host.port s.next_port),
      record s {
        next_port = s.next_port + 1;
        trace = s.trace ++ acquire r ∷ [];
        exit_stacks = insert name (r ∷ stack) s.exit_stacks;
      },
    )
    else (err (not_entered r), s)

abbrev pub next_ports :
    {A B : Type 0} → (A → Service → Result B × Service) → Result A × Service → Result B × Service
next_ports f (ok a, s) = f a s
next_ports f (err e, s) = (err e, s)

unfoldable pub rebind_ports :
    Host → String → Dict String ℕ → Dict String ℕ → Service → Result (Dict String ℕ) × Service
unfolding push_port
rebind_ports host name [] ports s = (ok ports, s)
rebind_ports host name ((p, old) ∷ ps) ports s =
    next_ports (λ port. rebind_ports host name ps (insert p port ports))
      (push_port host name (lookup name s.exit_stacks) s)

-- `if emit is not None: await emit(PortsRebound(…))`, `_notify_tunnel_updated` and the waiters.
unfoldable pub rebound : String → TunnelContext → Option String → Dict String ℕ → Service → Service
unfolding emit notify_tunnel_updated
rebound name ctx target ports s =
    let kept = record s {
      tunnel_contexts = insert name (record ctx { forwarded_ports = ports }) s.tunnel_contexts;
    } in
    let s' =
      notify_tunnel_updated name
        (emit target (ports_rebound (record { forwarded_ports = ports })) kept) in
    record s' { woken = s'.woken ++ or_else (lookup name s'.rebind_waiters) [] }

-- A task that has ended with an exception, if there is one.
unfoldable pub fail_task : String → Error → Dict String (Option Error) → Dict String (Option Error)
fail_task k e tasks = if contains k tasks then insert k (some e) tasks else tasks

-- The task of a loop that ends with an exception: that of `handle_create_tunnel` has no `emit` and
-- stands under the tunnel's name, that of `handle_start_tunnel` under its request.
unfoldable pub failed_round : String → Option String → Error → Service → Service
unfolding fail_task
failed_round name none e s = record s { rebind_tasks = fail_task name e s.rebind_tasks }
failed_round name (some id) e s = record s { start_tasks = fail_task id e s.start_tasks }

abbrev pub end_round :
    String
    → TunnelContext
    → Option String
    → Result (Dict String ℕ) × Service
    → Result Bool × Service
end_round name ctx target (ok ports, s) = (ok true, rebound name ctx target ports s)
end_round name ctx target (err e, s) = (err e, failed_round name target e s)

unfoldable pub rebind_with :
    Host → String → Option String → Option TunnelContext → Service → Result Bool × Service
unfolding rebind_ports rebound
rebind_with host name target none s = (ok false, s)
rebind_with host name target (some ctx) s =
    if ctx.forward_port
    then end_round name ctx target (rebind_ports host name ctx.forwarded_ports [] s)
    else (ok false, s)

-- One round of `_rebind_loop`, and whether the loop goes on.
unfoldable pub rebind_round : Host → String → Option String → Service → Result Bool × Service
unfolding rebind_with
rebind_round host name target s = rebind_with host name target (lookup name s.tunnel_contexts) s
