-- ===== src/Service/Rebinding/Failure.antt =====
-- What becomes of a tunnel whose rebinding loop has ended with an exception.
use vpn_passthrough.Prelude.{
  ℕ, String, string_eq, ◌≡◌, refl, ap, ◌∙◌, Bool, true, none, Option, some, List, [], ◌∷◌,
  Bool-cases, inl, inr, beq_refl,
}
use vpn_passthrough.Prelude.Dict.{Dict, lookup, contains, insert, lookup-insert}
use vpn_passthrough.Messages.{DestroyTunnel}
use vpn_passthrough.Service.State.{
  Resource, forwarded_port, TunnelContext, Host, Error, Result, ok, err, Service,
}
use vpn_passthrough.Service.Rebinding.{
  push_port, next_ports, rebind_ports, fail_task, failed_round, end_round, rebind_with,
  rebind_round,
}
use vpn_passthrough.Service.Tunnels.{handle_destroy_tunnel}
use vpn_passthrough.Service.Tunnels.Destroy.{Stays, destroy_fails}

err_injective : {A : Type 0} (d e : Error) → ◌≡◌ {A = Result A} (err d) (err e) → d ≡ e
err_injective d e h = cc

module _ (host : Host) (name : String) where
  push_port-tasks :
      (stack : Option (List Resource)) (s : Service)
      → (push_port host name stack s).1.rebind_tasks ≡ s.rebind_tasks
  unfolding push_port
  push_port-tasks none s = refl
  push_port-tasks (some stack) s =
      elim (Bool-cases (host.enters (forwarded_port name s.next_port))) [
        | inl e ↦ simp e refl
        | inr e ↦ simp e refl
      ]

  next_ports-tasks :
      {A B : Type 0} (f : A → Service → Result B × Service) (p : Result A × Service)
      → ((a : A) (s : Service) → (f a s).1.rebind_tasks ≡ s.rebind_tasks)
      → (next_ports f p).1.rebind_tasks ≡ p.1.rebind_tasks
  next_ports-tasks f (ok a, s) h = h a s
  next_ports-tasks f (err e, s) h = refl

  rebind_ports-tasks :
      (old ports : Dict String ℕ) (s : Service)
      → (rebind_ports host name old ports s).1.rebind_tasks ≡ s.rebind_tasks
  unfolding rebind_ports
  rebind_ports-tasks [] ports s = refl
  rebind_ports-tasks ((p, n) ∷ old) ports s =
      next_ports-tasks (λ port. rebind_ports host name old (insert p port ports))
        (push_port host name (lookup name s.exit_stacks) s)
        (λ port t. rebind_ports-tasks old (insert p port ports) t)
      ∙ push_port-tasks (lookup name s.exit_stacks) s

  fail_task-kept :
      (e : Error) (tasks : Dict String (Option Error))
      → contains name tasks ≡ true
      → lookup name (fail_task name e tasks) ≡ some (some e)
  unfolding fail_task
  fail_task-kept e tasks h = rw (h, lookup-insert, beq_refl) refl

  end_round-failed :
      (ctx : TunnelContext) (e : Error) (x : Result (Dict String ℕ) × Service)
      → contains name x.1.rebind_tasks ≡ true
      → (end_round name ctx none x).0 ≡ err e
      → lookup name (end_round name ctx none x).1.rebind_tasks ≡ some (some e)
  unfolding failed_round
  end_round-failed ctx e (ok ports, s) h k = cc
  end_round-failed ctx e (err d, s) h k =
      fail_task-kept d s.rebind_tasks h ∙ ap some (ap some (err_injective d e k))

  rebind_with-failed :
      (ctx : Option TunnelContext) (e : Error) (s : Service)
      → contains name s.rebind_tasks ≡ true
      → (rebind_with host name none ctx s).0 ≡ err e
      → lookup name (rebind_with host name none ctx s).1.rebind_tasks ≡ some (some e)
  unfolding rebind_with
  rebind_with-failed none e s h = λ k. cc
  rebind_with-failed (some ctx) e s h = elim (Bool-cases ctx.forward_port) [
    | inl b ↦ simp b (
        end_round-failed ctx e (rebind_ports host name ctx.forwarded_ports [] s)
          (ap (contains name) (rebind_ports-tasks ctx.forwarded_ports [] s) ∙ h))
    | inr b ↦ simp b (λ k. cc)
  ]

-- Where a round of the rebinding loop that `handle_create_tunnel` has started raises an exception, the
-- next request to destroy the tunnel, whether it asks to wait or not, fails with this exception of the
-- loop: it leaves no context manager and takes the tunnel out of none of the tables, but its processes
-- are no longer known to be in use, and neither its waiters nor the failed task are kept.
pub destroy_after_failed_round :
    (host : Host) (ended : ℕ → Bool) (r : DestroyTunnel) (s : Service) (e : Error)
    → contains r.name s.rebind_tasks ≡ true
    → (rebind_round host r.name none s).0 ≡ err e
    → let s1 = (rebind_round host r.name none s).1 in
      ((handle_destroy_tunnel ended r s1).0 ≡ some (err e))
      × Stays r.name s1 (handle_destroy_tunnel ended r s1).1
unfolding rebind_round
destroy_after_failed_round host ended r s e h k =
    destroy_fails ended r (rebind_round host r.name none s).1 e
      (rebind_with-failed host r.name (lookup r.name s.tunnel_contexts) e s h k)
