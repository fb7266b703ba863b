-- ===== src/Service/Rebinding/Growth.antt =====
-- What a round of `_rebind_loop` does to the tunnel's exit stack.
use vpn_passthrough.Prelude.{
  ℕ, suc, String, string_eq, ◌≡◌, refl, sym, ap, ◌∙◌, true, Option, none, some, List, [], ◌∷◌, ◌++◌,
  append_assoc, length, length-append, Bool-cases, inl, inr, arith, beq_refl,
}
use vpn_passthrough.Prelude.Dict.{Dict, lookup, insert, lookup-insert}
use vpn_passthrough.Messages.{Message, TunnelInfo, ports_rebound, tunnel_status_updated}
use vpn_passthrough.Service.State.{
  Resource, forwarded_port, TunnelContext, Host, Result, ok, err, Service, current_tunnels,
  find_tunnel, emit, notify_changed, notify_tunnel_updated, emit_status, emit_info,
}
use vpn_passthrough.Service.Rebinding.{
  push_port, next_ports, rebind_ports, rebound, end_round, rebind_with, rebind_round,
}

emit_stacks :
    (target : Option String) (m : Message) (s : Service)
    → (emit target m s).exit_stacks ≡ s.exit_stacks
unfolding emit
emit_stacks none m s = refl
emit_stacks (some id) m s = refl

notify_changed-stacks : (s : Service) → (notify_changed s).exit_stacks ≡ s.exit_stacks
unfolding notify_changed
notify_changed-stacks s = elim (Bool-cases s.observed) [ inl e ↦ simp e refl | inr e ↦ simp e refl ]

emit_info-stacks :
    (id : String) (info : Option TunnelInfo) (s : Service)
    → (emit_info id info s).exit_stacks ≡ s.exit_stacks
unfolding emit_info
emit_info-stacks id none s = refl
emit_info-stacks id (some info) s =
    emit_stacks (some id) (tunnel_status_updated (record { info = info })) s

emit_status-stacks :
    (name : String) (target : Option String) (s : Service)
    → (emit_status name target s).exit_stacks ≡ s.exit_stacks
unfolding emit_status
emit_status-stacks name none s = refl
emit_status-stacks name (some id) s = emit_info-stacks id (find_tunnel name (current_tunnels s)) s

rebound-stacks :
    (name : String) (ctx : TunnelContext) (target : Option String) (ports : Dict String ℕ)
    (s : Service)
    → (rebound name ctx target ports s).exit_stacks ≡ s.exit_stacks
unfolding rebound notify_tunnel_updated
rebound-stacks name ctx target ports s =
    let kept = record s {
      tunnel_contexts = insert name (record ctx { forwarded_ports = ports }) s.tunnel_contexts;
    } in
    let emitted = emit target (ports_rebound (record { forwarded_ports = ports })) kept in
    emit_status-stacks name _ (notify_changed emitted)
    ∙ notify_changed-stacks emitted
    ∙ emit_stacks target (ports_rebound (record { forwarded_ports = ports })) kept

-- The stack of the tunnel is the old one with so many context managers on it.
abbrev pub Grown : String → ℕ → List Resource → Service → Type 0
Grown name n stack s =
    (pushed : List Resource) × (length pushed ≡ n)
    × (lookup name s.exit_stacks ≡ some (pushed ++ stack))

module _ (host : Host) (name : String) where
  push_port-Grown :
      (stack : List Resource) (s : Service) (p : ℕ)
      → (push_port host name (some stack) s).0 ≡ ok p
      → lookup name (push_port host name (some stack) s).1.exit_stacks
        ≡ some (forwarded_port name s.next_port ∷ stack)
  unfolding push_port
  push_port-Grown stack s p =
      let r = forwarded_port name s.next_port in
      elim (Bool-cases (host.enters r)) [
        | inl e ↦
            simp e
              (λ h. lookup-insert name name (r ∷ stack) s.exit_stacks ∙ rw (beq_refl name) refl)
        | inr e ↦ simp e (λ h. cc)
      ]

  -- One port more, and those that follow.
  one_more :
      (f : ℕ → Service → Result (Dict String ℕ) × Service) (n : ℕ) (r : Resource)
      (stack : List Resource) (new : Dict String ℕ) (x : Result ℕ × Service)
      → ((p : ℕ) (t : Service)
          → lookup name t.exit_stacks ≡ some (r ∷ stack)
          → (f p t).0 ≡ ok new
          → Grown name n (r ∷ stack) (f p t).1)
      → ((p : ℕ) → x.0 ≡ ok p → lookup name x.1.exit_stacks ≡ some (r ∷ stack))
      → (next_ports f x).0 ≡ ok new
      → Grown name (suc n) stack (next_ports f x).1
  one_more f n r stack new (ok p, t) ih k h =
      let (pushed, l, e) = ih p t (k p refl) h in
      (
        pushed ++ r ∷ [],
        omega (arith, length-append pushed (r ∷ []), l),
        e ∙ ap some (sym (append_assoc pushed (r ∷ []) stack)),
      )
  one_more f n r stack new (err e, t) ih k h = cc

  rebind_ports-Grown :
      (old ports new : Dict String ℕ) (stack : List Resource) (s : Service)
      → lookup name s.exit_stacks ≡ some stack
      → (rebind_ports host name old ports s).0 ≡ ok new
      → Grown name (length old) stack (rebind_ports host name old ports s).1
  unfolding rebind_ports
  rebind_ports-Grown [] ports new stack s k h = ([], refl, k)
  rebind_ports-Grown ((q, n) ∷ old) ports new stack s k h =
      one_more (λ port. rebind_ports host name old (insert q port ports)) (length old)
        (forwarded_port name s.next_port) stack new
        (push_port host name (lookup name s.exit_stacks) s)
        (λ p t.
          rebind_ports-Grown old (insert q p ports) new (forwarded_port name s.next_port ∷ stack) t)
        (λ p. rw k (push_port-Grown stack s p)) h

  end_round-Grown :
      (ctx : TunnelContext) (target : Option String) (n : ℕ) (stack : List Resource)
      (x : Result (Dict String ℕ) × Service)
      → ((new : Dict String ℕ) → x.0 ≡ ok new → Grown name n stack x.1)
      → (end_round name ctx target x).0 ≡ ok true
      → Grown name n stack (end_round name ctx target x).1
  end_round-Grown ctx target n stack (ok new, s) k h =
      let (pushed, l, e) = k new refl in
      (pushed, l, ap (lookup name) (rebound-stacks name ctx target new s) ∙ e)
  end_round-Grown ctx target n stack (err e, s) k h = cc

  rebind_with-Grown :
      (target : Option String) (ctx : TunnelContext) (stack : List Resource) (s : Service)
      → lookup name s.exit_stacks ≡ some stack
      → (rebind_with host name target (some ctx) s).0 ≡ ok true
      → Grown name (length ctx.forwarded_ports) stack (rebind_with host name target (some ctx) s).1
  unfolding rebind_with
  rebind_with-Grown target ctx stack s k = elim (Bool-cases ctx.forward_port) [
    | inl e ↦ simp e (
        end_round-Grown ctx target (length ctx.forwarded_ports) stack
          (rebind_ports host name ctx.forwarded_ports [] s)
          (λ new. rebind_ports-Grown ctx.forwarded_ports [] new stack s k))
    | inr e ↦ simp e (λ h. cc)
  ]

  -- A round of the rebinding loop after which the loop goes on leaves on the tunnel's exit stack all
  -- that was on it, in its order, with one context manager more for each port that the tunnel
  -- forwards: what was entered for the old numbers is not left.
  pub rebind_round-Grown :
      (target : Option String) (ctx : TunnelContext) (stack : List Resource) (s : Service)
      → lookup name s.tunnel_contexts ≡ some ctx
      → lookup name s.exit_stacks ≡ some stack
      → (rebind_round host name target s).0 ≡ ok true
      → Grown name (length ctx.forwarded_ports) stack (rebind_round host name target s).1
  unfolding rebind_round
  rebind_round-Grown target ctx stack s c k = rw c (rebind_with-Grown target ctx stack s k)
