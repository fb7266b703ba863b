-- ===== src/Service/Tunnels/Rounds.antt =====
-- What a round of `_rebind_loop` and the notifications do to the names in the tables: nothing.
use vpn_passthrough.Prelude.{
  ℕ, String, string_eq, ◌≡◌, refl, ◌∙◌, true, Option, none, some, List, [], ◌∷◌, Bool-cases, inl,
  inr, arith,
}
use vpn_passthrough.Prelude.Dict.{Dict, lookup, contains, insert, lookup-insert}
use vpn_passthrough.Messages.{TunnelInfo, ports_rebound, tunnel_status_updated}
use vpn_passthrough.Service.State.{
  Resource, forwarded_port, TunnelContext, Host, Error, Result, ok, err, Service, current_tunnels,
  find_tunnel, emit, notify_changed, notify_tunnel_updated, emit_status, emit_info,
}
use vpn_passthrough.Service.Rebinding.{
  push_port, next_ports, rebind_ports, rebound, failed_round, end_round, rebind_with, rebind_round,
}
use vpn_passthrough.Service.Tunnels.Coherence.{
  Coherent, SameNames, SameNames-Coherent, SameNames-refl, SameNames-trans, emit-SameNames,
  notify_changed-SameNames,
}

-- Writing the value of a key that is there.
insert-contains :
    {V : Type 0} (name j : String) (v : V) (d : Dict String V)
    → contains name d ≡ true
    → contains j (insert name v d) ≡ contains j d
insert-contains name j v d h =
    rw (lookup-insert name j v d) (ground (arith, string_eq.beq_iff name j))

emit_info-SameNames :
    (id : String) (info : Option TunnelInfo) (s : Service) → SameNames s (emit_info id info s)
unfolding emit_info
emit_info-SameNames id none s = SameNames-refl
emit_info-SameNames id (some info) s =
    emit-SameNames (some id) (tunnel_status_updated (record { info = info })) s

emit_status-SameNames :
    (name : String) (target : Option String) (s : Service) → SameNames s (emit_status name target s)
unfolding emit_status
emit_status-SameNames name none s = SameNames-refl
emit_status-SameNames name (some id) s =
    emit_info-SameNames id (find_tunnel name (current_tunnels s)) s

pub notify_tunnel_updated-SameNames :
    (name : String) (s : Service) → SameNames s (notify_tunnel_updated name s)
unfolding notify_tunnel_updated
notify_tunnel_updated-SameNames name s =
    SameNames-trans (notify_changed-SameNames s) (emit_status-SameNames name _ (notify_changed s))

module _ (host : Host) (name : String) where
  push_port-SameNames :
      (stack : Option (List Resource)) (s : Service)
      → lookup name s.exit_stacks ≡ stack
      → SameNames s (push_port host name stack s).1
  unfolding push_port
  push_port-SameNames none s h = SameNames-refl
  push_port-SameNames (some stack) s h =
      elim (Bool-cases (host.enters (forwarded_port name s.next_port))) [
        | inl e ↦ rw e (record {
          namespaces = λ j. refl;
          stacks = λ j.
              insert-contains name j (forwarded_port name s.next_port ∷ stack) s.exit_stacks
                (rw h refl);
          contexts = λ j. refl;
        })
        | inr e ↦ rw e SameNames-refl
      ]

  next_ports-SameNames :
      {A B : Type 0} (f : A → Service → Result B × Service) (p : Result A × Service)
      → ((a : A) (s : Service) → SameNames s (f a s).1)
      → SameNames p.1 (next_ports f p).1
  next_ports-SameNames f (ok a, s) h = h a s
  next_ports-SameNames f (err e, s) h = SameNames-refl

  rebind_ports-SameNames :
      (old ports : Dict String ℕ) (s : Service) → SameNames s (rebind_ports host name old ports s).1
  unfolding rebind_ports
  rebind_ports-SameNames [] ports s = SameNames-refl
  rebind_ports-SameNames ((p, n) ∷ old) ports s =
      SameNames-trans (push_port-SameNames (lookup name s.exit_stacks) s refl) (
        next_ports-SameNames _ (push_port host name (lookup name s.exit_stacks) s)
          (λ port t. rebind_ports-SameNames old (insert p port ports) t))

  rebound-SameNames :
      (ctx : TunnelContext) (target : Option String) (ports : Dict String ℕ) (s : Service)
      → contains name s.tunnel_contexts ≡ true
      → SameNames s (rebound name ctx target ports s)
  unfolding rebound
  rebound-SameNames ctx target ports s h =
      let kept = record s {
        tunnel_contexts = insert name (record ctx { forwarded_ports = ports }) s.tunnel_contexts;
      } in
      let emitted = emit target (ports_rebound (record { forwarded_ports = ports })) kept in
      let written : SameNames s kept = record {
        namespaces = λ j. refl;
        stacks = λ j. refl;
        contexts = λ j.
            insert-contains name j (record ctx { forwarded_ports = ports }) s.tunnel_contexts h;
      } in
      let k : SameNames s (notify_tunnel_updated name emitted) = SameNames-trans written (
        SameNames-trans
          (emit-SameNames target (ports_rebound (record { forwarded_ports = ports })) kept)
          (notify_tunnel_updated-SameNames name emitted)) in
      record { namespaces = k.namespaces; stacks = k.stacks; contexts = k.contexts }

  failed_round-SameNames :
      (target : Option String) (e : Error) (s : Service)
      → SameNames s (failed_round name target e s)
  unfolding failed_round
  failed_round-SameNames none e s = record {
    namespaces = λ j. refl;
    stacks = λ j. refl;
    contexts = λ j. refl;
  }
  failed_round-SameNames (some id) e s = record {
    namespaces = λ j. refl;
    stacks = λ j. refl;
    contexts = λ j. refl;
  }

  end_round-SameNames :
      (ctx : TunnelContext) (target : Option String) (p : Result (Dict String ℕ) × Service)
      → contains name p.1.tunnel_contexts ≡ true
      → SameNames p.1 (end_round name ctx target p).1
  end_round-SameNames ctx target (ok ports, s) h = rebound-SameNames ctx target ports s h
  end_round-SameNames ctx target (err e, s) h = failed_round-SameNames target e s

  rebind_with-SameNames :
      (target : Option String) (ctx : Option TunnelContext) (s : Service)
      → lookup name s.tunnel_contexts ≡ ctx
      → SameNames s (rebind_with host name target ctx s).1
  unfolding rebind_with
  rebind_with-SameNames target none s h = SameNames-refl
  rebind_with-SameNames target (some ctx) s h = elim (Bool-cases ctx.forward_port) [
    | inl e ↦
        let p = rebind_ports host name ctx.forwarded_ports [] s in
        let k = rebind_ports-SameNames ctx.forwarded_ports [] s in
        simp e (SameNames-trans k (end_round-SameNames ctx target p (k.contexts name ∙ rw h refl)))
    | inr e ↦ simp e SameNames-refl
  ]

  pub rebind-Coherent :
      (target : Option String) (s : Service)
      → Coherent s
      → Coherent (rebind_round host name target s).1
  unfolding rebind_round
  rebind-Coherent target s c =
      SameNames-Coherent (rebind_with-SameNames target (lookup name s.tunnel_contexts) s refl) c
