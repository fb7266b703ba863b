-- ===== src/Service/Ledger/Rounds.antt =====
-- A round of a rebinding loop enters one context manager for each port, and the notifications none.
use vpn_passthrough.Prelude.{
  ℕ, suc, ◌<◌, arith, length, Bool, true, false, String, string_eq, ◌≡◌, ◌∙◌, refl, Option, none,
  some, List, [], ◌∷◌, Bool-cases, inl, inr,
}
use vpn_passthrough.Prelude.Dict.{Dict, lookup, insert}
use vpn_passthrough.Messages.{TunnelInfo, ProcessInfo, ports_rebound, tunnel_status_updated}
use vpn_passthrough.Service.State.{
  Resource, forwarded_port, TunnelContext, Host, Error, Result, ok, err, Service, current_tunnels,
  find_tunnel, emit, notify_changed, notify_tunnel_updated, emit_status, emit_info,
}
use vpn_passthrough.Service.Rebinding.{
  push_port, next_ports, rebind_ports, rebound, failed_round, end_round, rebind_with, rebind_round,
}
use vpn_passthrough.Service.Processes.{enlisted, enlist, forgotten, forget}
use vpn_passthrough.Service.Ledger.{Ledger, extended_with, extends, Moves, rest, next, ledger}
use vpn_passthrough.Service.Ledger.Handlers.{emit-ledger, notify_changed-ledger}

-- So many context managers are entered one after the other on the stack of a tunnel.
pub data Pushes (name : String) (l : Ledger) : ℕ → Ledger → Type 0 where
  no_more : Pushes name l 0 l
  one_more :
      {n : ℕ} {m : Ledger} (r : Resource) (stack : List Resource)
      → Pushes name l n m
      → lookup name m.stacks ≡ some stack
      → Pushes name l (suc n) (extended_with name r stack m)

Pushes-after :
    {name : String} {k l m : Ledger} {n : ℕ}
    → Pushes name k 1 l
    → Pushes name l n m
    → Pushes name k (suc n) m
Pushes-after p no_more = p
Pushes-after p (one_more r stack q e) = one_more r stack (Pushes-after p q) e

pub Pushes-Moves : {name : String} {l m : Ledger} {n : ℕ} → Pushes name l n m → Moves l m
Pushes-Moves no_more = rest
Pushes-Moves {name} (one_more {m = m} r stack p e) =
    next (Pushes-Moves p) (extends name r stack m e)

-- What entering the ports of a tunnel does to the ledger, by how it ends: one context manager for each
-- port, or fewer where one cannot be entered.
abbrev pub PortsPushed : {A : Type 0} → String → ℕ → Result A → Ledger → Ledger → Type 0
PortsPushed name n (ok ports) l m = Pushes name l n m
PortsPushed name n (err e) l m = (k : ℕ) × (k < n) × Pushes name l k m

-- The same for a round, after which the loop goes on, ends, or has raised.
abbrev pub RoundDone : String → ℕ → Result Bool → Ledger → Ledger → Type 0
RoundDone name n (ok true) l m = Pushes name l n m
RoundDone name n (ok false) l m = m ≡ l
RoundDone name n (err e) l m = (k : ℕ) × (k < n) × Pushes name l k m

pub RoundDone-Moves :
    (name : String) (n : ℕ) (r : Result Bool) (l m : Ledger) → RoundDone name n r l m → Moves l m
RoundDone-Moves name n (ok true) l m h = Pushes-Moves h
RoundDone-Moves name n (ok false) l m h = rw h rest
RoundDone-Moves name n (err e) l m (k, less, h) = Pushes-Moves h

emit_info-ledger :
    (id : String) (info : Option TunnelInfo) (s : Service) → ledger (emit_info id info s) ≡ ledger s
unfolding emit_info
emit_info-ledger id none s = refl
emit_info-ledger id (some info) s =
    emit-ledger (some id) (tunnel_status_updated (record { info = info })) s

emit_status-ledger :
    (name : String) (target : Option String) (s : Service)
    → ledger (emit_status name target s) ≡ ledger s
unfolding emit_status
emit_status-ledger name none s = refl
emit_status-ledger name (some id) s = emit_info-ledger id (find_tunnel name (current_tunnels s)) s

notify_tunnel_updated-ledger :
    (name : String) (s : Service) → ledger (notify_tunnel_updated name s) ≡ ledger s
unfolding notify_tunnel_updated
notify_tunnel_updated-ledger name s =
    emit_status-ledger name _ (notify_changed s) ∙ notify_changed-ledger s

pub enlist-ledger :
    (name : String) (pid : ℕ) (info : ProcessInfo) (ps : Dict ℕ ProcessInfo) (s : Service)
    → ledger (enlist name pid info ps s) ≡ ledger s
unfolding enlist ledger
enlist-ledger name pid info ps s = notify_tunnel_updated-ledger name (enlisted name pid info ps s)

pub forget-ledger : (name : String) (pid : ℕ) (s : Service) → ledger (forget name pid s) ≡ ledger s
unfolding forget ledger
forget-ledger name pid s = notify_tunnel_updated-ledger name (forgotten name pid s)

-- The number of the ports of a context, if there is one.
abbrev pub port_count : Option TunnelContext → ℕ
port_count none = 0
port_count (some ctx) = length ctx.forwarded_ports

module _ (host : Host) (name : String) where
  push_port-PortsPushed :
      (stack : Option (List Resource)) (s : Service)
      → lookup name s.exit_stacks ≡ stack
      → let p = push_port host name stack s in PortsPushed name 1 p.0 (ledger s) (ledger p.1)
  unfolding push_port ledger
  push_port-PortsPushed none s h = (0, omega arith, no_more)
  push_port-PortsPushed (some stack) s h =
      let r = forwarded_port name s.next_port in
      elim (Bool-cases (host.enters r)) [
        | inl e ↦ rw e (one_more r stack no_more h)
        | inr e ↦ rw e (0, omega arith, no_more)
      ]

  later-PortsPushed :
      (r : Result (Dict String ℕ)) (n : ℕ) (k l m : Ledger)
      → Pushes name k 1 l
      → PortsPushed name n r l m
      → PortsPushed name (suc n) r k m
  later-PortsPushed (ok ports) n k l m p q = Pushes-after p q
  later-PortsPushed (err e) n k l m p (j, less, q) = (suc j, omega arith, Pushes-after p q)

  next_ports-PortsPushed :
      (f : ℕ → Service → Result (Dict String ℕ) × Service) (n : ℕ) (l : Ledger)
      (p : Result ℕ × Service)
      → ((a : ℕ) (s : Service) → PortsPushed name n (f a s).0 (ledger s) (ledger (f a s).1))
      → PortsPushed name 1 p.0 l (ledger p.1)
      → PortsPushed name (suc n) (next_ports f p).0 l (ledger (next_ports f p).1)
  next_ports-PortsPushed f n l (ok a, s) h p =
      later-PortsPushed (f a s).0 n l (ledger s) (ledger (f a s).1) p (h a s)
  next_ports-PortsPushed f n l (err e, s) h (k, less, p) = (k, omega arith, p)

  rebind_ports-PortsPushed :
      (old ports : Dict String ℕ) (s : Service)
      → let p = rebind_ports host name old ports s in
        PortsPushed name (length old) p.0 (ledger s) (ledger p.1)
  unfolding rebind_ports
  rebind_ports-PortsPushed [] ports s = no_more
  rebind_ports-PortsPushed ((p, n) ∷ old) ports s =
      next_ports-PortsPushed (λ port. rebind_ports host name old (insert p port ports)) (length old)
        (ledger s) (push_port host name (lookup name s.exit_stacks) s)
        (λ port t. rebind_ports-PortsPushed old (insert p port ports) t)
        (push_port-PortsPushed (lookup name s.exit_stacks) s refl)

  rebound-ledger :
      (ctx : TunnelContext) (target : Option String) (ports : Dict String ℕ) (s : Service)
      → ledger (rebound name ctx target ports s) ≡ ledger s
  unfolding rebound ledger
  rebound-ledger ctx target ports s =
      let kept = record s {
        tunnel_contexts = insert name (record ctx { forwarded_ports = ports }) s.tunnel_contexts;
      } in
      let event = ports_rebound (record { forwarded_ports = ports }) in
      notify_tunnel_updated-ledger name (emit target event kept) ∙ emit-ledger target event kept

  failed_round-ledger :
      (target : Option String) (e : Error) (s : Service)
      → ledger (failed_round name target e s) ≡ ledger s
  unfolding failed_round ledger
  failed_round-ledger none e s = refl
  failed_round-ledger (some id) e s = refl

  end_round-RoundDone :
      (ctx : TunnelContext) (target : Option String) (n : ℕ) (l : Ledger)
      (p : Result (Dict String ℕ) × Service)
      → PortsPushed name n p.0 l (ledger p.1)
      → let q = end_round name ctx target p in RoundDone name n q.0 l (ledger q.1)
  end_round-RoundDone ctx target n l (ok ports, s) h = rw (rebound-ledger ctx target ports s) h
  end_round-RoundDone ctx target n l (err e, s) h = rw (failed_round-ledger target e s) h

  rebind_with-RoundDone :
      (target : Option String) (ctx : Option TunnelContext) (s : Service)
      → let q = rebind_with host name target ctx s in
        RoundDone name (port_count ctx) q.0 (ledger s) (ledger q.1)
  unfolding rebind_with
  rebind_with-RoundDone target none s = refl
  rebind_with-RoundDone target (some ctx) s = elim (Bool-cases ctx.forward_port) [
    | inl e ↦ simp e (
        end_round-RoundDone ctx target (length ctx.forwarded_ports) (ledger s)
          (rebind_ports host name ctx.forwarded_ports [] s)
          (rebind_ports-PortsPushed ctx.forwarded_ports [] s))
    | inr e ↦ simp e refl
  ]

  pub rebind_round-RoundDone :
      (target : Option String) (s : Service)
      → let q = rebind_round host name target s in
        RoundDone name (port_count (lookup name s.tunnel_contexts)) q.0 (ledger s) (ledger q.1)
  unfolding rebind_round
  rebind_round-RoundDone target s = rebind_with-RoundDone target (lookup name s.tunnel_contexts) s
