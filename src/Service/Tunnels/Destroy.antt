-- ===== src/Service/Tunnels/Destroy.antt =====
-- `handle_destroy_tunnel`: what it releases, and what it leaves when the rebinding task had failed.
use mathlib.Core.List.{reverse}
use vpn_passthrough.Prelude.{
  ℕ, String, string_eq, ◌==◌, ◌≡◌, refl, sym, ap, ◌∙◌, Bool, true, false, Option, none, some, List,
  [], ◌++◌, append_assoc, map, or_else, if◌then◌else◌, arith, beq_refl,
}
use vpn_passthrough.Prelude.Dict.{Dict, lookup, contains, lookup-erase, lookup-insert}
use vpn_passthrough.Messages.{Message, CreateTunnel, DestroyTunnel, tunnel_destroyed}
use vpn_passthrough.Service.State.{
  Resource, acquire, release, Host, Error, Result, ok, err, Service,
}
use vpn_passthrough.Service.Setup.{setup_tunnel}
use vpn_passthrough.Service.Setup.Outcome.{setup-Established, Established}
use vpn_passthrough.Service.Tunnels.{
  create_request, start_rebinding, created, finish_create, handle_create_tunnel, begin_destroy,
  complete_destroy, finish_destroy, awaited, all_ended, wait_for, handle_destroy_tunnel,
}
use vpn_passthrough.Service.Tunnels.Frames.{told, notify_changed-told}

-- `d'` is `d` without `name`.
abbrev Without : {V : Type 0} → String → Dict String V → Dict String V → Type 0
Without name d d' = (j : String) → lookup j d' ≡ (if name == j then none else lookup j d)

-- What a destroyed tunnel leaves.
abbrev pub Destroyed : String → Service → Service → Type 0
Destroyed name s s' =
    (s'.trace ≡ s.trace ++ map release (or_else (lookup name s.exit_stacks) []))
    × Without name s.namespaces s'.namespaces
    × Without name s.exit_stacks s'.exit_stacks
    × Without name s.tunnel_contexts s'.tunnel_contexts
    × Without name s.processes s'.processes
    × Without name s.rebind_waiters s'.rebind_waiters
    × Without name s.rebind_tasks s'.rebind_tasks

-- What a request to destroy a tunnel leaves where it fails.
abbrev pub Stays : String → Service → Service → Type 0
Stays name s s' =
    (s'.trace ≡ s.trace)
    × (s'.namespaces ≡ s.namespaces)
    × (s'.exit_stacks ≡ s.exit_stacks)
    × (s'.tunnel_contexts ≡ s.tunnel_contexts)
    × (s'.processes ≡ s.processes)
    × (s'.stop_signals ≡ s.stop_signals)
    × (lookup name s'.active_processes ≡ none)
    × (lookup name s'.rebind_waiters ≡ none)
    × (lookup name s'.rebind_tasks ≡ none)

complete-Destroyed :
    (r : DestroyTunnel) (s : Service)
    → Destroyed r.name s (complete_destroy r (begin_destroy r s).1)
unfolding complete_destroy begin_destroy
complete-Destroyed r s =
    let kept = notify_changed-told _ in
    (
      ap (λ t. t.trace) kept,
      λ j. ap (λ t. lookup j t.namespaces) kept ∙ lookup-erase r.name j s.namespaces,
      λ j. ap (λ t. lookup j t.exit_stacks) kept ∙ lookup-erase r.name j s.exit_stacks,
      λ j. ap (λ t. lookup j t.tunnel_contexts) kept ∙ lookup-erase r.name j s.tunnel_contexts,
      λ j. ap (λ t. lookup j t.processes) kept ∙ lookup-erase r.name j s.processes,
      λ j. ap (λ t. lookup j t.rebind_waiters) kept ∙ lookup-erase r.name j s.rebind_waiters,
      λ j. ap (λ t. lookup j t.rebind_tasks) kept ∙ lookup-erase r.name j s.rebind_tasks,
    )

destroy_complete :
    (ended : ℕ → Bool) (r : DestroyTunnel) (s : Service)
    → or_else (lookup r.name s.rebind_tasks) none ≡ none
    → all_ended ended (awaited r s) ≡ true
    → handle_destroy_tunnel ended r s ≡ (
      some (ok (tunnel_destroyed (record { request_id = r.id; name = r.name }), [])),
      complete_destroy r (begin_destroy r s).1,
    )
unfolding handle_destroy_tunnel begin_destroy wait_for finish_destroy
destroy_complete ended r s h all = rw (h, all) refl

-- Where the tunnel's rebinding task has not failed, and the processes that are waited for end,
-- `handle_destroy_tunnel` answers that the tunnel
-- is destroyed, leaves exactly the context managers of the tunnel's stack, from its top down, and
-- takes the tunnel, and no other, out of the tables.
pub destroy_releases :
    (ended : ℕ → Bool) (r : DestroyTunnel) (s : Service)
    → or_else (lookup r.name s.rebind_tasks) none ≡ none
    → all_ended ended (awaited r s) ≡ true
    → ((handle_destroy_tunnel ended r s).0
        ≡ some (ok (tunnel_destroyed (record { request_id = r.id; name = r.name }), [])))
      × Destroyed r.name s (handle_destroy_tunnel ended r s).1
destroy_releases ended r s h all =
    rw (destroy_complete ended r s h all) (refl, complete-Destroyed r s)

-- While a process that is waited for has not ended, there is no answer, and the tunnel, its stack and
-- its context are as they were.
pub destroy_waits :
    (ended : ℕ → Bool) (r : DestroyTunnel) (s : Service)
    → or_else (lookup r.name s.rebind_tasks) none ≡ none
    → all_ended ended (awaited r s) ≡ false
    → handle_destroy_tunnel ended r s ≡ (none, (begin_destroy r s).1)
unfolding handle_destroy_tunnel begin_destroy wait_for
destroy_waits ended r s h some_run = rw (h, some_run) refl

-- Where the rebinding task of the tunnel has failed, the request to destroy the tunnel fails with
-- that exception, whether it asks to wait or not: nothing is released and the tunnel stays in the
-- tables, but its processes are no longer known to be in use, and neither its waiters nor the failed
-- task are kept.
pub destroy_fails :
    (ended : ℕ → Bool) (r : DestroyTunnel) (s : Service) (e : Error)
    → lookup r.name s.rebind_tasks ≡ some (some e)
    → ((handle_destroy_tunnel ended r s).0 ≡ some (err e))
      × Stays r.name s (handle_destroy_tunnel ended r s).1
unfolding handle_destroy_tunnel begin_destroy wait_for finish_destroy
destroy_fails ended r s e h = rw h (
  refl,
  (
    refl,
    refl,
    refl,
    refl,
    refl,
    refl,
    simp (lookup-erase, beq_refl),
    simp (lookup-erase, beq_refl),
    simp (lookup-erase, beq_refl),
  ),
)

pub finish_create-ok :
    (c : CreateTunnel) (p : Result (Unit {0}) × Service) (v : Message × List ℕ)
    → (finish_create c p).0 ≡ ok v
    → (p.0 ≡ ok tt) × ((finish_create c p).1 ≡ created c p.1)
unfolding finish_create
finish_create-ok c (ok a, s) v e = (refl, refl)
finish_create-ok c (err x, s) v e = cc

start_rebinding-lookup :
    (name : String) (every : Option ℕ) (s : Service)
    → or_else (lookup name s.rebind_tasks) none ≡ none
    → or_else (lookup name (start_rebinding name every s).rebind_tasks) none ≡ none
unfolding start_rebinding
start_rebinding-lookup name none s h = h
start_rebinding-lookup name (some n) s h = simp (lookup-insert, beq_refl)

-- The service, but for what `handle_create_tunnel` does after `_setup_tunnel`.
abbrev pub announced : Service → Service → Service
announced s s' = record s {
  events = s'.events;
  updates = s'.updates;
  rebind_tasks = s'.rebind_tasks;
}

start_rebinding-announced :
    (name : String) (every : Option ℕ) (s : Service)
    → start_rebinding name every s ≡ announced s (start_rebinding name every s)
unfolding start_rebinding
start_rebinding-announced name none s = refl
start_rebinding-announced name (some n) s = refl

pub created-announced : (c : CreateTunnel) (s : Service) → created c s ≡ announced s (created c s)
unfolding created
created-announced c s =
    let kept = notify_changed-told (start_rebinding c.name c.rebind_ports_every s) in
    kept
    ∙ ap (λ t. told t (created c s)) (start_rebinding-announced c.name c.rebind_ports_every s)
    ∙ ap (λ ts. record (told s (created c s)) { rebind_tasks = ts })
        (sym (ap (λ t. t.rebind_tasks) kept))

created-rebind_tasks :
    (c : CreateTunnel) (s : Service)
    → (created c s).rebind_tasks ≡ (start_rebinding c.name c.rebind_ports_every s).rebind_tasks
unfolding created
created-rebind_tasks c s = ap (λ t. t.rebind_tasks) (notify_changed-told _)

-- What creating and destroying a tunnel leaves of the service.
abbrev pub Restored : String → Service → Service → Type 0
Restored name s s' =
    ((rs : List Resource) × (s'.trace ≡ s.trace ++ (map acquire rs ++ map release (reverse rs))))
    × ((j : String) → lookup j s'.namespaces ≡ lookup j s.namespaces)
    × Without name s.exit_stacks s'.exit_stacks
    × Without name s.tunnel_contexts s'.tunnel_contexts

Restored-free :
    {V : Type 0} (name j : String) (a : Option V) (d : Dict String V)
    → contains name d ≡ false
    → ((name == j) ≡ false → a ≡ lookup j d)
    → (if name == j then none else a) ≡ lookup j d
Restored-free name j a d free h = ground (arith, string_eq.beq_iff name j)

same_else :
    {V : Type 0} (name j : String) (a b : Option V)
    → ((name == j) ≡ false → a ≡ b)
    → (if name == j then none else a) ≡ (if name == j then none else b)
same_else name j a b h = ground arith

-- A tunnel that was created, and its rebinding task.
module _ (host : Host) (c : CreateTunnel) (target : Option String) (s : Service) (id : String)
    (wait : Bool) (ended : ℕ → Bool) where
  abbrev made : Service
  made = (setup_tunnel host (create_request c target) s).1

  abbrev pub destroy_request : DestroyTunnel
  destroy_request = record { id = id; name = c.name; wait = wait }

  Destroyed-Restored :
      (s1 s2 : Service)
      → Established c.name s made
      → s1 ≡ announced made s1
      → Destroyed c.name s1 s2
      → Restored c.name s s2
  Destroyed-Restored s1 s2 e k d =
      let rs = e.0.0 in
      let stack : lookup c.name s1.exit_stacks ≡ some (reverse rs) =
        ap (λ t. lookup c.name t.exit_stacks) k ∙ e.0.2 in
      let others = e.5 in
      (
        (
          rs,
          d.0
              ∙ rw stack (
                  ap (λ t. t ++ map release (reverse rs)) (ap (λ t. t.trace) k ∙ e.0.1)
                  ∙ append_assoc s.trace (map acquire rs) (map release (reverse rs))),
        ),
        λ j.
            d.1 j
            ∙ Restored-free c.name j (lookup j s1.namespaces) s.namespaces e.1
                (λ ne. ap (λ t. lookup j t.namespaces) k ∙ (others j ne).0),
        λ j.
            d.2 j
            ∙ same_else c.name j (lookup j s1.exit_stacks) (lookup j s.exit_stacks)
                (λ ne. ap (λ t. lookup j t.exit_stacks) k ∙ (others j ne).1),
        λ j.
            d.3 j
            ∙ same_else c.name j (lookup j s1.tunnel_contexts) (lookup j s.tunnel_contexts)
                (λ ne. ap (λ t. lookup j t.tunnel_contexts) k ∙ (others j ne).2),
      )

  no_failed_task :
      (s1 : Service)
      → or_else (lookup c.name s.rebind_tasks) none ≡ none
      → made.rebind_tasks ≡ s.rebind_tasks
      → s1 ≡ created c made
      → or_else (lookup c.name s1.rebind_tasks) none ≡ none
  no_failed_task s1 h kept k =
      ap (λ t. or_else (lookup c.name t.rebind_tasks) none) k
      ∙ rw (created-rebind_tasks c made)
          (start_rebinding-lookup c.name c.rebind_ports_every made (rw kept h))

  -- A tunnel that `handle_create_tunnel` has created and `handle_destroy_tunnel` then destroys:
  -- what was entered is left again, each context manager once and the last entered first; the table
  -- of namespaces reads as before, and those of stacks and contexts read as before but for the
  -- tunnel, which is in neither. No failed rebinding task of that name was kept before, and the
  -- processes that the second waits for, if any, end.
  pub destroy-create :
      (v : Message × List ℕ)
      → or_else (lookup c.name s.rebind_tasks) none ≡ none
      → (handle_create_tunnel host c target s).0 ≡ ok v
      → all_ended ended (awaited destroy_request (handle_create_tunnel host c target s).1) ≡ true
      → Restored c.name s
          (handle_destroy_tunnel ended destroy_request (handle_create_tunnel host c target s).1).1
  unfolding handle_create_tunnel create_request
  destroy-create v h e all =
      let s1 = (handle_create_tunnel host c target s).1 in
      let p = finish_create-ok c (setup_tunnel host (create_request c target) s) v e in
      let made_it = setup-Established host (create_request c target) s p.0 in
      Destroyed-Restored s1 (handle_destroy_tunnel ended destroy_request s1).1 made_it
        (p.1 ∙ created-announced c made ∙ ap (λ t. announced made t) (sym p.1))
        (destroy_releases ended destroy_request s1 (no_failed_task s1 h made_it.4 p.1) all).1
