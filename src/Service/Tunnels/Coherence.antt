-- ===== src/Service/Tunnels/Coherence.antt =====
-- The tables of namespaces, of stacks and of contexts name the same tunnels, whatever handlers run.
use vpn_passthrough.Prelude.{
  ℕ, String, string_eq, ◌≡◌, refl, sym, ap, ◌∙◌, Bool, true, false, Option, none, some, List,
  or_else, if◌then◌else◌, inl, inr, arith,
}
use vpn_passthrough.Prelude.Dict.{Dict, lookup, contains, erase, lookup-erase}
use vpn_passthrough.Messages.{
  Message, tunnel_started, config_used, CreateTunnel, StartTunnel, DestroyTunnel,
}
use vpn_passthrough.Service.State.{Host, Error, Result, ok, err, Service, emit, notify_changed}
use vpn_passthrough.Service.Setup.{Request, setup_tunnel}
use vpn_passthrough.Service.Setup.Outcome.{
  setup-Established, setup_cleans_up, Established, CleanedUp,
}
use vpn_passthrough.Service.Tunnels.{
  create_request, start_request, created, started, finish_create, handle_create_tunnel,
  finish_start, handle_start_tunnel, end_start, stop_waiting, begin_destroy, complete_destroy,
  finish_destroy,
}
use vpn_passthrough.Service.Tunnels.Frames.{emit-told, notify_changed-told}
use vpn_passthrough.Service.Tunnels.Destroy.{created-announced}

-- The three tables name the same tunnels.
pub record Coherent (s : Service) : Type 0 where
  pub stacks : (j : String) → contains j s.exit_stacks ≡ contains j s.namespaces
  pub contexts : (j : String) → contains j s.tunnel_contexts ≡ contains j s.namespaces

-- The tables of both services name the same tunnels.
pub record SameNames (s s' : Service) : Type 0 where
  pub namespaces : (j : String) → contains j s'.namespaces ≡ contains j s.namespaces
  pub stacks : (j : String) → contains j s'.exit_stacks ≡ contains j s.exit_stacks
  pub contexts : (j : String) → contains j s'.tunnel_contexts ≡ contains j s.tunnel_contexts

pub SameNames-Coherent : {s s' : Service} → SameNames s s' → Coherent s → Coherent s'
SameNames-Coherent h c = record {
  stacks = λ j. h.stacks j ∙ c.stacks j ∙ sym (h.namespaces j);
  contexts = λ j. h.contexts j ∙ c.contexts j ∙ sym (h.namespaces j);
}

pub SameNames-refl : {s : Service} → SameNames s s
SameNames-refl = record { namespaces = λ j. refl; stacks = λ j. refl; contexts = λ j. refl }

pub SameNames-trans : {s t u : Service} → SameNames s t → SameNames t u → SameNames s u
SameNames-trans h k = record {
  namespaces = λ j. k.namespaces j ∙ h.namespaces j;
  stacks = λ j. k.stacks j ∙ h.stacks j;
  contexts = λ j. k.contexts j ∙ h.contexts j;
}

-- The tables themselves are equal.
pub SameNames-equal :
    {s s' : Service}
    → s'.namespaces ≡ s.namespaces
    → s'.exit_stacks ≡ s.exit_stacks
    → s'.tunnel_contexts ≡ s.tunnel_contexts
    → SameNames s s'
SameNames-equal p q r = record {
  namespaces = λ j. ap (contains j) p;
  stacks = λ j. ap (contains j) q;
  contexts = λ j. ap (contains j) r;
}

pub emit-SameNames :
    (target : Option String) (e : Message) (s : Service) → SameNames s (emit target e s)
emit-SameNames target e s =
    let k = emit-told target e s in
    SameNames-equal (ap (λ t. t.namespaces) k) (ap (λ t. t.exit_stacks) k)
      (ap (λ t. t.tunnel_contexts) k)

pub notify_changed-SameNames : (s : Service) → SameNames s (notify_changed s)
notify_changed-SameNames s =
    let k = notify_changed-told s in
    SameNames-equal (ap (λ t. t.namespaces) k) (ap (λ t. t.exit_stacks) k)
      (ap (λ t. t.tunnel_contexts) k)

created-SameNames : (c : CreateTunnel) (s : Service) → SameNames s (created c s)
created-SameNames c s =
    let k = created-announced c s in
    SameNames-equal (ap (λ t. t.namespaces) k) (ap (λ t. t.exit_stacks) k)
      (ap (λ t. t.tunnel_contexts) k)

started-SameNames : (r : StartTunnel) (id : String) (s : Service) → SameNames s (started r id s)
unfolding started
started-SameNames r id s =
    let k =
      SameNames-trans (notify_changed-SameNames s)
        (emit-SameNames (some id) (tunnel_started (record { name = r.name })) (notify_changed s)) in
    record { namespaces = k.namespaces; stacks = k.stacks; contexts = k.contexts }

finish_create-SameNames :
    (c : CreateTunnel) (p : Result (Unit {0}) × Service) → SameNames p.1 (finish_create c p).1
unfolding finish_create
finish_create-SameNames c (ok a, s) = created-SameNames c s
finish_create-SameNames c (err x, s) = SameNames-refl

finish_start-SameNames :
    (r : StartTunnel) (id : String) (p : Result (Unit {0}) × Service)
    → SameNames p.1 (finish_start r id p).1
unfolding finish_start
finish_start-SameNames r id (ok a, s) = started-SameNames r id s
finish_start-SameNames r id (err x, s) = SameNames-refl

some-contains :
    {V : Type 0} (j : String) (v : V) (d : Dict String V)
    → lookup j d ≡ some v
    → contains j d ≡ true
some-contains j v d h = rw h

module _ (name : String) (s s' : Service) (c : Coherent s) where
  Established-stacks :
      Established name s s' → (j : String) → contains j s'.exit_stacks ≡ contains j s'.namespaces
  Established-stacks e j = ground (arith, string_eq.beq_iff name j, e.0.2, e.2, e.5 j, c.stacks j)

  Established-contexts :
      Established name s s'
      → (j : String) → contains j s'.tunnel_contexts ≡ contains j s'.namespaces
  Established-contexts e j = ground (arith, string_eq.beq_iff name j, e.3, e.2, e.5 j, c.contexts j)

  CleanedUp-contexts :
      CleanedUp name s s' → (j : String) → contains j s'.tunnel_contexts ≡ contains j s'.namespaces
  CleanedUp-contexts e j = ground (arith, string_eq.beq_iff name j, e.1, e.3 j, e.4, c.contexts j)

  CleanedUp-stacks :
      CleanedUp name s s' → (j : String) → contains j s'.exit_stacks ≡ contains j s'.namespaces
  CleanedUp-stacks e j = rw (e.1, e.2, c.stacks j)

pub setup-Coherent :
    (host : Host) (q : Request) (s : Service) (r : Result (Unit {0}))
    → (setup_tunnel host q s).0 ≡ r
    → Coherent s
    → Coherent (setup_tunnel host q s).1
setup-Coherent host q s (ok a) h c =
    let e = setup-Established host q s h in
    record {
      stacks = Established-stacks q.name s (setup_tunnel host q s).1 c e;
      contexts = Established-contexts q.name s (setup_tunnel host q s).1 c e;
    }
setup-Coherent host q s (err x) h c = elim (setup_cleans_up host q s x h) [
  | inl there ↦
      SameNames-Coherent
        (SameNames-equal (ap (λ t. t.namespaces) there.1) (ap (λ t. t.exit_stacks) there.1)
          (ap (λ t. t.tunnel_contexts) there.1))
        c
  | inr clean ↦ record {
    stacks = CleanedUp-stacks q.name s (setup_tunnel host q s).1 c clean;
    contexts = CleanedUp-contexts q.name s (setup_tunnel host q s).1 c clean;
  }
]

pub create-Coherent :
    (host : Host) (r : CreateTunnel) (target : Option String) (s : Service)
    → Coherent s
    → Coherent (handle_create_tunnel host r target s).1
unfolding handle_create_tunnel
create-Coherent host r target s c =
    SameNames-Coherent (finish_create-SameNames r (setup_tunnel host (create_request r target) s))
      (setup-Coherent host (create_request r target) s _ refl c)

pub start-Coherent :
    (host : Host) (r : StartTunnel) (id : String) (s : Service)
    → Coherent s
    → Coherent (handle_start_tunnel host r id s).1
unfolding handle_start_tunnel
start-Coherent host r id s c =
    let s0 =
      emit (some id)
        (config_used (record {
          region_id = r.region_id;
          backend_name = r.backend_name;
          names_of_ports_to_forward = r.names_of_ports_to_forward;
        }))
        s in
    SameNames-Coherent
      (finish_start-SameNames r id (setup_tunnel host (start_request r (some id)) s0))
      (setup-Coherent host (start_request r (some id)) s0 _ refl
        (SameNames-Coherent (emit-SameNames (some id) _ s) c))

pub if_some : {A : Type 0} (b : Bool) (x y : A) → (if b then some x else none) ≡ some y → x ≡ y
if_some true x y h = cc
if_some false x y h = cc

pub end_start-keeps :
    (r : StartTunnel) (id : String) (raised : Option Error) (s : Service)
    → ((end_start r id raised s).1.trace ≡ s.trace)
      × ((end_start r id raised s).1.namespaces ≡ s.namespaces)
      × ((end_start r id raised s).1.exit_stacks ≡ s.exit_stacks)
      × ((end_start r id raised s).1.tunnel_contexts ≡ s.tunnel_contexts)
unfolding end_start
end_start-keeps r id none s = (refl, refl, refl, refl)
end_start-keeps r id (some e) s = (refl, refl, refl, refl)

pub stop-Coherent :
    (r : StartTunnel) (id : String) (s : Service) (p : Result (Message × List ℕ) × Service)
    → stop_waiting r id s ≡ some p
    → Coherent s
    → Coherent p.1
unfolding stop_waiting
stop-Coherent r id s p h c =
    let raised = or_else (lookup id s.start_tasks) none in
    let e = if_some (or_else (lookup r.name s.stop_signals) false) _ p h in
    let k = end_start-keeps r id raised s in
    SameNames-Coherent
      (SameNames-equal (ap (λ q. q.1.namespaces) (sym e) ∙ k.1)
        (ap (λ q. q.1.exit_stacks) (sym e) ∙ k.2) (ap (λ q. q.1.tunnel_contexts) (sym e) ∙ k.3))
      c

pub begin-Coherent : (r : DestroyTunnel) (s : Service) → Coherent s → Coherent (begin_destroy r s).1
unfolding begin_destroy
begin-Coherent r s c = record { stacks = c.stacks; contexts = c.contexts }

erased :
    {V W : Type 0} (name j : String) (d : Dict String V) (d' : Dict String W)
    → contains j d ≡ contains j d'
    → contains j (erase name d) ≡ contains j (erase name d')
erased name j d d' h = rw (lookup-erase name j d, lookup-erase name j d') (ground arith)

complete-Coherent : (r : DestroyTunnel) (s : Service) → Coherent s → Coherent (complete_destroy r s)
unfolding complete_destroy
complete-Coherent r s c =
    let k = notify_changed-told _ in
    record {
      stacks = λ j.
          ap (λ t. contains j t.exit_stacks) k
          ∙ erased r.name j s.exit_stacks s.namespaces (c.stacks j)
          ∙ sym (ap (λ t. contains j t.namespaces) k);
      contexts = λ j.
          ap (λ t. contains j t.tunnel_contexts) k
          ∙ erased r.name j s.tunnel_contexts s.namespaces (c.contexts j)
          ∙ sym (ap (λ t. contains j t.namespaces) k);
    }

pub finish-Coherent :
    (r : DestroyTunnel) (e : Option Error) (s : Service)
    → Coherent s
    → Coherent (finish_destroy r (e, s)).1
unfolding finish_destroy
finish-Coherent r none s c = complete-Coherent r s c
finish-Coherent r (some e) s c = record { stacks = c.stacks; contexts = c.contexts }
