-- ===== src/Service/Tunnels/Reachable.antt =====
-- The runs of the handlers and of the rebinding loops, in any order, from an empty service.
use vpn_passthrough.Prelude.{
  ℕ, String, string_eq, ◌≡◌, refl, Bool, Option, some, List, [], Bool-cases, inl, inr,
}
use vpn_passthrough.Prelude.Dict.{Dict, lookup, contains}
use vpn_passthrough.Messages.{
  RunProcess, ProcessInfo, Message, CreateTunnel, StartTunnel, DestroyTunnel, BackendInfo,
}
use vpn_passthrough.Service.State.{Host, Error, Result, Service}
use vpn_passthrough.Service.Processes.{
  ensure_tunnel, lazy_request, enlisted, enlist, forgotten, forget,
}
use vpn_passthrough.Service.Tunnels.{
  handle_create_tunnel, handle_start_tunnel, stop_waiting, begin_destroy, finish_destroy,
}
use vpn_passthrough.Service.Rebinding.{rebind_round}
use vpn_passthrough.Service.Tunnels.Coherence.{
  setup-Coherent, Coherent, SameNames, SameNames-Coherent, create-Coherent, start-Coherent,
  stop-Coherent, begin-Coherent, finish-Coherent,
}
use vpn_passthrough.Service.Tunnels.Rounds.{notify_tunnel_updated-SameNames, rebind-Coherent}

enlist-SameNames :
    (name : String) (pid : ℕ) (info : ProcessInfo) (ps : Dict ℕ ProcessInfo) (s : Service)
    → SameNames s (enlist name pid info ps s)
unfolding enlist
enlist-SameNames name pid info ps s =
    let k = notify_tunnel_updated-SameNames name (enlisted name pid info ps s) in
    record { namespaces = k.namespaces; stacks = k.stacks; contexts = k.contexts }

forget-SameNames : (name : String) (pid : ℕ) (s : Service) → SameNames s (forget name pid s)
unfolding forget
forget-SameNames name pid s =
    let k = notify_tunnel_updated-SameNames name (forgotten name pid s) in
    record { namespaces = k.namespaces; stacks = k.stacks; contexts = k.contexts }

-- A handler of processes sets up a tunnel that is not there.
ensure_tunnel-Coherent :
    (host : Host) (r : RunProcess) (name : String) (s : Service)
    → Coherent s
    → Coherent (ensure_tunnel host r name s).1
unfolding ensure_tunnel
ensure_tunnel-Coherent host r name s c = elim (Bool-cases (contains name s.namespaces)) [
  | inl e ↦ rw e c
  | inr e ↦ rw e (setup-Coherent host (lazy_request host r name) s _ refl c)
]

-- `Service.__init__`
abbrev pub fresh_service : List BackendInfo → Option String → Bool → Service
fresh_service backends default_backend_name observed = record {
  backends = backends;
  default_backend_name = default_backend_name;
  observed = observed;
  exit_stacks = [];
  namespaces = [];
  tunnel_contexts = [];
  processes = [];
  stop_signals = [];
  emit_fns = [];
  rebind_waiters = [];
  rebind_tasks = [];
  start_tasks = [];
  active_processes = [];
  shutting_down = [];
  next_port = 0;
  woken = [];
  trace = [];
  events = [];
  updates = [];
}

-- What may run next: a handler of tunnels up to where it waits, the rest of one, a round of a
-- rebinding loop, or what a handler of processes does to the tables. What the host does is new in each
-- step. Each setup of a tunnel runs as a whole.
pub data Step : Service → Service → Type 0 where
  creates :
      (host : Host) (r : CreateTunnel) (target : Option String) (s : Service)
      → Step s (handle_create_tunnel host r target s).1
  starts :
      (host : Host) (r : StartTunnel) (id : String) (s : Service)
      → Step s (handle_start_tunnel host r id s).1
  stops :
      (r : StartTunnel) (id : String) (s : Service) (p : Result (Message × List ℕ) × Service)
      → stop_waiting r id s ≡ some p
      → Step s p.1
  begins_destroying : (r : DestroyTunnel) (s : Service) → Step s (begin_destroy r s).1
  finishes_destroying :
      (r : DestroyTunnel) (e : Option Error) (s : Service) → Step s (finish_destroy r (e, s)).1
  rebinds :
      (host : Host) (name : String) (target : Option String) (s : Service)
      → Step s (rebind_round host name target s).1
  ensures_tunnel :
      (host : Host) (r : RunProcess) (name : String) (s : Service)
      → Step s (ensure_tunnel host r name s).1
  enlists :
      (name : String) (pid : ℕ) (info : ProcessInfo) (ps : Dict ℕ ProcessInfo) (s : Service)
      → Step s (enlist name pid info ps s)
  forgets : (name : String) (pid : ℕ) (s : Service) → Step s (forget name pid s)

pub data Reaches (s : Service) : Service → Type 0 where
  here : Reaches s s
  after : {t u : Service} → Reaches s t → Step t u → Reaches s u

Step-Coherent : {s t : Service} → Step s t → Coherent s → Coherent t
Step-Coherent (creates host r target s) c = create-Coherent host r target s c
Step-Coherent (starts host r id s) c = start-Coherent host r id s c
Step-Coherent (stops r id s p h) c = stop-Coherent r id s p h c
Step-Coherent (begins_destroying r s) c = begin-Coherent r s c
Step-Coherent (finishes_destroying r e s) c = finish-Coherent r e s c
Step-Coherent (rebinds host name target s) c = rebind-Coherent host name target s c
Step-Coherent (ensures_tunnel host r name s) c = ensure_tunnel-Coherent host r name s c
Step-Coherent (enlists name pid info ps s) c =
    SameNames-Coherent (enlist-SameNames name pid info ps s) c
Step-Coherent (forgets name pid s) c = SameNames-Coherent (forget-SameNames name pid s) c

pub Reaches-Coherent : {s t : Service} → Reaches s t → Coherent s → Coherent t
Reaches-Coherent here c = c
Reaches-Coherent (after r step) c = Step-Coherent step (Reaches-Coherent r c)

-- Where no two setups of tunnels overlap, whatever steps of the handlers and rounds of the rebinding
-- loops have run since the service was made, in whatever order, and whatever of them failed, its
-- tables of namespaces, of stacks and of contexts name the same tunnels.
pub reachable-Coherent :
    (backends : List BackendInfo) (default : Option String) (observed : Bool) (s : Service)
    → Reaches (fresh_service backends default observed) s
    → Coherent s
unfolding lookup
reachable-Coherent backends default observed s r =
    Reaches-Coherent r (record { stacks = λ j. refl; contexts = λ j. refl })
