-- ===== src/Service/Ledger/Handlers.antt =====
-- The handlers of tunnels change the ledger by its moves alone.
use mathlib.Core.List.{reverse, append-nil}
use vpn_passthrough.Prelude.{
  ℕ, String, string_eq, ◌≡◌, ◌⊎◌, refl, sym, ap, ap₂, ◌∙◌, false, Option, none, some, List, ◌++◌,
  append_assoc, map, or_else, Bool-cases, inl, inr,
}
use vpn_passthrough.Prelude.Dict.{Dict, lookup, contains, insert}
use vpn_passthrough.Messages.{
  Message, CreateTunnel, StartTunnel, DestroyTunnel, config_used, tunnel_started,
}
use vpn_passthrough.Service.State.{
  Resource, Action, acquire, release, Host, Error, Result, ok, err, Service, emit, notify_changed,
}
use vpn_passthrough.Service.Setup.{
  Request, Building, build, finish, register, abandon, setup_tunnel,
}
use vpn_passthrough.Service.Setup.Growth.{Grows, Builds-build}
use vpn_passthrough.Service.Setup.Outcome.{begun, setup-build}
use vpn_passthrough.Service.Tunnels.{
  create_request, start_request, started, finish_create, handle_create_tunnel, finish_start,
  handle_start_tunnel, stop_waiting, complete_destroy, finish_destroy,
}
use vpn_passthrough.Service.Tunnels.Frames.{emit-told, notify_changed-told}
use vpn_passthrough.Service.Tunnels.Destroy.{created-announced}
use vpn_passthrough.Service.Tunnels.Coherence.{
  Coherent, SameNames-Coherent, emit-SameNames, if_some, end_start-keeps,
}
use vpn_passthrough.Service.Ledger.{
  Ledger, fails, opens, closes, failed_with, opened_with, closed_for, Moves, rest, next, ledger,
}

-- What a setup of a tunnel does to the ledger, by how it ends: one that returns found no stack of that
-- name, and holds all that it entered; one that raises has left all that it entered, or entered
-- nothing.
abbrev pub SetUp : {A : Type 0} → String → Result A → Ledger → Ledger → Type 0
SetUp name (ok a) l m =
    (contains name l.stacks ≡ false) × (rs : List Resource) × (m ≡ opened_with name rs l)
SetUp name (err e) l m = (m ≡ l) ⊎ ((rs : List Resource) × (m ≡ failed_with rs l))

pub entry :
    {t t' : List Action} {d d' : Dict String (List Resource)}
    → t ≡ t'
    → d ≡ d'
    → ◌≡◌ {A = Ledger} (record { trace = t; stacks = d }) (record { trace = t'; stacks = d' })
entry p q = ap₂ (λ t d. record { trace = t; stacks = d }) p q

module _ (host : Host) (q : Request) where
  abandon-failed :
      (s : Service) (b : Building)
      → (g : Grows q.name (begun host q s) b)
      → ledger (abandon host q b) ≡ failed_with g.rs (ledger s)
  unfolding abandon ledger
  abandon-failed s b g =
      entry
        (ap₂ (λ t stack. t ++ map release stack) g.trace (g.stack ∙ append-nil (reverse g.rs))
          ∙ append_assoc s.trace (map acquire g.rs) (map release (reverse g.rs)))
        (ap (λ t. t.exit_stacks) g.frame)

  register-opened :
      (s : Service) (b : Building)
      → (g : Grows q.name (begun host q s) b)
      → ledger (register host q b) ≡ opened_with q.name g.rs (ledger s)
  unfolding register ledger
  register-opened s b g =
      entry g.trace (
        ap₂ (insert q.name) (g.stack ∙ append-nil (reverse g.rs)) (ap (λ t. t.exit_stacks) g.frame))

  finish-SetUp :
      (s : Service) (r : Result (Unit {0})) (b : Building)
      → contains q.name (ledger s).stacks ≡ false
      → Grows q.name (begun host q s) b
      → SetUp q.name (finish host q (r, b)).0 (ledger s) (ledger (finish host q (r, b)).1)
  unfolding finish
  finish-SetUp s (ok a) b free g = (free, g.rs, register-opened s b g)
  finish-SetUp s (err e) b free g = inr (g.rs, abandon-failed s b g)

  pub setup-SetUp :
      (s : Service)
      → contains q.name s.exit_stacks ≡ contains q.name s.namespaces
      → SetUp q.name (setup_tunnel host q s).0 (ledger s) (ledger (setup_tunnel host q s).1)
  unfolding setup_tunnel ledger
  setup-SetUp s h = elim (Bool-cases (contains q.name s.namespaces)) [
    | inl there ↦ rw there (inl refl)
    | inr free ↦
        let p = build host q (begun host q s) in
        rw (setup-build host q s free)
          (finish-SetUp s p.0 p.1 (h ∙ free) ((Builds-build host q).at (begun host q s)))
  ]

pub emit-ledger :
    (target : Option String) (e : Message) (s : Service) → ledger (emit target e s) ≡ ledger s
unfolding ledger
emit-ledger target e s =
    let k = emit-told target e s in entry (ap (λ t. t.trace) k) (ap (λ t. t.exit_stacks) k)

pub notify_changed-ledger : (s : Service) → ledger (notify_changed s) ≡ ledger s
unfolding ledger
notify_changed-ledger s =
    let k = notify_changed-told s in entry (ap (λ t. t.trace) k) (ap (λ t. t.exit_stacks) k)

finish_create-SetUp :
    (c : CreateTunnel) (l : Ledger) (p : Result (Unit {0}) × Service)
    → SetUp c.name p.0 l (ledger p.1)
    → SetUp c.name (finish_create c p).0 l (ledger (finish_create c p).1)
unfolding finish_create ledger
finish_create-SetUp c l (ok a, s) (free, rs, e) =
    let k = created-announced c s in
    (free, rs, entry (ap (λ t. t.trace) k) (ap (λ t. t.exit_stacks) k) ∙ e)
finish_create-SetUp c l (err x, s) h = h

finish_start-SetUp :
    (r : StartTunnel) (id : String) (l : Ledger) (p : Result (Unit {0}) × Service)
    → SetUp r.name p.0 l (ledger p.1)
    → SetUp r.name (finish_start r id p).0 l (ledger (finish_start r id p).1)
unfolding finish_start started ledger
finish_start-SetUp r id l (ok a, s) (free, rs, e) = (
  free,
  rs,
  emit-ledger (some id) (tunnel_started (record { name = r.name })) (notify_changed s)
      ∙ notify_changed-ledger s
      ∙ e,
)
finish_start-SetUp r id l (err x, s) h = h

pub create-SetUp :
    (host : Host) (r : CreateTunnel) (target : Option String) (s : Service)
    → Coherent s
    → let p = handle_create_tunnel host r target s in SetUp r.name p.0 (ledger s) (ledger p.1)
unfolding handle_create_tunnel create_request
create-SetUp host r target s c =
    let q = create_request r target in
    finish_create-SetUp r (ledger s) (setup_tunnel host q s)
      (setup-SetUp host q s (c.stacks q.name))

SetUp-from :
    {A : Type 0} (name : String) (r : Result A) (l l' m : Ledger)
    → l ≡ l'
    → SetUp name r l m
    → SetUp name r l' m
SetUp-from name (ok a) l l' m e h = rw (sym e) h
SetUp-from name (err x) l l' m e h = rw (sym e) h

pub start-SetUp :
    (host : Host) (r : StartTunnel) (id : String) (s : Service)
    → Coherent s
    → let p = handle_start_tunnel host r id s in SetUp r.name p.0 (ledger s) (ledger p.1)
unfolding handle_start_tunnel start_request
start-SetUp host r id s c =
    let q = start_request r (some id) in
    let e = config_used (record {
      region_id = r.region_id;
      backend_name = r.backend_name;
      names_of_ports_to_forward = r.names_of_ports_to_forward;
    }) in
    let told = emit (some id) e s in
    let c' = SameNames-Coherent (emit-SameNames (some id) e s) c in
    let p = setup_tunnel host q told in
    finish_start-SetUp r id (ledger s) p (
      SetUp-from r.name p.0 (ledger told) (ledger s) (ledger p.1) (emit-ledger (some id) e s)
        (setup-SetUp host q told (c'.stacks q.name)))

pub stop-ledger :
    (r : StartTunnel) (id : String) (s : Service) (p : Result (Message × List ℕ) × Service)
    → stop_waiting r id s ≡ some p
    → ledger p.1 ≡ ledger s
unfolding stop_waiting ledger
stop-ledger r id s p h =
    let k = end_start-keeps r id (or_else (lookup id s.start_tasks) none) s in
    let e = if_some (or_else (lookup r.name s.stop_signals) false) _ p h in
    entry (ap (λ q. q.1.trace) (sym e) ∙ k.0) (ap (λ q. q.1.exit_stacks) (sym e) ∙ k.2)

-- What the end of a request to destroy a tunnel does to the ledger, by what the rebinding task raised.
abbrev pub TakenDown : String → Option Error → Ledger → Ledger → Type 0
TakenDown name none l m = m ≡ closed_for name l
TakenDown name (some e) l m = m ≡ l

pub finish_destroy-TakenDown :
    (r : DestroyTunnel) (e : Option Error) (s : Service)
    → TakenDown r.name e (ledger s) (ledger (finish_destroy r (e, s)).1)
unfolding finish_destroy complete_destroy ledger
finish_destroy-TakenDown r none s = notify_changed-ledger _
finish_destroy-TakenDown r (some e) s = refl

pub SetUp-Moves :
    {A : Type 0} (name : String) (r : Result A) (l m : Ledger) → SetUp name r l m → Moves l m
SetUp-Moves name (ok a) l m (free, rs, e) = rw e (next rest (opens name rs l free))
SetUp-Moves name (err x) l m (inl e) = rw e rest
SetUp-Moves name (err x) l m (inr (rs, e)) = rw e (next rest (fails rs l))

pub TakenDown-Moves :
    (name : String) (e : Option Error) (l m : Ledger) → TakenDown name e l m → Moves l m
TakenDown-Moves name none l m h = rw h (next rest (closes name l))
TakenDown-Moves name (some e) l m h = rw h rest
