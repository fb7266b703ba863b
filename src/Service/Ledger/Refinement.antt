-- ===== src/Service/Ledger/Refinement.antt =====
-- The service refines the ledger, and so nothing that it enters is lost.
use vpn_passthrough.Prelude.{
  String, string_eq, ◌≡◌, ◌⊎◌, refl, ◌∙◌, ap, Bool, true, false, Option, List, [], Bool-cases, inl,
  inr, arith, ◌+◌,
}
use vpn_passthrough.Prelude.Dict.{lookup, contains}
use vpn_passthrough.Messages.{RunProcess, BackendInfo}
use vpn_passthrough.Service.State.{Resource, Host, Result, Service}
use vpn_passthrough.Service.Processes.{ensure_tunnel, lazy_request, enlist, forget}
use vpn_passthrough.Service.Rebinding.{rebind_round}
use vpn_passthrough.Service.Tunnels.{
  handle_create_tunnel, handle_start_tunnel, begin_destroy, finish_destroy,
}
use vpn_passthrough.Service.Tunnels.Coherence.{Coherent}
use vpn_passthrough.Service.Tunnels.Reachable.{
  fresh_service, Step, creates, starts, stops, begins_destroying, finishes_destroying, rebinds,
  ensures_tunnel, enlists, forgets, Reaches, here, after, Reaches-Coherent, reachable-Coherent,
}
use vpn_passthrough.Service.Ledger.{Ledger, Moves, rest, Moves-trans, ledger}
use vpn_passthrough.Service.Ledger.Conservation.{
  count_acquired, count_released, count_held, held-empty, Conserved, Moves-Conserved,
}
use vpn_passthrough.Service.Ledger.Handlers.{
  SetUp, setup-SetUp, create-SetUp, start-SetUp, stop-ledger, TakenDown, finish_destroy-TakenDown,
  SetUp-Moves, TakenDown-Moves,
}
use vpn_passthrough.Service.Ledger.Rounds.{
  RoundDone, RoundDone-Moves, port_count, enlist-ledger, forget-ledger, rebind_round-RoundDone,
}

-- What a request to run a process does to the ledger: it sets up its tunnel where that is not there.
abbrev pub Ensured : String → Service → Result (Unit {0}) × Service → Type 0
Ensured name s p =
    ((contains name s.namespaces ≡ true) × (ledger p.1 ≡ ledger s))
    ⊎ ((contains name s.namespaces ≡ false) × SetUp name p.0 (ledger s) (ledger p.1))

ensure_tunnel-Ensured :
    (host : Host) (r : RunProcess) (name : String) (s : Service)
    → Coherent s
    → Ensured name s (ensure_tunnel host r name s)
unfolding ensure_tunnel ledger
ensure_tunnel-Ensured host r name s c =
    let q = lazy_request host r name in
    elim (Bool-cases (contains name s.namespaces)) [
      | inl e ↦ inl (e, rw e refl)
      | inr e ↦ inr (e, rw e (setup-SetUp host q s (c.stacks q.name)))
    ]

-- What each step may do to the ledger, by the handler that runs and how it ends.
abbrev pub Promised : {s t : Service} → Step s t → Type 0
Promised (creates host r target s) =
    let p = handle_create_tunnel host r target s in SetUp r.name p.0 (ledger s) (ledger p.1)
Promised (starts host r id s) =
    let p = handle_start_tunnel host r id s in SetUp r.name p.0 (ledger s) (ledger p.1)
Promised (stops r id s p h) = ledger p.1 ≡ ledger s
Promised (begins_destroying r s) = ledger (begin_destroy r s).1 ≡ ledger s
Promised (finishes_destroying r e s) =
    TakenDown r.name e (ledger s) (ledger (finish_destroy r (e, s)).1)
Promised (rebinds host name target s) =
    let p = rebind_round host name target s in
    RoundDone name (port_count (lookup name s.tunnel_contexts)) p.0 (ledger s) (ledger p.1)
Promised (ensures_tunnel host r name s) = Ensured name s (ensure_tunnel host r name s)
Promised (enlists name pid info ps s) = ledger (enlist name pid info ps s) ≡ ledger s
Promised (forgets name pid s) = ledger (forget name pid s) ≡ ledger s

-- From a service whose tables agree, each step does to the context managers what is promised of it: a
-- request to create or start a tunnel that returns found no stack of that name, and the tunnel holds
-- all that was entered, the last at its top; one that raises has left all that it entered, the last
-- entered first, or entered nothing; so has a request to run a process, where its tunnel is not there.
-- A round of a rebinding loop enters one for each port of the tunnel's context, all on the tunnel's
-- stack, or fewer where it raises, or none where the loop ends. The end of a request to destroy a
-- tunnel leaves all that the tunnel holds, from its top down, unless its rebinding task had failed. No
-- other step enters or leaves any.
pub Step-Promised : {s t : Service} (step : Step s t) → Coherent s → Promised step
unfolding begin_destroy ledger
Step-Promised (creates host r target s) c = create-SetUp host r target s c
Step-Promised (starts host r id s) c = start-SetUp host r id s c
Step-Promised (stops r id s p h) c = stop-ledger r id s p h
Step-Promised (begins_destroying r s) c = refl
Step-Promised (finishes_destroying r e s) c = finish_destroy-TakenDown r e s
Step-Promised (rebinds host name target s) c = rebind_round-RoundDone host name target s
Step-Promised (ensures_tunnel host r name s) c = ensure_tunnel-Ensured host r name s c
Step-Promised (enlists name pid info ps s) c = enlist-ledger name pid info ps s
Step-Promised (forgets name pid s) c = forget-ledger name pid s

same-Moves : (l m : Ledger) → m ≡ l → Moves l m
same-Moves l m e = rw e rest

Promised-Moves : {s t : Service} (step : Step s t) → Promised step → Moves (ledger s) (ledger t)
Promised-Moves (creates host r target s) h = SetUp-Moves r.name _ (ledger s) _ h
Promised-Moves (starts host r id s) h = SetUp-Moves r.name _ (ledger s) _ h
Promised-Moves (stops r id s p k) h = same-Moves (ledger s) (ledger p.1) h
Promised-Moves (begins_destroying r s) h = same-Moves (ledger s) _ h
Promised-Moves (finishes_destroying r e s) h = TakenDown-Moves r.name e (ledger s) _ h
Promised-Moves (rebinds host name target s) h = RoundDone-Moves name _ _ (ledger s) _ h
Promised-Moves (ensures_tunnel host r name s) (inl h) = same-Moves (ledger s) _ h.1
Promised-Moves (ensures_tunnel host r name s) (inr h) = SetUp-Moves name _ (ledger s) _ h.1
Promised-Moves (enlists name pid info ps s) h = same-Moves (ledger s) _ h
Promised-Moves (forgets name pid s) h = same-Moves (ledger s) _ h

-- From a service whose tables agree, the context managers change by moves of the ledger alone.
pub Reaches-Moves : {s t : Service} → Reaches s t → Coherent s → Moves (ledger s) (ledger t)
Reaches-Moves here c = rest
Reaches-Moves (after r step) c =
    Moves-trans (Reaches-Moves r c)
      (Promised-Moves step (Step-Promised step (Reaches-Coherent r c)))

module _ (backends : List BackendInfo) (default : Option String) (observed : Bool) (s : Service)
    (r : Reaches (fresh_service backends default observed) s) where
  conserved : Conserved (ledger s)
  unfolding ledger lookup
  conserved =
      Moves-Conserved (Reaches-Moves r (record { stacks = λ j. refl; contexts = λ j. refl }))
        (record { unique = tt; balanced = λ test. refl })

  -- In every state that the handlers and the rebinding rounds reach from a new service, whatever
  -- failed on the way, as many context managers of any kind have been entered as have been left
  -- and are in the stacks of the tunnels: none is lost, and none is left twice.
  pub acquired_accounted :
      (test : Resource → Bool)
      → count_acquired test s.trace ≡ count_released test s.trace + count_held test s.exit_stacks
  unfolding ledger
  acquired_accounted test = conserved.balanced test

  -- In every such state in which no tunnel is left in the table of namespaces, every context
  -- manager that was entered has been left, as often as it was entered.
  pub all_released :
      (test : Resource → Bool)
      → s.namespaces ≡ []
      → count_acquired test s.trace ≡ count_released test s.trace
  unfolding lookup
  all_released test none_left =
      let c = reachable-Coherent backends default observed s r in
      let h = acquired_accounted test in
      let k = held-empty test s.exit_stacks (λ j. c.stacks j ∙ ap (contains j) none_left) in
      omega arith
