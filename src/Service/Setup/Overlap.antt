-- ===== src/Service/Setup/Overlap.antt =====
-- A setup that goes on after another one of the same tunnel has ended: the check that the tunnel is not
-- there stands before the first `await`, and is not made again.
use vpn_passthrough.Prelude.{
  String, string_eq, ◌≡◌, refl, ap, ◌∙◌, true, false, Option, none, [], beq_refl,
}
use vpn_passthrough.Prelude.Dict.{lookup, contains, lookup-erase}
use vpn_passthrough.Service.State.{Host, Error, Result, ok, err, Service, tunnel_info}
use vpn_passthrough.Service.Rebinding.{rebind_with, rebind_round}
use vpn_passthrough.Service.Setup.{Request, Building, build, finish, abandon, run_setup}
use vpn_passthrough.Service.Setup.Growth.{Grows, Builds-build}

-- The tunnel stays in the tables of namespaces and of stacks, without its context.
abbrev pub Disconnected : String → Service → Service → Type 0
Disconnected name s s' =
    (s'.namespaces ≡ s.namespaces)
    × (s'.exit_stacks ≡ s.exit_stacks)
    × (lookup name s'.tunnel_contexts ≡ none)

module _ (host : Host) (q : Request) where
  finish-Disconnected :
      (s : Service) (r : Result (Unit {0})) (b : Building) (x : Error)
      → Grows q.name (record { service = s; stack = [] }) b
      → (finish host q (r, b)).0 ≡ err x
      → Disconnected q.name s (finish host q (r, b)).1
  unfolding finish abandon
  finish-Disconnected s (ok a) b x g e = cc
  finish-Disconnected s (err y) b x g e = (
    ap (λ t. t.namespaces) g.frame,
    ap (λ t. t.exit_stacks) g.frame,
    lookup-erase q.name q.name b.service.tunnel_contexts ∙ rw (beq_refl q.name) refl,
  )

  late-Disconnected :
      (s : Service) (x : Error)
      → (run_setup host q s).0 ≡ err x
      → Disconnected q.name s (run_setup host q s).1
  unfolding run_setup
  late-Disconnected s x e =
      let b : Building = record { service = s; stack = [] } in
      let p = build host q b in finish-Disconnected s p.0 p.1 x ((Builds-build host q).at b) e

-- Two setups of one name overlap: both have passed the check, one has ended and put the tunnel into
-- the tables, and the other then raises. The tunnel of the first is still listed and keeps its stack,
-- but as one that is not connected, with no address and no region; and its rebinding loop ends at its
-- next round, whatever the host does.
pub late_setup_disconnects :
    (host : Host) (q : Request) (s : Service) (x : Error) (later : Host) (target : Option String)
    → contains q.name s.namespaces ≡ true
    → (run_setup host q s).0 ≡ err x
    → let s' = (run_setup host q s).1 in
      (contains q.name s'.namespaces ≡ true)
      × (lookup q.name s'.exit_stacks ≡ lookup q.name s.exit_stacks)
      × ((tunnel_info s' q.name).vpn_connected ≡ false)
      × ((tunnel_info s' q.name).region_id ≡ none)
      × ((tunnel_info s' q.name).public_ip ≡ none)
      × (rebind_round later q.name target s' ≡ (ok false, s'))
unfolding tunnel_info rebind_round rebind_with
late_setup_disconnects host q s x later target there e =
    let d = late-Disconnected host q s x e in
    (
      ap (contains q.name) d.0 ∙ there,
      ap (lookup q.name) d.1,
      rw (d.2, tunnel_info) refl,
      rw (d.2, tunnel_info) refl,
      rw (d.2, tunnel_info) refl,
      rw d.2 refl,
    )
