-- ===== src/Service/Setup/Outcome.antt =====
-- A setup that raises leaves nothing behind, and one that returns has recorded what it holds.
use mathlib.Core.List.{reverse, append-nil}
use vpn_passthrough.Prelude.{
  String, string_eq, ◌==◌, ◌≡◌, ◌⊎◌, refl, ap, ap₂, ◌∙◌, true, false, none, some, List, [], ◌++◌,
  append_assoc, map, if◌then◌else◌, Bool-cases, inl, inr, arith, beq_refl,
}
use vpn_passthrough.Prelude.Dict.{lookup, contains, insert, lookup-insert, lookup-erase}
use vpn_passthrough.Service.State.{
  Resource, acquire, release, Host, Error, tunnel_exists, Result, ok, err, Service,
}
use vpn_passthrough.Service.Setup.{
  Request, Building, build, finish, register, abandon, setup_tunnel,
}
use vpn_passthrough.Service.Setup.Growth.{Grows, Builds-build}
use vpn_passthrough.Service.Setup.Ensures.{build-HasContext}

-- What a failed setup of `name` leaves: the context managers that it entered have been left again,
-- the last entered first, and the tunnel, which was not there before, is in no table.
abbrev pub CleanedUp : String → Service → Service → Type 0
CleanedUp name s s' =
    ((rs : List Resource) × (s'.trace ≡ s.trace ++ (map acquire rs ++ map release (reverse rs))))
    × (s'.namespaces ≡ s.namespaces)
    × (s'.exit_stacks ≡ s.exit_stacks)
    × ((j : String)
        → lookup j s'.tunnel_contexts ≡ (if name == j then none else lookup j s.tunnel_contexts))
    × (contains name s.namespaces ≡ false)

-- What a setup of `name` that returned leaves: the context managers that it entered are recorded as
-- the tunnel's stack, the tunnel is in all tables, and the other tunnels are as before.
abbrev pub Established : String → Service → Service → Type 0
Established name s s' =
    ((rs : List Resource) × (s'.trace ≡ s.trace ++ map acquire rs)
      × (lookup name s'.exit_stacks ≡ some (reverse rs)))
    × (contains name s.namespaces ≡ false)
    × (contains name s'.namespaces ≡ true)
    × (contains name s'.tunnel_contexts ≡ true)
    × (s'.rebind_tasks ≡ s.rebind_tasks)
    × ((j : String)
        → (name == j) ≡ false
        → (lookup j s'.namespaces ≡ lookup j s.namespaces)
          × (lookup j s'.exit_stacks ≡ lookup j s.exit_stacks)
          × (lookup j s'.tunnel_contexts ≡ lookup j s.tunnel_contexts))

module _ (host : Host) (q : Request) where
  -- The service when the `try` begins.
  abbrev pub begun : Service → Building
  begun s = record {
    service = record s { rebind_waiters = insert q.name [] s.rebind_waiters };
    stack = [];
  }

  pub setup-build :
      (s : Service)
      → contains q.name s.namespaces ≡ false
      → setup_tunnel host q s ≡ finish host q (build host q (begun s))
  unfolding setup_tunnel
  setup-build s h = rw h

  abandon-CleanedUp :
      (s : Service) (b : Building)
      → contains q.name s.namespaces ≡ false
      → Grows q.name (begun s) b
      → CleanedUp q.name s (abandon host q b)
  unfolding abandon
  abandon-CleanedUp s b free g = (
    (
      g.rs,
      ap₂ (λ t stack. t ++ map release stack) g.trace (g.stack ∙ append-nil (reverse g.rs))
          ∙ append_assoc s.trace (map acquire g.rs) (map release (reverse g.rs)),
    ),
    ap (λ t. t.namespaces) g.frame,
    ap (λ t. t.exit_stacks) g.frame,
    λ j. lookup-erase q.name j b.service.tunnel_contexts ∙ ground (arith, g.others j),
    free,
  )

  register-Established :
      (s : Service) (b : Building)
      → contains q.name s.namespaces ≡ false
      → Grows q.name (begun s) b
      → contains q.name b.service.tunnel_contexts ≡ true
      → Established q.name s (register host q b)
  unfolding register
  register-Established s b free g held = (
    (g.rs, g.trace, simp (lookup-insert, beq_refl) (ap some (g.stack ∙ append-nil (reverse g.rs)))),
    free,
    simp (lookup-insert, beq_refl),
    held,
    ap (λ t. t.rebind_tasks) g.frame,
    λ j ne. (
      lookup-insert q.name j tt b.service.namespaces
          ∙ rw ne (ap (λ t. lookup j t.namespaces) g.frame),
      lookup-insert q.name j b.stack b.service.exit_stacks
          ∙ rw ne (ap (λ t. lookup j t.exit_stacks) g.frame),
      g.others j ne,
    ),
  )

  refused :
      (s : Service) → contains q.name s.namespaces ≡ true → (setup_tunnel host q s).0 ≡ ok tt → ⊥
  unfolding setup_tunnel
  refused s there e = ground arith

  exists_first :
      (s : Service) (x : Error)
      → contains q.name s.namespaces ≡ true
      → (setup_tunnel host q s).0 ≡ err x
      → (x ≡ tunnel_exists)
        × ((setup_tunnel host q s).1 ≡ s)
        × (contains q.name s.namespaces ≡ true)
  unfolding setup_tunnel
  exists_first s x there e = (ground arith, rw there, there)

  finish-ok :
      (s : Service) (r : Result (Unit {0})) (b : Building)
      → contains q.name s.namespaces ≡ false
      → Grows q.name (begun s) b
      → ((a : Unit {0}) → r ≡ ok a → contains q.name b.service.tunnel_contexts ≡ true)
      → (finish host q (r, b)).0 ≡ ok tt
      → Established q.name s (finish host q (r, b)).1
  unfolding finish
  finish-ok s (ok a) b free g held e = register-Established s b free g (held a refl)
  finish-ok s (err x) b free g held e = cc

  finish-err :
      (s : Service) (r : Result (Unit {0})) (b : Building) (x : Error)
      → contains q.name s.namespaces ≡ false
      → Grows q.name (begun s) b
      → (finish host q (r, b)).0 ≡ err x
      → CleanedUp q.name s (finish host q (r, b)).1
  unfolding finish
  finish-err s (ok a) b x free g e = cc
  finish-err s (err y) b x free g e = abandon-CleanedUp s b free g

  -- A setup that returns did not find its tunnel there, has recorded the context managers that it
  -- entered, and no others, as the stack of its tunnel, has put the tunnel in the tables of
  -- namespaces and of contexts, and has left the other tunnels as they were.
  pub setup-Established :
      (s : Service)
      → (setup_tunnel host q s).0 ≡ ok tt
      → Established q.name s (setup_tunnel host q s).1
  setup-Established s e = elim (Bool-cases (contains q.name s.namespaces)) [
    | inl there ↦ absurd (refused s there e)
    | inr free ↦
        let b = (build host q (begun s)).1 in
        let r = (build host q (begun s)).0 in
        rw (setup-build s free) (
          finish-ok s r b free ((Builds-build host q).at (begun s))
            (λ a h. (build-HasContext host q).at (begun s) a h) (rw (setup-build s free) at e))
  ]

  -- A setup that raises either found the tunnel there already and changed nothing, or has left all
  -- that it entered, the last entered first, with the tables of namespaces and of stacks as before
  -- and no context of its tunnel.
  pub setup_cleans_up :
      (s : Service) (x : Error)
      → (setup_tunnel host q s).0 ≡ err x
      → ((x ≡ tunnel_exists)
          × ((setup_tunnel host q s).1 ≡ s)
          × (contains q.name s.namespaces ≡ true))
        ⊎ CleanedUp q.name s (setup_tunnel host q s).1
  setup_cleans_up s x e = elim (Bool-cases (contains q.name s.namespaces)) [
    | inl there ↦ inl (exists_first s x there e)
    | inr free ↦
        let b = (build host q (begun s)).1 in
        let r = (build host q (begun s)).0 in
        inr (
          rw (setup-build s free) (
            finish-err s r b x free ((Builds-build host q).at (begun s))
              (rw (setup-build s free) at e)))
  ]
