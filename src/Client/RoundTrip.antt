-- ===== src/Client/RoundTrip.antt =====
-- A tunnel that the client creates is found, and one that it destroys is not found any more.
use vpn_passthrough.Prelude.{
  ℕ, String, string_eq, ◌≡◌, ◌≢◌, refl, sym, ap, ap₂, Option-cases, inl, inr, ◌∙◌, Bool, true,
  false, Option, none, some, List, [], or_else, beq_refl, arith, map, ◌&&◌, not, if◌then◌else◌,
  Bool-cases,
}
use vpn_passthrough.Prelude.Dict.{lookup, contains}
use vpn_passthrough.Messages.{
  TunnelInfo, Message, TunnelCreated, CreateTunnel, DestroyTunnel, tunnel_created,
}
use vpn_passthrough.Service.State.{
  Host, Result, ok, err, Service, tunnel_info, current_tunnels, find_tunnel,
}
use vpn_passthrough.Service.Setup.{setup_tunnel}
use vpn_passthrough.Service.Setup.Outcome.{setup-Established}
use vpn_passthrough.Service.Tunnels.{
  create_request, created, unknown_tunnel, finish_create, handle_create_tunnel, begin_destroy,
  awaited, all_ended, handle_destroy_tunnel,
}
use vpn_passthrough.Service.Tunnels.Destroy.{created-announced, destroy_releases, destroy_waits}
use vpn_passthrough.Client.{
  Outcome, returned, raised, waiting, key_error, lookup_tunnel, destroy_tunnel_of, regions_of,
  destroyed, await, found,
}
use vpn_passthrough.Client.Tunnels.{
  Arguments, NameOrConfig, resolved, Choice, create_message, choose_region, send_create, go_on,
  create_tunnel_of,
}
use vpn_passthrough.Client.Tunnels
use vpn_passthrough.Client.Daemon.{
  Outside, answer, answer_if, handle, serve, find-infos, lookup_tunnel_finds,
}

go_on-returned :
    {A B S : Type 0} (f : A → S → Outcome B × S) (p : Outcome A × S) (b : B)
    → (go_on f p).0 ≡ returned b
    → (a : A) × (go_on f p ≡ f a p.1)
go_on-returned f (returned a, s) b h = (a, refl)
go_on-returned f (raised e, s) b h = cc
go_on-returned f (waiting, s) b h = cc

-- The answer of `handle_create_tunnel`, when there is one.
finish_create-answer :
    (c : CreateTunnel) (p : Result (Unit {0}) × Service) (v : Message × List ℕ)
    → (finish_create c p).0 ≡ ok v
    → (p.0 ≡ ok tt)
      × ((finish_create c p).1 ≡ created c p.1)
      × (v ≡ (
        tunnel_created (record {
          request_id = c.id;
          name = c.name;
          tunnel =
              or_else
                (find_tunnel c.name (current_tunnels (created c p.1)))
                (unknown_tunnel c.name);
        }),
        [],
      ))
unfolding finish_create
finish_create-answer c (ok a, s) v e = (refl, refl, cc)
finish_create-answer c (err x, s) v e = cc

-- An answer that sets the future of `create_tunnel`.
await-created :
    (o : Outside) (a : Result (Message × List ℕ)) (t : TunnelCreated)
    → await Tunnels.created (answer o a) ≡ returned t
    → (fds : List ℕ) × (a ≡ ok (tunnel_created t, fds))
unfolding await
await-created o (ok (m, fds)) t h = (fds, ground arith)
await-created o (err e) t h = cc

find-current :
    (s : Service) (name : String)
    → contains name s.namespaces ≡ true
    → find_tunnel name (current_tunnels s) ≡ some (tunnel_info s name)
unfolding current_tunnels
find-current s name h = find-infos s name s.namespaces ∙ rw h refl

-- What a created tunnel leaves, and what is answered.
abbrev Listed : String → TunnelCreated → Service → Service → Type 0
Listed name t s s' =
    (contains name s.namespaces ≡ false)
    × (contains name s'.namespaces ≡ true)
    × (t.name ≡ name)
    × (t.tunnel ≡ tunnel_info s' name)

handle_create-Listed :
    (host : Host) (c : CreateTunnel) (target : Option String) (s : Service) (t : TunnelCreated)
    (fds : List ℕ)
    → (handle_create_tunnel host c target s).0 ≡ ok (tunnel_created t, fds)
    → Listed c.name t s (handle_create_tunnel host c target s).1
unfolding handle_create_tunnel create_request
handle_create-Listed host c target s t fds h =
    let p = setup_tunnel host (create_request c target) s in
    let (made, state, value) = finish_create-answer c p (tunnel_created t, fds) h in
    let e = setup-Established host (create_request c target) s made in
    let there : contains c.name (created c p.1).namespaces ≡ true =
      ap (λ u. contains c.name u.namespaces) (created-announced c p.1) ∙ e.2 in
    rw state (e.1, there, ground arith, ground (arith, find-current (created c p.1) c.name there))

Listed-found :
    (o : Outside) (id name : String) (t : TunnelCreated) (s s' : Service)
    → Listed name t s s'
    → (lookup_tunnel (serve o) id t.name s').0 ≡ returned t.tunnel
Listed-found o id name t s s' (free, there, named, shown) =
    ap (λ n. (lookup_tunnel (serve o) id n s').0) named
    ∙ ap (λ x. x.0) (lookup_tunnel_finds o id name s')
    ∙ rw there (ap returned (sym shown))

module _ (o : Outside) (choice : Choice) (regions_id id : String) (s : Service) where
  choose_region-unchanged :
      (a : Arguments) → (choose_region (serve o) choice regions_id id a s).1 ≡ s
  unfolding choose_region regions_of serve handle
  choose_region-unchanged a = elim (Option-cases a.region_id) [
    | inl e ↦ rw e refl
    | inr (region, e) ↦ rw e refl
  ]

  send-Listed :
      (name region : String) (a : Arguments) (t : TunnelCreated) (u : Service)
      → (send_create (serve o) choice regions_id id name a region u).0 ≡ returned t
      → Listed name t u (send_create (serve o) choice regions_id id name a region u).1
  unfolding send_create serve handle create_message
  send-Listed name region a t u h =
      let r = create_message id name region a in
      let (fds, e) = await-created o (handle_create_tunnel o.host r (some r.id) u).0 t h in
      handle_create-Listed o.host r (some r.id) u t fds e

  -- Where `create_tunnel` returns, against the service, the tunnel was not there before; the answer
  -- carries its name and what the service shows of it; and a `lookup_tunnel` that follows returns
  -- the same, whether the tunnel was given by its name or by a configuration.
  pub lookup_tunnel-create_tunnel :
      (name_or_config : NameOrConfig) (args : Arguments) (t : TunnelCreated) (lookup_id : String)
      → (create_tunnel_of (serve o) choice regions_id id name_or_config args s).0 ≡ returned t
      → (contains t.name s.namespaces ≡ false)
        × (t.name ≡ (resolved name_or_config args).0)
        × ((lookup_tunnel
              (serve o)
              lookup_id
              t.name
              (create_tunnel_of (serve o) choice regions_id id name_or_config args s).1).0
            ≡ returned t.tunnel)
  unfolding create_tunnel_of
  lookup_tunnel-create_tunnel name_or_config args t lookup_id h =
      let (name, a) = resolved name_or_config args in
      let p = choose_region (serve o) choice regions_id id a s in
      let (region, e) = go_on-returned (send_create (serve o) choice regions_id id name a) p t h in
      let k = send-Listed name region a t p.1 (sym (ap (λ x. x.0) e) ∙ h) in
      (
        ap₂ (λ n u. contains n u.namespaces) k.2 (sym (choose_region-unchanged a)) ∙ k.0,
        k.2,
        ap (λ x. (lookup_tunnel (serve o) lookup_id t.name x.1).0) e
            ∙ Listed-found o lookup_id name t p.1 _ k,
      )

-- The processes of a tunnel that are known to be in use.
abbrev pub in_use : String → Service → List ℕ
in_use name s = map (λ p. p.0) (or_else (lookup name s.active_processes) [])

not_blocked :
    (ends : ℕ → Bool) (r : DestroyTunnel) (s : Service)
    → all_ended ends (awaited r s) ≡ true
    → (r.wait && not (all_ended ends (in_use r.name s))) ≡ false
unfolding awaited
not_blocked ends r s h = elim (Bool-cases r.wait) [
  | inl e ↦ ground (arith, e, h)
  | inr e ↦ rw e refl
]

true_false : ◌≢◌ {A = Bool} true false
true_false h = cc

blocked_by :
    (ends : ℕ → Bool) (r : DestroyTunnel) (s : Service)
    → all_ended ends (awaited r s) ≡ false
    → (r.wait && not (all_ended ends (in_use r.name s))) ≡ true
unfolding awaited
blocked_by ends r s h = elim (Bool-cases r.wait) [
  | inl e ↦ ground (arith, e, h)
  | inr e ↦ absurd (true_false (rw e at h))
]

-- What `lookup_tunnel` gives.
seen : Outside → String → Service → Outcome TunnelInfo
seen o name s = found (if contains name s.namespaces then some (tunnel_info s name) else none)

same_seen :
    (o : Outside) (r : DestroyTunnel) (s : Service)
    → seen o r.name (begin_destroy r s).1 ≡ seen o r.name s
unfolding seen begin_destroy tunnel_info
same_seen o r s = refl

-- Where no rebinding task of the tunnel has failed: `destroy_tunnel` without `wait`, or where the
-- processes that are known to be in use in the tunnel end, returns, against the service, and a
-- `lookup_tunnel` of that name that follows raises a `KeyError`, whether the tunnel was there before or
-- not; with `wait`, and while one of these processes does not end, it does not return, and a
-- `lookup_tunnel` meanwhile gives what it gave before.
pub lookup_tunnel-destroy_tunnel :
    (o : Outside) (id lookup_id name : String) (wait : Bool) (s : Service)
    → or_else (lookup name s.rebind_tasks) none ≡ none
    → let blocked = wait && not (all_ended o.ends (in_use name s)) in
      ((destroy_tunnel_of (serve o) id name wait s).0 ≡ (if blocked then waiting else returned tt))
      × ((lookup_tunnel (serve o) lookup_id name (destroy_tunnel_of (serve o) id name wait s).1).0
          ≡ (if blocked then (lookup_tunnel (serve o) lookup_id name s).0 else raised key_error))
unfolding destroy_tunnel_of serve handle await seen lookup_tunnel
lookup_tunnel-destroy_tunnel o id lookup_id name wait s h =
    let r : DestroyTunnel = record { id = id; name = name; wait = wait } in
    elim (Bool-cases (all_ended o.ends (awaited r s))) [
      | inl all ↦
          let (e, d) = destroy_releases o.ends r s h all in
          rw (not_blocked o.ends r s all) (
            ap (λ a. await destroyed (answer_if o a)) e,
            ap (λ x. x.0)
                  (lookup_tunnel_finds o lookup_id name (handle_destroy_tunnel o.ends r s).1)
                ∙ rw (d.1 name, beq_refl name) refl,
          )
      | inr some_run ↦
          let e = destroy_waits o.ends r s h some_run in
          rw (blocked_by o.ends r s some_run) (
            ap (λ a. await destroyed (answer_if o a.0)) e,
            ap (λ x. x.0)
                  (lookup_tunnel_finds o lookup_id name (handle_destroy_tunnel o.ends r s).1)
                ∙ ap (λ a. seen o name a.1) e
                ∙ same_seen o r s
                ∙ ap (λ x. x.0) (sym (lookup_tunnel_finds o lookup_id name s)),
          )
    ]
