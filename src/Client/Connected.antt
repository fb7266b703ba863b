-- ===== src/Client/Connected.antt =====
-- What the answer to `CreateTunnel` shows of the tunnel.
use vpn_passthrough.Prelude.{
  ℕ, String, string_eq, ◌≡◌, refl, sym, ap, ◌∙◌, true, Option, none, some, List, or_else,
}
use vpn_passthrough.Prelude.Dict.{contains}
use vpn_passthrough.Messages.{Message, TunnelInfo, CreateTunnel, tunnel_created}
use vpn_passthrough.Service.State.{
  Host, Result, ok, err, Service, tunnel_info, current_tunnels, find_tunnel,
}
use vpn_passthrough.Service.Setup.{setup_tunnel}
use vpn_passthrough.Service.Setup.Outcome.{setup-Established}
use vpn_passthrough.Service.Tunnels.{
  create_request, created, unknown_tunnel, finish_create, handle_create_tunnel,
}
use vpn_passthrough.Service.Tunnels.Destroy.{finish_create-ok, created-announced}
use vpn_passthrough.Client.Daemon.{find-infos}

-- The tunnel that an answer carries.
abbrev pub tunnel_of : Message → Option TunnelInfo
tunnel_of (tunnel_created m) = some m.tunnel
tunnel_of m = none

abbrev value : Message × List ℕ → Result (Message × List ℕ) → Message × List ℕ
value v (ok w) = w
value v (err e) = v

finish_create-tunnel :
    (r : CreateTunnel) (p : Result (Unit {0}) × Service) (v : Message × List ℕ)
    → (finish_create r p).0 ≡ ok v
    → contains r.name (created r p.1).namespaces ≡ true
    → tunnel_of v.0 ≡ some (tunnel_info (created r p.1) r.name)
unfolding finish_create current_tunnels
finish_create-tunnel r (err e, s) v h there = cc
finish_create-tunnel r (ok a, s) v h there =
    let s' = created r s in
    let found : find_tunnel r.name (current_tunnels s') ≡ some (tunnel_info s' r.name) =
      find-infos s' r.name s'.namespaces ∙ rw there refl in
    ap (λ x. tunnel_of (value v x).0) (sym h)
    ∙ ap (λ o. some (or_else o (unknown_tunnel r.name))) found

-- Whatever request `handle_create_tunnel` answers without an exception, one for a tunnel without a VPN
-- not excepted, the tunnel in its answer is said to be connected to a VPN.
pub created_shows_connected :
    (host : Host) (r : CreateTunnel) (target : Option String) (s : Service) (v : Message × List ℕ)
    → (handle_create_tunnel host r target s).0 ≡ ok v
    → (t : TunnelInfo) × (tunnel_of v.0 ≡ some t) × (t.name ≡ r.name) × (t.vpn_connected ≡ true)
unfolding handle_create_tunnel tunnel_info create_request
created_shows_connected host r target s v h =
    let p = setup_tunnel host (create_request r target) s in
    let returned = finish_create-ok r p v h in
    let e = setup-Established host (create_request r target) s returned.0 in
    let same = created-announced r p.1 in
    (
      tunnel_info (created r p.1) r.name,
      finish_create-tunnel r p v h (ap (λ t. contains r.name t.namespaces) same ∙ e.2),
      refl,
      ap (λ t. contains r.name t.tunnel_contexts) same ∙ e.3,
    )
