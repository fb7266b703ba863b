-- ===== src/Client/Daemon.antt =====
-- The client's methods against the service, wired as in
-- app/packages/server/src/radium226/vpn_passthrough/server/server.py.
use vpn_passthrough.Prelude.{
  ℕ, String, string_eq, ◌==◌, ◌≡◌, refl, ap, Bool, none, some, List, [], ◌∷◌, map, length, drop,
  if◌then◌else◌, Bool-cases, inl, inr, eq_of_beq,
}
use vpn_passthrough.Prelude.Dict.{Dict, lookup, contains}
use vpn_passthrough.Messages.{
  Message, RunProcess, KillProcess, Country, run_process, kill_process, create_tunnel, start_tunnel,
  destroy_tunnel, list_regions, list_tunnels,
}
use vpn_passthrough.Service.State.{
  Host, Error, Result, ok, err, Service, tunnel_info, current_tunnels, find_tunnel,
}
use vpn_passthrough.Service.Processes.{
  Attempt, Ended, replied, raised, still_running, handle_run_process, handle_kill_process,
}
use vpn_passthrough.Service.Tunnels.{
  handle_create_tunnel, handle_start_tunnel, handle_destroy_tunnel, handle_list_regions,
  handle_list_tunnels,
}
use vpn_passthrough.Prelude.{Option}
use vpn_passthrough.Client.{
  Daemon, Answer, answered, failed, pending, lookup_tunnel, found, look_among, tunnels_of, await,
}

-- What the handlers need from outside, with which processes end, the client's descriptors, and the class and text of an
-- exception.
pub record Outside : Type 0 where
  pub host : Host
  pub regions : String → List Country
  pub attempts : RunProcess → List Attempt
  pub prepared : RunProcess → Bool
  pub killable : KillProcess → Bool
  pub ends : ℕ → Bool
  pub fds : List ℕ
  pub describe : Error → String × String

module _ (o : Outside) where
  abbrev pub refuse : Error → Answer
  refuse e = let (type, text) = o.describe e in failed type text

  abbrev pub answer : Result (Message × List ℕ) → Answer
  answer (ok (m, fds)) = answered m
  answer (err e) = refuse e

  -- Nothing is sent while a handler waits.
  abbrev pub answer_if : Option (Result (Message × List ℕ)) → Answer
  answer_if none = pending
  answer_if (some a) = answer a

  abbrev pub ended : Ended → Answer
  ended (replied m) = answered m
  ended (raised e) = refuse e
  ended still_running = pending

  -- `handle_start_tunnel` waits once the tunnel has started.
  abbrev pub waits : Result (Unit {0}) → Answer
  waits (ok _) = pending
  waits (err e) = refuse e

  -- The handlers, by the class of the request.
  unfoldable pub handle : Message → Service → Answer × Service
  unfolding handle_run_process handle_kill_process handle_create_tunnel handle_start_tunnel
      handle_destroy_tunnel handle_list_regions handle_list_tunnels
  handle (run_process r) s =
      let (e, w) = handle_run_process o.host r r.id (o.attempts r) (o.prepared r) o.fds s in
      (ended e, w.service)
  handle (kill_process r) s = (answer (handle_kill_process r (o.killable r)), s)
  handle (create_tunnel r) s =
      let (a, s') = handle_create_tunnel o.host r (some r.id) s in (answer a, s')
  handle (start_tunnel r) s = let (a, s') = handle_start_tunnel o.host r r.id s in (waits a, s')
  handle (destroy_tunnel r) s = let (a, s') = handle_destroy_tunnel o.ends r s in (answer_if a, s')
  handle (list_regions r) s = (answer (handle_list_regions o.host o.regions r s), s)
  handle (list_tunnels r) s = (answered (handle_list_tunnels r s).0, s)
  handle _ s = (pending, s)

  -- With the events that were emitted meanwhile.
  unfoldable pub serve : Daemon Service
  unfolding handle
  serve m s =
      let (a, s') = handle m s in
      (record { events = map (λ e. e.1) (drop (length s.events) s'.events); answer = a }, s')

pub find-infos :
    (s : Service) (name : String) (names : Dict String (Unit {0}))
    → find_tunnel name (map (λ n. tunnel_info s n.0) names)
      ≡ (if contains name names then some (tunnel_info s name) else none)
unfolding find_tunnel lookup tunnel_info
find-infos s name [] = refl
find-infos s name ((j, v) ∷ names) = elim (Bool-cases (j == name)) [
  | inl e ↦ rw e (ap (λ n. some (tunnel_info s n)) (eq_of_beq j name e))
  | inr e ↦ rw e (find-infos s name names)
]

-- `lookup_tunnel` against the service: a tunnel that is in the table of namespaces is found, with
-- what the service shows of it; for any other name a `KeyError` is raised. The service is left as it
-- was.
pub lookup_tunnel_finds :
    (o : Outside) (id name : String) (s : Service)
    → lookup_tunnel (serve o) id name s
      ≡ (found (if contains name s.namespaces then some (tunnel_info s name) else none), s)
unfolding lookup_tunnel look_among tunnels_of await serve handle handle_list_tunnels current_tunnels
lookup_tunnel_finds o id name s = ap (λ i. (found i, s)) (find-infos s name s.namespaces)
