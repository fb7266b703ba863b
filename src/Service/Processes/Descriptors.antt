-- ===== src/Service/Processes/Descriptors.antt =====
-- The client's descriptors are closed whenever `handle_run_process` answers.
use vpn_passthrough.Prelude.{
  if◌then◌else◌, ap, ℕ, String, string_eq, Bool, true, false, Option, none, some, List, [], ◌∷◌,
  ◌++◌, ◌≡◌, refl, elem, length, take, ltb,
}
use vpn_passthrough.Prelude.Dict.{Dict, lookup}
use vpn_passthrough.Messages.{RunProcess, ProcessInfo}
use vpn_passthrough.Service.State.{TunnelContext, Host, Result, ok, err, Service}
use vpn_passthrough.Service.Processes.{
  Configured, not_run, exited, is_zero, Ending, terminated, rebound, Attempt, Running, Ended,
  close_all, on_service, forget, end_process, finish_wait, launched, start, configure, attempt,
  run_loop, ensure_tunnel, run_in, run_with_name, run_named, handle_run_process, Settled,
}

if-Settled :
    (fds : List ℕ) (b : Bool) (x y : Ended × Running)
    → Settled fds x
    → Settled fds y
    → Settled fds (if b then x else y)
if-Settled fds true x y hx hy = hx
if-Settled fds false x y hx hy = hy

module _ (r : RunProcess) (name target : String) (fds : List ℕ) where
  -- From a state in which nothing is closed yet, only an answer with everything closed is reached.
  abbrev Settles : (Running → Ended × Running) → Type 0
  Settles go = (w : Running) → w.closed ≡ [] → Settled fds (go w)

  close_all-closed : (w : Running) → w.closed ≡ [] → (close_all fds w).closed ≡ fds
  unfolding close_all
  close_all-closed w h = ap (λ c. c ++ fds) h

  finish_wait-Settles :
      (pid : ℕ) (watched : Bool) (e : Ending) (again : Running → Ended × Running)
      → Settles again
      → Settles (λ w. finish_wait r name target fds pid watched e w again)
  unfolding finish_wait end_process
  finish_wait-Settles pid watched (terminated code) again h w unclosed =
      close_all-closed (on_service (forget name pid) w) unclosed
  finish_wait-Settles pid false (rebound killable) again h w unclosed = tt
  finish_wait-Settles pid true (rebound true) again h w unclosed =
      h (on_service (forget name pid) w) unclosed
  finish_wait-Settles pid true (rebound false) again h w unclosed = tt

  launched-Settles :
      (first : Bool) (a : Attempt) (ctx : Option TunnelContext) (info : ProcessInfo)
      (ps : Option (Dict ℕ ProcessInfo)) (again : Running → Ended × Running)
      → Settles again
      → Settles (λ w. launched r name target fds first a ctx info ps w again)
  unfolding launched
  launched-Settles first a ctx info none again h w unclosed = tt
  launched-Settles first a ctx info (some ps) again h w unclosed =
      finish_wait-Settles info.pid _ a.ending again h _ unclosed

  start-Settles :
      (first : Bool) (a : Attempt) (ctx : Option TunnelContext) (command : String × List String)
      (pid : Option ℕ) (again : Running → Ended × Running)
      → Settles again
      → Settles (λ w. start r name target fds first a ctx command pid w again)
  unfolding start
  start-Settles first a ctx (command, args) none again h w unclosed = close_all-closed w unclosed
  start-Settles first a ctx (command, args) (some pid) again h w unclosed =
      launched-Settles first a ctx (record { pid = pid; command = command; args = args })
        (lookup name w.service.processes) again h w unclosed

  configure-Settles :
      (first : Bool) (c : Configured) (go : Running → Ended × Running)
      → Settles go
      → Settles (λ w. configure r name target fds first c w go)
  unfolding configure
  configure-Settles first not_run go h w unclosed = h w unclosed
  configure-Settles first (exited code) go h w unclosed =
      if-Settled fds (is_zero code) _ _ (h w unclosed) (close_all-closed w unclosed)

  attempt-Settles :
      (first : Bool) (a : Attempt) (ctx : Option TunnelContext) (o : Option (String × List String))
      (again : Running → Ended × Running)
      → Settles again
      → Settles (λ w. attempt r name target fds first a ctx o w again)
  unfolding attempt
  attempt-Settles first a ctx none again h w unclosed = close_all-closed w unclosed
  attempt-Settles first a ctx (some command) again h w unclosed =
      configure-Settles first a.configured _ (start-Settles first a ctx command a.pid again h) w
        unclosed

  run_loop-Settles :
      (first : Bool) (attempts : List Attempt) → Settles (run_loop r name target fds first attempts)
  unfolding run_loop
  run_loop-Settles first [] w unclosed = tt
  run_loop-Settles first (a ∷ attempts) w unclosed =
      attempt-Settles first a _ _ _ (run_loop-Settles false attempts) w unclosed

module _ (host : Host) (r : RunProcess) (target : String) (attempts : List Attempt)
    (prepared : Bool) where
  run_in-Settled :
      (name : String) (fds : List ℕ) (prepares : Bool) (p : Result (Unit {0}) × Service)
      → Settled fds (run_in host r target attempts prepared name fds prepares p)
  unfolding run_in
  run_in-Settled name fds prepares (err e, s) = tt
  run_in-Settled name fds false (ok _, s) = tt
  run_in-Settled name fds true (ok _, s) = run_loop-Settles r name target fds true attempts _ refl

  run_with_name-Settled :
      (name : String) (fds : List ℕ) (s : Service)
      → Settled fds (run_with_name host r target attempts prepared name fds s)
  unfolding run_with_name
  run_with_name-Settled name fds s =
      if-Settled fds (elem name s.shutting_down) _ _ refl
        (run_in-Settled name fds prepared (ensure_tunnel host r name s))

  run_named-Settled :
      (name user : Option String) (fds : List ℕ) (s : Service)
      → Settled fds (run_named host r target attempts prepared name user fds s)
  unfolding run_named
  run_named-Settled none user fds s = tt
  run_named-Settled (some name) none fds s = tt
  run_named-Settled (some name) (some user) fds s = run_with_name-Settled name fds s

  -- When `handle_run_process` answers, in whatever round and whatever other tasks did to the
  -- service meanwhile, it has closed the client's first three descriptors, in order and each once.
  pub run_process_closes :
      (fds : List ℕ) (s : Service)
      → Settled (take 3 fds) (handle_run_process host r target attempts prepared fds s)
  unfolding handle_run_process
  run_process_closes fds s =
      if-Settled (take 3 fds) (ltb (length fds) 3) _ _ tt
        (run_named-Settled r.tunnel_name r.username (take 3 fds) s)
