-- ===== src/Service/Processes.antt =====
-- `handle_run_process` and `handle_kill_process` of service.py. What stands outside in one round of
-- the loop is an `Attempt`; what other tasks do to the service while the handler waits is a
-- function.
pub mod Descriptors
use vpn_passthrough.Prelude.{
  ℕ, ◌+◌, String, string_eq, nat_eq, ◌==◌, ltb, nat_beq, length, take, ◌≡◌, Bool, true, false,
  Option, none, some, List, [], ◌∷◌, ◌++◌, or_else, elem, is_some, if◌then◌else◌,
}
use vpn_passthrough.Prelude.Dict.{Dict, lookup, contains, insert, erase, set_default}
use vpn_passthrough.Messages.{
  Message, RunProcess, KillProcess, ProcessInfo, process_started, process_restarted,
  process_terminated, command_not_found, process_killed, ℤ, pos, negsuc,
}
use vpn_passthrough.Service.State.{
  TunnelContext, Host, Error, few_descriptors, tunnel_name_required, username_required,
  preexec_failed, process_gone, key_error, Result, ok, err, Service, emit, notify_tunnel_updated,
}
use vpn_passthrough.Service.Setup.{Request, setup_tunnel}

-- The script of `configure_with`: none, or it could not be run; or its exit code.
pub data Configured : Type 0 where
  not_run : Configured
  exited : ℤ → Configured

-- What the handler waits for when it waits for a rebinding as well: the process's exit code, or a
-- rebinding first, with whether the process can then be killed.
pub data Ending : Type 0 where
  terminated : ℤ → Ending
  rebound : Bool → Ending

-- One round: the command and arguments that the templates give for a context, none where they
-- raise; the script; the process's identifier, none where the command is not found; what happens
-- meanwhile.
pub record Attempt : Type 0 where
  pub rendered : Option TunnelContext → Option (String × List String)
  pub configured : Configured
  pub pid : Option ℕ
  pub meanwhile : Service → Service
  pub ending : Ending

-- `returncode == 0`
abbrev pub is_zero : ℤ → Bool
is_zero (pos n) = nat_beq n 0
is_zero (negsuc n) = false

-- The service, with the descriptors that the handler has closed, and whether `close_parent_fds` was
-- called.
pub record Running : Type 0 where
  pub service : Service
  pub closed : List ℕ
  pub parent_closed : Bool

-- How the handler ends: an answer, an exception, or not within the rounds that are given.
pub data Ended : Type 0 where
  replied : Message → Ended
  raised : Error → Ended
  still_running : Ended

abbrev pub on_service : (Service → Service) → Running → Running
on_service f w = record w { service = f w.service }

-- `close_parent_fds()` and the loop that closes the client's three descriptors.
unfoldable pub close_all : List ℕ → Running → Running
close_all fds w = record w { closed = w.closed ++ fds; parent_closed = true }

-- `self.processes.get(tunnel_name, {}).pop(pid, None)`, and the same for the active processes.
unfoldable pub drop_in : {V : Type 0} → String → ℕ → Dict String (Dict ℕ V) → Dict String (Dict ℕ V)
drop_in name pid d = elim (lookup name d) [ none ↦ d | some ps ↦ insert name (erase pid ps) d ]

abbrev pub forgotten : String → ℕ → Service → Service
forgotten name pid s = record s {
  processes = drop_in name pid s.processes;
  active_processes = drop_in name pid s.active_processes;
}

-- With the notification below them.
unfoldable pub forget : String → ℕ → Service → Service
unfolding drop_in notify_tunnel_updated
forget name pid s = notify_tunnel_updated name (forgotten name pid s)

-- `self.processes[tunnel_name][process.pid] = …` and the line below it.
abbrev pub enlisted : String → ℕ → ProcessInfo → Dict ℕ ProcessInfo → Service → Service
enlisted name pid info ps s = record s {
  processes = insert name (insert pid info ps) s.processes;
  active_processes =
      insert name (insert pid tt (or_else (lookup name s.active_processes) [])) s.active_processes;
}

-- With the notification below them.
unfoldable pub enlist : String → ℕ → ProcessInfo → Dict ℕ ProcessInfo → Service → Service
unfolding notify_tunnel_updated
enlist name pid info ps s = notify_tunnel_updated name (enlisted name pid info ps s)

-- `ProcessStarted` in the first round, `ProcessRestarted` in the others.
unfoldable pub announce : String → Bool → ℕ → Option TunnelContext → Service → Service
unfolding emit
announce target true pid ctx s = emit (some target) (process_started (record { pid = pid })) s
announce target false pid none s =
    emit (some target) (process_restarted (record { pid = pid; forwarded_ports = [] })) s
announce target false pid (some ctx) s =
    emit (some target)
      (process_restarted (record { pid = pid; forwarded_ports = ctx.forwarded_ports })) s

module _ (r : RunProcess) (name target : String) (fds : List ℕ) where
  abbrev pub terminated_with : ℤ → Message
  terminated_with code = process_terminated (record { request_id = r.id; exit_code = code })

  abbrev pub not_found : String → Message
  not_found command = command_not_found (record { request_id = r.id; command = command })

  -- What follows the loop.
  unfoldable pub end_process : ℕ → ℤ → Running → Ended × Running
  unfolding forget close_all
  end_process pid code w =
      (replied (terminated_with code), close_all fds (on_service (forget name pid) w))

  -- The end of the wait; `watched` tells whether it is for a rebinding as well.
  unfoldable pub finish_wait :
      ℕ → Bool → Ending → Running → (Running → Ended × Running) → Ended × Running
  unfolding end_process forget
  finish_wait pid watched (terminated code) w again = end_process pid code w
  finish_wait pid false (rebound killable) w again = (still_running, w)
  finish_wait pid true (rebound true) w again = again (on_service (forget name pid) w)
  finish_wait pid true (rebound false) w again =
      (raised process_gone, on_service (forget name pid) w)

  -- The process has started; `ps` is what the table of processes holds for the tunnel.
  unfoldable pub launched :
      Bool
      → Attempt
      → Option TunnelContext
      → ProcessInfo
      → Option (Dict ℕ ProcessInfo)
      → Running
      → (Running → Ended × Running)
      → Ended × Running
  unfolding enlist announce finish_wait
  launched first a ctx info none w again = (raised key_error, w)
  launched first a ctx info (some ps) w again =
      let s = announce target first info.pid ctx (enlist name info.pid info ps w.service) in
      finish_wait info.pid (contains name s.rebind_waiters) a.ending
        (record w { service = a.meanwhile s }) again

  -- The process is started, or the command is not found.
  unfoldable pub start :
      Bool
      → Attempt
      → Option TunnelContext
      → String × List String
      → Option ℕ
      → Running
      → (Running → Ended × Running)
      → Ended × Running
  unfolding close_all launched
  start first a ctx (command, args) none w again = (replied (not_found command), close_all fds w)
  start first a ctx (command, args) (some pid) w again =
      launched first a ctx (record { pid = pid; command = command; args = args })
        (lookup name w.service.processes) w again

  -- The script refuses: the first time with its code, later with 0.
  unfoldable pub refused : Bool → ℤ → Message
  refused true code = terminated_with code
  refused false code = terminated_with (pos 0)

  -- The script has run, or not.
  unfoldable pub configure :
      Bool → Configured → Running → (Running → Ended × Running) → Ended × Running
  unfolding close_all refused
  configure first not_run w go = go w
  configure first (exited code) w go =
      if is_zero code then go w else (replied (refused first code), close_all fds w)

  -- One round, with what the templates gave.
  unfoldable pub attempt :
      Bool
      → Attempt
      → Option TunnelContext
      → Option (String × List String)
      → Running
      → (Running → Ended × Running)
      → Ended × Running
  unfolding configure start
  attempt first a ctx none w again = (replied (not_found r.command), close_all fds w)
  attempt first a ctx (some command) w again =
      configure first a.configured w (λ w'. start first a ctx command a.pid w' again)

  -- `while True`, for as many rounds as there are attempts.
  unfoldable pub run_loop : Bool → List Attempt → Running → Ended × Running
  unfolding attempt
  run_loop first [] w = (still_running, w)
  run_loop first (a ∷ attempts) w =
      let ctx = lookup name w.service.tunnel_contexts in
      attempt first a ctx (a.rendered ctx) w (run_loop false attempts)

-- The tunnel of a process, which is set up when it is not there.
module _ (host : Host) (r : RunProcess) where
  -- The setup of the tunnel, with the defaults of `_setup_tunnel`.
  abbrev pub lazy_request : String → Request
  lazy_request name = record {
    name = name;
    region_id = none;
    names_of_ports_to_forward = [];
    target = none;
    backend_name = none;
    veth_cidr = none;
    kill_switch = true;
    ports_to_forward_from_vpeer_to_loopback = [];
    client_pid = r.client_pid;
    dns_overrides = none;
    extra_routes = none;
  }

  unfoldable pub ensure_tunnel : String → Service → Result (Unit {0}) × Service
  ensure_tunnel name s =
      if contains name s.namespaces then (ok tt, s) else setup_tunnel host (lazy_request name) s

-- What stands before the loop: the checks of the request, the tunnel that is set up when it is not
-- there, and `make_preexec_fn`, of which `prepared` tells whether it returns. The client's first
-- three descriptors are those of the process.
module _ (host : Host) (r : RunProcess) (target : String) (attempts : List Attempt)
    (prepared : Bool) where
  unfoldable pub run_in : String → List ℕ → Bool → Result (Unit {0}) × Service → Ended × Running
  unfolding run_loop
  run_in name fds prepares (err e, s) =
      (raised e, record { service = s; closed = []; parent_closed = false })
  run_in name fds false (ok _, s) =
      (raised preexec_failed, record { service = s; closed = []; parent_closed = false })
  run_in name fds true (ok _, s) = run_loop r name target fds true attempts (record {
    service = record s { processes = set_default name [] s.processes };
    closed = [];
    parent_closed = false;
  })

  unfoldable pub run_with_name : String → List ℕ → Service → Ended × Running
  unfolding ensure_tunnel run_in
  run_with_name name fds s =
      if elem name s.shutting_down
      then (
        replied (process_terminated (record { request_id = r.id; exit_code = pos 1 })),
        record { service = s; closed = fds; parent_closed = false },
      )
      else run_in name fds prepared (ensure_tunnel host r name s)

  abbrev pub stopped : Error → Service → Ended × Running
  stopped e s = (raised e, record { service = s; closed = []; parent_closed = false })

  unfoldable pub run_named : Option String → Option String → List ℕ → Service → Ended × Running
  unfolding run_with_name
  run_named none user fds s = stopped tunnel_name_required s
  run_named (some name) none fds s = stopped username_required s
  run_named (some name) (some user) fds s = run_with_name name fds s

  unfoldable pub handle_run_process : List ℕ → Service → Ended × Running
  unfolding run_named
  handle_run_process fds s =
      if ltb (length fds) 3
      then stopped few_descriptors s
      else run_named r.tunnel_name r.username (take 3 fds) s

-- `handle_kill_process`; `killable` tells whether the process group is found and signalled.
unfoldable pub handle_kill_process : KillProcess → Bool → Result (Message × List ℕ)
handle_kill_process r true = ok (process_killed (record { request_id = r.id; pid = r.pid }), [])
handle_kill_process r false = err process_gone

-- Every descriptor of the client is closed, once, when there is an answer.
abbrev pub Settled : List ℕ → Ended × Running → Type 0
Settled fds (replied m, w) = w.closed ≡ fds
Settled fds (raised e, w) = Unit
Settled fds (still_running, w) = Unit
