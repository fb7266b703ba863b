-- ===== src/Ipc/Waiting.antt =====
-- How the tasks of a `Connection` of app/packages/ipc/src/radium226/vpn_passthrough/ipc/transport.py
-- wait until its socket is ready: `_wait_readable`, `_wait_writable` and `aclose`, cut at the `await`.
mod Sole
pub mod Alone
pub mod Stranded
use vpn_passthrough.Prelude.{
  ℕ, nat_eq, Bool, true, false, Option, none, some, List, [], ◌∷◌, if◌then◌else◌,
}
use vpn_passthrough.Prelude.Dict.{Dict, lookup, insert, erase}

-- A future that a task awaits.
pub data Wait : Type 0 where
  pending done cancelled : Wait

abbrev pub is_pending : Option Wait → Bool
is_pending (some pending) = true
is_pending (some done) = false
is_pending (some cancelled) = false
is_pending none = false

-- One direction of a connection: whether the loop watches the descriptor, `_read_waiter` or
-- `_write_waiter`, and the futures that tasks await, which have numbers.
pub record Side : Type 0 where
  pub watched : Bool
  pub waiter : Option ℕ
  pub futures : Dict ℕ Wait

-- Whether `fileno()` is not -1, and the two directions.
pub record Waits : Type 0 where
  pub open_fd : Bool
  pub reads : Side
  pub writes : Side

-- Whether a task still awaits a future.
unfoldable pub waits_on : ℕ → Side → Bool
waits_on k s = is_pending (lookup k s.futures)

-- Up to the `await`, where the call on the socket has just blocked.
unfoldable pub begin_wait : ℕ → Side → Side
begin_wait k s = record { watched = true; waiter = some k; futures = insert k pending s.futures }

-- A future that is not done gets an outcome.
unfoldable pub settle : Wait → Option ℕ → Dict ℕ Wait → Dict ℕ Wait
settle outcome none futures = futures
settle outcome (some k) futures =
    if is_pending (lookup k futures) then insert k outcome futures else futures

-- `_on_readable` or `_on_writable`, which the loop calls while it watches the descriptor.
unfoldable pub on_ready : Side → Side
unfolding settle
on_ready s =
    if s.watched then record s { watched = false; futures = settle done s.waiter s.futures } else s

-- What follows the `await`, for the end that its future has had.
unfoldable pub go_on_from : Bool → ℕ → Option Wait → Side → Side
go_on_from open_fd k (some cancelled) s = record {
  watched = if open_fd then false else s.watched;
  waiter = none;
  futures = erase k s.futures;
}
go_on_from open_fd k (some done) s = record s { waiter = none; futures = erase k s.futures }
go_on_from open_fd k (some pending) s = s
go_on_from open_fd k none s = s

unfoldable pub end_wait : Bool → ℕ → Side → Side
unfolding go_on_from
end_wait open_fd k s = go_on_from open_fd k (lookup k s.futures) s

-- The task that awaits a future is cancelled.
unfoldable pub cancel_wait : ℕ → Side → Side
unfolding settle
cancel_wait k s = record s { futures = settle cancelled (some k) s.futures }

-- What `aclose` does in one direction.
unfoldable pub release : Bool → Side → Side
unfolding settle
release open_fd s =
    if open_fd
    then record s { watched = false; futures = settle cancelled s.waiter s.futures }
    else s

-- What may happen in one direction.
pub data Event : Type 0 where
  begins ends cancels : ℕ → Event
  ready : Event

unfoldable pub turn : Bool → Event → Side → Side
unfolding begin_wait end_wait cancel_wait on_ready
turn open_fd (begins k) s = begin_wait k s
turn open_fd (ends k) s = end_wait open_fd k s
turn open_fd (cancels k) s = cancel_wait k s
turn open_fd ready s = on_ready s

unfoldable pub aclose : Waits → Waits
unfolding release
aclose s = record {
  open_fd = false;
  reads = release s.open_fd s.reads;
  writes = release s.open_fd s.writes;
}

-- What may happen to a connection.
pub data Step : Type 0 where
  reading writing : Event → Step
  closes : Step

unfoldable pub step : Step → Waits → Waits
unfolding turn aclose
step (reading e) s = record s { reads = turn s.open_fd e s.reads }
step (writing e) s = record s { writes = turn s.open_fd e s.writes }
step closes s = aclose s

unfoldable pub run : List Step → Waits → Waits
unfolding step
run [] s = s
run (e ∷ es) s = run es (step e s)
