-- ===== src/Ipc/Waiting/Alone.antt =====
-- Tasks that wait for a direction of a connection one at a time, as the one task does that iterates
-- over a connection.
use vpn_passthrough.Prelude.{ℕ, nat_eq, ◌≡◌, refl, true, false, none, some, []}
use vpn_passthrough.Prelude.Dict.{lookup}
use vpn_passthrough.Ipc.Waiting.{
  cancelled, Side, Waits, Event, begins, ends, cancels, ready, reading, writing, closes, waits_on,
  end_wait, cancel_wait, turn, aclose, step,
}
use vpn_passthrough.Ipc.Waiting.Sole.{
  Sole, go_on_from-Sole, settle-Sole, begin_wait-Sole, on_ready-Sole, release-Sole, on_ready_wakes,
  release_wakes, not_pending,
}

abbrev pub idle : Side
idle = record { watched = false; waiter = none; futures = [] }

-- What a connection whose readers wait one at a time comes to, from its making on: a wait for
-- reading begins while there is no other, and before the connection is closed.
pub data Reads : Waits → Type 0 where
  made : Reads (record { open_fd = true; reads = idle; writes = idle })
  waits :
      (k : ℕ) (s : Waits)
      → s.open_fd ≡ true
      → s.reads.waiter ≡ none
      → Reads s
      → Reads (step (reading (begins k)) s)
  wait_ends : (k : ℕ) (s : Waits) → Reads s → Reads (step (reading (ends k)) s)
  wait_cancelled : (k : ℕ) (s : Waits) → Reads s → Reads (step (reading (cancels k)) s)
  readable : (s : Waits) → Reads s → Reads (step (reading ready) s)
  writes : (e : Event) (s : Waits) → Reads s → Reads (step (writing e) s)
  closed : (s : Waits) → Reads s → Reads (step closes s)

Reads-Sole : (s : Waits) → Reads s → Sole s.open_fd s.reads
unfolding step turn end_wait cancel_wait aclose lookup
Reads-Sole _ made = λ k w h. cc
Reads-Sole _ (waits k s o n r) = begin_wait-Sole k s.open_fd s.reads o n (Reads-Sole s r)
Reads-Sole _ (wait_ends k s r) =
    go_on_from-Sole s.open_fd k (lookup k s.reads.futures) s.reads refl (Reads-Sole s r)
Reads-Sole _ (wait_cancelled k s r) =
    settle-Sole cancelled s.open_fd (some k) s.reads (cc) (Reads-Sole s r)
Reads-Sole _ (readable s r) = on_ready-Sole s.open_fd s.reads (Reads-Sole s r)
Reads-Sole _ (writes e s r) = Reads-Sole s r
Reads-Sole _ (closed s r) = release-Sole s.open_fd s.reads (Reads-Sole s r)

-- A connection whose readers wait one at a time, from its making on, whatever its writers do: once
-- the socket is readable, and also once the connection is closed, no task waits for reading any more.
pub readers_wake :
    (s : Waits)
    → Reads s
    → (k : ℕ)
    → (waits_on k (step (reading ready) s).reads ≡ false)
      × (waits_on k (step closes s).reads ≡ false)
unfolding waits_on step turn aclose
readers_wake s r k =
    let sole = Reads-Sole s r in
    (
      not_pending _ (on_ready_wakes s.open_fd s.reads k sole),
      not_pending _ (release_wakes s.open_fd s.reads k sole),
    )
