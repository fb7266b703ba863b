-- ===== src/Ipc/Waiting/Stranded.antt =====
-- Two tasks that wait for the same direction of a connection: nothing keeps the second from taking
-- the place of the first.
use vpn_passthrough.Prelude.{
  ℕ, nat_eq, ◌==◌, ◌≡◌, ◌≢◌, refl, Bool, true, false, Option, none, some, List, [], ◌∷◌, All, arith,
  Bool-cases, inl, inr, ap,
}
use vpn_passthrough.Prelude.Dict.{lookup, insert, lookup-insert, lookup-erase}
use vpn_passthrough.Ipc.Waiting.{
  Wait, is_pending, pending, done, cancelled, Side, Waits, Event, begins, ends, cancels, ready,
  Step, reading, writing, closes, waits_on, begin_wait, settle, on_ready, go_on_from, end_wait,
  cancel_wait, release, turn, aclose, step, run,
}

-- Whether what happens is that the task of a future is cancelled, or that a future of that number
-- is made.
abbrev pub concerns : ℕ → Event → Bool
concerns k (begins j) = j == k
concerns k (ends j) = false
concerns k (cancels j) = j == k
concerns k ready = false

-- The same, where it happens to the writing direction.
abbrev pub concerns_writer : ℕ → Step → Bool
concerns_writer k (reading e) = false
concerns_writer k (writing e) = concerns k e
concerns_writer k closes = false

-- A task awaits the future, and the connection does not know it.
abbrev Lost : ℕ → Side → Type 0
Lost k s = (lookup k s.futures ≡ some pending) × (s.waiter ≢ some k)

lookup-settle :
    (k : ℕ) (outcome : Wait) (waiter : Option ℕ) (s : Side)
    → waiter ≢ some k
    → lookup k (settle outcome waiter s.futures) ≡ lookup k s.futures
unfolding settle
lookup-settle k outcome none s h = refl
lookup-settle k outcome (some j) s h = ground (arith, lookup-insert j k outcome s.futures)

settle-Lost :
    (k : ℕ) (outcome : Wait) (waiter : Option ℕ) (b : Bool) (s : Side)
    → waiter ≢ some k
    → Lost k s
    → Lost k (record s { watched = b; futures = settle outcome waiter s.futures })
settle-Lost k outcome waiter b s h (p, q) = (rw (lookup-settle k outcome waiter s h) p, q)

go_on_from-Lost :
    (k j : ℕ) (open_fd : Bool) (w : Option Wait) (s : Side)
    → lookup j s.futures ≡ w
    → Lost k s
    → Lost k (go_on_from open_fd j w s)
unfolding go_on_from
go_on_from-Lost k j open_fd none s e h = h
go_on_from-Lost k j open_fd (some pending) s e h = h
go_on_from-Lost k j open_fd (some done) s e (p, q) =
    (ground (arith, lookup-erase j k s.futures), ground arith)
go_on_from-Lost k j open_fd (some cancelled) s e (p, q) =
    (ground (arith, lookup-erase j k s.futures), ground arith)

turn-Lost :
    (k : ℕ) (open_fd : Bool) (e : Event) (s : Side)
    → concerns k e ≡ false
    → Lost k s
    → Lost k (turn open_fd e s)
unfolding turn begin_wait end_wait cancel_wait on_ready
turn-Lost k open_fd (begins j) s h (p, q) =
    (ground (arith, lookup-insert j k pending s.futures), ground arith)
turn-Lost k open_fd (ends j) s h l = go_on_from-Lost k j open_fd (lookup j s.futures) s refl l
turn-Lost k open_fd (cancels j) s h l =
    settle-Lost k cancelled (some j) s.watched s (ground arith) l
turn-Lost k open_fd ready s h l = elim (Bool-cases s.watched) [
  | inl e ↦ rw e (settle-Lost k done s.waiter false s l.1 l)
  | inr e ↦ rw e l
]

release-Lost : (k : ℕ) (open_fd : Bool) (s : Side) → Lost k s → Lost k (release open_fd s)
unfolding release
release-Lost k true s l = settle-Lost k cancelled s.waiter false s l.1 l
release-Lost k false s l = l

run-Lost :
    (k : ℕ) (es : List Step) (s : Waits)
    → All (λ e. concerns_writer k e ≡ false) es
    → Lost k s.writes
    → Lost k (run es s).writes
unfolding run step aclose
run-Lost k [] s h l = l
run-Lost k (reading e ∷ es) s h l = run-Lost k es (step (reading e) s) h.1 l
run-Lost k (writing e ∷ es) s h l =
    run-Lost k es (step (writing e) s) h.1 (turn-Lost k s.open_fd e s.writes h.0 l)
run-Lost k (closes ∷ es) s h l = run-Lost k es (aclose s) h.1 (release-Lost k s.open_fd s.writes l)

-- Two tasks wait to write, the second after the first: whatever then happens to the connection, that
-- it becomes ready, that it is closed, and that other tasks begin, end and give up their waits, the
-- first still waits, unless its own task is cancelled, or its number is given to another future.
pub second_wait_strands :
    (k j : ℕ) (es : List Step) (s : Waits)
    → k ≢ j
    → All (λ e. concerns_writer k e ≡ false) es
    → waits_on k (run es (step (writing (begins j)) (step (writing (begins k)) s))).writes ≡ true
unfolding waits_on step turn begin_wait
second_wait_strands k j es s n h =
    let s2 = step (writing (begins j)) (step (writing (begins k)) s) in
    let l : Lost k s2.writes = (
      ground (
        arith,
        lookup-insert j k pending (insert k pending s.writes.futures),
        lookup-insert k k pending s.writes.futures,
      ),
      ground arith,
    ) in
    ap is_pending (run-Lost k es s2 h l).0
