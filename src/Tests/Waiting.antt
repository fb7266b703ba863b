-- ===== src/Tests/Waiting.antt =====
-- Tasks that wait for a connection's socket.
use vpn_passthrough.Prelude.{nat_eq, ◌≡◌, refl, true, false, List, [], ◌∷◌}
use vpn_passthrough.Ipc.Waiting.{
  Waits, begins, ends, ready, Step, reading, writing, closes, waits_on, turn, begin_wait, step, run,
}
use vpn_passthrough.Ipc.Waiting.Stranded.{second_wait_strands}
use vpn_passthrough.Ipc.Waiting.Alone.{idle, made, waits, writes, readers_wake}

abbrev fresh : Waits
fresh = record { open_fd = true; reads = idle; writes = idle }

abbrev both_wait : Waits
both_wait = step (writing (begins 2)) (step (reading (begins 1)) fresh)

readers_wake_example :
    (waits_on 1 (step (reading ready) both_wait).reads ≡ false)
    × (waits_on 1 (step closes both_wait).reads ≡ false)
unfolding step turn begin_wait
readers_wake_example = readers_wake both_wait (writes (begins 2) _ (waits 1 fresh refl refl made)) 1

-- It becomes writable, the second task goes on, and the connection is closed.
abbrev happens : List Step
happens = writing ready ∷ writing (ends 2) ∷ closes ∷ []

second_wait_strands_example :
    waits_on 1 (run happens (step (writing (begins 2)) (step (writing (begins 1)) fresh))).writes
    ≡ true
second_wait_strands_example =
    second_wait_strands 1 2 happens fresh (λ e. cc) (refl, (refl, (refl, tt)))
