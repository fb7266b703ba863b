-- ===== src/Ipc/Server/Connections.antt =====
-- The requests that the frames of a connection lead to, and the connections that are left open.
use vpn_passthrough.Prelude.{ℕ, nat_eq, ◌≡◌, true, false, List, [], ◌∷◌, ◌++◌, elem, arith}
use vpn_passthrough.Ipc.Server.{Registry, remove, connected, disconnected}

remove-append_self : (c : ℕ) (cs : List ℕ) → elem c cs ≡ false → remove c (cs ++ c ∷ []) ≡ cs
unfolding remove
remove-append_self c [] h = ground arith
remove-append_self c (d ∷ cs) h = ground (arith, remove-append_self c cs)

elem-append_self : (c : ℕ) (cs : List ℕ) → elem c (cs ++ c ∷ []) ≡ true
elem-append_self c [] = ground arith
elem-append_self c (d ∷ cs) = ground (arith, elem-append_self c cs)

-- When a client that was not connected yet connects and disconnects, the list of open connections
-- is as before, and its connection has been closed after those closed before.
pub disconnected-connected :
    (c : ℕ) (s : Registry)
    → elem c s.opened ≡ false
    → disconnected c (connected c s) ≡ record { opened = s.opened; closed = s.closed ++ c ∷ [] }
unfolding disconnected connected
disconnected-connected c s h = rw (elem-append_self c s.opened, remove-append_self c s.opened h)
