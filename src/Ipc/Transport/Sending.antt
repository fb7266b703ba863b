-- ===== src/Ipc/Transport/Sending.antt =====
-- What `send_frame` puts on the stream.
use vpn_passthrough.Prelude.{
  ℕ, suc, ◌≤◌, ◌<◌, ◌≡◌, ◌≢◌, refl, ap, ◌∙◌, [], ◌∷◌, ◌++◌, List, map, length, length-drop, concat,
  take, drop, take-append-drop, append-nil, arith,
}
use vpn_passthrough.Ipc.Framing.{Bytes, Frame, Framing}
use vpn_passthrough.Ipc.Transport.{
  Send, accepted, full, broken, Packet, delivered, send, send_frame,
}

abbrev pub bytes_sent : List Packet → Bytes
bytes_sent packets = concat (map (λ p. p.bytes) packets)

abbrev pub fds_sent : List Packet → List ℕ
fds_sent packets = concat (map (λ p. p.fds) packets)

-- The socket does not fail, and takes at least one byte in each call that does not block.
abbrev pub IsHealthy : List Send → Type 0
IsHealthy [] = Unit
IsHealthy (accepted n ∷ calls) = (0 < n) × IsHealthy calls
IsHealthy (full ∷ calls) = IsHealthy calls
IsHealthy (broken ∷ calls) = ⊥

-- The number of calls that take bytes.
abbrev pub rounds : List Send → ℕ
rounds [] = 0
rounds (accepted n ∷ calls) = suc (rounds calls)
rounds (full ∷ calls) = rounds calls
rounds (broken ∷ calls) = rounds calls

-- After the first packet none carries a descriptor.
fds-send_later : (bytes : Bytes) (calls : List Send) → fds_sent (send bytes [] calls).0 ≡ []
unfolding send
fds-send_later [] calls = refl
fds-send_later (b ∷ bs) [] = refl
fds-send_later (b ∷ bs) (full ∷ calls) = fds-send_later (b ∷ bs) calls
fds-send_later (b ∷ bs) (broken ∷ calls) = refl
fds-send_later (b ∷ bs) (accepted n ∷ calls) = fds-send_later (drop n (b ∷ bs)) calls

bytes-send :
    (bytes : Bytes) (fds : List ℕ) (calls : List Send)
    → (send bytes fds calls).1 ≡ delivered
    → bytes_sent (send bytes fds calls).0 ≡ bytes
unfolding send
bytes-send [] fds calls e = refl
bytes-send (b ∷ bs) fds [] e = cc
bytes-send (b ∷ bs) fds (full ∷ calls) e = bytes-send (b ∷ bs) fds calls e
bytes-send (b ∷ bs) fds (broken ∷ calls) e = cc
bytes-send (b ∷ bs) fds (accepted n ∷ calls) e =
    ap (λ ys. take n (b ∷ bs) ++ ys) (bytes-send (drop n (b ∷ bs)) [] calls e)
    ∙ take-append-drop n (b ∷ bs)

fds-send :
    (b : ℕ) (bs : Bytes) (fds : List ℕ) (calls : List Send)
    → (send (b ∷ bs) fds calls).1 ≡ delivered
    → fds_sent (send (b ∷ bs) fds calls).0 ≡ fds
unfolding send
fds-send b bs fds [] e = cc
fds-send b bs fds (full ∷ calls) e = fds-send b bs fds calls e
fds-send b bs fds (broken ∷ calls) e = cc
fds-send b bs fds (accepted n ∷ calls) e =
    rw (fds-send_later (drop n (b ∷ bs)) calls) (append-nil fds)

-- A send that returns has put the whole content on the stream, and each descriptor once.
pub send-delivered :
    (bytes : Bytes) (fds : List ℕ) (calls : List Send)
    → bytes ≢ []
    → (send bytes fds calls).1 ≡ delivered
    → (bytes_sent (send bytes fds calls).0 ≡ bytes) × (fds_sent (send bytes fds calls).0 ≡ fds)
send-delivered [] fds calls h e = absurd (h refl)
send-delivered (b ∷ bs) fds calls h e = (bytes-send (b ∷ bs) fds calls e, fds-send b bs fds calls e)

send_ends :
    (bytes : Bytes) (fds : List ℕ) (calls : List Send)
    → IsHealthy calls
    → length bytes ≤ rounds calls
    → (send bytes fds calls).1 ≡ delivered
unfolding send
send_ends [] fds calls healthy h = refl
send_ends (b ∷ bs) fds [] healthy h = absurd (omega arith)
send_ends (b ∷ bs) fds (full ∷ calls) healthy h = send_ends (b ∷ bs) fds calls healthy h
send_ends (b ∷ bs) fds (broken ∷ calls) healthy h = absurd healthy
send_ends (b ∷ bs) fds (accepted n ∷ calls) healthy h =
    send_ends (drop n (b ∷ bs)) [] calls healthy.1
      (omega (arith, healthy.0, length-drop n (b ∷ bs)))

-- On a socket that does not fail and takes at least one byte in each call that does not block,
-- `send_frame` returns once there have been as many such calls as the delimited frame has bytes;
-- it has then put on the stream exactly these bytes, and each descriptor of the frame once.
pub send_frame_sends :
    (F : Framing) (frame : Frame) (calls : List Send)
    → F.delimit frame.content ≢ []
    → IsHealthy calls
    → length (F.delimit frame.content) ≤ rounds calls
    → let (packets, ending) = send_frame F frame calls in
      (ending ≡ delivered)
      × (bytes_sent packets ≡ F.delimit frame.content)
      × (fds_sent packets ≡ frame.fds)
unfolding send_frame
send_frame_sends F frame calls ne healthy h =
    let ended = send_ends (F.delimit frame.content) frame.fds calls healthy h in
    let (bytes, fds) = send-delivered (F.delimit frame.content) frame.fds calls ne ended in
    (ended, bytes, fds)
