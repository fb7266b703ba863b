-- ===== src/Ipc/Transport.antt =====
-- `Connection` of app/packages/ipc/src/radium226/vpn_passthrough/ipc/transport.py: how a frame is
-- sent in pieces and how frames are cut out of the bytes that arrive. What the socket does is a
-- list of the results of its calls, `Send` for `sendmsg` and `Recv` for `recvmsg`.
pub mod Sending
pub mod Reassembly
pub mod Delivery
pub mod Attribution
use vpn_passthrough.Prelude.{
  ℕ, zero, suc, ◌*◌, Option, none, some, List, [], ◌∷◌, ◌++◌, Bool, true, false, ltb, length, take,
  drop, if◌then◌else◌,
}
use vpn_passthrough.Ipc.Framing.{Bytes, Frame, Framing}

abbrev pub max_buffer_size : ℕ
max_buffer_size = 16 * 1024 * 1024

-- One call of `recvmsg(4096, …)`: bytes with the descriptors of their SCM_RIGHTS messages, no bytes
-- at the end of the stream, `BlockingIOError`, `ConnectionResetError`, or another `OSError`.
pub data Recv : Type 0 where
  message : Bytes → List ℕ → Recv
  blocked reset failed : Recv

-- How `receive_frame` ends, with the buffer and the calls still to come. `waiting` is no end: the
-- task is suspended in `_wait_readable`, with the descriptors that it has gathered.
pub data Received : Type 0 where
  got : Frame → Bytes → List Recv → Received
  eof_error buffer_error os_error : Received
  waiting : Bytes → List ℕ → Received

-- How the iteration over a connection ends: by `return`, by the `BufferError` that it lets through,
-- not yet, or not within the fuel.
pub data Ending : Type 0 where
  returned raised suspended out_of_fuel : Ending

-- One call of `sendmsg`: the number of bytes that the socket took, `BlockingIOError`, or another
-- `OSError`.
pub data Send : Type 0 where
  accepted : ℕ → Send
  full broken : Send

-- What one call put on the stream: bytes, with the descriptors of its ancillary data.
pub record Packet : Type 0 where
  pub bytes : Bytes
  pub fds : List ℕ

-- How `send_frame` ends; `unsent` is no end, the task is suspended in `_wait_writable`.
pub data Sent : Type 0 where
  delivered unsent send_error : Sent

-- `while data:` with the ancillary data that the first call takes along.
unfoldable pub send : Bytes → List ℕ → List Send → List Packet × Sent
send [] ancdata calls = ([], delivered)
send (b ∷ bs) ancdata [] = ([], unsent)
send (b ∷ bs) ancdata (full ∷ calls) = send (b ∷ bs) ancdata calls
send (b ∷ bs) ancdata (broken ∷ calls) = ([], send_error)
send (b ∷ bs) ancdata (accepted n ∷ calls) =
    let (packets, ending) = send (drop n (b ∷ bs)) [] calls in
    (record { bytes = take n (b ∷ bs); fds = ancdata } ∷ packets, ending)

-- What `extract` gave: a frame, or a buffer that is within the limit or beyond it.
unfoldable pub cut : Option Bytes × Bytes → List ℕ → List Recv → Received → Received
cut (some content, rest) fds calls more = got (record { content = content; fds = fds }) rest calls
cut (none, rest) fds calls more = if ltb max_buffer_size (length rest) then buffer_error else more

-- A frame that was received, or the end of the iteration.
unfoldable pub resume : Received → (Bytes → List Recv → List Frame × Ending) → List Frame × Ending
resume (got frame rest later) again =
    let (frames, ending) = again rest later in (frame ∷ frames, ending)
resume eof_error again = ([], returned)
resume os_error again = ([], returned)
resume buffer_error again = ([], raised)
resume (waiting rest fds) again = ([], suspended)

module _ (F : Framing) where
  -- One round of the outer loop: a frame that the buffer holds, the limit, else `more`.
  unfoldable pub attempt : Bytes → List ℕ → List Recv → Received → Received
  unfolding cut
  attempt buffer fds calls more = cut (F.extract buffer) fds calls more

  unfoldable pub send_frame : Frame → List Send → List Packet × Sent
  unfolding send
  send_frame frame calls = send (F.delimit frame.content) frame.fds calls

  -- The calls of `recvmsg` up to the one that lets the outer loop return.
  unfoldable pub receive : Bytes → List ℕ → List Recv → Received
  receive buffer fds [] = waiting buffer fds
  receive buffer fds (blocked ∷ calls) = receive buffer fds calls
  receive buffer fds (reset ∷ calls) = eof_error
  receive buffer fds (failed ∷ calls) = os_error
  receive buffer fds (message [] sent ∷ calls) = eof_error
  receive buffer fds (message (b ∷ bs) sent ∷ calls) =
      attempt (buffer ++ b ∷ bs) (fds ++ sent) calls
        (receive (buffer ++ b ∷ bs) (fds ++ sent) calls)

  unfoldable pub receive_frame : Bytes → List Recv → Received
  unfolding attempt receive
  receive_frame buffer calls = attempt buffer [] calls (receive buffer [] calls)

  -- `__aiter__`: the frames in order, and how the iteration ended.
  unfoldable pub iterate : ℕ → Bytes → List Recv → List Frame × Ending
  unfolding resume
  iterate zero buffer calls = ([], out_of_fuel)
  iterate (suc fuel) buffer calls = resume (receive_frame buffer calls) (iterate fuel)
