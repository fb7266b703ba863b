-- ===== src/Ipc/Transport/Attribution.antt =====
-- Which frame a descriptor is handed out with.
use vpn_passthrough.Prelude.{ℕ, ◌≡◌, List, [], ◌∷◌, ◌++◌, some, append-nil, ap, sym, ◌∙◌}
use vpn_passthrough.Ipc.Framing.{Bytes, null_char, delimit, extract}
use vpn_passthrough.Ipc.Framing.Laws.{IsPlain, null_char-IsLawful}
use vpn_passthrough.Ipc.Transport.{Recv, message, got, receive_frame, receive, attempt, cut}
open null_char-IsLawful use {extract-delimit, extract-empty}

-- A frame that the buffer holds comes without a call, and so without a descriptor.
receive_frame-buffered :
    (buffer d r : Bytes) (calls : List Recv)
    → extract buffer ≡ (some d, r)
    → receive_frame null_char buffer calls ≡ got (record { content = d; fds = [] }) r calls
unfolding receive_frame
receive_frame-buffered buffer d r calls e = rw (e, receive_frame, attempt)

receive_frame-message :
    (m d r : Bytes) (fds : List ℕ) (calls : List Recv)
    → extract m ≡ (some d, r)
    → receive_frame null_char [] (message m fds ∷ calls)
      ≡ got (record { content = d; fds = fds }) r calls
unfolding receive_frame
receive_frame-message [] d r fds calls e = cc extract-empty
receive_frame-message (b ∷ bs) d r fds calls e =
    rw (extract-empty, receive_frame, attempt, receive) (rw (e, cut))

-- When one call of `recvmsg` brings two delimited contents whole, with descriptors, the descriptors
-- are handed out with the first content and none with the second, whichever frame they were sent
-- with.
pub descriptors_go_to_first :
    (d e : Bytes) (fds : List ℕ) (calls : List Recv)
    → IsPlain d
    → IsPlain e
    → (receive_frame null_char [] (message (delimit d ++ delimit e) fds ∷ calls)
        ≡ got (record { content = d; fds = fds }) (delimit e) calls)
      × (receive_frame null_char (delimit e) calls
          ≡ got (record { content = e; fds = [] }) [] calls)
descriptors_go_to_first d e fds calls pd pe = (
  receive_frame-message (delimit d ++ delimit e) d (delimit e) fds calls
      (extract-delimit d (delimit e) pd),
  receive_frame-buffered (delimit e) e [] calls
      (ap extract (sym (append-nil (delimit e))) ∙ extract-delimit e [] pe),
)
