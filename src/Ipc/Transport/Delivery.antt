-- ===== src/Ipc/Transport/Delivery.antt =====
-- One connection sends frames, the other end iterates over them.
use mathlib.Core.List.{map-append}
use vpn_passthrough.Prelude.{
  ℕ, ◌≤◌, ◌<◌, ◌≡◌, ◌≢◌, refl, ap, ap₂, ◌∙◌, List, [], ◌∷◌, ◌++◌, map, length, concat,
  concat-append, All,
}
use vpn_passthrough.Ipc.Framing.{Bytes, Frame, Framing, IsLawful}
use vpn_passthrough.Ipc.Transport.{
  Recv, Send, Packet, max_buffer_size, send_frame, iterate, returned,
}
use vpn_passthrough.Ipc.Transport.Sending.{
  IsHealthy, rounds, bytes_sent, fds_sent, send_frame_sends,
}
use vpn_passthrough.Ipc.Transport.Reassembly.{bytes_of, fds_of, Ends, iterate-frames}

module _ (F : Framing) where
  -- Frames that are sent one after the other, each with the results of its calls of `sendmsg`.
  unfoldable pub send_frames : List (Frame × List Send) → List Packet
  send_frames [] = []
  send_frames ((frame, calls) ∷ more) = (send_frame F frame calls).0 ++ send_frames more

module _ (F : Framing) (Plain : Bytes → Type 0) (lawful : IsLawful F Plain) where
  -- The content can be carried and fits the peer's buffer, and the socket takes all of the frame.
  abbrev pub CanSend : Frame × List Send → Type 0
  CanSend (frame, calls) =
      Plain frame.content
      × (length (F.delimit frame.content) ≤ max_buffer_size)
      × IsHealthy calls
      × (length (F.delimit frame.content) ≤ rounds calls)

  delimit-ne_nil : (d : Bytes) → Plain d → F.delimit d ≢ []
  delimit-ne_nil d plain e =
      cc (lawful.extract-delimit d [] plain, ap (λ b. F.extract (b ++ [])) e, lawful.extract-empty)

  bytes_sent-append : (ps qs : List Packet) → bytes_sent (ps ++ qs) ≡ bytes_sent ps ++ bytes_sent qs
  bytes_sent-append ps qs =
      rw map-append (concat-append (map (λ p. p.bytes) ps) (map (λ p. p.bytes) qs))

  fds_sent-append : (ps qs : List Packet) → fds_sent (ps ++ qs) ≡ fds_sent ps ++ fds_sent qs
  fds_sent-append ps qs = rw map-append (concat-append (map (λ p. p.fds) ps) (map (λ p. p.fds) qs))

  abbrev contents : List (Frame × List Send) → List Bytes
  contents sends = map (λ s. s.0.content) sends

  sends-Fits :
      (sends : List (Frame × List Send))
      → All CanSend sends
      → All (λ d. Plain d × (length (F.delimit d) ≤ max_buffer_size)) (contents sends)
  sends-Fits [] h = tt
  sends-Fits ((frame, calls) ∷ sends) h = ((h.0.0, h.0.1), sends-Fits sends h.1)

  send_frames_sends :
      (sends : List (Frame × List Send))
      → All CanSend sends
      → (bytes_sent (send_frames F sends) ≡ concat (map F.delimit (contents sends)))
        × (fds_sent (send_frames F sends) ≡ concat (map (λ s. s.0.fds) sends))
  unfolding send_frames
  send_frames_sends [] h = (refl, refl)
  send_frames_sends ((frame, calls) ∷ sends) (can, cans) =
      let (ended, bytes, fds) =
        send_frame_sends F frame calls (delimit-ne_nil frame.content can.0) can.2 can.3 in
      let (later_bytes, later_fds) = send_frames_sends sends cans in
      let ps = (send_frame F frame calls).0 in
      let qs = send_frames F sends in
      (
        bytes_sent-append ps qs ∙ ap₂ (λ a b. a ++ b) bytes later_bytes,
        fds_sent-append ps qs ∙ ap₂ (λ a b. a ++ b) fds later_fds,
      )

  -- However the sender's socket splits the frames and however the receiver's socket splits the
  -- stream again, the receiver's iteration yields the contents of the frames in order, their
  -- descriptors in order, and returns when the stream ends, in one round more than there are
  -- frames. Each content can be carried by the framing and fits the buffer with its delimiter; the
  -- sender's socket does not fail and takes bytes in enough calls.
  pub delivery :
      (sends : List (Frame × List Send)) (calls : List Recv) (fuel : ℕ)
      → All CanSend sends
      → Ends calls
      → bytes_of calls ≡ bytes_sent (send_frames F sends)
      → fds_of calls ≡ fds_sent (send_frames F sends)
      → length (contents sends) < fuel
      → let (frames, ending) = iterate F fuel [] calls in
        (map (λ f. f.content) frames ≡ map (λ s. s.0.content) sends)
        × (concat (map (λ f. f.fds) frames) ≡ concat (map (λ s. s.0.fds) sends))
        × (ending ≡ returned)
  delivery sends calls fuel can ends bytes fds h =
      let (sent_bytes, sent_fds) = send_frames_sends sends can in
      let (got_contents, got_fds, ending) =
        iterate-frames F Plain lawful (contents sends) [] calls fuel (sends-Fits sends can) ends
          (bytes ∙ sent_bytes) h in
      (got_contents, got_fds ∙ fds ∙ sent_fds, ending)
