-- ===== src/Tests/Transport.antt =====
-- Frames of one and two bytes on sockets that take and bring them in pieces.
use vpn_passthrough.Prelude.{◌≡◌, ◌≢◌, refl, List, [], ◌∷◌, ◌++◌, map, concat, arith}
use vpn_passthrough.Ipc.Framing.{Frame, null_char, delimit}
use vpn_passthrough.Ipc.Framing.Laws.{IsPlain, null_char-IsLawful}
use vpn_passthrough.Ipc.Transport.{
  Recv, message, blocked, got, returned, Send, accepted, full, delivered, send, send_frame,
  receive_frame, iterate,
}
use vpn_passthrough.Ipc.Transport.Sending.{IsHealthy, bytes_sent, fds_sent, send_frame_sends}
use vpn_passthrough.Ipc.Transport.Reassembly.{iterate-frames}
use vpn_passthrough.Ipc.Transport.Delivery.{send_frames, delivery}
use vpn_passthrough.Ipc.Transport.Attribution.{descriptors_go_to_first}

abbrev hi : Frame
hi = record { content = 104 ∷ 105 ∷ []; fds = 7 ∷ [] }

abbrev yo : Frame
yo = record { content = 121 ∷ []; fds = 8 ∷ 9 ∷ [] }

abbrev hi_calls : List Send
hi_calls = full ∷ accepted 1 ∷ accepted 1 ∷ accepted 1 ∷ []

abbrev yo_calls : List Send
yo_calls = accepted 1 ∷ full ∷ accepted 1 ∷ []

hi-IsPlain : IsPlain (104 ∷ 105 ∷ [])
hi-IsPlain = (λ e. omega arith, (λ e. omega arith, tt))

yo-IsPlain : IsPlain (121 ∷ [])
yo-IsPlain = (λ e. omega arith, tt)

-- The stream of both frames, cut elsewhere than between them.
abbrev arrivals : List Recv
arrivals =
    message (104 ∷ []) (7 ∷ [])
    ∷ blocked
    ∷ message (105 ∷ 0 ∷ 121 ∷ []) []
    ∷ message (0 ∷ []) (8 ∷ 9 ∷ [])
    ∷ message [] []
    ∷ []

hi_not_nil : delimit (104 ∷ 105 ∷ []) ≢ []
unfolding delimit
hi_not_nil e = cc

hi-IsHealthy : IsHealthy hi_calls
hi-IsHealthy = (omega arith, (omega arith, (omega arith, tt)))

send_frame_sends_example :
    let (packets, ending) = send_frame null_char hi hi_calls in
    (ending ≡ delivered)
    × (bytes_sent packets ≡ delimit (104 ∷ 105 ∷ []))
    × (fds_sent packets ≡ 7 ∷ [])
unfolding delimit
send_frame_sends_example =
    send_frame_sends null_char hi hi_calls hi_not_nil hi-IsHealthy (omega arith)

iterate-frames_example :
    let (frames, ending) = iterate null_char 3 [] arrivals in
    (map (λ f. f.content) frames ≡ (104 ∷ 105 ∷ []) ∷ (121 ∷ []) ∷ [])
    × (concat (map (λ f. f.fds) frames) ≡ 7 ∷ 8 ∷ 9 ∷ [])
    × (ending ≡ returned)
unfolding delimit
iterate-frames_example =
    iterate-frames null_char IsPlain null_char-IsLawful ((104 ∷ 105 ∷ []) ∷ (121 ∷ []) ∷ []) []
      arrivals 3 ((hi-IsPlain, omega arith), ((yo-IsPlain, omega arith), tt)) tt refl (omega arith)

delivery_example :
    let (frames, ending) = iterate null_char 3 [] arrivals in
    (map (λ f. f.content) frames ≡ (104 ∷ 105 ∷ []) ∷ (121 ∷ []) ∷ [])
    × (concat (map (λ f. f.fds) frames) ≡ 7 ∷ 8 ∷ 9 ∷ [])
    × (ending ≡ returned)
unfolding delimit send_frames send_frame send
delivery_example =
    delivery null_char IsPlain null_char-IsLawful ((hi, hi_calls) ∷ (yo, yo_calls) ∷ []) arrivals 3
      (
        (hi-IsPlain, omega arith, hi-IsHealthy, omega arith),
        ((yo-IsPlain, omega arith, (omega arith, (omega arith, tt)), omega arith), tt),
      )
      tt refl refl (omega arith)

descriptors_go_to_first_example :
    (receive_frame null_char [] (message (delimit (104 ∷ []) ++ delimit (121 ∷ [])) (8 ∷ []) ∷ [])
      ≡ got (record { content = 104 ∷ []; fds = 8 ∷ [] }) (delimit (121 ∷ [])) [])
    × (receive_frame null_char (delimit (121 ∷ [])) []
        ≡ got (record { content = 121 ∷ []; fds = [] }) [] [])
descriptors_go_to_first_example =
    descriptors_go_to_first (104 ∷ []) (121 ∷ []) (8 ∷ []) [] (λ e. omega arith, tt) yo-IsPlain
