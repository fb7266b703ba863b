-- ===== src/Ipc/Server/Responses.antt =====
-- Each request is answered once, and nothing is sent that the request does not declare.
use vpn_passthrough.Prelude.{
  String, Eq, ◌≡◌, ◌⊎◌, inl, inr, refl, ap, ◌∙◌, true, some, Option-cases, List, [], ◌∷◌, ◌++◌, ℕ,
  map, append_assoc, All,
}
use vpn_passthrough.Prelude.Dict.{Dict, lookup}
use vpn_passthrough.Ipc.Framing.{Frame}
use vpn_passthrough.Ipc.Protocol.{
  Protocol, Validation-cases, accepted, validate_response, validate_event,
}
use vpn_passthrough.Ipc.Client.{Messages}
use vpn_passthrough.Ipc.Server.{
  Run, emit, reply, raise, Codec, Exceptions, Wire, push, send_frame, failed, run_handler, report,
  handle_request,
}

module _ {C M X : Type 0} ⦃e : Eq C⦄ (P : Protocol C) (K : Messages C M) (codec : Codec M X)
    (exn : Exceptions X) where
  abbrev pub to_frame : M × List ℕ → Frame
  to_frame (m, fds) = record { content = codec.encode m; fds = fds }

  -- The events that a request of class `c` sends before its answer: each is one that `c` declares.
  abbrev pub AllDeclared : C → List (M × List ℕ) → Type 0
  AllDeclared c events = All (λ ev. validate_event P c (K.class_of ev.0) ≡ accepted) events

  -- The last frame of an answered request: a response that its class declares, or an error response
  -- with its identifier.
  abbrev pub IsAnswer : String → C → (String → X → M) → Frame → Type 0
  IsAnswer id c encode_error frame =
      ((m : M) × (fds : List ℕ) × (validate_response P c (K.class_of m) ≡ accepted)
        × (frame ≡ to_frame (m, fds)))
      ⊎ ((x : X) × (frame ≡ to_frame (encode_error id x, [])))

  -- What was sent on top of `w` is declared events and then one answer.
  abbrev Answers : String → C → (String → X → M) → Wire → Wire → Type 0
  Answers id c encode_error w w' =
      (events : List (M × List ℕ)) × (last : Frame) × (w'.sent
        ≡ w.sent ++ (map to_frame events ++ last ∷ []))
      × AllDeclared c events
      × IsAnswer id c encode_error last

  -- Sends that all succeed.
  abbrev Sends : Wire → Type 0
  Sends w = w.sends ≡ []

  abbrev sent_on : Frame → Wire → Wire
  sent_on frame w = record w { sent = w.sent ++ frame ∷ [] }

  send_frame_succeeds :
      (frame : Frame) (w : Wire) → Sends w → send_frame frame w ≡ (sent_on frame w, true)
  unfolding send_frame push
  send_frame_succeeds frame w ok = ap (λ sends. push frame sends w) ok

  report-Answers :
      (id : String) (c : C) (encode_error : String → X → M) (x : X) (w : Wire)
      → codec.encode_error ≡ some encode_error
      → Sends w
      → Answers id c encode_error w (report P K codec exn id (failed x) w)
  unfolding report
  report-Answers id c encode_error x w enc ok = (
    [],
    to_frame (encode_error id x, []),
    rw (enc, report) (rw (send_frame_succeeds (to_frame (encode_error id x, [])) w ok)),
    tt,
    inr (x, refl),
  )

  run-Answers :
      (id : String) (c : C) (encode_error : String → X → M) (run : Run M X) (w : Wire)
      → codec.encode_error ≡ some encode_error
      → Sends w
      → let (ended, w') = run_handler P K codec exn c run w in
        Answers id c encode_error w (report P K codec exn id ended w')
  unfolding run_handler
  run-Answers id c encode_error (raise x) w enc ok = report-Answers id c encode_error x w enc ok
  run-Answers id c encode_error (reply m fds) w enc ok =
      elim (Validation-cases (validate_response P c (K.class_of m))) [
        | inl valid ↦
            rw (valid, run_handler)
              (rw (send_frame_succeeds (to_frame (m, fds)) w ok)
                (unfold report in ([], to_frame (m, fds), refl, tt, inl (m, fds, valid, refl))))
        | inr invalid ↦
            rw (invalid, run_handler) (report-Answers id c encode_error exn.invalid_type w enc ok)
      ]
  run-Answers id c encode_error (emit m fds rest) w enc ok =
      elim (Validation-cases (validate_event P c (K.class_of m))) [
        | inl valid ↦
            let ev = to_frame (m, fds) in
            let (events, last, sent, declared, answer) =
              run-Answers id c encode_error rest (sent_on ev w) enc ok in
            rw (valid, run_handler)
              (rw (send_frame_succeeds ev w ok) (
                (m, fds) ∷ events,
                last,
                sent ∙ append_assoc w.sent (ev ∷ []) (map to_frame events ++ last ∷ []),
                (valid, declared),
                answer,
              ))
        | inr invalid ↦
            rw (invalid, run_handler) (report-Answers id c encode_error exn.invalid_type w enc ok)
      ]

  -- With an encoder for errors and a connection that takes every frame, handling a request sends,
  -- whatever its handler does: events that the request's class declares, and after them exactly one
  -- answer, which is a response that the class declares or an error response with the request's
  -- identifier.
  pub request_answered :
      (handlers : Dict C (M → List ℕ → Run M X)) (id : String) (m : M) (fds : List ℕ) (w : Wire)
      (encode_error : String → X → M)
      → codec.encode_error ≡ some encode_error
      → w.sends ≡ []
      → let w' = handle_request P K codec exn handlers id m fds w in
        (events : List (M × List ℕ)) × (last : Frame) × (w'.sent
          ≡ w.sent ++ (map (to_frame) events ++ last ∷ []))
        × AllDeclared (K.class_of m) events
        × IsAnswer id (K.class_of m) encode_error last
  unfolding handle_request
  request_answered handlers id m fds w encode_error enc ok =
      elim (Option-cases (lookup (K.class_of m) handlers)) [
        | inl missing ↦
            rw (missing, handle_request)
              (report-Answers id (K.class_of m) encode_error exn.no_handler w enc ok)
        | inr (on_request, found) ↦
            rw (found, handle_request)
              (run-Answers id (K.class_of m) encode_error (on_request m fds) w enc ok)
      ]
