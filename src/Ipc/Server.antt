-- ===== src/Ipc/Server.antt =====
-- `Server` of app/packages/ipc/src/radium226/vpn_passthrough/ipc/server.py: the dispatch of the
-- frames of a connection, the handling of one request, and the list of open connections. A handler
-- is seen as what it does to its connection: the events that it emits and its end. The codec is a
-- parameter; `X` is the type of the exceptions.
pub mod Responses
pub mod Connections
use vpn_passthrough.Prelude.{
  ℕ, nat_eq, String, Eq, ◌==◌, Bool, true, false, Option, none, some, List, [], ◌∷◌, ◌++◌, elem,
  if◌then◌else◌,
}
use vpn_passthrough.Prelude.Dict.{Dict, lookup}
use vpn_passthrough.Ipc.Framing.{Bytes, Frame}
use vpn_passthrough.Ipc.Protocol.{Protocol, accepted, type_error, validate_response, validate_event}
use vpn_passthrough.Ipc.Client.{Messages, Shape, request, response, error_response, other}

-- What a handler does, in order; an exception of `emit` is an exception of the handler.
pub data Run (M X : Type 0) : Type 0 where
  emit : M → List ℕ → Run M X → Run M X
  reply : M → List ℕ → Run M X
  raise : X → Run M X

-- `Codec`; none where `decode` raises. `encode_error` may be missing.
pub record Codec (M X : Type 0) : Type 0 where
  pub encode : M → Bytes
  pub decode : Bytes → Option M
  pub encode_error : Option (String → X → M)

-- The exceptions that the server raises itself, and that of a peer that is gone.
pub record Exceptions (X : Type 0) : Type 0 where
  pub no_handler : X
  pub invalid_type : X
  pub disconnected : X

-- A connection from the server's side: what was sent, whether the sends to come succeed (all do
-- once the list is over), and whether the server has closed it.
pub record Wire : Type 0 where
  pub sent : List Frame
  pub sends : List Bool
  pub closed : Bool

unfoldable pub push : Frame → List Bool → Wire → Wire × Bool
push frame [] w = (record w { sent = w.sent ++ frame ∷ [] }, true)
push frame (true ∷ sends) w = (record w { sent = w.sent ++ frame ∷ []; sends = sends }, true)
push frame (false ∷ sends) w = (record w { sends = sends }, false)

-- `connection.send_frame`, and whether it returned.
unfoldable pub send_frame : Frame → Wire → Wire × Bool
unfolding push
send_frame frame w = push frame w.sends w

-- How the `try` of `handle_request` ends.
pub data Handled (X : Type 0) : Type 0 where
  done : Handled X
  failed : X → Handled X

module _ {C M X : Type 0} ⦃e : Eq C⦄ (P : Protocol C) (K : Messages C M) (codec : Codec M X)
    (exn : Exceptions X) where
  -- The handler runs, with `emit` and, at its end, the validation and the sending of its response.
  unfoldable pub run_handler : C → Run M X → Wire → Handled X × Wire
  unfolding send_frame
  run_handler c (emit event fds rest) w = elim (validate_event P c (K.class_of event)) [
    | type_error ↦ (failed exn.invalid_type, w)
    | accepted ↦
        let (w', ok) = send_frame (record { content = codec.encode event; fds = fds }) w in
        run_handler c rest w'
  ]
  run_handler c (reply message fds) w = elim (validate_response P c (K.class_of message)) [
    | type_error ↦ (failed exn.invalid_type, w)
    | accepted ↦
        let (w', ok) = send_frame (record { content = codec.encode message; fds = fds }) w in
        (if ok then done else failed exn.disconnected, w')
  ]
  run_handler c (raise x) w = (failed x, w)

  -- The `except` of `handle_request`.
  unfoldable pub report : String → Handled X → Wire → Wire
  unfolding send_frame
  report id done w = w
  report id (failed x) w = elim codec.encode_error [
    | none ↦ record w { closed = true }
    | some encode_error ↦
        let (w', ok) =
          send_frame (record { content = codec.encode (encode_error id x); fds = [] }) w in
        w'
  ]

  -- `handle_request`, with the handlers by request class.
  unfoldable pub handle_request : Dict C (M → List ℕ → Run M X) → String → M → List ℕ → Wire → Wire
  unfolding run_handler report
  handle_request handlers id message fds w = elim (lookup (K.class_of message) handlers) [
    | none ↦ report id (failed exn.no_handler) w
    | some on_request ↦
        let (ended, w') = run_handler (K.class_of message) (on_request message fds) w in
        report id ended w'
  ]

  -- The loop of `_handle_connection`: the requests for which a task is created, in order, each with
  -- the descriptors of its frame. What does not decode and what is no request is skipped.
  unfoldable pub dispatch : List Frame → List (String × M × List ℕ)
  dispatch [] = []
  dispatch (frame ∷ frames) =
      let rest = dispatch frames in
      elim (codec.decode frame.content) [
        | none ↦ rest
        | some message ↦ elim (K.shape message) [
          | request id ↦ (id, message, frame.fds) ∷ rest
          | response id ↦ rest
          | error_response id error_type text ↦ rest
          | other ↦ rest
        ]
      ]

-- `list.remove`: the first occurrence.
unfoldable pub remove : ℕ → List ℕ → List ℕ
remove c [] = []
remove c (d ∷ ds) = let rest = remove c ds in if d == c then ds else d ∷ rest

-- The server's open connections, and those that it has closed, in order.
pub record Registry : Type 0 where
  pub opened : List ℕ
  pub closed : List ℕ

unfoldable pub connected : ℕ → Registry → Registry
connected c s = record s { opened = s.opened ++ c ∷ [] }

-- The `finally` of `_handle_connection`.
unfoldable pub disconnected : ℕ → Registry → Registry
unfolding remove
disconnected c s = record s {
  opened = if elem c s.opened then remove c s.opened else s.opened;
  closed = s.closed ++ c ∷ [];
}

-- `Server.aclose`, but for the socket file.
unfoldable pub aclose : Registry → Registry
aclose s = record { opened = []; closed = s.closed ++ s.opened }
