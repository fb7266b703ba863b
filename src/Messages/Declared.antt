-- ===== src/Messages/Declared.antt =====
-- What passes the validation of a request: the client tells a response from an event by its shape.
use vpn_passthrough.Prelude.{◌≡◌, Bool, true, false, arith}
use vpn_passthrough.Ipc.Protocol.{accepted, validate_response, validate_event}
use vpn_passthrough.Ipc.Client.{Shape, request, response, error_response, other}
use vpn_passthrough.Messages.Classes.{MessageType, message_type_eq}
use vpn_passthrough.Messages.{Message, class_of, shape, response_type, event_type, protocol}

abbrev pub is_response : Shape → Bool
is_response (response _) = true
is_response (request _) = false
is_response (error_response _ _ _) = false
is_response other = false

abbrev pub is_other : Shape → Bool
is_other other = true
is_other (response _) = false
is_other (request _) = false
is_other (error_response _ _ _) = false

-- A message that passes the validation as a response to some request has the shape of a response
-- that is no error, so that the client takes it for the end of its request.
pub accepted_response_shape :
    (c : MessageType) (m : Message)
    → validate_response protocol c (class_of m) ≡ accepted
    → is_response (shape m) ≡ true
unfolding validate_response response_type
accepted_response_shape c m h = ground arith

-- A message that passes the validation as an event of some request has the shape of an event, so
-- that the client never takes it for a response.
pub accepted_event_shape :
    (c : MessageType) (m : Message)
    → validate_event protocol c (class_of m) ≡ accepted
    → is_other (shape m) ≡ true
unfolding validate_event event_type
accepted_event_shape c m h = ground arith
