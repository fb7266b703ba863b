-- ===== src/Pia/Connect.antt =====
-- `OpenVPN.connect` of _openvpn.py, `credentials_file` of _credentials.py and `PIABackend.connect` of
-- __init__.py, all under app/packages/pia/src/radium226/vpn_passthrough/pia: what they open and close.
use vpn_passthrough.Prelude.{
  ℕ, ◌+◌, String, ◌≡◌, refl, Bool, true, false, Option, none, some, List, [], ◌∷◌, ◌++◌,
  if◌then◌else◌, ◌⊎◌, inl, inr, arith,
}
use vpn_passthrough.Pia.{ServerList, ServerError, Fetched, fetched, failed, fetch_server}
use vpn_passthrough.Pia.UpScript.{
  Text, ConnectionInfo, Connected, connected, exited_before, read_connection_info,
}

-- What is open while a session lasts.
pub data Held : Type 0 where
  credentials_path pipe_reader pipe_writer up_script_path openvpn_process log_tasks : Held

pub data Deed : Type 0 where
  opens closes : Held → Deed

-- What stands outside: whether OpenVPN is started and its pipe connected, and what the pipe gives
-- before the time is over, if it ends before.
pub record Outcomes : Type 0 where
  pub spawns : Bool
  pub pipe_connects : Bool
  pub stream : Option Text

-- What is yielded, if something is, with the deeds so far.
abbrev pub Yielding : Type 0
Yielding = Option ConnectionInfo × List Deed

-- The outer `finally` of `OpenVPN.connect`.
abbrev pub disconnect : List Deed
disconnect = closes openvpn_process ∷ closes log_tasks ∷ closes up_script_path ∷ []

-- The exception that ends `_read_connection_info`, or what it returns.
abbrev pub yielded : Option Connected → Option ConnectionInfo
yielded none = none
yielded (some exited_before) = none
yielded (some (connected info)) = some info

module _ (is_space : ℕ → Bool) where
  unfoldable pub read_pipe : Option Text → Option ConnectionInfo
  unfolding read_connection_info
  read_pipe none = none
  read_pipe (some stream) = yielded (read_connection_info is_space stream)

  -- From the connected pipe; the inner `finally` closes it.
  unfoldable pub await_connection : Bool → Option Text → Yielding
  unfolding read_pipe
  await_connection false stream = (none, [])
  await_connection true stream = (read_pipe stream, closes pipe_reader ∷ [])

  -- From the start of the process.
  unfoldable pub start_openvpn : Outcomes → Yielding
  unfolding await_connection
  start_openvpn o =
      if o.spawns
      then (let (info, deeds) = await_connection o.pipe_connects o.stream in
          (
            info,
            opens openvpn_process ∷ closes pipe_writer ∷ opens log_tasks ∷ (deeds ++ disconnect),
          ))
      else (none, [])

  -- All of `OpenVPN.connect`, the time while it yields left out: what is yielded, and what is
  -- opened and closed until its end.
  unfoldable pub openvpn_connect : Outcomes → Yielding
  unfolding start_openvpn
  openvpn_connect o =
      let (info, deeds) = start_openvpn o in
      (info, opens pipe_reader ∷ opens pipe_writer ∷ opens up_script_path ∷ deeds)

  -- `credentials_file` around it.
  unfoldable pub with_credentials : Outcomes → Yielding
  unfolding openvpn_connect
  with_credentials o =
      let (info, deeds) = openvpn_connect o in
      (info, opens credentials_path ∷ (deeds ++ closes credentials_path ∷ []))

  abbrev pub connect_to : Fetched (String × ℕ) → Outcomes → Yielding
  connect_to (failed e) o = (none, [])
  connect_to (fetched server) o = with_credentials o

  -- `PIABackend.connect`
  unfoldable pub connect : ServerList → String → Outcomes → Yielding
  unfolding fetch_server with_credentials
  connect list region o = connect_to (fetch_server list region) o

abbrev pub one_if : Bool → ℕ
one_if true = 1
one_if false = 0

-- How often something that passes the test is opened, and closed.
abbrev pub opened : (Held → Bool) → List Deed → ℕ
opened test [] = 0
opened test (opens h ∷ deeds) = one_if (test h) + opened test deeds
opened test (closes h ∷ deeds) = opened test deeds

abbrev pub closed : (Held → Bool) → List Deed → ℕ
closed test [] = 0
closed test (opens h ∷ deeds) = closed test deeds
closed test (closes h ∷ deeds) = one_if (test h) + closed test deeds

-- OpenVPN is started and its pipe is connected.
abbrev pub started : Option Text → Outcomes
started stream = record { spawns = true; pipe_connects = true; stream = stream }

with_credentials-balanced :
    (is_space : ℕ → Bool) (stream : Option Text) (test : Held → Bool)
    → opened test (with_credentials is_space (started stream)).1
      ≡ closed test (with_credentials is_space (started stream)).1
unfolding with_credentials openvpn_connect start_openvpn await_connection
with_credentials-balanced is_space stream test = omega arith

Fetched-cases :
    {A : Type 0} (f : Fetched A)
    → ((a : A) × (f ≡ fetched a)) ⊎ ((e : ServerError) × (f ≡ failed e))
Fetched-cases (fetched a) = inl (a, refl)
Fetched-cases (failed e) = inr (e, refl)

-- Where OpenVPN is started and its pipe is connected, a session of the backend closes all that it
-- has opened, as often as it has opened it, however it ends: with a connection, with OpenVPN
-- exiting before, without an answer in time, or with no server for the region.
pub connect_closes :
    (is_space : ℕ → Bool) (list : ServerList) (region : String) (stream : Option Text)
    (test : Held → Bool)
    → opened test (connect is_space list region (started stream)).1
      ≡ closed test (connect is_space list region (started stream)).1
unfolding connect
connect_closes is_space list region stream test = elim (Fetched-cases (fetch_server list region)) [
  | inl (server, e) ↦ rw e (with_credentials-balanced is_space stream test)
  | inr (error, e) ↦ rw e refl
]

-- What stays open, by what happens: where OpenVPN cannot be started, both ends of the pipe and the
-- script's file; where the pipe cannot be connected, the end that is read.
abbrev pub left_open : (Held → Bool) → Outcomes → ℕ
left_open test o =
    if o.spawns
    then if o.pipe_connects then 0 else one_if (test pipe_reader)
    else one_if (test pipe_reader) + one_if (test pipe_writer) + one_if (test up_script_path)
