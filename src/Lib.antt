-- ===== src/Lib.antt =====
-- vpn-passthrough: a daemon that runs processes in network namespaces, each a tunnel with or without
-- a VPN, and the IPC layer over which its clients speak to it.
--
-- The parts and the files that model them (paths under app/packages/, in the package
-- radium226/vpn_passthrough of each):
-- - ipc/transport.py: Ipc/Framing.antt has `NullCharFraming` and what a connection needs of any
--   framing; Ipc/Transport.antt has `Connection.send_frame`, `receive_frame` and `__aiter__`. A
--   socket is the list of the results of its `sendmsg` and `recvmsg` calls. Ipc/Waiting.antt has
--   `_wait_readable`, `_wait_writable` and `aclose`, cut at the `await`.
-- - ipc/protocol.py, and `_flatten_event_types` of ipc/client.py: Ipc/Protocol.antt, with the types
--   that a request declares and the validation of messages against them.
-- - ipc/client.py: Ipc/Client.antt, with the tables `_pending` and `_event_routing`. What runs
--   between two `await`s is one function: `begin_request` and `end_request` are the halves of
--   `request`, `receive_message` is one message of `_receive_loop`, `connection_closed` its `finally`.
-- - ipc/server.py: Ipc/Server.antt, with `handle_request`, its `emit`, the dispatch of frames and
--   the list of connections. A handler is what it does to its connection, `Run`.
-- - messages/__init__.py: Messages.antt and Messages/, with the message classes, what the requests
--   declare, and the discriminators.
-- - server/service.py: Service/State.antt has the tables of `Service` and its notifications,
--   Service/Backends.antt `_resolve_backend`, Service/Setup.antt `_setup_tunnel`, and
--   Service/Tunnels.antt the handlers of tunnels, Service/Rebinding.antt one round of `_rebind_loop`,
--   and what becomes of its task when the round raises;
--   Service/Processes.antt has `handle_run_process`, by rounds of its loop, and `handle_kill_process`.
--   Service/Ledger.antt says what the service promises of the context managers that it enters: a
--   ledger of what was entered and left and of what each tunnel holds, with its four moves, and the
--   effect on it that each handler promises. Service/Setup/Overlap.antt has a setup that goes on
--   after another of the same name has ended.
-- - server/linux.py: Linux.antt has `_preexec` as the calls that the child makes and the capability
--   words, Linux/Opening.antt what `make_preexec_fn` opens before the fork and `close_parent_fds`,
--   Linux/Cgroup.antt `_parse_cgroupv2_path`; Linux/Bits.antt has the binary digits of `|` and `<<`.
-- - client/client.py and client/config.py: Client.antt has the methods that send one request,
--   Client/Tunnels.antt `create_tunnel` and `start_tunnel`. A daemon is a function from a message
--   and a state; Client/Daemon.antt makes one of the service, wired as in server/server.py.
--   Client/Config.antt has `TunnelConfig.load_all`.
-- - pia/: Pia.antt has the choice of a server, Pia/UpScript.antt the pipe between OpenVPN's up script
--   and `_read_connection_info`, Pia/Connect.antt what `PIABackend.connect`, `credentials_file` and
--   `OpenVPN.connect` open and close, Pia/Ports.antt the forwarded port and its `_rebind_loop`.
-- - app/commands: Commands.antt has what create-tunnel and start-tunnel make of their options,
--   Commands/Temporary.antt `lookup_or_create_tunnel` and the commands run-process, debug-tunnel and
--   create-tunnel, up to the end of the client's method.
-- - the other files of server/ that hold a context manager of a tunnel: Network.antt has commands, and
--   how a `@asynccontextmanager` is entered and left; Network/Managers.antt has `Namespace.create`,
--   `NetworkInterfaces.add`, `Internet.share`, `KillSwitch.activate`, `VpeerPortForward.setup`,
--   `DNS.setup` and `DNSLeakGuard.activate` as the calls that they make; Network/Filter.antt reads the
--   rules of the kill switch as nftables does.
-- Prelude.antt has what the parts share; Tests.antt applies the theorems to small inputs.
--
-- How the parts meet: the client and the server see a message through `Messages C M`, its class and
-- its shape, and a request's declared types through `Protocol C`; `Messages.messages` and
-- `Messages.protocol` are the daemon's. A context manager that the service enters is a `Resource`;
-- whether it is entered, and what it gives, is a field of `Host`; entering and leaving is recorded
-- in `trace`, in order. A failed `_setup_tunnel` and a destroyed tunnel leave the context managers
-- of their stack, the last entered first, as an `AsyncExitStack` does.
--
-- Bounds and fuel: the fuel of `iterate` is one round for each frame and one for the end of the
-- stream; the theorems ask for that much, and then the iteration returns. The reading of the DNS
-- servers from OpenVPN's pipe is given one round more than the stream has characters, which is
-- enough for every stream, and `close_parent_fds` one round for each descriptor. `run_loop` follows a
-- list of what happens in each round, and is still running where the list ends before the process.
-- The other loops are structural.
--
-- Not modelled: JSON (pydantic's; the server's codec is a parameter), the event loop, the text of
-- log lines and errors, times, and the failing of a context manager when it is left. The
-- handlers that wait for something that the client or a task decides are split there. In `Step`, a
-- setup runs as a whole, so that no two overlap: what is said of the states that `Reaches` leads to
-- is said of such runs, and Service/Setup/Overlap.antt shows what an overlap does. A round of the loop
-- and the `aclose` of the stack of a destroyed tunnel are one step each as well. `handle_destroy_tunnel`
-- is told which processes end while it waits for them, and has no answer when one of them does not.
-- The output of commands is a parameter, and so is what the processes of a tunnel do, which calls of
-- the operating system succeed, what the VPN's provider answers, and the choice at random of a
-- region. The dummy backend, the configuration of the daemon and of its backends, the signals that
-- the commands forward, and the commands that only print what the client answers are not modelled.
pub mod Prelude
pub mod Ipc
pub mod Messages
pub mod Service
pub mod Linux
pub mod Client
pub mod Pia
pub mod Commands
pub mod Network
mod Tests
