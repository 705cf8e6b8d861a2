-- ===== src/Lib.antt =====
-- zero_franky drives a Franka robot from a client that has no real-time kernel: the client describes a
-- motion with the classes of zero_franky/types.py, encodes it with zero_franky/protocol.py and sends it
-- to a server on the robot's host, which builds franky's motion from the payload
-- (zero_franky/zmq_server_franky.py) and runs it. The server's RobotManager (zero_franky/zmq_server.py)
-- also keeps the tracker sessions (zero_franky/tracker_session.py), which drive a robot continuously,
-- either by a policy on a thread or by references from the client.
--
-- The parts and their files:
--   Base           the names shared by all: tests on numbers, lists, dicts in insertion order, integers
--   Python         the language: values and their attributes, exceptions as results, and methods that
--                  change a state and may raise (Python/Exec)
--   Protocol       zero_franky/protocol.py: the encoders (encode_motion, encode_rpc_value and the
--                  rest), the fields of a state (Protocol/StateFields) and its fast profile (Protocol/State)
--   Types          zero_franky/types.py: `new_x` is the constructor of the class X; `vector` is _vector
--   Builders       zero_franky/zmq_server_franky.py: `franky_x` is _franky_x; build_franky_motion
--   Wire           the motions as typed data, their payloads, and the round trip
--   Session        zero_franky/tracker_session.py: the session's state, its stop and status, the
--                  references and gains of a running session, a policy's loop (Session/Run), and
--                  its handle (Session/Handle, `handle_x` is the handle's x)
--   Manager        zero_franky/zmq_server.py: RobotManager's state and operations, and runs of them
--   Rpc            a request and its response: serve_once of both servers, ZmqRpcClient.call and
--                  robotiq.py's call, the parameters of a handler, and a call on a server
--   Server         zero_franky/zmq_server.py: the handlers (`handle_x`), dispatch, serve_forever, and the
--                  references that a client pushes; each request against the manager's operation
--                  (Server/Meaning) and against its runs (Server/Runs)
--   Client         zero_franky/zmq_client.py: RobotProxy (Client/Robot), the tracker proxies
--                  (Client/Trackers, Client/Gains) and their tick (Client/Tick)
--   Gripper        zero_franky/robotiq.py: GripperManager, its server's handlers (`handle_x` is _h_x), the
--                  client RobotiqGripperProxy (Gripper/Proxy; `open_gripper` is open), and its units
--   Tests          the theorems at concrete inputs, and runs of the definitions
--
-- Each definition has the name of its function in the source, without a leading underscore. A value is
-- one of Python's (None, bool, int, float, str, bytes, list, dict) or an object, by its class name and
-- its attributes. Lists and tuples are one, as they are on the wire. Of an exception, the model keeps
-- the class and a message; the formatted part of a message is left out.
--
-- Outside of the model, and parameters of it: the arithmetic of doubles and their conversions (FloatOps) and
-- rounding (RoundOps), the franky package (Franky), the robots, the policy threads, the unpickling of
-- policies and the drawing of ids (Hardware, with a world of its own), numpy's matrices (Numpy), msgpack
-- (Codec), the client's socket (Link), a policy's functions and its clock (PolicyRun), the client's clock
-- and the state stream (Surroundings), and the gripper's device and publisher (Device). The theorems assume
-- of these only what they name: of msgpack, that it carries the request and the response of the call (Survives in
-- Rpc/Codec, Carries in Gripper/Messages); of a socket, that it takes its options.
--
-- The manager's operations run one after the other, as the server's request loop runs them; between two of
-- them the robots, a policy thread or a callback may change what is theirs (Step in Manager/Runs). Inside
-- an operation nothing else runs, but that a stop waits for the policy thread, which may still tick, fail
-- and enqueue its own stop (LastTicks in Session/Hardware). The gripper's commands hold its lock, so that
-- its polling thread's ticks come between them (Step in Gripper/Runs). The loop of a synchronous move takes the number of its polls
-- as fuel (wait_until in Client/Robot), and each number above that of the polls that the motion needs
-- gives the same result. A policy's loop takes a number of turns (loop in Session/Run), and what is said of
-- it holds for each number. serve_forever is over the list of what arrives until the loop is told to stop.
-- Every other definition is a structural recursion.
--
-- Parameters of a request that the source hands to a typed interface are converted as that interface does:
-- a flag by its truth, an id by text_key (Server/Handlers), which refuses what is no text as a dict does.
--
-- Not modelled: the context of a policy and the times its handle reads (what a policy does is part of
-- PolicyRun in Session/Run), the arithmetic of Affine and Duration, the state's fields that a callback reads
-- by name (_encode_state_value), the threads that publish and receive them (the client's state stream, the
-- gripper's cache). The sockets (zero_franky/pubsub.py) and the command lines are only calls of libraries.
pub mod Base
pub mod Python
pub mod Protocol
pub mod Types
pub mod Builders
pub mod Wire
pub mod Session
pub mod Manager
pub mod Rpc
pub mod Server
pub mod Client
pub mod Gripper
mod Tests
