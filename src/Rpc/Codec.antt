-- ===== src/Rpc/Codec.antt =====
-- What crosses the sockets: msgpack's bytes, and exceptions as texts (protocol.py).
use zero_franky.Base.{String, ◌<>◌, ◌≡◌, ◌==◌, if◌then◌else◌}
use zero_franky.Python.Errors.{
  ExcClass, protocol_error, unsupported_motion_type, rpc_error, tracker_policy_error, key_error,
  value_error, type_error, attribute_error, runtime_error, index_error, not_implemented_error,
  timeout_error, connection_error, overflow_error, control_exception, other, Exc, Result, ok,
}
use zero_franky.Python.Values.{Value}

-- msgpack: `packb` raises on an object that it does not know.
pub record Codec : Type 1 where
  pub Bytes : Type 0
  pub packb : Value → Result Bytes
  pub unpackb : Bytes → Result Value

-- A value that msgpack packs, and unpacks as it was. It refuses integers of more than 64 bits, texts and
-- lists that are too long or nested too deep, and objects.
pub record Survives (C : Codec) (v : Value) : Type 0 where
  pub packed : C.Bytes
  pub packs : C.packb v ≡ ok packed
  pub unpacks : C.unpackb packed ≡ ok v

-- `type(exc).__name__`
unfoldable pub class_name : ExcClass → String
class_name protocol_error = "ProtocolError"
class_name unsupported_motion_type = "UnsupportedMotionType"
class_name rpc_error = "RpcError"
class_name tracker_policy_error = "TrackerPolicyError"
class_name key_error = "KeyError"
class_name value_error = "ValueError"
class_name type_error = "TypeError"
class_name attribute_error = "AttributeError"
class_name runtime_error = "RuntimeError"
class_name index_error = "IndexError"
class_name not_implemented_error = "NotImplementedError"
class_name timeout_error = "TimeoutError"
class_name connection_error = "ConnectionError"
class_name overflow_error = "OverflowError"
class_name control_exception = "ControlException"
class_name (other name) = name

-- `format_exception`: the message is the exception's argument, also for a KeyError.
unfoldable pub format_exception : Exc → String
unfolding class_name
format_exception e =
    if e.message == "" then class_name e.cls else class_name e.cls <> ": " <> e.message
