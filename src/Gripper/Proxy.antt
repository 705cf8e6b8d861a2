-- ===== src/Gripper/Proxy.antt =====
-- The gripper's client (RobotiqGripperProxy in robotiq.py).
use zero_franky.Base.{ℕ, Bool, true, false, String, [], ◌∷◌}
use zero_franky.Base.Int.{pos}
use zero_franky.Python.Values.{Float, Value, null, bool, int, float, dict, dict_of, end}
use zero_franky.Python.Attributes.{FloatOps}
use zero_franky.Python.Errors.{Result, ok}
use zero_franky.Python.Exec.{Exec, pure, lift, ◌>>=◌, ◌>>◌, finally}
use zero_franky.Rpc.Client.{Link, call_gripper}
use zero_franky.Gripper.Units.{RoundOps, clamp_byte, width_m_to_position, position_to_width_m}

-- The timeout of the gripper's client, in ms
abbrev pub default_timeout_ms : ℕ
default_timeout_ms = 5000

abbrev pub byte : ℕ → Value
byte n = int (pos n)

module _ {S : Type 0} (L : Link S) where
  abbrev pub call : String → Value → Exec S Value
  call = call_gripper L default_timeout_ms

  unfoldable pub activate : Bool → Bool → Bool → Exec S Value
  activate reset start refresh_status =
      call "gripper.activate" (
        dict_of (
          ("reset", bool reset)
          ∷ ("start", bool start)
          ∷ ("refresh_status", bool refresh_status)
          ∷ []))
      >> pure null

  unfoldable pub start : Bool → Exec S Value
  start refresh_status =
      call "gripper.start" (dict_of (("refresh_status", bool refresh_status) ∷ [])) >> pure null

  unfoldable pub reset : Exec S Value
  reset = call "gripper.reset" (dict end) >> pure null

  unfoldable pub stop : Exec S Value
  stop = call "gripper.stop" (dict end) >> pure null

  -- The request of `open`, once its bytes are checked
  unfoldable pub send_open : ℕ → ℕ → Bool → Bool → Bool → Exec S Value
  send_open s f wait read_status refresh_status =
      call "gripper.open" (
        dict_of (
          ("speed", byte s)
          ∷ ("force", byte f)
          ∷ ("wait", bool wait)
          ∷ ("read_status", bool read_status)
          ∷ ("refresh_status", bool refresh_status)
          ∷ []))
      >> pure null

  -- The request of `close`, once its bytes are checked
  unfoldable pub send_close : ℕ → ℕ → Bool → Bool → Bool → Exec S Value
  send_close s f wait read_status refresh_status =
      call "gripper.close" (
        dict_of (
          ("speed", byte s)
          ∷ ("force", byte f)
          ∷ ("wait", bool wait)
          ∷ ("read_status", bool read_status)
          ∷ ("refresh_status", bool refresh_status)
          ∷ []))
      >> pure null

  -- The request of `move_position`, once its bytes are checked
  unfoldable pub send_move : ℕ → ℕ → ℕ → Bool → Bool → Bool → Exec S Value
  send_move p s f wait read_status refresh_status =
      call "gripper.move" (
        dict_of (
          ("position", byte p)
          ∷ ("speed", byte s)
          ∷ ("force", byte f)
          ∷ ("wait", bool wait)
          ∷ ("read_status", bool read_status)
          ∷ ("refresh_status", bool refresh_status)
          ∷ []))
      >> pure null

  -- The request of `move_mm`, once its bytes are checked
  unfoldable pub send_move_mm : Float → ℕ → ℕ → Bool → Bool → Bool → Exec S Value
  send_move_mm width_mm s f wait read_status refresh_status =
      call "gripper.move_mm" (
        dict_of (
          ("width_mm", float width_mm)
          ∷ ("speed", byte s)
          ∷ ("force", byte f)
          ∷ ("wait", bool wait)
          ∷ ("read_status", bool read_status)
          ∷ ("refresh_status", bool refresh_status)
          ∷ []))
      >> pure null

  module _ ⦃rounding : RoundOps⦄ where
    unfoldable pub open_gripper : Value → Value → Bool → Bool → Bool → Exec S Value
    unfolding clamp_byte send_open
    open_gripper speed force wait read_status refresh_status = do
      s ← lift (clamp_byte speed "speed")
      f ← lift (clamp_byte force "force")
      send_open s f wait read_status refresh_status

    unfoldable pub close : Value → Value → Bool → Bool → Bool → Exec S Value
    unfolding clamp_byte send_close
    close speed force wait read_status refresh_status = do
      s ← lift (clamp_byte speed "speed")
      f ← lift (clamp_byte force "force")
      send_close s f wait read_status refresh_status

    unfoldable pub move_position : Value → Value → Value → Bool → Bool → Bool → Exec S Value
    unfolding clamp_byte send_move
    move_position position speed force wait read_status refresh_status = do
      p ← lift (clamp_byte position "position")
      s ← lift (clamp_byte speed "speed")
      f ← lift (clamp_byte force "force")
      send_move p s f wait read_status refresh_status

    unfoldable pub move_mm : Float → Value → Value → Bool → Bool → Bool → Exec S Value
    unfolding clamp_byte send_move_mm
    move_mm width_mm speed force wait read_status refresh_status = do
      s ← lift (clamp_byte speed "speed")
      f ← lift (clamp_byte force "force")
      send_move_mm width_mm s f wait read_status refresh_status

    -- `move_width`, which leaves the two flags to their defaults
    unfoldable pub move_width :
        ⦃ops : FloatOps⦄ → Value → Value → Value → Bool → Float → Exec S Value
    unfolding width_m_to_position move_position
    move_width width_m speed force wait max_width_m = do
      p ← lift (width_m_to_position width_m max_width_m)
      move_position (int p) speed force wait true false

  unfoldable pub calibrate_mm : Float → Float → Exec S Value
  calibrate_mm close_mm open_mm =
      call "gripper.calibrate_mm"
        (dict_of (("close_mm", float close_mm) ∷ ("open_mm", float open_mm) ∷ []))
      >> pure null

  abbrev refreshed : String → Bool → Exec S Value
  refreshed name refresh_status = call name (dict_of (("refresh_status", bool refresh_status) ∷ []))

  unfoldable pub position : Bool → Exec S Value
  position refresh_status = refreshed "gripper.position" refresh_status

  unfoldable pub position_mm : Bool → Exec S Value
  position_mm refresh_status = refreshed "gripper.position_mm" refresh_status

  unfoldable pub status : Bool → Exec S Value
  status refresh_status = refreshed "gripper.status" refresh_status

  unfoldable pub object_detection : Bool → Exec S Value
  object_detection refresh_status = refreshed "gripper.object_detection" refresh_status

  -- `position_width`
  unfoldable pub width_or_none :
      ⦃rounding : RoundOps⦄ ⦃ops : FloatOps⦄ → Float → Value → Result Value
  unfolding position_to_width_m
  width_or_none max_width_m null = ok null
  width_or_none max_width_m p = position_to_width_m p max_width_m

  unfoldable pub position_width :
      ⦃rounding : RoundOps⦄ ⦃ops : FloatOps⦄ → Bool → Float → Exec S Value
  unfolding position width_or_none
  position_width refresh_status max_width_m = do
    p ← position refresh_status
    lift (width_or_none max_width_m p)

  -- `disconnect`, with the closing of the socket
  unfoldable pub disconnect : Exec S Unit → Exec S Value
  disconnect close_socket = finally (call "gripper.disconnect" null) close_socket >> pure null
