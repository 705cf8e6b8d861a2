-- ===== src/Client/Robot.antt =====
-- The client's handle on a robot (RobotProxy in zmq_client.py).
use zero_franky.Base.{
  ℕ, zero, suc, String, Bool, true, false, Option, none, some, [], ◌∷◌, ◌==◌, if◌then◌else◌,
}
use zero_franky.Python.Errors.{Result, ok, raise, error, value_error}
use zero_franky.Python.Values.{Value, bool, float, str, dict, dict_of, Fields, field, end}
use zero_franky.Python.Attributes.{FloatOps, truthy}
use zero_franky.Python.Exec.{Exec, pure, lift, ◌>>=◌}
use zero_franky.Protocol.RpcValue.{encode_rpc_value}
use zero_franky.Protocol.Motions.{encode_motion}
use zero_franky.Session.State.{in_text}
use zero_franky.Rpc.Client.{Link, Socket, call}

-- 0.1 s, the timeout of each poll of a synchronous move
abbrev pub poll_timeout : Value
poll_timeout = float (record { bits = 0x3fb999999999999a })

-- A session's period if none is named, 0.001 s
abbrev pub default_period : Value
default_period = float (record { bits = 0x3f50624dd2f1a9fc })

module _ {S : Type 0} where
  abbrev until : Bool → Exec S Bool → Exec S Bool
  until true again = pure true
  until false again = again

  -- `while not joined(): pass`, for a number of polls: whether one of them answered true
  unfoldable pub wait_until : ℕ → Exec S Bool → Exec S Bool
  wait_until zero joined = pure false
  wait_until (suc n) joined = let rest = wait_until n joined in joined >>= λ b. until b rest

module _ {S : Type 0} (L : Link S) where
  abbrev pub ClientState : Type 0
  ClientState = Socket × S

  abbrev pub rpc : String → Value → Exec ClientState Value
  rpc name params = call L name params none

  -- The call of `RobotProxy.__init__`, which returns the robot's id
  unfoldable pub create : String → Fields → Exec ClientState Value
  create fci_hostname kwargs =
      rpc "robot.create"
        (dict_of (("fci_hostname", str fci_hostname) ∷ ("kwargs", dict kwargs) ∷ []))

  abbrev pub about : Value → Value
  about id = dict_of (("robot_id", id) ∷ [])

  unfoldable pub recover_from_errors : Value → Exec ClientState Value
  recover_from_errors id = rpc "robot.recover_from_errors" (about id)

  unfoldable pub stop : Value → Exec ClientState Value
  stop id = rpc "robot.stop" (about id)

  unfoldable pub get_last_teleop_state : Value → Exec ClientState Value
  get_last_teleop_state id = rpc "robot.get_last_teleop_state" (about id)

  -- `bool(…)` of what the server answers
  unfoldable pub poll_motion : Value → Exec ClientState Bool
  unfolding truthy
  poll_motion id = rpc "robot.poll_motion" (about id) >>= λ v. pure (truthy v)

  unfoldable pub join_motion : Value → Value → Exec ClientState Bool
  unfolding truthy
  join_motion id timeout =
      rpc "robot.join_motion" (dict_of (("robot_id", id) ∷ ("timeout", timeout) ∷ [])) >>= λ v.
      pure (truthy v)

  -- The request of a move, which is always asynchronous on the server
  unfoldable pub send_move : Value → Value → Exec ClientState Value
  send_move id payload =
      rpc "robot.move"
        (dict_of (("robot_id", id) ∷ ("motion", payload) ∷ ("asynchronous", bool true) ∷ []))

  -- What a synchronous move does after its request: it polls until the motion has finished.
  unfoldable pub joined : ℕ → Value → Value → Exec ClientState (Option Value)
  unfolding wait_until join_motion
  joined polls id result =
      wait_until polls (join_motion id poll_timeout) >>= λ b. pure (if b then some result else none)

  unfoldable pub finished : ℕ → Value → Bool → Value → Exec ClientState (Option Value)
  unfolding joined
  finished polls id true result = pure (some result)
  finished polls id false result = joined polls id result

  -- `move`, with a bound on the polls: `none` is a motion that did not finish within it.
  unfoldable pub move :
      ⦃ops : FloatOps⦄ → ℕ → Value → Value → Bool → Exec ClientState (Option Value)
  unfolding send_move finished
  move polls id motion asynchronous = do
    payload ← lift (encode_motion motion)
    result ← send_move id payload
    finished polls id asynchronous result

-- What `encode_policy` asks of a policy: the name of its module and its own qualified name, where it has
-- them, and its bytes by cloudpickle
pub record Policy : Type 0 where
  pub module_name : Option String
  pub qualname : Option String
  pub pickled : Result Value

unfoldable pub imported : Option String → Option String → Result Value
unfolding in_text
imported (some m) (some q) =
    if in_text "<locals>" q
    then error value_error "Import policy transport requires an importable module-level function"
    else ok (dict_of (("transport", str "import") ∷ ("module", str m) ∷ ("qualname", str q) ∷ []))
imported _ _ =
    error value_error "Import policy transport requires an importable module-level function"

unfoldable pub pickled_payload : Result Value → Result Value
pickled_payload (ok b) = ok (dict_of (("transport", str "cloudpickle") ∷ ("payload", b) ∷ []))
pickled_payload (raise e) = raise e

unfoldable pub encode_policy : Policy → String → Result Value
unfolding imported pickled_payload
encode_policy policy transport =
    if transport == "import"
    then imported policy.module_name policy.qualname
    else if transport == "cloudpickle"
    then pickled_payload policy.pickled
    else error value_error "Unsupported policy transport: "

-- The entry of a policy in the parameters of a start: none if there is no policy
unfoldable pub policy_entry : Option Policy → String → Result Fields
unfolding encode_policy
policy_entry none transport = ok end
policy_entry (some policy) transport = entry (encode_policy policy transport)
  where
    entry : Result Value → Result Fields
    entry (ok v) = ok (field "policy" v end)
    entry (raise e) = raise e

module _ {S : Type 0} ⦃ops : FloatOps⦄ (L : Link S) where
  -- `_start_tracker`: it returns the session's id.
  unfoldable pub start_tracker :
      String → Value → Option Policy → String → Value → Bool → Fields → Exec (Socket × S) Value
  unfolding policy_entry encode_rpc_value
  start_tracker name id policy transport period stop_on_policy_error motion_kwargs = do
    kwargs ← lift (encode_rpc_value (dict motion_kwargs))
    policy' ← lift (policy_entry policy transport)
    rpc L name (
        dict (
          field "robot_id" id (
            field "motion_kwargs" kwargs (
              field "period" period
                (field "stop_on_policy_error" (bool stop_on_policy_error) policy')))))

  unfoldable pub start_joint_impedance_tracker :
      Value → Option Policy → String → Value → Bool → Fields → Exec (Socket × S) Value
  unfolding start_tracker
  start_joint_impedance_tracker = start_tracker "robot.start_joint_tracker"

  unfoldable pub start_cartesian_impedance_tracker :
      Value → Option Policy → String → Value → Bool → Fields → Exec (Socket × S) Value
  unfolding start_tracker
  start_cartesian_impedance_tracker = start_tracker "robot.start_cartesian_tracker"

  unfoldable pub start_torque_tracker : Value → Fields → Exec (Socket × S) Value
  unfolding encode_rpc_value
  start_torque_tracker id motion_kwargs = do
    kwargs ← lift (encode_rpc_value (dict motion_kwargs))
    rpc L "robot.start_torque_tracker" (dict_of (("robot_id", id) ∷ ("motion_kwargs", kwargs) ∷ []))
