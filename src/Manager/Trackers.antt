-- ===== src/Manager/Trackers.antt =====
-- Starting robots and trackers, and moving a robot (zmq_server.py).
use zero_franky.Base.{String, Bool, true, false, Option, none, some, [], if◌then◌else◌}
use zero_franky.Base.Dict.{lookup, insert}
use zero_franky.Python.Errors.{runtime_error, error, Result, ok, raise}
use zero_franky.Python.Values.{Value, null, bool, float}
use zero_franky.Python.Attributes.{FloatOps}
use zero_franky.Python.Exec.{Exec, pure, fail, lift, ◌>>=◌, ◌>>◌, catch}
use zero_franky.Builders.Build.{build_franky_motion}
use zero_franky.Builders.Options.{franky_motion_kwargs}
use zero_franky.Builders.Gains.{franky_joint_reference, franky_cartesian_reference}
use zero_franky.Session.Hardware.{Hardware}
use zero_franky.Session.State.{new_session, start, in_text, is_control_exception}
use zero_franky.Manager.State.{ManagerState, on_world, robot}

-- The default period of a session, 0.001.
abbrev pub default_period : Value
default_period = float (record { bits = 0x3f50624dd2f1a9fc })

-- The three trackers, with the session's kind and the class of franky's motion
pub data Tracker : Type 0 where
  joint_tracker cartesian_tracker torque_tracker : Tracker

unfoldable pub kind_of : Tracker → String
kind_of joint_tracker = "joint"
kind_of cartesian_tracker = "cartesian"
kind_of torque_tracker = "torque"

unfoldable pub motion_class : Tracker → String
motion_class joint_tracker = "JointImpedanceTrackingMotion"
motion_class cartesian_tracker = "CartesianImpedanceTrackingMotion"
motion_class torque_tracker = "SimpleTorqueMotion"

module _ (H : Hardware) where
  open H use {World}

  -- `create_robot`: a new id is drawn, then the robot is connected; it is entered if that succeeds.
  unfoldable pub create_robot : String → Value → Exec (ManagerState H) String
  create_robot fci_hostname kwargs (m, w) =
      let (id, w') = H.fresh_id w in
      (on_world H (H.connect id (Value.str fci_hostname) kwargs) >>= λ r.
      λ (m', w''). (ok id, (record m' { robots = insert id tt m'.robots }, w'')))
        (m, w')

  -- The reference that a tracker begins with: where the robot is. A torque motion has none to set.
  unfoldable pub set_initial_reference : Tracker → String → Value → Exec (ManagerState H) Value
  unfolding franky_joint_reference franky_cartesian_reference
  set_initial_reference joint_tracker robot_id motion = do
    positions ← on_world H (H.current_joint_positions robot_id)
    velocities ← on_world H (H.current_joint_velocities robot_id)
    reference ← lift (franky_joint_reference H.franky positions velocities null)
    on_world H (H.set_reference motion reference)
  set_initial_reference cartesian_tracker robot_id motion = do
    pose ← on_world H (H.current_end_effector_pose robot_id)
    reference ← lift (franky_cartesian_reference H.franky pose null null)
    on_world H (H.set_reference motion reference)
  set_initial_reference torque_tracker robot_id motion = pure null

  -- The first part of each tracker's start, up to the motion that the robot runs
  unfoldable pub begin_tracker : Tracker → String → Value → Exec (ManagerState H) Value
  unfolding robot set_initial_reference motion_class
  begin_tracker tracker robot_id motion_kwargs = do
    r ← robot H robot_id
    options ← lift (franky_motion_kwargs H.franky motion_kwargs)
    motion ← lift (H.franky.construct (motion_class tracker) [] options)
    set_initial_reference tracker r motion
    on_world H (H.register_callback r motion)
    on_world H (H.move r motion true)
    pure motion

  -- `load_policy(policy_payload) if policy_payload is not None else None`
  unfoldable pub policy_of : Option Value → Result (Option Value)
  policy_of none = ok none
  policy_of (some payload) = loaded (H.load_policy payload)
    where
      loaded : Result Value → Result (Option Value)
      loaded (ok policy) = ok (some policy)
      loaded (raise e) = raise e

  -- The session is made, entered and started.
  unfoldable pub enter_session :
      String → String → Value → Value → Bool → Option Value → Exec (ManagerState H) String
  unfolding new_session start
  enter_session kind robot_id motion period stop_on_policy_error policy (m, w) =
      let (id, w') = H.fresh_id w in
      let s = new_session id kind robot_id policy motion period stop_on_policy_error in
      let (r, (s', w'')) = start H (s, w') in
      (r, (record m { tracker_sessions = insert id s' m.tracker_sessions }, w''))

  -- `start_joint_tracker` and `start_cartesian_tracker`, which differ in the tracker
  unfoldable pub start_tracker :
      Tracker → String → Option Value → Value → Value → Bool → Exec (ManagerState H) String
  unfolding begin_tracker policy_of enter_session kind_of
  start_tracker tracker robot_id policy_payload motion_kwargs period stop_on_policy_error = do
    motion ← begin_tracker tracker robot_id motion_kwargs
    policy ← lift (policy_of policy_payload)
    enter_session (kind_of tracker) robot_id motion period stop_on_policy_error policy

  abbrev pub start_joint_tracker :
      String → Option Value → Value → Value → Bool → Exec (ManagerState H) String
  start_joint_tracker = start_tracker joint_tracker

  abbrev pub start_cartesian_tracker :
      String → Option Value → Value → Value → Bool → Exec (ManagerState H) String
  start_cartesian_tracker = start_tracker cartesian_tracker

  unfoldable pub start_torque_tracker : String → Value → Exec (ManagerState H) String
  unfolding begin_tracker enter_session kind_of
  start_torque_tracker robot_id motion_kwargs = do
    motion ← begin_tracker torque_tracker robot_id motion_kwargs
    enter_session (kind_of torque_tracker) robot_id motion default_period true none

  -- `move`: the motion is built before the robot is looked up.
  unfoldable pub move : ⦃ops : FloatOps⦄ → String → Value → Bool → Exec (ManagerState H) Value
  unfolding robot
  move robot_id motion_payload asynchronous = do
    motion ← lift (build_franky_motion H.franky motion_payload)
    r ← robot H robot_id
    on_world H (H.register_callback r motion)
    on_world H (H.move r motion asynchronous)

  -- `join_motion`: a preempted motion has not finished.
  unfoldable pub join_motion : String → Value → Exec (ManagerState H) Value
  unfolding robot is_control_exception in_text
  join_motion robot_id timeout = do
    r ← robot H robot_id
    catch (on_world H (H.join_motion r timeout)) (λ e.
        if is_control_exception e.cls
        then (if in_text "preempted" (H.lower e.message) then pure (bool false) else fail e)
        else fail e)

  unfoldable pub recover_from_errors : String → Exec (ManagerState H) Value
  unfolding robot
  recover_from_errors robot_id = do r ← robot H robot_id; on_world H (H.recover_from_errors r)

  unfoldable pub poll_motion : String → Exec (ManagerState H) Value
  unfolding robot
  poll_motion robot_id = do r ← robot H robot_id; on_world H (H.poll_motion r)

  -- `stop`: the robot's abrupt stop, which the session registry does not hear of
  unfoldable pub stop : String → Exec (ManagerState H) Value
  unfolding robot
  stop robot_id = do r ← robot H robot_id; on_world H (H.stop r)

  -- `get_last_teleop_state`
  unfoldable pub get_last_teleop_state : String → Exec (ManagerState H) Value
  get_last_teleop_state robot_id (m, w) = elim (lookup robot_id m.latest_state) [
    | some state ↦ (ok state, (m, w))
    | none ↦ (error runtime_error "No motion callback data has been received yet", (m, w))
  ]
