-- ===== src/Server/Runs/Requests.antt =====
-- Every request of the robot server is a step of a run (zmq_server.py).
use zero_franky.Base.{String, false, [], ◌∷◌, ◌==◌, Bool-cases, inl, inr}
use zero_franky.Base.Dict.{Dict, lookup}
use zero_franky.Python.Values.{
  Value, null, bool, int, float, str, bytes, list, dict, object, method,
}
use zero_franky.Python.Attributes.{FloatOps, truthy}
use zero_franky.Session.Hardware.{Hardware}
use zero_franky.Session.Merge.{Numpy}
use zero_franky.Manager.State.{ManagerState}
use zero_franky.Manager.Trackers.{joint_tracker, cartesian_tracker}
use zero_franky.Manager.Runs.{IsConsistent, Reachable-IsConsistent, Reachable}
use zero_franky.Server.Handlers.{
  Handler, a_robot, a_session, start_handler, handle_robot_create, handle_robot_recover_from_errors,
  handle_robot_move, handle_robot_join_motion, handle_robot_poll_motion, handle_robot_stop,
  handle_robot_get_last_teleop_state, handle_robot_start_joint_tracker,
  handle_robot_start_cartesian_tracker, handle_robot_start_torque_tracker, handle_tracker_status,
  handle_tracker_stop, handle_tracker_set_joint_reference, handle_tracker_set_cartesian_reference,
  handle_tracker_set_joint_gains, handle_tracker_set_cartesian_gains,
  handle_tracker_set_joint_cartesian_gains, handle_tracker_set_posture_stiffness,
  handle_tracker_set_nullspace_gains, handle_tracker_set_torque, handle_tracker_get_torque,
}
use zero_franky.Rpc.Params.{option}
use zero_franky.Builders.Gains.{franky_nullspace_gains}
use zero_franky.Builders.Build.{build_franky_motion}
use zero_franky.Server.Dispatch.{rpc_handlers, handled, dispatch}
use zero_franky.Server.Runs.Follows.{Kept, unchanged, kept_result, kept_key, kept_required}
use zero_franky.Server.Runs.Kept.{
  kept_status, kept_create, kept_move, kept_torque, kept_recover_from_errors, kept_join_motion,
  kept_poll_motion, kept_stop, kept_get_last_teleop_state, kept_set_joint_tracker_reference,
  kept_set_joint_tracker_gains, kept_set_tracker_posture_stiffness,
  kept_set_cartesian_tracker_nullspace_gains, kept_set_session_torque, kept_get_session_torque,
  kept_set_cartesian_tracker_gains, kept_set_joint_tracker_cartesian_gains, kept_start,
  kept_stop_by_key, kept_cartesian,
}

module _ ⦃ops : FloatOps⦄ (N : Numpy) (H : Hardware) where
  handle_robot_create-Kept : (p : Value) → Kept H (handle_robot_create N H p)
  unfolding handle_robot_create
  handle_robot_create-Kept p =
      kept_required H p _ _ (λ v d. kept_result H _ _ (λ id. kept_create N H id _))

  handle_robot_recover_from_errors-Kept :
      (p : Value) → Kept H (handle_robot_recover_from_errors N H p)
  unfolding handle_robot_recover_from_errors
  handle_robot_recover_from_errors-Kept p =
      kept_required H p _ _ (λ v d. kept_result H _ _ (λ id. kept_recover_from_errors N H id))

  handle_robot_move-Kept : (p : Value) → Kept H (handle_robot_move N H p)
  unfolding handle_robot_move
  handle_robot_move-Kept p = kept_required H p _ _ (λ v d. kept_key H d "motion" _ (λ a.
      kept_result H (build_franky_motion H.franky a) _ (λ built.
        kept_result H (a_robot v) _
          (λ id. kept_move N H id a (truthy (option d "asynchronous" (bool false)))))))

  handle_robot_join_motion-Kept : (p : Value) → Kept H (handle_robot_join_motion N H p)
  unfolding handle_robot_join_motion
  handle_robot_join_motion-Kept p =
      kept_required H p _ _ (λ v d. kept_result H _ _ (λ id. kept_join_motion N H id _))

  handle_robot_poll_motion-Kept : (p : Value) → Kept H (handle_robot_poll_motion N H p)
  unfolding handle_robot_poll_motion
  handle_robot_poll_motion-Kept p =
      kept_required H p _ _ (λ v d. kept_result H _ _ (λ id. kept_poll_motion N H id))

  handle_robot_stop-Kept : (p : Value) → Kept H (handle_robot_stop N H p)
  unfolding handle_robot_stop
  handle_robot_stop-Kept p =
      kept_required H p _ _ (λ v d. kept_result H _ _ (λ id. kept_stop N H id))

  handle_robot_get_last_teleop_state-Kept :
      (p : Value) → Kept H (handle_robot_get_last_teleop_state N H p)
  unfolding handle_robot_get_last_teleop_state
  handle_robot_get_last_teleop_state-Kept p =
      kept_required H p _ _ (λ v d. kept_result H _ _ (λ id. kept_get_last_teleop_state N H id))

  handle_robot_start_joint_tracker-Kept :
      (p : Value) → Kept H (handle_robot_start_joint_tracker N H p)
  unfolding handle_robot_start_joint_tracker start_handler
  handle_robot_start_joint_tracker-Kept p = kept_start N H joint_tracker p

  handle_robot_start_cartesian_tracker-Kept :
      (p : Value) → Kept H (handle_robot_start_cartesian_tracker N H p)
  unfolding handle_robot_start_cartesian_tracker start_handler
  handle_robot_start_cartesian_tracker-Kept p = kept_start N H cartesian_tracker p

  handle_robot_start_torque_tracker-Kept :
      (p : Value) → Kept H (handle_robot_start_torque_tracker N H p)
  unfolding handle_robot_start_torque_tracker
  handle_robot_start_torque_tracker-Kept p =
      kept_required H p _ _ (λ v d. kept_result H _ _ (λ id. kept_torque N H id _))

  handle_tracker_status-Kept : (p : Value) → Kept H (handle_tracker_status N H p)
  unfolding handle_tracker_status
  handle_tracker_status-Kept p =
      kept_required H p _ _ (λ v d. kept_result H _ _ (λ id. kept_status N H id))

  handle_tracker_stop-Kept : (p : Value) → Kept H (handle_tracker_stop N H p)
  unfolding handle_tracker_stop
  handle_tracker_stop-Kept p = kept_required H p _ _ (λ v d. kept_stop_by_key N H v _ _)

  handle_tracker_set_joint_reference-Kept :
      (p : Value) → Kept H (handle_tracker_set_joint_reference N H p)
  unfolding handle_tracker_set_joint_reference
  handle_tracker_set_joint_reference-Kept p = kept_required H p _ _ (λ v d.
      kept_key H d "position" _ (λ a. kept_result H (a_session v) _ (λ id.
        kept_set_joint_tracker_reference N H id a (option d "velocity" null)
          (option d "torque_feedforward" null))))

  handle_tracker_set_cartesian_reference-Kept :
      (p : Value) → Kept H (handle_tracker_set_cartesian_reference N H p)
  unfolding handle_tracker_set_cartesian_reference
  handle_tracker_set_cartesian_reference-Kept p = kept_required H p _ _ (λ v d.
      kept_key H d "target" _ (λ a.
        kept_cartesian N H v a (option d "target_twist" null)
          (option d "target_acceleration" null)))

  handle_tracker_set_joint_gains-Kept : (p : Value) → Kept H (handle_tracker_set_joint_gains N H p)
  unfolding handle_tracker_set_joint_gains
  handle_tracker_set_joint_gains-Kept p = kept_required H p _ _ (λ v d.
      kept_key H d "stiffness" _ (λ a.
        kept_key H d "damping" _
          (λ b. kept_result H (a_session v) _ (λ id. kept_set_joint_tracker_gains N H id a b))))

  handle_tracker_set_cartesian_gains-Kept :
      (p : Value) → Kept H (handle_tracker_set_cartesian_gains N H p)
  unfolding handle_tracker_set_cartesian_gains
  handle_tracker_set_cartesian_gains-Kept p = kept_required H p _ _ (λ v d.
      kept_key H d "gains" _
        (λ a. kept_result H (a_session v) _ (λ id. kept_set_cartesian_tracker_gains N H id a)))

  handle_tracker_set_joint_cartesian_gains-Kept :
      (p : Value) → Kept H (handle_tracker_set_joint_cartesian_gains N H p)
  unfolding handle_tracker_set_joint_cartesian_gains
  handle_tracker_set_joint_cartesian_gains-Kept p = kept_required H p _ _ (λ v d.
      kept_key H d "gains" _ (λ a.
        kept_result H (a_session v) _ (λ id. kept_set_joint_tracker_cartesian_gains N H id a)))

  handle_tracker_set_posture_stiffness-Kept :
      (p : Value) → Kept H (handle_tracker_set_posture_stiffness N H p)
  unfolding handle_tracker_set_posture_stiffness
  handle_tracker_set_posture_stiffness-Kept p = kept_required H p _ _ (λ v d.
      kept_key H d "posture_stiffness" _
        (λ a. kept_result H (a_session v) _ (λ id. kept_set_tracker_posture_stiffness N H id a)))

  handle_tracker_set_nullspace_gains-Kept :
      (p : Value) → Kept H (handle_tracker_set_nullspace_gains N H p)
  unfolding handle_tracker_set_nullspace_gains
  handle_tracker_set_nullspace_gains-Kept p = kept_required H p _ _ (λ v d.
      kept_key H d "gains" _ (λ a. kept_result H (franky_nullspace_gains H.franky a) _ (λ built.
        kept_result H (a_session v) _ (λ id. kept_set_cartesian_tracker_nullspace_gains N H id a))))

  handle_tracker_set_torque-Kept : (p : Value) → Kept H (handle_tracker_set_torque N H p)
  unfolding handle_tracker_set_torque
  handle_tracker_set_torque-Kept p = kept_required H p _ _ (λ v d.
      kept_key H d "torque" _
        (λ a. kept_result H (a_session v) _ (λ id. kept_set_session_torque N H id a)))

  handle_tracker_get_torque-Kept : (p : Value) → Kept H (handle_tracker_get_torque N H p)
  unfolding handle_tracker_get_torque
  handle_tracker_get_torque-Kept p =
      kept_required H p _ _ (λ v d. kept_result H _ _ (λ id. kept_get_session_torque N H id))

  abbrev AllKept : Dict (Handler N H) → Type 0
  AllKept [] = Unit
  AllKept ((name, h) ∷ hs) = ((p : Value) → Kept H (h p)) × AllKept hs

  all_kept : AllKept (rpc_handlers N H)
  unfolding rpc_handlers
  all_kept = (
    handle_robot_create-Kept,
    (
      handle_robot_recover_from_errors-Kept,
      (
        handle_robot_move-Kept,
        (
          handle_robot_join_motion-Kept,
          (
            handle_robot_poll_motion-Kept,
            (
              handle_robot_stop-Kept,
              (
                handle_robot_get_last_teleop_state-Kept,
                (
                  handle_robot_start_joint_tracker-Kept,
                  (
                    handle_robot_start_cartesian_tracker-Kept,
                    (
                      handle_robot_start_torque_tracker-Kept,
                      (
                        handle_tracker_status-Kept,
                        (
                          handle_tracker_stop-Kept,
                          (
                            handle_tracker_set_joint_reference-Kept,
                            (
                              handle_tracker_set_cartesian_reference-Kept,
                              (
                                handle_tracker_set_joint_gains-Kept,
                                (
                                  handle_tracker_set_cartesian_gains-Kept,
                                  (
                                    handle_tracker_set_joint_cartesian_gains-Kept,
                                    (
                                      handle_tracker_set_posture_stiffness-Kept,
                                      (
                                        handle_tracker_set_nullspace_gains-Kept,
                                        (
                                          handle_tracker_set_torque-Kept,
                                          (handle_tracker_get_torque-Kept, tt),
                                        ),
                                      ),
                                    ),
                                  ),
                                ),
                              ),
                            ),
                          ),
                        ),
                      ),
                    ),
                  ),
                ),
              ),
            ),
          ),
        ),
      ),
    ),
  )

  kept_handled :
      (hs : Dict (Handler N H)) (key name : String) (p : Value)
      → AllKept hs
      → Kept H (handled N H (lookup key hs) name p)
  unfolding handled lookup
  kept_handled [] key name p all = unchanged H _
  kept_handled ((j, h) ∷ hs) key name p (first, rest) = elim (Bool-cases (j == key)) [
    | inl found ↦ rw found (first p)
    | inr other ↦ rw other (kept_handled hs key name p rest)
  ]

  kept_dispatch : (name params : Value) → Kept H (dispatch N H name params)
  unfolding dispatch
  kept_dispatch (str s) params = kept_handled (rpc_handlers N H) s s params all_kept
  kept_dispatch null params = unchanged H _
  kept_dispatch (bool b) params = unchanged H _
  kept_dispatch (int n) params = unchanged H _
  kept_dispatch (float x) params = unchanged H _
  kept_dispatch (bytes b) params = unchanged H _
  kept_dispatch (list xs) params = unchanged H _
  kept_dispatch (dict d) params = unchanged H _
  kept_dispatch (object c attrs) params = unchanged H _
  kept_dispatch (method v) params = unchanged H _

  dispatch-Follows :
      (name params : Value) (x : ManagerState H)
      → Reachable H x
      → Reachable H (dispatch N H name params x).1
  dispatch-Follows name params x run = (kept_dispatch name params).keeps x run

  -- Every request that the server dispatches, whatever its method and its parameters and whatever it
  -- raises, leads from a state that runs of the manager's operations reach to another such state, in which
  -- the sessions stand under their ids and the history is within its bound.
  pub dispatch-IsConsistent :
      (name params : Value) (x : ManagerState H)
      → Reachable H x
      → Reachable H (dispatch N H name params x).1 × IsConsistent (dispatch N H name params x).1.0
  dispatch-IsConsistent name params x run =
      let after = dispatch-Follows name params x run in
      (after, Reachable-IsConsistent H (dispatch N H name params x).1 after)
