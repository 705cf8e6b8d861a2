-- ===== src/Wire/Losses.antt =====
-- What a motion loses between the client and the server.
use zero_franky.Base.{◌≡◌, refl, sym, ap, ◌∙◌, Bool, [], ◌∷◌, List, map, arith}
use zero_franky.Python.Errors.{◌>>=◌}
use zero_franky.Python.Values.{Value, dict, Fields, field}
use zero_franky.Python.Attributes.{FloatOps}
use zero_franky.Protocol.Motions.{encode_motion}
use zero_franky.Builders.Franky.{Franky}
use zero_franky.Builders.Impedance.{build_joint_impedance_motion, cartesian_impedance_kwargs}
use zero_franky.Builders.Build.{build_franky_motion}
use zero_franky.Wire.Data.{
  Motion, Joints, JointTarget, Reference, Factor, scalar, factor, PositionWaypoint,
  VelocityWaypoint, motion_object, joint, cartesian, cartesian_waypoints, cartesian_stop,
  joint_waypoints, joint_stop, cartesian_velocity, cartesian_velocity_waypoints,
  cartesian_velocity_stop, joint_velocity, joint_velocity_waypoints, joint_velocity_stop, Pose,
}
use zero_franky.Wire.Payload.{motion_payload, joint_payload}
use zero_franky.Wire.EncodeMotion.{encode_motion-motion_object}
use zero_franky.Types.Module.{types_module}
use zero_franky.Wire.BuildMotion.{build_franky_motion-encode_motion}
use zero_franky.Wire.Received.{
  received, received_factor, received_position, received_velocity, at_rest, same,
}

module _ ⦃ops : FloatOps⦄ where
  received_factor_idem : (f : Factor) → received_factor (received_factor f) ≡ received_factor f
  unfolding received_factor
  received_factor_idem (scalar x) = ground arith
  received_factor_idem (factor v a j) = ground arith

  received_poses_idem :
      (ws : List (PositionWaypoint Pose))
      → map
          (received_position received_factor same)
          (map (received_position received_factor same) ws)
        ≡ map (received_position received_factor same) ws
  unfolding received_position
  received_poses_idem [] = refl
  received_poses_idem (w ∷ ws) = rw (received_factor_idem w.dynamics, received_poses_idem ws) refl

  received_joints_idem :
      (ws : List (PositionWaypoint JointTarget))
      → map
          (received_position received_factor at_rest)
          (map (received_position received_factor at_rest) ws)
        ≡ map (received_position received_factor at_rest) ws
  unfolding received_position at_rest
  received_joints_idem [] = refl
  received_joints_idem (w ∷ ws) = rw (received_factor_idem w.dynamics, received_joints_idem ws) refl

  received_velocities_idem :
      {T : Type 0} (ws : List (VelocityWaypoint T))
      → map (received_velocity received_factor) (map (received_velocity received_factor) ws)
        ≡ map (received_velocity received_factor) ws
  unfolding received_velocity
  received_velocities_idem [] = refl
  received_velocities_idem (w ∷ ws) =
      rw (received_factor_idem w.dynamics, received_velocities_idem ws) refl

  ruleset idem_laws =
      (received_factor_idem, received_poses_idem, received_joints_idem, received_velocities_idem)

  -- What the wire drops of a motion, it drops at once: a motion as received is received as it is.
  received_idem : (m : Motion) → received (received m) ≡ received m
  unfolding received at_rest
  received_idem (cartesian t r f b fr) = simp idem_laws
  received_idem (cartesian_waypoints ws fr f b) = simp idem_laws
  received_idem (cartesian_stop f) = simp idem_laws
  received_idem (joint t r f b) = simp idem_laws
  received_idem (joint_waypoints ws f b) = simp idem_laws
  received_idem (joint_stop f) = simp idem_laws
  received_idem (cartesian_velocity t d f fr) = simp idem_laws
  received_idem (cartesian_velocity_waypoints ws fr f) = simp idem_laws
  received_idem (cartesian_velocity_stop f) = simp idem_laws
  received_idem (joint_velocity q d f) = simp idem_laws
  received_idem (joint_velocity_waypoints ws f) = simp idem_laws
  received_idem (joint_velocity_stop f) = simp idem_laws

  -- A motion that the server has built is built again the same from its own payload: what the wire drops
  -- of a motion, it drops at once.
  pub build_franky_motion_again :
      (m : Motion)
      → (motion_object m
          >>= encode_motion
          >>= build_franky_motion types_module
          >>= encode_motion
          >>= build_franky_motion types_module)
        ≡ (motion_object m >>= encode_motion >>= build_franky_motion types_module)
  build_franky_motion_again m =
      rw (build_franky_motion-encode_motion m)
        (build_franky_motion-encode_motion (received m) ∙ ap motion_object (received_idem m))

  -- Two joint motions that differ in their target's velocity are sent as the same payload.
  pub encode_motion-joint_velocity :
      (t : JointTarget) (v : Joints) (r : Reference) (f : Factor) (b : Bool)
      → (motion_object (joint t r f b) >>= encode_motion)
        ≡ (motion_object (joint (record t { velocity = v }) r f b) >>= encode_motion)
  unfolding motion_payload joint_payload
  encode_motion-joint_velocity t v r f b =
      encode_motion-motion_object (joint t r f b)
      ∙ sym (encode_motion-motion_object (joint (record t { velocity = v }) r f b))

-- The error clip that the client sends, first among the payload's keys, does not change what is built.
pub build_joint_impedance_motion-error_clip :
    (franky : Franky) (clip : Value) (d : Fields)
    → build_joint_impedance_motion franky (dict (field "error_clip" clip d))
      ≡ build_joint_impedance_motion franky (dict d)
unfolding build_joint_impedance_motion
build_joint_impedance_motion-error_clip franky clip d = refl

-- The damping matrix that the client sends, first among the payload's keys, does not change the keyword
-- arguments of a Cartesian impedance motion.
pub cartesian_impedance_kwargs-damping :
    (franky : Franky) (damping : Value) (d : Fields)
    → cartesian_impedance_kwargs franky (dict (field "damping" damping d))
      ≡ cartesian_impedance_kwargs franky (dict d)
unfolding cartesian_impedance_kwargs
cartesian_impedance_kwargs-damping franky damping d = refl
