-- ===== src/Tests/Wire.antt =====
-- The theorems on values and motions at concrete ones.
use zero_franky.Base.{String, ◌||◌, none, some, ◌≤◌, ◌≡◌, refl, true, false, [], ◌∷◌}
use zero_franky.Python.Errors.{ok, ◌>>=◌}
use zero_franky.Python.Values.{
  Float, Value, null, bool, float, str, list, dict, object, items, Items, nil, cons, Fields, end,
  field, fields,
}
use zero_franky.Python.Attributes.{count}
use zero_franky.Protocol.Impedance.{any_unsupported, select_tasks}
use zero_franky.Protocol.RpcValue.{encode_cartesian_gains}
use zero_franky.Protocol.Tasks.{count-select_tasks}
use zero_franky.Protocol.StateFields.{
  normalize_state_fields, normalize_state_fields-supported, texts, is_field, full_state_fields,
  timing_fields,
}
use zero_franky.Protocol.Motions.{encode_motion}
use zero_franky.Types.Vectors.{vector}
use zero_franky.Types.Lengths.{vector_or_error, vector-is_vector}
use zero_franky.Types.Module.{types_module}
use zero_franky.Builders.Build.{build_franky_motion}
use zero_franky.Builders.Impedance.{build_joint_impedance_motion, friction_kwarg}
use zero_franky.Wire.Data.{
  Motion, Joints, JointTarget, relative, scalar, factor, joint, cartesian_velocity_stop,
  motion_object,
}
use zero_franky.Wire.Payload.{motion_payload}
use zero_franky.Wire.EncodeMotion.{encode_motion-motion_object}
use zero_franky.Wire.Received.{received, received_factor}
use zero_franky.Wire.BuildMotion.{
  build_franky_motion-motion_payload, build_franky_motion-encode_motion,
}
use zero_franky.Wire.Losses.{build_franky_motion_again}
use zero_franky.Wire.Gains.{Wrench, wrench, wrench_or_none, cartesian_gains-round_trip}
use zero_franky.Types.Gains.{diagonal}
use zero_franky.Builders.Gains.{franky_cartesian_gains}
use zero_franky.Tests.World.{counting_floats, any_franky}

abbrev two : Float
two = record { bits = 2 }

abbrev fast_joints : Joints
fast_joints = record { j1 = two; j2 = two; j3 = two; j4 = two; j5 = two; j6 = two; j7 = two }

abbrev a_target : JointTarget
a_target = record { position = fast_joints; velocity = fast_joints }

abbrev a_motion : Motion
a_motion = joint a_target relative (scalar two) true

build_franky_motion-encode_motion_example :
    (motion_object a_motion >>= encode_motion >>= build_franky_motion types_module)
    ≡ motion_object (received a_motion)
build_franky_motion-encode_motion_example = build_franky_motion-encode_motion a_motion

encode_motion-motion_object_example :
    (motion_object a_motion >>= encode_motion) ≡ ok (motion_payload a_motion)
encode_motion-motion_object_example = encode_motion-motion_object a_motion

build_franky_motion-motion_payload_example :
    build_franky_motion types_module (motion_payload a_motion) ≡ motion_object (received a_motion)
build_franky_motion-motion_payload_example = build_franky_motion-motion_payload a_motion

build_franky_motion_again_example :
    (motion_object a_motion
      >>= encode_motion
      >>= build_franky_motion types_module
      >>= encode_motion
      >>= build_franky_motion types_module)
    ≡ (motion_object a_motion >>= encode_motion >>= build_franky_motion types_module)
build_franky_motion_again_example = build_franky_motion_again a_motion

-- Three equal factors arrive as three.
received_scalar :
    received (cartesian_velocity_stop (scalar two)) ≡ cartesian_velocity_stop (factor two two two)
unfolding received received_factor
received_scalar = refl

abbrev bare_stop : Fields
bare_stop = field "type" (str "CartesianStopMotion") end

abbrev joint_payload_fields : Fields
joint_payload_fields = fields (
    ("compensate_coriolis", bool true)
    ∷ ("max_delta_tau", float two)
    ∷ ("joint_limit_activation_distance", float two)
    ∷ ("joint_limit_stiffness", float two)
    ∷ ("joint_limit_damping", float two)
    ∷ ("joint_limit_max_torque", float two)
    ∷ ("target", null)
    ∷ [])

-- The motion is built.
joint_impedance_built :
    build_joint_impedance_motion any_franky (dict joint_payload_fields)
    ≡ ok (object "JointImpedanceMotion" end)
unfolding build_joint_impedance_motion friction_kwarg
joint_impedance_built = refl

abbrev one_task : Items
one_task = cons (object "PostureTask" end) nil

count-select_tasks_example : (any_unsupported one_task ≡ false) × (count one_task ≤ 2)
unfolding select_tasks
count-select_tasks_example = count-select_tasks one_task (object "PostureTask" end, null) refl

abbrev three_floats : Value
three_floats = list (items (float two ∷ float two ∷ float two ∷ []))

vector-is_vector_example : vector_or_error 3 (vector three_floats 3 "linear") ≡ true
vector-is_vector_example = vector-is_vector three_floats 3 "linear"

abbrev a_wrench : Wrench
a_wrench = record { w1 = two; w2 = two; w3 = two; w4 = two; w5 = two; w6 = two }

cartesian_gains-round_trip_example :
    (diagonal (wrench a_wrench) (wrench_or_none none)
      >>= encode_cartesian_gains
      >>= franky_cartesian_gains types_module)
    ≡ diagonal (wrench a_wrench) (wrench_or_none none)
cartesian_gains-round_trip_example = cartesian_gains-round_trip a_wrench none

abbrev twice_q : Value
twice_q = list (cons (str "q") (cons (str "dq") (cons (str "q") nil)))

normalize_state_fields-supported_example :
    ((name : String)
      → is_field name ("q" ∷ "dq" ∷ []) ≡ true
      → (is_field name full_state_fields || is_field name timing_fields) ≡ true)
    × (normalize_state_fields (list (texts ("q" ∷ "dq" ∷ []))) ≡ ok (some ("q" ∷ "dq" ∷ [])))
unfolding normalize_state_fields
normalize_state_fields-supported_example =
    normalize_state_fields-supported twice_q ("q" ∷ "dq" ∷ []) refl
