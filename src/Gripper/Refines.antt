-- ===== src/Gripper/Refines.antt =====
-- The gripper's client on its server (robotiq.py): each method against the manager's operation.
use zero_franky.Base.{ℕ, String, ◌≡◌, refl, Bool, true, false}
use zero_franky.Base.Int.{ℤ}
use zero_franky.Python.Errors.{Result, ok, raise, ◌>>=◌ as ◌>=>◌}
use zero_franky.Python.Values.{Float, Value, bool, int, float}
use zero_franky.Python.Attributes.{FloatOps}
use zero_franky.Python.Exec.{Exec, lift, ◌>>=◌}
use zero_franky.Rpc.Codec.{Codec}
use zero_franky.Rpc.Exchange.{relayed}
use zero_franky.Gripper.Units.{RoundOps, clamp_byte, leb-clamp_byte, width_m_to_position}
use zero_franky.Gripper.Device.{Device}
use zero_franky.Gripper.Manager.State as Manager
use zero_franky.Gripper.Manager.State.{GripperState, commanded, reading, with_lock, on_device}
use zero_franky.Gripper.Commands.{
  Command, activating, starting, resetting, stopping, opening, closing, moving, moving_mm,
  moving_width, calibrating, asking_position, asking_position_mm, asking_status, asking_detection,
  method_of, perform, meaning, promised, Act,
}
use zero_franky.Gripper.Proxy as Proxy
use zero_franky.Gripper.Proxy.{byte, default_timeout_ms}
use zero_franky.Gripper.Requests.{
  Sent, Received, Server, drawn, activated, started, was_reset, stopped, opened, closed, sent,
  moved_mm, calibrated, asked_position, asked_position_mm, asked_object_detection, asked_status,
}

module _ (C : Codec) (D : Device) (fresh : GripperState D → String × GripperState D) where
  checked :
      (name : String) (r : Result ℕ) (f : ℕ → Exec (GripperState D) Value) (g : ℕ → Result (Act D))
      (x : GripperState D)
      → ((n : ℕ) → r ≡ ok n → f n x ≡ promised D (drawn C D fresh) name (g n) x)
      → (lift r >>= f) x ≡ promised D (drawn C D fresh) name (r >=> g) x
  unfolding promised
  checked name (ok n) f g x h = h n refl
  checked name (raise e) f g x h = refl

  module _ ⦃rounding : RoundOps⦄ ⦃ops : FloatOps⦄ where
    -- Speed and force are checked before they are sent.
    checked_bytes :
        (name : String) (speed force : Value) (f : ℕ → ℕ → Exec (GripperState D) Value)
        (g : ℕ → ℕ → Act D) (x : GripperState D)
        → ((m n : ℕ)
            → clamp_byte speed "speed" ≡ ok m
            → clamp_byte force "force" ≡ ok n
            → f m n x ≡ relayed name (g m n ((drawn C D fresh) x)))
        → (do s ← lift (clamp_byte speed "speed"); t ← lift (clamp_byte force "force"); f s t) x
          ≡ promised D
              (drawn C D fresh)
              name
              (clamp_byte speed "speed" >=> λ s. clamp_byte force "force" >=> λ t. ok (g s t))
              x
    unfolding promised
    checked_bytes name speed force f g x h =
        checked name (clamp_byte speed "speed")
          (λ s. lift (clamp_byte force "force") >>= λ t. f s t)
          (λ s. clamp_byte force "force" >=> λ t. ok (g s t)) x
          (λ s e.
            checked name (clamp_byte force "force") (f s) (λ t. ok (g s t)) x (λ t e'. h s t e e'))

    -- msgpack carries the response to what a command means, if its numbers pass the client's checks.
    abbrev pub Returned : Command → GripperState D → Type 0
    Returned c x = (act : Act D) → meaning D c ≡ ok act → Received C D fresh act x

    moved :
        (p s f : Value) (w r u : Bool) (x : GripperState D)
        → Sent C D fresh "gripper.move" x
        → Returned (moving p s f w r u) x
        → Proxy.move_position (Server C D fresh) p s f w r u x
          ≡ promised D (drawn C D fresh) "gripper.move" (meaning D (moving p s f w r u)) x
    unfolding promised meaning Proxy.move_position
    moved p s f w r u x carried returned =
        checked "gripper.move" (clamp_byte p "position")
          (λ k. lift (clamp_byte s "speed") >>= λ m.
            lift (clamp_byte f "force") >>= λ n. Proxy.send_move (Server C D fresh) k m n w r u)
          (λ k. clamp_byte s "speed" >=> λ m. clamp_byte f "force" >=> λ n.
            ok (Manager.move D (byte k) (byte m) (byte n) (bool w) (bool r) (bool u)))
          x
          (λ k ek.
            checked_bytes "gripper.move" s f (λ m n. Proxy.send_move (Server C D fresh) k m n w r u)
              (λ m n. Manager.move D (byte k) (byte m) (byte n) (bool w) (bool r) (bool u)) x
              (λ m n em en.
                sent C D fresh k m n w r u x carried
                  (returned (Manager.move D (byte k) (byte m) (byte n) (bool w) (bool r) (bool u))
                    (rw (ek, em, en) refl))
                  (leb-clamp_byte p "position" k ek) (leb-clamp_byte s "speed" m em)
                  (leb-clamp_byte f "force" n en)))

    moved_width :
        (d s f : Value) (w : Bool) (limit : Float) (x : GripperState D)
        → Sent C D fresh "gripper.move" x
        → Returned (moving_width d s f w limit) x
        → Proxy.move_width (Server C D fresh) d s f w limit x
          ≡ promised D (drawn C D fresh) "gripper.move" (meaning D (moving_width d s f w limit)) x
    unfolding promised meaning Proxy.move_width
    moved_width d s f w limit x carried returned = go (width_m_to_position d limit) returned
      where
        go :
            (r : Result ℤ)
            → ((act : Act D)
                → (r >=> λ z. meaning D (moving (int z) s f w true false)) ≡ ok act
                → Received C D fresh act x)
            → (lift r >>= λ z. Proxy.move_position (Server C D fresh) (int z) s f w true false) x
              ≡ promised D
                  (drawn C D fresh)
                  "gripper.move"
                  (r >=> λ z. meaning D (moving (int z) s f w true false))
                  x
        go (ok z) returned = moved (int z) s f w true false x carried returned
        go (raise e) returned = refl

    -- On a server, each of these methods of a client comes to the manager's operation with the numbers as
    -- bytes, where msgpack carries the method's requests and the response: the caller gets what that
    -- returns, or an RpcError with what it raises. A number that is no byte raises in the client, and
    -- nothing is sent.
    pub perform-promised :
        (c : Command) (x : GripperState D)
        → Sent C D fresh (method_of c) x
        → Returned c x
        → perform (Server C D fresh) c x
          ≡ promised D (drawn C D fresh) (method_of c) (meaning D c) x
    unfolding perform meaning promised method_of Proxy.activate Proxy.start Proxy.reset Proxy.stop
        Proxy.open_gripper Proxy.close Proxy.move_position Proxy.move_mm Proxy.move_width
        Proxy.calibrate_mm Proxy.position Proxy.position_mm Proxy.status Proxy.object_detection
        Proxy.send_open Proxy.send_close Proxy.send_move Proxy.send_move_mm
    perform-promised (activating a b c) x h k = activated C D fresh a b c x h (k _ refl)
    perform-promised (starting a) x h k = started C D fresh a x h (k _ refl)
    perform-promised resetting x h k = was_reset C D fresh x h (k _ refl)
    perform-promised stopping x h k = stopped C D fresh x h (k _ refl)
    perform-promised (opening s f w r u) x h k =
        checked_bytes "gripper.open" s f (λ m n. Proxy.send_open (Server C D fresh) m n w r u)
          (λ m n. Manager.open_gripper D (byte m) (byte n) (bool w) (bool r) (bool u)) x
          (λ m n em en.
            opened C D fresh m n w r u x h
              (k (Manager.open_gripper D (byte m) (byte n) (bool w) (bool r) (bool u))
                (rw (em, en) refl))
              (leb-clamp_byte s "speed" m em) (leb-clamp_byte f "force" n en))
    perform-promised (closing s f w r u) x h k =
        checked_bytes "gripper.close" s f (λ m n. Proxy.send_close (Server C D fresh) m n w r u)
          (λ m n. Manager.close D (byte m) (byte n) (bool w) (bool r) (bool u)) x
          (λ m n em en.
            closed C D fresh m n w r u x h
              (k (Manager.close D (byte m) (byte n) (bool w) (bool r) (bool u)) (rw (em, en) refl))
              (leb-clamp_byte s "speed" m em) (leb-clamp_byte f "force" n en))
    perform-promised (moving p s f w r u) x h k = moved p s f w r u x h k
    perform-promised (moving_mm d s f w r u) x h k =
        checked_bytes "gripper.move_mm" s f
          (λ m n. Proxy.send_move_mm (Server C D fresh) d m n w r u)
          (λ m n. Manager.move_mm D (float d) (byte m) (byte n) (bool w) (bool r) (bool u)) x
          (λ m n em en.
            moved_mm C D fresh d m n w r u x h
              (k (Manager.move_mm D (float d) (byte m) (byte n) (bool w) (bool r) (bool u))
                (rw (em, en) refl))
              (leb-clamp_byte s "speed" m em) (leb-clamp_byte f "force" n en))
    perform-promised (moving_width d s f w limit) x h k = moved_width d s f w limit x h k
    perform-promised (calibrating a b) x h k = calibrated C D fresh a b x h (k _ refl)
    perform-promised (asking_position a) x h k = asked_position C D fresh a x h (k _ refl)
    perform-promised (asking_position_mm a) x h k = asked_position_mm C D fresh a x h (k _ refl)
    perform-promised (asking_status a) x h k = asked_status C D fresh a x h (k _ refl)
    perform-promised (asking_detection a) x h k = asked_object_detection C D fresh a x h (k _ refl)
