-- ===== src/Server/Loop.antt =====
-- The loop of the robot server and its end (`serve_forever` in zmq_server.py).
use zero_franky.Base.{◌≡◌, Option, none, some, List, [], ◌∷◌, if◌then◌else◌}
use zero_franky.Python.Attributes.{FloatOps}
use zero_franky.Python.Exec.{Exec, pure, fail, modify, ◌>>◌, catch, finally}
use zero_franky.Rpc.Codec.{Codec}
use zero_franky.Rpc.Client.{is_again}
use zero_franky.Session.Hardware.{Hardware}
use zero_franky.Session.Merge.{Numpy}
use zero_franky.Manager.State.{ManagerState, shutdown}
use zero_franky.Manager.Shutdown.{sessions-shutdown}
use zero_franky.Server.Dispatch.{serve_once}

module _ ⦃ops : FloatOps⦄ (N : Numpy) (H : Hardware) (C : Codec) where
  -- One turn of the loop: a receive that times out is no request, and zmq's `Again` is dropped.
  unfoldable pub turn : Option C.Bytes → Exec (ManagerState H) Unit
  unfolding serve_once is_again
  turn none = pure tt
  turn (some raw) =
      catch (serve_once N H C raw >> pure tt) (λ e. if is_again e.cls then pure tt else fail e)

  -- The turns until the stop event is set
  unfoldable pub serve : List (Option C.Bytes) → Exec (ManagerState H) Unit
  unfolding turn
  serve [] = pure tt
  serve (arrival ∷ rest) = turn arrival >> serve rest

  -- `serve_forever`: the manager is shut down in the end, however the loop ended. What is closed after
  -- that are sockets.
  unfoldable pub serve_forever : List (Option C.Bytes) → Exec (ManagerState H) Unit
  unfolding serve shutdown
  serve_forever arrivals = finally (serve arrivals) (modify (shutdown H))

  -- However the server's loop ends, by the stop event or by an exception, no session is left registered.
  pub sessions-serve_forever :
      (arrivals : List (Option C.Bytes)) (x : ManagerState H)
      → (serve_forever arrivals x).1.0.tracker_sessions ≡ []
  unfolding serve_forever
  sessions-serve_forever arrivals x =
      sessions-shutdown H (serve arrivals x).1.0 (serve arrivals x).1.1
