-- ===== src/Client/Wait.antt =====
-- The polls of a synchronous move (`RobotProxy.move` in zmq_client.py).
use zero_franky.Base.{ℕ, zero, suc, ◌<◌, ◌≡◌, refl, Bool, true, false, some, arith}
use zero_franky.Python.Errors.{ok}
use zero_franky.Python.Values.{Value}
use zero_franky.Python.Attributes.{FloatOps}
use zero_franky.Python.Exec.{Exec}
use zero_franky.Protocol.Motions.{encode_motion}
use zero_franky.Rpc.Client.{Link, Socket}
use zero_franky.Client.Robot.{
  wait_until, poll_timeout, join_motion, send_move, joined, finished, move,
}

module _ {S : Type 0} where
  -- `k` polls answer false and the one after them true; the states are those between the polls.
  pub data JoinsAfter (poll : Exec S Bool) : ℕ → S → S → Type 0 where
    now : (x y : S) → poll x ≡ (ok true, y) → JoinsAfter poll zero x y
    later :
        (k : ℕ) (x t y : S)
        → poll x ≡ (ok false, t)
        → JoinsAfter poll k t y
        → JoinsAfter poll (suc k) x y

  wait_until-joins :
      (poll : Exec S Bool) (n k : ℕ) (x y : S)
      → k < n
      → JoinsAfter poll k x y
      → wait_until n poll x ≡ (ok true, y)
  unfolding wait_until
  wait_until-joins poll (suc n) _ x y h (now _ _ e) = rw e refl
  wait_until-joins poll (suc n) _ x y h (later k _ t _ e rest) =
      rw e (wait_until-joins poll n k t y (omega (arith, h)) rest)
  wait_until-joins poll zero k x y h j = ground (arith, h)

module _ {S : Type 0} ⦃ops : FloatOps⦄ (L : Link S) where
  -- A synchronous move whose motion is taken by the server, and finishes after some polls, returns what the
  -- server answered to its request, under each bound above that number of polls.
  pub move-joins :
      (n k : ℕ) (id motion payload result : Value) (x t y : Socket × S)
      → encode_motion motion ≡ ok payload
      → send_move L id payload x ≡ (ok result, t)
      → JoinsAfter (join_motion L id poll_timeout) k t y
      → k < n
      → move L n id motion false x ≡ (ok (some result), y)
  unfolding move finished joined
  move-joins n k id motion payload result x t y encoded sent joins h =
      rw encoded
        (rw sent (rw (wait_until-joins (join_motion L id poll_timeout) n k t y h joins) refl))
