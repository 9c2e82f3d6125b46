-- ===== src/Gateway/Locks/Stuck.antt =====
-- A call of the route `/tunnel` whose client goes away (rathole/src/main.rs: tunnel, and the clean-up
-- task).
use rathole_with_proxy.Base.{some, List, [], ◌∷◌, Text, text_eq}
use rathole_with_proxy.Gateway.Locks.{
  Want, RwLock, Op, Tasks, await_tunnel, tunnel_ops, clean_up_ops, Event,
}

-- The call goes on until it waits for the response, and then the clean-up begins.
abbrev pub beginning : List Event
beginning =
    Event.turn 0
    ∷ Event.turn 0
    ∷ Event.turn 0
    ∷ Event.turn 0
    ∷ Event.turn 0
    ∷ Event.turn 0
    ∷ Event.turn 0
    ∷ Event.turn 0
    ∷ Event.turn 1
    ∷ Event.turn 1
    ∷ []

module _ (l : RwLock) (r : Text) (others : List (List Op)) (answered : List Text) where
  abbrev pub at : l.State → List Op → List Op → Tasks l
  at lock call clean_up = record {
    tasks = call ∷ clean_up ∷ others;
    lock = lock;
    answered = answered;
  }

  -- The call, and the clean-up of its client, with nobody in the way.
  abbrev pub start : Tasks l
  start = at l.free (tunnel_ops (some r)) clean_up_ops

  abbrev reader : l.State
  reader = l.ask 0 Want.read l.free

  -- What is left of the tasks after the beginning.
  abbrev left_of_clean_up : List Op
  left_of_clean_up = Op.obtain Want.write ∷ Op.work ∷ Op.release ∷ []

  abbrev half : List Event
  half =
      Event.turn 0 ∷ Event.turn 0 ∷ Event.turn 0 ∷ Event.turn 0 ∷ Event.turn 1 ∷ Event.turn 1 ∷ []

  abbrev second : List Op
  second = Op.ask Want.read ∷ Op.obtain Want.read ∷ Op.work ∷ Op.work ∷ await_tunnel r
