-- ===== src/Tests/Locking.antt =====
-- A run of the tasks of rathole/src/main.rs that ends in a lock that nobody gets.
use rathole_with_proxy.Base.{none, List, [], ◌∷◌, text_eq}
use rathole_with_proxy.Gateway.Locks.{Op, Event, proxy_ops, register_ops}

-- A registration waits behind the clean-up, and its client goes away; a request of the proxy comes,
-- and asks.
abbrev later : List Event
later =
    Event.turn 2
    ∷ Event.turn 2
    ∷ Event.spawn (proxy_ops none)
    ∷ Event.turn 3
    ∷ Event.turn 3
    ∷ Event.cancel 2
    ∷ Event.turn 1
    ∷ []

abbrev others : List (List Op)
others = register_ops ∷ []
