-- ===== src/Tests/Relays.antt =====
-- Inputs for relay/src/main.rs: a tunnel whose channel is closed, and one whose client has gone.
use rathole_with_proxy.Base.{
  ℕ, ◌+◌, ◌≡◌, refl, true, false, Option, none, some, List, [], ◌∷◌, Text, text_eq, codes, get,
}
use rathole_with_proxy.Proxy.Cookie.{split}
use rathole_with_proxy.Gateway.Locks as Locks
use rathole_with_proxy.Gateway.Locks.{member, task, set_task}
use rathole_with_proxy.Tests.Fair.{fair, grant, holds, without}
use rathole_with_proxy.Gateway.Locks.Blocked.{IsBlocked}
use rathole_with_proxy.Relay.{
  ControlMessage, Relay, Request, Call, proxy_handler, request_ops, socket_ops,
}
use rathole_with_proxy.Relay.Fallback.{Answers, proxy_handler-Answers}
use rathole_with_proxy.Relay.Client as Client
use rathole_with_proxy.Relay.Client.Counts.{total}
use rathole_with_proxy.Relay.Client.Once.{requests_of, panics_of, run-total}
use rathole_with_proxy.Tests.Handler.{plain}

abbrev relay : Relay plain ℕ ℕ
relay = record {
  registry = record { tunnels = (codes "app", 1) ∷ []; pending_requests = [] };
  delivered = [];
}

abbrev request : Request plain
request = record {
  method = codes "POST";
  uri = codes "/";
  headers = (codes "host", codes "app.example.org") ∷ [];
  body = some (1 ∷ 2 ∷ []);
}

-- The fallback answers with the body that it gets.
abbrev call : Call plain ℕ ℕ ℕ
call = record {
  request_id = codes "r1";
  response_tx = 7;
  send = λ tx msg s. (s, false);
  receive = λ s. (s, none);
  backend = λ req. elim req.body [
    | none ↦ none
    | some b ↦ some (record { status = 200; headers = []; body = b })
  ];
}

proxy_handler-Answers_example :
    Answers plain call request (proxy_handler plain call request relay).1
unfolding get split
proxy_handler-Answers_example =
    proxy_handler-Answers plain call request (codes "app.example.org") 1 relay refl refl

-- The socket of a client that has gone notices it by the next request, and then waits for the lock
-- that this request holds.
abbrev initial : Locks.Tasks fair
initial = record {
  tasks = request_ops (codes "r1") ∷ socket_ops ∷ [];
  lock = record { holders = []; queue = [] };
  answered = [];
}

abbrev request_turn : Locks.Event
request_turn = Locks.Event.turn 0

abbrev socket_turn : Locks.Event
socket_turn = Locks.Event.turn 1

abbrev turns : List Locks.Event
turns =
    socket_turn ∷ socket_turn ∷ socket_turn ∷ socket_turn ∷ request_turn ∷ request_turn
    ∷ request_turn ∷ request_turn ∷ socket_turn ∷ socket_turn ∷ []

turns-IsBlocked : IsBlocked fair 0 1 (codes "r1") (Locks.run fair turns initial)
unfolding Locks.run Locks.step Locks.act task set_task grant holds without member
turns-IsBlocked = record {
  waits = refl;
  holds_lock = refl;
  next = refl;
  unanswered = refl;
  silent = (((λ e. cc), ((λ e. cc), tt)), (((λ e. cc), ((λ e. cc), ((λ e. cc), tt))), tt));
}

-- A text is the id of a request with no header and no body.
abbrev parse_id : Text → Option (ControlMessage ℕ)
parse_id t = some (ControlMessage.request t (codes "GET") (codes "/") [] [])

abbrev idle : Client.Client ℕ
idle = record { tasks = []; channel = []; sent = []; lost = []; writes = 1; writing = true }

-- The local server is not there; the health goes out, and the response after it is lost. A second
-- request has no response when the stream ends.
abbrev traffic : List (Client.Event plain)
traffic =
    Client.Event.text (codes "r1") (λ req. none)
    ∷ Client.Event.finish 0
    ∷ Client.Event.tick
    ∷ Client.Event.write
    ∷ Client.Event.text (codes "r1") (λ req. none)
    ∷ Client.Event.closed
    ∷ []

run-total_example :
    total (codes "r1") (
        Client.run plain ℕ
          (λ m. true)
          (codes "http://127.0.0.1")
          parse_id
          (λ m. true)
          0
          traffic
          idle)
      + panics_of plain ℕ
          (λ m. true)
          (codes "http://127.0.0.1")
          parse_id
          (λ m. true)
          0
          (codes "r1")
          traffic
    ≡ total (codes "r1") idle
      + requests_of plain ℕ
          (λ m. true)
          (codes "http://127.0.0.1")
          parse_id
          (λ m. true)
          0
          (codes "r1")
          traffic
run-total_example =
    run-total plain ℕ (λ m. true) (codes "http://127.0.0.1") parse_id (λ m. true) 0 (codes "r1")
      traffic idle
