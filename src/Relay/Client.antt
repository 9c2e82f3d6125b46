-- ===== src/Relay/Client.antt =====
-- The client of the relay (client/src/main.rs). Each request has a task of its own, whose response goes
-- through a channel to the task that writes to the socket, which also reports its health.
pub mod Counts
pub mod Once
use rathole_with_proxy.Base.{
  ℕ, zero, suc, Bool, true, false, ◌&&◌, Option, none, some, List, [], ◌∷◌, ◌++◌, Text, codes,
  Bytes, if◌then◌else◌,
}
use rathole_with_proxy.Proxy.Http.{Http}
use rathole_with_proxy.Gateway.Tunnel.{all_pairs}
use rathole_with_proxy.HttpClient.{LocalRequest, LocalResponse, Local}
use rathole_with_proxy.Relay.{ControlMessage}

-- How a task of a request ends: with a message, or by an `unwrap` that panics.
pub data Answer (F : Type 0) : Type 0 where
  message : ControlMessage F → Answer F
  panicked : Answer F

-- The tasks that have not handed over their messages, the channel, what has gone out, what is lost,
-- how many more messages the socket takes, and whether the task that writes still runs.
pub record Client (F : Type 0) : Type 0 where
  pub tasks : List (Answer F)
  pub channel : List (ControlMessage F)
  pub sent : List (ControlMessage F)
  pub lost : List (ControlMessage F)
  pub writes : ℕ
  pub writing : Bool

-- What happens: a text comes, with the local server at that time; something else comes, or an
-- error; a task hands its message over; the writing task takes one; its interval ticks; or the stream
-- of messages ends, with which `main` returns.
pub data Event (h : Http) : Type 0 where
  text : Text → Local h → Event h
  other_message : Event h
  finish : (task : ℕ) → Event h
  write tick closed : Event h

module _ {F : Type 0} where
  -- `tx.send`: it fails when the writing task is gone.
  abbrev pub hand_over : Answer F → Client F → Client F
  hand_over Answer.panicked c = c
  hand_over (Answer.message m) c =
      if c.writing
      then record c { channel = c.channel ++ m ∷ [] }
      else record c { lost = m ∷ c.lost }

  unfoldable pub take_task : ℕ → List (Answer F) → Option (Answer F × List (Answer F))
  take_task n [] = none
  take_task zero (a ∷ ts) = some (a, ts)
  take_task (suc n) (a ∷ ts) = elim (take_task n ts) [
    | none ↦ none
    | some (b, rest) ↦ some (b, a ∷ rest)
  ]

  abbrev pub finish_task : Option (Answer F × List (Answer F)) → Client F → Client F
  finish_task none c = c
  finish_task (some (a, ts)) c = hand_over a (record c { tasks = ts })

  -- The writing task ends, and the channel with it.
  abbrev pub stop : Client F → Client F
  stop c = record c { writing = false; channel = []; lost = c.channel ++ c.lost }

  abbrev pub messages : List (Answer F) → List (ControlMessage F)
  messages [] = []
  messages (Answer.message m ∷ ts) = m ∷ messages ts
  messages (Answer.panicked ∷ ts) = messages ts

  -- `main` returns: the runtime drops the tasks of the requests and the one that writes.
  abbrev pub shut_down : Client F → Client F
  shut_down c = stop (record c { tasks = []; lost = messages c.tasks ++ c.lost })

  abbrev pub send_with : ℕ → ControlMessage F → Client F → Client F
  send_with zero m c = stop (record c { lost = m ∷ c.lost })
  send_with (suc n) m c = record c { sent = c.sent ++ m ∷ []; writes = n }

  abbrev pub send : ControlMessage F → Client F → Client F
  send m c = send_with c.writes m c

  module _ (encodes : ControlMessage F → Bool) where
    -- A message that has no encoding panics the writing task.
    abbrev pub write_message : ControlMessage F → Client F → Client F
    write_message m c = if encodes m then send m c else stop (record c { lost = m ∷ c.lost })

    abbrev pub write_next : List (ControlMessage F) → Client F → Client F
    write_next [] c = c
    write_next (m ∷ ms) c = write_message m (record c { channel = ms })

module _ (h : Http) (F : Type 0) where
  abbrev pub or_panic : {A : Type 0} → Option A → (A → Answer F) → Answer F
  or_panic none k = Answer.panicked
  or_panic (some a) k = k a

  unfoldable pub insert_headers : h.Headers → List (Text × Text) → (h.Headers → Answer F) → Answer F
  insert_headers hs [] k = k hs
  insert_headers hs ((name, value) ∷ rest) k =
      or_panic (h.header_name name)
        (λ n. or_panic (h.from_str value) (λ v. insert_headers (h.insert_header hs n v) rest k))

  abbrev pub bad_gateway : Text → ControlMessage F
  bad_gateway request_id = ControlMessage.response request_id 502 [] (codes "Bad Gateway")

  abbrev pub to_message : Text → Option (LocalResponse h) → Answer F
  to_message request_id none = Answer.message (bad_gateway request_id)
  to_message request_id (some r) = or_panic r.body (λ body.
      or_panic (all_pairs h (h.iter r.headers))
        (λ headers. Answer.message (ControlMessage.response request_id r.status headers body)))

  abbrev pub unless_panic : Bool → Answer F → Answer F
  unless_panic true k = k
  unless_panic false k = Answer.panicked

  -- The task of a request; `none` of the local server is an error of the connection to it.
  unfoldable pub answer :
      (valid_method : Text → Bool) (target_url : Text)
      → Local h
      → (request_id method path : Text) → List (Text × Text)
      → Bytes
      → Answer F
  unfolding insert_headers
  answer valid_method target_url local request_id method path headers body =
      unless_panic (valid_method method) (
        or_panic (h.parse_uri (target_url ++ path)) (λ u. insert_headers h.no_headers headers (λ hs.
          to_message request_id (
            local
              (record { method = method; uri = target_url ++ path; headers = hs; body = body })))))

  module _ (valid_method : Text → Bool) (target_url : Text)
      (parse : Text → Option (ControlMessage F)) (encodes : ControlMessage F → Bool)
      (cpu_usage : F) where
    -- What it reports: `cpu_usage` stands for 0.0.
    abbrev pub health : ControlMessage F
    health = ControlMessage.health cpu_usage 0

    abbrev pub on_message : Local h → Option (ControlMessage F) → List (Answer F)
    on_message local (some (ControlMessage.request i m p hs b)) =
        answer valid_method target_url local i m p hs b ∷ []
    on_message local (some (ControlMessage.register k t)) = []
    on_message local (some (ControlMessage.response i st hs b)) = []
    on_message local (some (ControlMessage.health c l)) = []
    on_message local (some ControlMessage.pong) = []
    on_message local none = []

    unfoldable pub step : Event h → Client F → Client F
    unfolding answer take_task
    step (Event.text t local) c = record c { tasks = c.tasks ++ on_message local (parse t) }
    step Event.other_message c = c
    step (Event.finish n) c = finish_task (take_task n c.tasks) c
    step Event.write c = if c.writing then write_next encodes c.channel c else c
    step Event.tick c = if c.writing then write_message encodes health c else c
    step Event.closed c = shut_down c

    -- After the end of the stream nothing follows.
    abbrev pub go_on : Event h → (Client F → Client F) → Client F → Client F
    go_on (Event.text t local) rest c = rest c
    go_on Event.other_message rest c = rest c
    go_on (Event.finish n) rest c = rest c
    go_on Event.write rest c = rest c
    go_on Event.tick rest c = rest c
    go_on Event.closed rest c = c

    unfoldable pub run : List (Event h) → Client F → Client F
    unfolding step
    run [] c = c
    run (e ∷ es) c = go_on e (run es) (step e c)
