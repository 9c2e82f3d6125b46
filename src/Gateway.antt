-- ===== src/Gateway.antt =====
-- The public server (rathole/src/main.rs): the socket of a tunnel client, the clean-up task and the
-- route `/tunnel/{id}/{*path}`. A socket's task is a fold over what it meets, with the changes of
-- other tasks between.
pub mod Socket
pub mod Tunnel
pub mod Login
pub mod Locks
use rathole_with_proxy.Base.{
  ℕ, Bool, true, false, Option, none, some, List, [], ◌∷◌, ◌++◌, Text, text_eq, codes, HashMap, get,
  insert, remove,
}
use rathole_with_proxy.Float.{Float}
use rathole_with_proxy.Hardware.{handle_hardware_data}
use rathole_with_proxy.Health.{HealthStatus, TunnelHealth, entry_or_default}
use rathole_with_proxy.Message.{ControlMessage, HttpRequest, HttpResponse, HardwareData}
use rathole_with_proxy.Proxy.Http.{Http, Request, Response}
use rathole_with_proxy.Proxy.State.{AppState, Answer}

-- What a socket gives: a text, another kind of message, an error, the end, or nothing for 30 s.
pub data Incoming : Type 0 where
  text : Text → Incoming
  other_message socket_error closed timed_out : Incoming

-- The state, and what the tasks hand over: responses to the handlers that wait, the status in the
-- store, and ids to the clean-up task.
pub record Gateway (S W F : Type 0) : Type 0 where
  pub app : AppState S W F
  pub delivered : List (W × HttpResponse)
  pub status : HashMap Text Text
  pub cleanup : List Text

-- What the loop of handle_socket meets: the end of a message to the client, a result of the socket
-- at some time, or the work of other tasks.
pub data Event (S W F : Type 0) : Type 0 where
  forwarded : (sent : Bool) → Event S W F
  received : Incoming → (now : ℕ) → Event S W F
  meanwhile : (Gateway S W F → Gateway S W F) → Event S W F

module _ {S W F : Type 0} where
  abbrev pub hand_over : HttpResponse → Option W → Gateway S W F → Gateway S W F
  hand_over http none g = g
  hand_over http (some tx) g = record g { delivered = g.delivered ++ (tx, http) ∷ [] }

  -- The response goes to the handler that waits for it, if one does.
  unfoldable pub deliver : Text → HttpResponse → Gateway S W F → Gateway S W F
  deliver request_id http g =
      let app = g.app in
      hand_over http (get request_id app.responses)
        (record g { app = record app { responses = remove request_id app.responses } })

  -- The client has proved its claims: it is online, and its sender is registered.
  abbrev pub register_tunnel : Text → S → Gateway S W F → Gateway S W F
  register_tunnel id tx g =
      let app = g.app in
      record g {
        app = record app { tunnels = insert id tx app.tunnels };
        status = insert id (codes "online") g.status;
      }

  abbrev pub finish : Text → Gateway S W F → Gateway S W F
  finish id g = record g { cleanup = g.cleanup ++ id ∷ [] }

  -- One turn of the clean-up task; `stored` is whether the store takes the status. If it does not,
  -- `unwrap` panics and the task ends: `none`.
  abbrev pub clean_up_one : (stored : Bool) → List Text → Gateway S W F → Option (Gateway S W F)
  clean_up_one stored [] g = some g
  clean_up_one false (id ∷ ids) g = none
  clean_up_one true (id ∷ ids) g =
      let app = g.app in
      some (record g {
        app = record app { tunnels = remove id app.tunnels };
        status = insert id (codes "offline") g.status;
        cleanup = ids;
      })

  unfoldable pub clean_up : (stored : Bool) → Gateway S W F → Option (Gateway S W F)
  clean_up stored g = clean_up_one stored g.cleanup g

module _ (f : Float) {S W : Type 0} where
  -- A health update sets the status and the time of the entry.
  unfoldable pub update_health :
      Text → HealthStatus → ℕ → Gateway S W f.Carrier → Gateway S W f.Carrier
  unfolding entry_or_default
  update_health id status now g =
      let app = g.app in
      record g {
        app = record app {
          health_data =
              insert id
                (record (entry_or_default f id app.health_data now) {
                  status = status;
                  last_update = now;
                })
                app.health_data;
        };
      }

  unfoldable pub on_message :
      Text → ℕ → ControlMessage f.Carrier → Gateway S W f.Carrier → Gateway S W f.Carrier
  unfolding update_health deliver handle_hardware_data
  on_message id now (ControlMessage.health_update hardware_data t) g =
      update_health id (handle_hardware_data f hardware_data (f.tenths 850)) now g
  on_message id now (ControlMessage.response request_id http) g = deliver request_id http g
  on_message id now (ControlMessage.register token target) g = g
  on_message id now (ControlMessage.request request_id http) g = g

  abbrev pub on_parsed :
      Text → ℕ → Option (ControlMessage f.Carrier) → Gateway S W f.Carrier → Gateway S W f.Carrier
  on_parsed id now none g = g
  on_parsed id now (some msg) g = on_message id now msg g

  -- The loop of handle_socket: it ends with the socket.
  unfoldable pub forward_loop :
      (Text → Option (ControlMessage f.Carrier))
      → Text
      → List (Event S W f.Carrier)
      → Gateway S W f.Carrier
      → Gateway S W f.Carrier
  unfolding on_message
  forward_loop parse id [] g = g
  forward_loop parse id (Event.forwarded true ∷ es) g = forward_loop parse id es g
  forward_loop parse id (Event.forwarded false ∷ es) g = g
  forward_loop parse id (Event.meanwhile h ∷ es) g = forward_loop parse id es (h g)
  forward_loop parse id (Event.received (Incoming.text t) now ∷ es) g =
      forward_loop parse id es (on_parsed id now (parse t) g)
  forward_loop parse id (Event.received Incoming.other_message now ∷ es) g =
      forward_loop parse id es g
  forward_loop parse id (Event.received Incoming.socket_error now ∷ es) g = g
  forward_loop parse id (Event.received Incoming.closed now ∷ es) g = g
  forward_loop parse id (Event.received Incoming.timed_out now ∷ es) g = g

  -- With a valid token; `stored` is whether the store takes the status. If it does not, `unwrap`
  -- panics, and the clean-up task is not told.
  abbrev pub on_valid :
      (Text → Option (ControlMessage f.Carrier))
      → Text
      → S
      → List (Event S W f.Carrier)
      → (stored : Bool) → Gateway S W f.Carrier
      → Gateway S W f.Carrier
  on_valid parse id tx es true g = finish id (forward_loop parse id es (register_tunnel id tx g))
  on_valid parse id tx es false g = g

  -- After a register message; `valid` is the check of the token with the secret.
  abbrev pub on_register :
      (Text → Option (ControlMessage f.Carrier))
      → Text
      → S
      → List (Event S W f.Carrier)
      → (stored valid : Bool) → Gateway S W f.Carrier
      → Gateway S W f.Carrier
  on_register parse id tx es stored true g = on_valid parse id tx es stored g
  on_register parse id tx es stored false g = finish id g

  abbrev pub on_first :
      (Text → Text → Bool)
      → (Text → Option (ControlMessage f.Carrier))
      → Text
      → S
      → List (Event S W f.Carrier)
      → (stored : Bool) → ControlMessage f.Carrier
      → Gateway S W f.Carrier
      → Gateway S W f.Carrier
  on_first verify parse id tx es stored (ControlMessage.register token target) g =
      on_register parse id tx es stored (verify g.app.jwt_secret token) g
  on_first verify parse id tx es stored (ControlMessage.request request_id http) g = finish id g
  on_first verify parse id tx es stored (ControlMessage.response request_id http) g = finish id g
  on_first verify parse id tx es stored (ControlMessage.health_update d t) g = finish id g

  abbrev pub on_first_parsed :
      (Text → Text → Bool)
      → (Text → Option (ControlMessage f.Carrier))
      → Text
      → S
      → List (Event S W f.Carrier)
      → (stored : Bool) → Option (ControlMessage f.Carrier)
      → Gateway S W f.Carrier
      → Gateway S W f.Carrier
  on_first_parsed verify parse id tx es stored none g = g
  on_first_parsed verify parse id tx es stored (some msg) g =
      on_first verify parse id tx es stored msg g

  -- `verify` is the decoding of a JSON web token with the secret, `parse` that of a message, `tx`
  -- the new sender. Without a first message that can be read the task returns at once. The
  -- first wait has no time-out: that case stands with the end of the socket.
  unfoldable pub handle_socket :
      (Text → Text → Bool)
      → (Text → Option (ControlMessage f.Carrier))
      → Text
      → S
      → Incoming
      → List (Event S W f.Carrier)
      → (stored : Bool) → Gateway S W f.Carrier
      → Gateway S W f.Carrier
  unfolding forward_loop
  handle_socket verify parse id tx (Incoming.text t) es stored g =
      on_first_parsed verify parse id tx es stored (parse t) g
  handle_socket verify parse id tx Incoming.other_message es stored g = finish id g
  handle_socket verify parse id tx Incoming.socket_error es stored g = finish id g
  handle_socket verify parse id tx Incoming.closed es stored g = finish id g
  handle_socket verify parse id tx Incoming.timed_out es stored g = finish id g
