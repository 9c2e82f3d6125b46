-- ===== src/HttpClient.antt =====
-- The client that answers the requests of the public server from a local HTTP server
-- (rathole/src/bin/client.rs). Its loop is a fold over what its `select!` meets; the local server
-- answers each request as the event says.
pub mod Exchange
use rathole_with_proxy.Base.{
  ℕ, zero, suc, ◌*◌, ◌^◌, Bool, true, false, Option, none, some, List, [], ◌∷◌, ◌++◌, Text, codes,
  Bytes,
}
use rathole_with_proxy.Float.{Float}
use rathole_with_proxy.Gateway.Tunnel.{all_pairs}
use rathole_with_proxy.Message.{HttpRequest, HttpResponse, HardwareData, ControlMessage}
use rathole_with_proxy.Proxy.Http.{Http}

-- The messages that have gone out, and how many more the socket takes.
pub record Link : Type 0 where
  pub sent : List Text
  pub writes : ℕ

-- How the loop stands: it goes on, it has left the loop, `main` has returned an error, or an
-- `unwrap` has panicked.
pub data End : Type 0 where
  waiting broke failed panicked : End

pub data Served (A : Type 0) : Type 0 where
  value : A → Served A
  fails panics : Served A

infixl 5 ◌>>=◌
abbrev pub ◌>>=◌ : {A B : Type 0} → Served A → (A → Served B) → Served B
value a >>= k = k a
fails >>= k = fails
panics >>= k = panics

-- `?` on a result.
abbrev pub or_fails : {A : Type 0} → Option A → Served A
or_fails none = fails
or_fails (some a) = value a

abbrev pub or_panics : {A : Type 0} → Option A → Served A
or_panics none = panics
or_panics (some a) = value a

-- One message on the socket.
abbrev pub send : End → Text → Link → Link × End
send otherwise t l = elim l.writes [
  | zero ↦ (l, otherwise)
  | suc n ↦ (record { sent = l.sent ++ t ∷ []; writes = n }, End.waiting)
]

abbrev pub send_encoded : End → Option Text → Link → Link × End
send_encoded otherwise none l = (l, End.failed)
send_encoded otherwise (some t) l = send otherwise t l

abbrev pub go_on : Link × End → (Link → Link × End) → Link × End
go_on (l, End.waiting) k = k l
go_on (l, End.broke) k = (l, End.broke)
go_on (l, End.failed) k = (l, End.failed)
go_on (l, End.panicked) k = (l, End.panicked)

-- What goes to the local server, and what comes back; the body may be unreadable.
pub record LocalRequest (h : Http) : Type 0 where
  pub method : Text
  pub uri : Text
  pub headers : h.Headers
  pub body : Bytes

pub record LocalResponse (h : Http) : Type 0 where
  pub status : ℕ
  pub headers : h.Headers
  pub body : Option Bytes

abbrev pub Local : Http → Type 0
Local h = LocalRequest h → Option (LocalResponse h)

-- What the `select!` meets: a text and the local server at that time, another message, an error or
-- the end of the socket, or a tick of the interval of 10 s at some time.
pub data Event (h : Http) : Type 0 where
  text : Text → Local h → Event h
  other_message read_error ended : Event h
  tick : (timestamp : Text) → Event h

-- The fixed data of the health update.
abbrev pub dummy_hardware_data : (f : Float) → HardwareData f.Carrier
dummy_hardware_data f = record {
  operating_system = codes "Linux";
  avg_memory_usage = f.tenths 500;
  total_memory = 8 * 1024 ^ 3;
  used_memory = 4 * 1024 ^ 3;
  avg_swap_usage = f.tenths 500;
  total_swap = 2 * 1024 ^ 3;
  used_swap = 1024 ^ 3;
  cpu_usage = f.tenths 5;
  temperatures_data = record { avg_temp = none; max_temp = none };
  timestamp = [];
}

module _ (h : Http) (f : Float) where
  unfoldable pub insert_headers : h.Headers → List (Text × Text) → Served h.Headers
  insert_headers hs [] = value hs
  insert_headers hs ((k, v) ∷ rest) = do
    name ← or_fails (h.header_name k)
    header ← or_fails (h.from_str v)
    insert_headers (h.insert_header hs name header) rest

  -- `Request::builder` takes the method and the address, or fails.
  abbrev pub build : (valid_method : Bool) → Text → HttpRequest → Served (LocalRequest h)
  build false uri http = fails
  build true uri http = do
    parsed ← or_fails (h.parse_uri uri)
    headers ← insert_headers h.no_headers http.headers
    value (record { method = http.method; uri = uri; headers = headers; body = http.body })

  -- The request on the local server, and its response for the public server.
  unfoldable pub serve : (Text → Bool) → Local h → HttpRequest → Served HttpResponse
  unfolding insert_headers all_pairs
  serve valid_method local http = do
    req ← build (valid_method http.method) (codes "http://127.0.0.1:8000" ++ http.path) http
    res ← or_fails (local req)
    headers ← or_panics (all_pairs h (h.iter res.headers))
    body ← or_fails res.body
    value (record { status = res.status; headers = headers; body = body })

  -- `valid_method` is the parser of methods; the others are `serde_json::to_string` and `from_str`.
  module _ (valid_method : Text → Bool) (to_string : ControlMessage f.Carrier → Option Text)
      (from_str : Text → Option (ControlMessage f.Carrier)) where
    abbrev pub send_message : End → ControlMessage f.Carrier → Link → Link × End
    send_message otherwise msg l = send_encoded otherwise (to_string msg) l

    abbrev pub answer : Text → Served HttpResponse → Link → Link × End
    answer request_id (value http) l =
        send_message End.broke (ControlMessage.response request_id http) l
    answer request_id fails l = (l, End.failed)
    answer request_id panics l = (l, End.panicked)

    -- A text that is no message and a message that is no request change nothing.
    abbrev pub on_message : Local h → Option (ControlMessage f.Carrier) → Link → Link × End
    on_message local (some (ControlMessage.request request_id http)) l =
        answer request_id (serve valid_method local http) l
    on_message local (some (ControlMessage.register token target)) l = (l, End.waiting)
    on_message local (some (ControlMessage.response request_id http)) l = (l, End.waiting)
    on_message local (some (ControlMessage.health_update d t)) l = (l, End.waiting)
    on_message local none l = (l, End.waiting)

    -- One turn of the loop. The end of the socket only disables its branch.
    unfoldable pub on_event : Event h → Link → Link × End
    unfolding serve
    on_event (Event.text t local) l = on_message local (from_str t) l
    on_event Event.other_message l = (l, End.waiting)
    on_event Event.read_error l = (l, End.broke)
    on_event Event.ended l = (l, End.waiting)
    on_event (Event.tick timestamp) l =
        send_message End.broke (ControlMessage.health_update (dummy_hardware_data f) timestamp) l

    unfoldable pub run : List (Event h) → Link → Link × End
    unfolding on_event
    run [] l = (l, End.waiting)
    run (e ∷ es) l = go_on (on_event e l) (run es)

    -- `main` with the token of the login: it registers, and runs.
    unfoldable pub start : Text → List (Event h) → Link → Link × End
    unfolding run
    start token es l =
        go_on (send_message End.failed (ControlMessage.register token (codes "test")) l) (run es)
