-- ===== src/Tests/Handler.antt =====
-- Inputs for the handler of rathole/src/proxy.rs, over header maps that are association lists.
use rathole_with_proxy.Base.{
  ℕ, ◌≡◌, ◌≢◌, ◌⊎◌, inl, refl, Bool, true, false, Option, none, some, [], ◌∷◌, ◌++◌, Text, Bytes,
  text_eq, codes, HashMap, get, insert, get-insert, arith, All, ◌<◌,
}
use rathole_with_proxy.Float.Scaled.{scaled}
use rathole_with_proxy.Health.{is_healthy, decide_routing, force_cloud, stale_threshold}
use rathole_with_proxy.Health.Marks.{age}
use rathole_with_proxy.Proxy.Http.{Http, Request, Response, Reply, ok, err, bad_gateway}
use rathole_with_proxy.Proxy.Cookie.{
  get_cookie_value, find_cookie, trim, trim_start, trim_end, split, is_whitespace, tunnel_cookie,
  insert_tunnel_cookie,
}
use rathole_with_proxy.Proxy.Cookie.Roundtrip.{get_cookie_value-print, IsNameChar, IsValueChar}
use rathole_with_proxy.Proxy.State.{AppState, Exchange, answered, failed}
use rathole_with_proxy.Proxy.Forward.{
  forward_via_tunnel, after_send, conclude, build_response, copy_headers, to_pairs, headers_to_map,
}
use rathole_with_proxy.Proxy.Forward.Pending.{forward_via_tunnel-pending}
use rathole_with_proxy.Gateway.Tunnel.{Trip}
use rathole_with_proxy.Proxy.Handler.{Call, forward_sticky, forward_to_best, proxy_handler}
use rathole_with_proxy.Proxy.Handler.Routing.{proxy_handler-decide_routing}
use rathole_with_proxy.Proxy.Handler.Sticky.{Served, proxy_handler-Served}

abbrev pub plain : Http
plain = record {
  Headers = HashMap Text Text;
  Value = Text;
  Uri = Text;
  no_headers = [];
  get_header = λ h k. get k h;
  insert_header = λ h k v. insert k v h;
  append_header = λ h k v. h ++ (k, v) ∷ [];
  iter = λ h. h;
  to_str = some;
  from_str = some;
  header_name = some;
  parse_uri = some;
  get-insert = λ h k j v. get-insert k j v h;
}

abbrev request_with : Text → Option Bytes → Request plain
request_with cookie body = record {
  method = codes "GET";
  path_and_query = none;
  headers = (codes "cookie", cookie) ∷ (codes "host", codes "app.example.org") ∷ [];
  body = body;
}

abbrev state : AppState ℕ ℕ ℕ
state = record {
  tunnels = (codes "app", 1) ∷ [];
  responses = [];
  jwt_secret = codes "secret";
  default_cloud_backend = codes "http://localhost:4000";
  request_timeout = 10;
  health_data = [];
}

abbrev exchange : Bool → Exchange scaled ℕ ℕ ℕ
exchange sent = record {
  request_id = codes "r1";
  resp_tx = 5;
  to_string = λ m. some [];
  send = λ tx msg s. (s, sent);
  wait = λ s. (s, answered (record { status = 200; headers = []; body = [] }));
  latency_ms = 100;
  reads = record { created = 0; updated = 1; recorded = 2; decided = 3 };
}

abbrev call : Call plain scaled ℕ ℕ ℕ
call = record {
  exchange = exchange true;
  cloud = λ m u h b. failed;
  preferred_now = 0;
  chosen_now = 0;
}

abbrev asks_app : Request plain
asks_app = request_with (codes "tunnel=app") (some [])

abbrev asks_cloud : Request plain
asks_cloud = request_with (codes "tunnel=cloud") (some [])

letter : (c : ℕ) → is_whitespace c ≡ false → 61 < c → IsNameChar c
letter c w h = ((λ e. omega arith), w, (λ e. omega arith))

letter_value : (c : ℕ) → is_whitespace c ≡ false → 61 < c → IsValueChar c
letter_value c w h = ((λ e. omega arith), w)

tunnel-IsName : All IsNameChar (codes "tunnel")
unfolding is_whitespace
tunnel-IsName = (
  letter b't' refl (omega arith),
  (
    letter b'u' refl (omega arith),
    (
      letter b'n' refl (omega arith),
      (
        letter b'n' refl (omega arith),
        (letter b'e' refl (omega arith), (letter b'l' refl (omega arith), tt)),
      ),
    ),
  ),
)

app-IsValue : All IsValueChar (codes "app")
unfolding is_whitespace
app-IsValue = (
  letter_value b'a' refl (omega arith),
  (letter_value b'p' refl (omega arith), (letter_value b'p' refl (omega arith), tt)),
)

get_cookie_value-print_example :
    get_cookie_value plain asks_app.headers (codes "tunnel")
    ≡ get (codes "tunnel") ((codes "tunnel", codes "app") ∷ [])
unfolding get
get_cookie_value-print_example =
    get_cookie_value-print (codes "tunnel") tunnel-IsName plain asks_app.headers
      (codes "tunnel=app") ((codes "tunnel", codes "app") ∷ []) ((tunnel-IsName, app-IsValue), tt)
      refl refl

-- What the handler answers to the request with the cookie `tunnel=app`.
abbrev outcome : AppState ℕ ℕ ℕ × Reply (Response plain)
outcome = proxy_handler plain scaled call asks_app state

abbrev served : Response plain
served = record {
  status = 200;
  headers = (codes "set-cookie", codes "tunnel=app; Path=/; HttpOnly") ∷ [];
  body = [];
}

answers : outcome ≡ (outcome.0, ok served)
unfolding proxy_handler get_cookie_value find_cookie trim trim_start trim_end split is_whitespace
    get insert is_healthy forward_sticky forward_via_tunnel after_send conclude build_response
    copy_headers insert_tunnel_cookie to_pairs headers_to_map tunnel_cookie
answers = refl

proxy_handler-Served_example : Served plain scaled call asks_app state outcome.0 served
proxy_handler-Served_example =
    proxy_handler-Served plain scaled call asks_app state outcome.0 served answers

-- The message cannot be sent.
abbrev unsent : AppState ℕ ℕ ℕ × Reply (Response plain)
unsent = forward_via_tunnel plain scaled (exchange false) (codes "app") asks_app 1 state

unsent_err : unsent ≡ (unsent.0, err bad_gateway)
unfolding forward_via_tunnel after_send
unsent_err = refl

forward_via_tunnel-pending_example : get (codes "r1") unsent.0.responses ≡ none
forward_via_tunnel-pending_example =
    forward_via_tunnel-pending plain scaled (exchange false) (codes "app") asks_app 1 state unsent.0
      bad_gateway unsent_err (inl refl)

-- A trip whose message cannot be sent.
abbrev trip : Trip ℕ ℕ ℕ ℕ
trip = record {
  request_id = codes "r2";
  resp_tx = 6;
  to_string = λ m. some [];
  json_message = [];
  send = λ tx m s. (s, false);
  receive = λ s. (s, none);
}

-- The tunnel `app` has no record, so that decide_routing does not force the cloud.
proxy_handler-decide_routing_example :
    (decide_routing (codes "app") state.health_data 0 ≢ force_cloud
      → age (get (codes "app") state.health_data) 0 ≢ some stale_threshold
      → proxy_handler plain scaled call asks_app state
        ≡ forward_sticky plain scaled call asks_app (codes "app") 1 state)
    × ((decide_routing (codes "app") state.health_data 0 ≡ force_cloud)
          ⊎ (age (get (codes "app") state.health_data) 0 ≡ some stale_threshold)
        → proxy_handler plain scaled call asks_app state
          ≡ forward_to_best plain scaled call asks_app state)
unfolding get_cookie_value find_cookie trim trim_start trim_end split is_whitespace get
proxy_handler-decide_routing_example =
    proxy_handler-decide_routing plain scaled call asks_app state (codes "app") 1 refl refl
