-- ===== src/Proxy/State.antt =====
-- The shared state of the proxy, and what a request meets outside it (rathole/src/proxy.rs: AppState
-- and the awaits of forward_via_tunnel and forward_to_cloud).
use rathole_with_proxy.Base.{ℕ, Bool, Option, Text, Bytes, HashMap}
use rathole_with_proxy.Float.{Float}
use rathole_with_proxy.Health.{TunnelHealth, Reads}
use rathole_with_proxy.Message.{ControlMessage, HttpResponse}
use rathole_with_proxy.Proxy.Http.{Http}

-- `S` is the sender of a tunnel, `W` the sender of one pending response, `F` is `f64`.
pub record AppState (S W F : Type 0) : Type 0 where
  pub tunnels : HashMap Text S
  pub responses : HashMap Text W
  pub jwt_secret : Text
  pub default_cloud_backend : Text
  pub request_timeout : ℕ
  pub health_data : HashMap Text (TunnelHealth F)

-- How the wait for the response of a tunnel ends.
pub data Answer : Type 0 where
  answered : HttpResponse → Answer
  dropped timed_out : Answer

-- How the request to the cloud backend ends: with a response whose body may be unreadable, with an
-- error, or by the timeout.
pub data CloudAnswer (h : Http) : Type 0 where
  responded : (status : ℕ) (headers : h.Headers) (body : Option Bytes) → CloudAnswer h
  failed late : CloudAnswer h

-- One call of forward_via_tunnel as its surroundings answer it. Other tasks may change the state
-- while it sends and while it waits. `F32` is the type of `f32`.
pub record Exchange (f : Float) (F32 S W : Type 0) : Type 0 where
  -- the new uuid, and the sending half of the new oneshot channel
  pub request_id : Text
  pub resp_tx : W
  -- `serde_json::to_string`
  pub to_string : ControlMessage F32 → Option Text
  pub send : S → Text → AppState S W f.Carrier → AppState S W f.Carrier × Bool
  pub wait : AppState S W f.Carrier → AppState S W f.Carrier × Answer
  pub latency_ms : f.Carrier
  pub reads : Reads
