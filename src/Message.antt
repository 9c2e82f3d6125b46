-- ===== src/Message.antt =====
-- The messages between proxy and tunnel client (rathole/src/protocol.rs: HttpRequest, HttpResponse,
-- TemperaturesData, HardwareData, ControlMessage).
use rathole_with_proxy.Base.{ℕ, Option, List, Text, Bytes}

pub record HttpRequest : Type 0 where
  pub method : Text
  pub path : Text
  pub headers : List (Text × Text)
  pub body : Bytes

pub record HttpResponse : Type 0 where
  pub status : ℕ
  pub headers : List (Text × Text)
  pub body : Bytes

pub record TemperaturesData (F : Type 0) : Type 0 where
  pub avg_temp : Option F
  pub max_temp : Option F

pub record HardwareData (F : Type 0) : Type 0 where
  pub operating_system : Text
  pub avg_memory_usage : F
  pub total_memory : ℕ
  pub used_memory : ℕ
  pub avg_swap_usage : F
  pub total_swap : ℕ
  pub used_swap : ℕ
  pub cpu_usage : F
  pub temperatures_data : TemperaturesData F
  pub timestamp : Text

-- `F` is the type of `f32`.
pub data ControlMessage (F : Type 0) : Type 0 where
  register : (token target_subdomain : Text) → ControlMessage F
  request : (request_id : Text) (http : HttpRequest) → ControlMessage F
  response : (request_id : Text) (http : HttpResponse) → ControlMessage F
  health_update : (hardware_data : HardwareData F) (timestamp : Text) → ControlMessage F
