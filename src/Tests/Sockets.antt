-- ===== src/Tests/Sockets.antt =====
-- Inputs for rathole/src/main.rs and rathole/src/hardware.rs.
use rathole_with_proxy.Base.{
  ℕ, ◌≡◌, ◌≢◌, refl, Bool, true, false, Option, none, some, [], ◌∷◌, Text, text_eq, codes, get,
}
use rathole_with_proxy.Float.Scaled.{scaled}
use rathole_with_proxy.Message.{HardwareData, HttpResponse, ControlMessage}
use rathole_with_proxy.Gateway.{Gateway, Incoming, handle_socket, clean_up}
use rathole_with_proxy.Gateway.Socket.{clean_up-handle_socket}

abbrev data_of : (used cpu : ℕ) → HardwareData ℕ
data_of used cpu = record {
  operating_system = codes "Linux";
  avg_memory_usage = 0;
  total_memory = 8;
  used_memory = used;
  avg_swap_usage = 0;
  total_swap = 8;
  used_swap = 0;
  cpu_usage = cpu;
  temperatures_data = record { avg_temp = none; max_temp = none };
  timestamp = [];
}

abbrev reply : ℕ → HttpResponse
reply status = record { status = status; headers = []; body = [] }

abbrev pub gateway : Gateway ℕ ℕ ℕ
gateway = record {
  app = record {
    tunnels = (codes "app", 1) ∷ [];
    responses = (codes "r1", 5) ∷ [];
    jwt_secret = codes "secret";
    default_cloud_backend = [];
    request_timeout = 10;
    health_data = [];
  };
  delivered = [];
  status = [];
  cleanup = codes "app" ∷ [];
}

abbrev verify : Text → Text → Bool
verify secret token = false

abbrev parse : Text → Option (ControlMessage ℕ)
parse t = some (ControlMessage.register t [])

abbrev forged : Incoming
forged = Incoming.text (codes "forged")

-- No clean-up is due.
abbrev idle : Gateway ℕ ℕ ℕ
idle = record gateway { cleanup = [] }

clean_up-handle_socket_example :
    (r : Gateway ℕ ℕ ℕ) × (clean_up true
        (handle_socket scaled verify parse (codes "app") 2 forged [] true idle)
      ≡ some r)
    × (get (codes "app") r.app.tunnels ≡ none)
    × ((k : Text) → k ≢ codes "app" → get k r.app.tunnels ≡ get k idle.app.tunnels)
clean_up-handle_socket_example =
    clean_up-handle_socket scaled verify parse (codes "app") 2 forged [] true idle
      (λ v. absurd (cc)) (λ t e q. absurd (cc)) refl
