-- ===== src/Tests/Exchanges.antt =====
-- Inputs for rathole/src/bin/client.rs.
use rathole_with_proxy.Base.{
  ℕ, ◌≡◌, ◌≢◌, refl, ◌++◌, get, ap, true, some, List, [], ◌∷◌, Text, codes, arith, map,
}
use rathole_with_proxy.Float.Scaled.{scaled}
use rathole_with_proxy.Gateway.{Gateway}
use rathole_with_proxy.HttpClient.{End, run, serve}
use rathole_with_proxy.HttpClient.Exchange.{
  Item, Job, job, beat, jobs, answers, arrives, hear, Settled, run-answers,
}
use rathole_with_proxy.Tests.Handler.{plain}
use rathole_with_proxy.Tests.Json.{encode, decode, json}

-- A GET of a path, which the local server answers with the status.
abbrev get_path : Text → Text → ℕ → ℕ → Job plain ℕ
get_path id path status waiter = record {
  request_id = id;
  http = record { method = codes "GET"; path = path; headers = []; body = [] };
  waiter = waiter;
  local = λ r. some (record { status = status; headers = []; body = some r.uri });
  answer = record { status = status; headers = []; body = codes "http://127.0.0.1:8000" ++ path };
}

abbrev items : List (Item plain ℕ)
items =
    job (get_path (codes "r2") (codes "/a") 200 6)
    ∷ beat []
    ∷ job (get_path (codes "r1") (codes "/b") 404 5)
    ∷ []

abbrev two_wait : Gateway ℕ ℕ ℕ
two_wait = record {
  app = record {
    tunnels = [];
    responses = (codes "r1", 5) ∷ (codes "r2", 6) ∷ [];
    jwt_secret = [];
    default_cloud_backend = [];
    request_timeout = 10;
    health_data = [];
  };
  delivered = [];
  status = [];
  cleanup = [];
}

-- The second code point.
abbrev second : Text → ℕ
second (c ∷ d ∷ s) = d
second s = 0

apart : codes "r2" ≢ codes "r1"
apart e = absurd (omega (arith, ap second e))

run-answers_example :
    let (l, e) =
      run plain scaled
        (λ m. true)
        (λ m. some (encode m))
        decode
        (map (arrives plain scaled (λ m. true) (λ m. some (encode m)) decode json) items)
        (record { sent = []; writes = 3 }) in
    (e ≡ End.waiting)
    × ((hear scaled decode (codes "app") 0 l.sent two_wait).delivered
        ≡ two_wait.delivered ++ answers (jobs items))
    × Settled (hear scaled decode (codes "app") 0 l.sent two_wait) (jobs items)
unfolding serve get
run-answers_example =
    run-answers plain scaled (λ m. true) (λ m. some (encode m)) decode json (codes "app") 0 items 3
      two_wait (omega arith) (refl, (refl, tt)) ((apart, tt), (tt, tt)) (refl, (refl, tt))
