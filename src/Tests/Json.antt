-- ===== src/Tests/Json.antt =====
-- A codec for the messages of rathole/src/protocol.rs that gives back what it is given: it meets what
-- the client of rathole/src/bin/client.rs asks of JSON.
use rathole_with_proxy.Base.{
  ℕ, zero, suc, ◌≡◌, refl, Option, none, some, List, [], ◌∷◌, ◌++◌, Text, length, take, drop,
  take-append, drop-append,
}
use rathole_with_proxy.Float.Scaled.{scaled}
use rathole_with_proxy.Message.{HttpRequest, HttpResponse, ControlMessage}
use rathole_with_proxy.HttpClient.{dummy_hardware_data}
use rathole_with_proxy.HttpClient.Exchange.{IsJson}

abbrev put : Text → Text
put t = length t ∷ t

abbrev take_text : Text → Text × Text
take_text [] = ([], [])
take_text (n ∷ s) = (take n s, drop n s)

-- A text, and what follows it.
abbrev then_text : {A : Type 0} → (Text → Text → A) → Text → A
then_text k s = let (t, rest) = take_text s in k t rest

abbrev put_pairs : List (Text × Text) → Text
put_pairs [] = []
put_pairs ((k, v) ∷ ps) = put k ++ (put v ++ put_pairs ps)

abbrev take_pairs : ℕ → Text → List (Text × Text)
take_pairs zero s = []
take_pairs (suc n) s = then_text (λ k. then_text (λ v rest. (k, v) ∷ take_pairs n rest)) s

take_pairs-put : (ps : List (Text × Text)) → take_pairs (length ps) (put_pairs ps) ≡ ps
take_pairs-put [] = refl
take_pairs-put ((k, v) ∷ ps) = simp (take-append, drop-append, take_pairs-put ps)

-- The headers at the end.
abbrev put_headers : List (Text × Text) → Text
put_headers ps = length ps ∷ put_pairs ps

abbrev take_headers : Text → List (Text × Text)
take_headers [] = []
take_headers (n ∷ s) = take_pairs n s

abbrev pub encode : ControlMessage ℕ → Text
encode (ControlMessage.register token target) = 0 ∷ put token ++ target
encode (ControlMessage.request id r) =
    1 ∷ (put id ++ (put r.method ++ (put r.path ++ (put r.body ++ put_headers r.headers))))
encode (ControlMessage.response id r) =
    2 ∷ r.status ∷ (put id ++ (put r.body ++ put_headers r.headers))
encode (ControlMessage.health_update d t) = 3 ∷ t

abbrev take_request : Text → ControlMessage ℕ
take_request = then_text λ id. then_text λ method. then_text λ path. then_text λ body s.
    ControlMessage.request id
      (record { method = method; path = path; headers = take_headers s; body = body })

abbrev take_response : Text → Option (ControlMessage ℕ)
take_response [] = none
take_response (status ∷ s) = some (
    then_text
      (λ id. then_text λ body rest.
        ControlMessage.response id
          (record { status = status; headers = take_headers rest; body = body }))
      s)

abbrev pub decode : Text → Option (ControlMessage ℕ)
decode [] = none
decode (zero ∷ s) = some (then_text ControlMessage.register s)
decode (suc zero ∷ s) = some (take_request s)
decode (suc (suc zero) ∷ s) = take_response s
decode (suc (suc (suc n)) ∷ s) = some (ControlMessage.health_update (dummy_hardware_data scaled) s)

request_read :
    (id : Text) (r : HttpRequest)
    → decode (encode (ControlMessage.request id r)) ≡ some (ControlMessage.request id r)
request_read id r = simp (take-append, drop-append, take_pairs-put r.headers)

response_read :
    (id : Text) (r : HttpResponse)
    → decode (encode (ControlMessage.response id r)) ≡ some (ControlMessage.response id r)
response_read id r = simp (take-append, drop-append, take_pairs-put r.headers)

pub json : IsJson scaled (λ m. some (encode m)) decode
json = record {
  encode = encode;
  written = λ m. refl;
  request_read = request_read;
  response_read = response_read;
  health_read = λ t. refl;
}
