-- ===== src/Gateway/Login.antt =====
-- The login of a tunnel client (rathole/src/lib.rs: login), and the use of its token by handle_socket
-- (rathole/src/main.rs). Times are in seconds; the crate jsonwebtoken is a parameter.
use rathole_with_proxy.Base.{
  ℕ, ◌+◌, ◌*◌, ◌≤◌, ◌≡◌, refl, Bool, true, false, ◌&&◌, Option, none, some, List, Text, text_eq,
  codes, ◌==◌, ==_iff, if◌then◌else◌, arith,
}
use rathole_with_proxy.Float.{Float}
use rathole_with_proxy.Message.{ControlMessage}
use rathole_with_proxy.Gateway.{
  Gateway, Incoming, Event, handle_socket, forward_loop, register_tunnel, finish,
}
use rathole_with_proxy.Gateway.Tunnel.{AppError, Outcome, ok, err}

pub record Claims : Type 0 where
  pub sub : Text
  pub exp : ℕ

pub record LoginPayload : Type 0 where
  pub username : Text
  pub password : Text

pub data Encoded : Type 0 where
  signed jwt_error : Text → Encoded

-- `encode`, and `decode` at a time, with the default header and validation: a token that is not
-- expired gives its claims under the secret that it was made with.
pub record Jwt : Type 0 where
  pub encode : (secret : Text) → Claims → Encoded
  pub decode : (secret jwt : Text) → (now : ℕ) → Option Claims
  pub decode-encode :
      (secret : Text) (c : Claims) (jwt : Text) (now : ℕ)
      → encode secret c ≡ Encoded.signed jwt
      → now ≤ c.exp
      → decode secret jwt now ≡ some c

abbrev pub days : ℕ → ℕ
days n = n * 86_400

abbrev pub issue : Encoded → Outcome Text
issue (Encoded.signed jwt) = ok jwt
issue (Encoded.jwt_error e) = err (AppError.jwt_error e)

abbrev pub is_ok : Option Claims → Bool
is_ok none = false
is_ok (some c) = true

module _ (j : Jwt) where
  unfoldable pub login : (jwt_secret : Text) → (now : ℕ) → LoginPayload → Outcome Text
  login jwt_secret now payload =
      if payload.username == codes "test" && payload.password == codes "test"
      then issue (j.encode jwt_secret (record { sub = codes "test"; exp = now + days 1 }))
      else err AppError.invalid_credentials

  -- The check of handle_socket.
  abbrev pub verify : (now : ℕ) → (jwt_secret jwt : Text) → Bool
  verify now jwt_secret jwt = is_ok (j.decode jwt_secret jwt now)

  login-cases :
      (secret : Text) (now : ℕ) (p : LoginPayload) (jwt : Text)
      → login secret now p ≡ ok jwt
      → ((p.username == codes "test") ≡ true)
        × ((p.password == codes "test") ≡ true)
        × (issue (j.encode secret (record { sub = codes "test"; exp = now + days 1 })) ≡ ok jwt)
  unfolding login
  login-cases secret now p jwt h = ground arith

  issue-ok : (e : Encoded) (jwt : Text) → issue e ≡ ok jwt → e ≡ Encoded.signed jwt
  issue-ok (Encoded.signed t) jwt h = ground arith
  issue-ok (Encoded.jwt_error e) jwt h = absurd cc

  -- Only the one known user gets a token, and for a day it opens a tunnel under every id: a socket
  -- whose first message brings it is registered and served until it ends, if the store takes the
  -- status.
  pub login-handle_socket :
      (f : Float) {S W : Type 0} (parse : Text → Option (ControlMessage f.Carrier)) (id : Text)
      (tx : S) (t target jwt : Text) (es : List (Event S W f.Carrier)) (g : Gateway S W f.Carrier)
      (p : LoginPayload) (now later : ℕ)
      → login g.app.jwt_secret now p ≡ ok jwt
      → later ≤ now + days 1
      → parse t ≡ some (ControlMessage.register jwt target)
      → (p.username ≡ codes "test")
        × (p.password ≡ codes "test")
        × (handle_socket f (verify later) parse id tx (Incoming.text t) es true g
            ≡ finish id (forward_loop f parse id es (register_tunnel id tx g)))
  unfolding handle_socket
  login-handle_socket f parse id tx t target jwt es g p now later h fresh q =
      let (user, password, issued) = login-cases g.app.jwt_secret now p jwt h in
      let c : Claims = record { sub = codes "test"; exp = now + days 1 } in
      let e = issue-ok (j.encode g.app.jwt_secret c) jwt issued in
      let d = j.decode-encode g.app.jwt_secret c jwt later e fresh in
      (
        ground (arith, ==_iff p.username (codes "test")),
        ground (arith, ==_iff p.password (codes "test")),
        rw (q, d) refl,
      )
