-- ===== src/Tests/Logins.antt =====
-- Inputs for the login of rathole/src/lib.rs: a web token that is its expiry, the secret and the
-- subject.
use rathole_with_proxy.Base.{
  ℕ, ◌≡◌, ◌≤◌, refl, sym, true, Option, none, some, [], ◌∷◌, ◌++◌, Text, codes, eqb, leb,
  if◌then◌else◌, arith,
}
use rathole_with_proxy.Float.Scaled.{scaled}
use rathole_with_proxy.Message.{ControlMessage}
use rathole_with_proxy.Gateway.{Incoming, handle_socket, forward_loop, register_tunnel, finish}
use rathole_with_proxy.Gateway.Login.{
  Claims, LoginPayload, Encoded, Jwt, login, verify, login-handle_socket,
}
use rathole_with_proxy.Tests.Sockets.{gateway}

strip_prefix : Text → Text → Option Text
strip_prefix [] t = some t
strip_prefix (a ∷ s) [] = none
strip_prefix (a ∷ s) (b ∷ t) = let rest = strip_prefix s t in if eqb a b then rest else none

strip_prefix-append : (s t : Text) → strip_prefix s (s ++ t) ≡ some t
unfolding strip_prefix
strip_prefix-append [] t = refl
strip_prefix-append (a ∷ s) t = ground (arith, strip_prefix-append s t)

abbrev claims_until : ℕ → (now : ℕ) → Option Text → Option Claims
claims_until exp now none = none
claims_until exp now (some sub) =
    if leb now exp then some (record { sub = sub; exp = exp }) else none

decode : (secret jwt : Text) → (now : ℕ) → Option Claims
unfolding strip_prefix
decode secret [] now = none
decode secret (exp ∷ rest) now = claims_until exp now (strip_prefix secret rest)

abbrev encode : (secret : Text) → Claims → Encoded
encode secret c = Encoded.signed (c.exp ∷ secret ++ c.sub)

decode-encode :
    (secret : Text) (c : Claims) (jwt : Text) (now : ℕ)
    → encode secret c ≡ Encoded.signed jwt
    → now ≤ c.exp
    → decode secret jwt now ≡ some c
unfolding decode
decode-encode secret c jwt now e h =
    let q : c.exp ∷ secret ++ c.sub ≡ jwt = ground arith in
    rw (sym q) (ground (arith, strip_prefix-append secret c.sub))

abbrev jwts : Jwt
jwts = record { encode = encode; decode = decode; decode-encode = decode-encode }

abbrev known : LoginPayload
known = record { username = codes "test"; password = codes "test" }

-- The token of a login at second 1,000 under the secret of the gateway.
abbrev issued : Text
issued = 87_400 ∷ codes "secrettest"

abbrev parse : Text → Option (ControlMessage ℕ)
parse t = some (ControlMessage.register t (codes "app"))

login-handle_socket_example :
    (known.username ≡ codes "test")
    × (known.password ≡ codes "test")
    × (handle_socket scaled
          (verify jwts 80_000)
          parse
          (codes "app")
          2
          (Incoming.text issued)
          []
          true
          gateway
        ≡ finish
            (codes "app")
            (forward_loop scaled parse (codes "app") [] (register_tunnel (codes "app") 2 gateway)))
unfolding login
login-handle_socket_example =
    login-handle_socket jwts scaled parse (codes "app") 2 issued (codes "app") issued [] gateway
      known 1_000 80_000 refl (omega arith) refl
