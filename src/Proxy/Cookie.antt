-- ===== src/Proxy/Cookie.antt =====
-- The tunnel cookie (rathole/src/proxy.rs: get_cookie_value, insert_tunnel_cookie).
pub mod Roundtrip
use rathole_with_proxy.Base.{
  ℕ, Bool, true, false, ◌&&◌, ◌||◌, Option, none, some, List, [], ◌∷◌, ◌++◌, Text, codes,
  strip_prefix, eqb, leb, if◌then◌else◌,
}
use rathole_with_proxy.Proxy.Http.{Http, Response, Reply, ok, ◌>>=◌, unwrap}

-- `char::is_whitespace`: the code points with the property White_Space.
unfoldable pub is_whitespace : ℕ → Bool
is_whitespace c =
    (leb 9 c && leb c 13)
    || eqb c 32
    || eqb c 133
    || eqb c 160
    || eqb c 5760
    || (leb 8192 c && leb c 8202)
    || eqb c 8232
    || eqb c 8233
    || eqb c 8239
    || eqb c 8287
    || eqb c 12288

unfoldable pub trim_start : Text → Text
trim_start [] = []
trim_start (c ∷ cs) = let rest = trim_start cs in if is_whitespace c then rest else c ∷ cs

-- One more character before a text whose end is trimmed.
abbrev pub keep_char : ℕ → Text → Text
keep_char c [] = if is_whitespace c then [] else c ∷ []
keep_char c (d ∷ ds) = c ∷ d ∷ ds

unfoldable pub trim_end : Text → Text
trim_end [] = []
trim_end (c ∷ cs) = keep_char c (trim_end cs)

-- `str::trim`
unfoldable pub trim : Text → Text
unfolding trim_start trim_end
trim s = trim_end (trim_start s)

-- The part before the first separator goes on with `c`.
abbrev pub grow : ℕ → List Text → List Text
grow c [] = (c ∷ []) ∷ []
grow c (p ∷ ps) = (c ∷ p) ∷ ps

-- `str::split` at one character; a text without it is one part.
unfoldable pub split : ℕ → Text → List Text
split sep [] = [] ∷ []
split sep (c ∷ cs) = let rest = split sep cs in if eqb c sep then [] ∷ rest else grow c rest

-- The loop over the parts: the first that has the prefix wins.
unfoldable pub find_cookie : Text → List Text → Option Text
find_cookie prefix [] = none
find_cookie prefix (p ∷ ps) = elim (strip_prefix prefix (trim p)) [
  | some v ↦ some v
  | none ↦ find_cookie prefix ps
]

module _ (h : Http) where
  -- What the lookup makes of the value of the header.
  abbrev pub cookie_in : Text → Option Text → Option Text
  cookie_in name none = none
  cookie_in name (some s) = find_cookie (name ++ codes "=") (split b';' s)

  abbrev pub header_text : Option h.Value → Option Text
  header_text none = none
  header_text (some v) = h.to_str v

  unfoldable pub get_cookie_value : h.Headers → Text → Option Text
  get_cookie_value headers name =
      cookie_in name (header_text (h.get_header headers (codes "cookie")))

  -- The text of the cookie that names a tunnel.
  unfoldable pub tunnel_cookie : Text → Text
  tunnel_cookie value = codes "tunnel=" ++ value ++ codes "; Path=/; HttpOnly"

  unfoldable pub insert_tunnel_cookie : Response h → Text → Reply (Response h)
  insert_tunnel_cookie resp value = do
    v ← unwrap (h.from_str (tunnel_cookie value))
    ok (record resp { headers = h.insert_header resp.headers (codes "set-cookie") v })
