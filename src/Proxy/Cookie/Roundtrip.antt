-- ===== src/Proxy/Cookie/Roundtrip.antt =====
-- The lookup of a cookie in a header that a browser writes (rathole/src/proxy.rs: get_cookie_value).
use rathole_with_proxy.Base.{
  ℕ, ◌≡◌, ◌≢◌, ◌∙◌, refl, false, none, some, List, [], ◌∷◌, ◌++◌, map, Text, text_eq, codes,
  strip_prefix, get, All, arith, ◌==◌, if◌then◌else◌,
}
use rathole_with_proxy.Proxy.Http.{Http}
use rathole_with_proxy.Proxy.Cookie.{
  is_whitespace, trim_end, trim, split, find_cookie, get_cookie_value,
}

-- `name=value`
abbrev pub pair : Text × Text → Text
pair (k, v) = k ++ b'=' ∷ v

-- The Cookie header of some cookies: `a=b; c=d`.
abbrev pub print : List (Text × Text) → Text
print [] = []
print (p ∷ []) = pair p
print (p ∷ q ∷ ps) = pair p ++ b';' ∷ 32 ∷ print (q ∷ ps)

abbrev pub IsNameChar : ℕ → Type 0
IsNameChar c = (c ≢ b';') × (is_whitespace c ≡ false) × (c ≢ b'=')

abbrev pub IsValueChar : ℕ → Type 0
IsValueChar c = (c ≢ b';') × (is_whitespace c ≡ false)

-- Names without `;`, `=` and white space, and values without `;` and white space.
abbrev pub IsCookie : Text × Text → Type 0
IsCookie (k, v) = All IsNameChar k × All IsValueChar v

split_self : (s : Text) → All IsValueChar s → split b';' s ≡ s ∷ []
unfolding split
split_self [] a = refl
split_self (c ∷ cs) a = ground (arith, split_self cs a.1)

split-append :
    (s rest : Text) → All IsValueChar s → split b';' (s ++ b';' ∷ rest) ≡ s ∷ split b';' rest
unfolding split
split-append [] rest a = refl
split-append (c ∷ cs) rest a = ground (arith, split-append cs rest a.1)

All-pair : (k v : Text) → All IsNameChar k → All IsValueChar v → All IsValueChar (pair (k, v))
unfolding is_whitespace
All-pair [] v a b = (((λ (e : ◌≡◌ {A = ℕ} b'=' b';'). omega arith), refl), b)
All-pair (c ∷ cs) v a b = ((a.0.0, a.0.1), All-pair cs v a.1 b)

trim_end_self : (s : Text) → All IsValueChar s → trim_end s ≡ s
unfolding trim_end
trim_end_self [] a = refl
trim_end_self (c ∷ []) a = ground arith
trim_end_self (c ∷ d ∷ ds) a = rw (trim_end_self (d ∷ ds) a.1)

trim_self : (s : Text) → All IsValueChar s → trim s ≡ s
unfolding trim
trim_self [] a = refl
trim_self (c ∷ cs) a = ground (arith, trim_end_self (c ∷ cs) a)

trim-space : (s : Text) → All IsValueChar s → trim (32 ∷ s) ≡ s
unfolding trim is_whitespace
trim-space s a = trim_self s a

strip_prefix-pair :
    (name k v : Text)
    → All IsNameChar name
    → All IsNameChar k
    → strip_prefix (name ++ codes "=") (pair (k, v)) ≡ (if k == name then some v else none)
strip_prefix-pair [] [] v a b = refl
strip_prefix-pair [] (c ∷ cs) v a b = ground arith
strip_prefix-pair (n ∷ ns) [] v a b = ground arith
strip_prefix-pair (n ∷ ns) (c ∷ cs) v a b = ground (arith, strip_prefix-pair ns cs v a.1 b.1)

strip_prefix-empty : (name : Text) → strip_prefix (name ++ codes "=") [] ≡ none
strip_prefix-empty [] = refl
strip_prefix-empty (n ∷ ns) = refl

split-print :
    (p : Text × Text) (ps : List (Text × Text))
    → All IsCookie (p ∷ ps)
    → split b';' (print (p ∷ ps)) ≡ pair p ∷ map (λ q. 32 ∷ pair q) ps
unfolding split
split-print (k, v) [] a = split_self (pair (k, v)) (All-pair k v a.0.0 a.0.1)
split-print (k, v) (q ∷ qs) a =
    split-append (pair (k, v)) (32 ∷ print (q ∷ qs)) (All-pair k v a.0.0 a.0.1)
    ∙ rw (split-print q qs a.1)

module _ (name : Text) (ok : All IsNameChar name) where
  find_cookie-spaced :
      (ps : List (Text × Text))
      → All IsCookie ps
      → find_cookie (name ++ codes "=") (map (λ q. 32 ∷ pair q) ps) ≡ get name ps
  unfolding find_cookie get
  find_cookie-spaced [] a = refl
  find_cookie-spaced ((k, v) ∷ ps) a = ground (
    arith,
    trim-space (pair (k, v)) (All-pair k v a.0.0 a.0.1),
    strip_prefix-pair name k v ok a.0.0,
    find_cookie-spaced ps a.1,
  )

  find_cookie-print :
      (ps : List (Text × Text))
      → All IsCookie ps
      → find_cookie (name ++ codes "=") (split b';' (print ps)) ≡ get name ps
  unfolding find_cookie get split
  find_cookie-print [] a = ground (arith, trim_self [] tt, strip_prefix-empty name)
  find_cookie-print ((k, v) ∷ ps) a = rw (split-print (k, v) ps a) (
      ground (
        arith,
        trim_self (pair (k, v)) (All-pair k v a.0.0 a.0.1),
        strip_prefix-pair name k v ok a.0.0,
        find_cookie-spaced ps a.1,
      ))

  -- In a Cookie header that a browser writes for some cookies, the lookup of a name finds
  -- the value of the first cookie of that name, and nothing if there is none. Names are
  -- without `;`, `=` and white space, values without `;` and white space.
  pub get_cookie_value-print :
      (h : Http) (headers : h.Headers) (v : h.Value) (ps : List (Text × Text))
      → All IsCookie ps
      → h.get_header headers (codes "cookie") ≡ some v
      → h.to_str v ≡ some (print ps)
      → get_cookie_value h headers name ≡ get name ps
  unfolding get_cookie_value
  get_cookie_value-print h headers v ps a e t = rw (e, t) (find_cookie-print ps a)
