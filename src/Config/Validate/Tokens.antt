-- ===== src/Config/Validate/Tokens.antt =====
-- What a validated configuration has (rathole/src/config.rs: impl Config).
use rathole_with_proxy.Base.{
  ℕ, ◌≡◌, ◌≢◌, refl, ◌⊎◌, inl, inr, Option, none, some, [], ◌∷◌, All, In, Text, HashMap,
  Option-cases, arith, text_eq, keys, ap,
}
use rathole_with_proxy.Config.{ClientServiceConfig, ServerServiceConfig}
use rathole_with_proxy.Config.Validate.{
  ConfigError, Result, ok, err, token_or, fill_server, fill_client, retry_or,
}

-- A service of a server has the name of its key, and a token.
abbrev pub ServerReady : Text × ServerServiceConfig → Type 0
ServerReady e = (e.1.name ≡ e.0) × (e.1.token ≢ none)

abbrev pub ClientReady : Text × ClientServiceConfig → Type 0
ClientReady e = (e.1.name ≡ e.0) × (e.1.token ≢ none) × (e.1.retry_interval ≢ none)

pub Result-cases :
    {A : Type 0} (r : Result A) → ((e : ConfigError) × (r ≡ err e)) ⊎ ((a : A) × (r ≡ ok a))
Result-cases (err e) = inl (e, refl)
Result-cases (ok a) = inr (a, refl)

-- Either all services of a server get the name of their key and a token, and no key is lost,
-- or the error names a service of the configuration, and there is no default token.
pub fill_server-cases :
    (d : Option Text) (m : HashMap Text ServerServiceConfig)
    → ((out : HashMap Text ServerServiceConfig) × (fill_server d m ≡ ok out)
        × All ServerReady out
        × (keys out ≡ keys m))
      ⊎ ((k : Text) × (fill_server d m ≡ err (ConfigError.token_not_set k))
          × In k (keys m)
          × (d ≡ none))
unfolding fill_server
fill_server-cases d [] = inl ([], refl, tt, refl)
fill_server-cases d ((k, s) ∷ m) = elim (Option-cases (token_or s.token d)) [
  | inl t ↦ inr (k, ground arith, inl refl, ground arith)
  | inr (t, q) ↦ elim (fill_server-cases d m) [
    | inr (j, e, i, n) ↦ inr (j, ground arith, inr i, n)
    | inl (out, e, r, n) ↦ inl (
      (k, record s { name = k; token = some t }) ∷ out,
      ground arith,
      ((refl, (λ h. cc)), r),
      ap (◌∷◌ k) n,
    )
  ]
]

retry_set : (o : Option ℕ) (n : ℕ) → retry_or o n ≢ none
retry_set none n h = cc
retry_set (some a) n h = cc

pub fill_client-cases :
    (d : Option Text) (n : ℕ) (m : HashMap Text ClientServiceConfig)
    → ((out : HashMap Text ClientServiceConfig) × (fill_client d n m ≡ ok out)
        × All ClientReady out
        × (keys out ≡ keys m))
      ⊎ ((k : Text) × (fill_client d n m ≡ err (ConfigError.token_not_set k))
          × In k (keys m)
          × (d ≡ none))
unfolding fill_client
fill_client-cases d n [] = inl ([], refl, tt, refl)
fill_client-cases d n ((k, s) ∷ m) = elim (Option-cases (token_or s.token d)) [
  | inl t ↦ inr (k, ground arith, inl refl, ground arith)
  | inr (t, q) ↦ elim (fill_client-cases d n m) [
    | inr (j, e, i, z) ↦ inr (j, ground arith, inr i, z)
    | inl (out, e, r, z) ↦ inl (
      (k, record s { name = k; token = some t; retry_interval = retry_or s.retry_interval n })
          ∷ out,
      ground arith,
      ((refl, (λ h. cc), retry_set s.retry_interval n), r),
      ap (◌∷◌ k) z,
    )
  ]
]
