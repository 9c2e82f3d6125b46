-- ===== src/Server/Run/Turns.antt =====
-- What the turn of a task keeps (rathole/src/server.rs: handle_connection, as Server::run spawns it).
use rathole_with_proxy.Base.{
  ℕ, zero, suc, ◌≡◌, refl, Option, none, some, List, [], ◌∷◌, ◌++◌, All, ==_refl, HashMap, text_eq,
  get, arith, subst,
}
use rathole_with_proxy.Config.{ServerServiceConfig}
use rathole_with_proxy.MultiMap.{key1}
use rathole_with_proxy.MultiMap.Table.{without, table_insert}
use rathole_with_proxy.Protocol.{Codec, Digest, Hello}
use rathole_with_proxy.Protocol.Stream.{Result, ok, err, Conn, Io, ◌>>=◌, bind_inverse}
use rathole_with_proxy.Server.{
  ControlChannelHandle, ControlChannelMap, Session, new_handle, give, authenticate,
}
use rathole_with_proxy.Server.Channel.{
  Respects, bind-Respects, authenticate-Respects, data_channel-Respects,
}
use rathole_with_proxy.Server.Run.{Progress, Task, find, first, begin, next_task, run_task, run_nth}

-- A task that waits has a service that is `Ok`.
abbrev pub TaskOk : (Digest → ServerServiceConfig → Type 0) → Task → Type 0
TaskOk Ok (Task.accepted n conn) = Unit
TaskOk Ok (Task.waiting n d v conn) = Ok d v

-- `P` of the control channels is kept by a removal, by a data channel, and by a handle that is made
-- for a service that is `Ok`; the services that a task finds are.
module _ (x : Codec) (P : ControlChannelMap → Type 0) (Ok : Digest → ServerServiceConfig → Type 0)
    (drops : (d : Digest) (c : ControlChannelMap) → P c → P (without key1 d c))
    (inserts : (d n : Digest) (v : ServerServiceConfig) (h : ControlChannelHandle)
        (c : ControlChannelMap)
      → Ok d v
      → new_handle x v ≡ some h
      → P c
      → P (table_insert d n h c))
    (gives : (n : Digest) (conn : Conn) (c : ControlChannelMap) → P c → P (give x n conn c)) where
  abbrev pub R : ControlChannelMap → ControlChannelMap → Type 0
  R a b = P a → P b

  authenticate-P :
      (n d : Digest) (v : ServerServiceConfig)
      → Ok d v
      → Respects R (λ c h. h) (λ a b c f g h. g (f h)) (authenticate x n d v v.token)
  unfolding get
  authenticate-P n d v good =
      authenticate-Respects R (λ c h. h) (λ a b c f g h. g (f h)) x ((d, v) ∷ []) d (drops d)
        (λ m w h c q r. inserts d m w h c (subst (Ok d) (ground (arith, ==_refl d)) good) r) n v
        v.token (ground (arith, ==_refl d))

  abbrev pub Keeps : {A : Type 0} → Io Session A → Type 0
  Keeps = Respects R (λ c h. h) (λ a b c f g h. g (f h))

  bind-P :
      {A B : Type 0} (m : Io Session A) (k : A → Io Session B)
      → Keeps m
      → ((a : A) → Keeps (k a))
      → Keeps (m >>= k)
  bind-P = bind-Respects R (λ c h. h) (λ a b c f g h. g (f h))

  find-P : (d : Digest) (o : Option ServerServiceConfig) → Keeps (find x d o)
  find-P d none = bind-P _ _ (bind-P _ _ (λ t h. h) (λ b s h. h)) (λ a s h. h)
  find-P d (some v) = λ s h. h

  first-P :
      (services : HashMap Digest ServerServiceConfig) (n : Digest) (h : Hello)
      → Keeps (first x services n h)
  first-P services n (Hello.control_channel_hello v d) =
      bind-P _ _ (λ t h. h) (λ a. bind-P _ _ (λ t h. h) (λ b. find-P d (get d services)))
  first-P services n (Hello.data_channel_hello v d) =
      bind-P _ _ (data_channel-Respects R (λ c h. h) (λ a b c f g h. g (f h)) x gives d)
        (λ a s h. h)

  pub begin-P :
      (services : HashMap Digest ServerServiceConfig) (n : Digest) → Keeps (begin x services n)
  unfolding begin
  begin-P services n = bind-P _ _ (λ t h. h) (first-P services n)

  abbrev Found : HashMap Digest ServerServiceConfig → Progress → Type 0
  Found services (Progress.awaits_auth d v) = get d services ≡ some v
  Found services Progress.over = Unit

  find-Found :
      (services : HashMap Digest ServerServiceConfig) (d : Digest) (s : Session) (p : Progress)
      → (o : Option ServerServiceConfig) → get d services ≡ o
      → (find x d o s).1 ≡ ok p
      → Found services p
  find-Found services d s Progress.over o q h = tt
  find-Found services d s (Progress.awaits_auth e w) none q h =
      let (t, a, r, z) = bind_inverse _ _ s (Progress.awaits_auth e w) h in absurd cc
  find-Found services d s (Progress.awaits_auth e w) (some v) q h = ground arith

  first-Found :
      (services : HashMap Digest ServerServiceConfig) (n : Digest) (h : Hello) (s : Session)
      (p : Progress)
      → (first x services n h s).1 ≡ ok p
      → Found services p
  first-Found services n h s Progress.over e = tt
  first-Found services n (Hello.control_channel_hello v d) s (Progress.awaits_auth u w) e =
      let (t, a, r, f) = bind_inverse _ _ s (Progress.awaits_auth u w) e in
      let (t', b, r', g) = bind_inverse _ _ t (Progress.awaits_auth u w) f in
      find-Found services d t' (Progress.awaits_auth u w) (get d services) refl g
  first-Found services n (Hello.data_channel_hello v d) s (Progress.awaits_auth u w) e =
      let (t, a, r, f) = bind_inverse _ _ s (Progress.awaits_auth u w) e in absurd cc

  begin-Found :
      (services : HashMap Digest ServerServiceConfig) (n : Digest) (s : Session) (p : Progress)
      → (begin x services n s).1 ≡ ok p
      → Found services p
  unfolding begin
  begin-Found services n s p e =
      let (t, h, r, f) = bind_inverse _ _ s p e in first-Found services n h t p f

  module _ (services : HashMap Digest ServerServiceConfig)
      (found : (d : Digest) (v : ServerServiceConfig) → get d services ≡ some v → Ok d v) where
    next_task-Ok :
        (n : Digest) (r : Session × Result Progress)
        → ((p : Progress) → r.1 ≡ ok p → Found services p)
        → P r.0.channels
        → P (next_task x n r).0 × All (TaskOk Ok) (next_task x n r).1
    next_task-Ok n (s, ok (Progress.awaits_auth d v)) f h =
        (h, (found d v (f (Progress.awaits_auth d v) refl), tt))
    next_task-Ok n (s, ok Progress.over) f h = (h, tt)
    next_task-Ok n (s, err e) f h = (h, tt)

    run_task-Ok :
        (t : Task) (c : ControlChannelMap)
        → TaskOk Ok t
        → P c
        → P (run_task x services t c).0 × All (TaskOk Ok) (run_task x services t c).1
    unfolding run_task
    run_task-Ok (Task.accepted n conn) c good h =
        next_task-Ok n (begin x services n (record { conn = conn; channels = c }))
          (begin-Found services n (record { conn = conn; channels = c }))
          (begin-P services n (record { conn = conn; channels = c }) h)
    run_task-Ok (Task.waiting n d v conn) c good h =
        (authenticate-P n d v good (record { conn = conn; channels = c }) h, tt)

    All-append :
        (ts us : List Task) → All (TaskOk Ok) ts → All (TaskOk Ok) us → All (TaskOk Ok) (ts ++ us)
    All-append [] us a b = b
    All-append (t ∷ ts) us a b = (a.0, All-append ts us a.1 b)

    pub run_nth-Ok :
        (n : ℕ) (ts : List Task) (c : ControlChannelMap)
        → All (TaskOk Ok) ts
        → P c
        → P (run_nth x services n ts c).0 × All (TaskOk Ok) (run_nth x services n ts c).1
    unfolding run_nth
    run_nth-Ok n [] c good h = (h, tt)
    run_nth-Ok zero (t ∷ ts) c good h =
        let (p, left) = run_task-Ok t c good.0 h in (p, All-append _ ts left good.1)
    run_nth-Ok (suc n) (t ∷ ts) c good h =
        let (p, left) = run_nth-Ok n ts c good.1 h in (p, (good.0, left))
