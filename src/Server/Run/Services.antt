-- ===== src/Server/Run/Services.antt =====
-- The services behind the control channels while the server runs (rathole/src/server.rs: Server::run
-- with its tasks and hot reloads).
use rathole_with_proxy.Base.{
  ℕ, ◌≡◌, ◌≢◌, sym, ◌∙◌, Bool, true, false, inl, inr, Option, none, some, List, [], ◌∷◌, All,
  text_eq, HashMap, get, get-insert, get-remove, insert, remove, ◌==◌, ==_iff, Bool-cases, arith,
}
use rathole_with_proxy.Config.{ServerServiceConfig}
use rathole_with_proxy.Watcher.{ServerServiceChange, ConfigChange}
use rathole_with_proxy.MultiMap.{key1, key2}
use rathole_with_proxy.MultiMap.Table.{without, table_insert, Distinct}
use rathole_with_proxy.MultiMap.Holds.{All-without}
use rathole_with_proxy.Protocol.{Codec, Digest}
use rathole_with_proxy.Protocol.Stream.{Conn}
use rathole_with_proxy.Server.{
  Server, ControlChannelHandle, ControlChannelMap, handle_hot_reload, new_handle, give, name_digest,
}
use rathole_with_proxy.Server.Handshake.{OneEach, table_insert-Distinct, give-OneEach}
use rathole_with_proxy.Server.Run.{
  Backoff, Task, Event, Running, run_nth, spawn, back_off, step, go_on, run,
}
use rathole_with_proxy.Server.Run.Turns.{TaskOk, run_nth-Ok}
use rathole_with_proxy.Server.Run.Invariant.{without-OneEach}

-- Each control channel is for the service that the server has under its digest.
abbrev pub Current : HashMap Digest ServerServiceConfig → ControlChannelMap → Type 0
Current services c = All (λ y. get (key1 y) services ≡ some y.2.service) c

abbrev pub Has : HashMap Digest ServerServiceConfig → Digest → ServerServiceConfig → Type 0
Has services d v = get d services ≡ some v

-- No task waits for a service of this digest.
abbrev pub Idle : Digest → List Task → Type 0
Idle d ts = All (TaskOk (λ e v. e ≢ d)) ts

without-absent :
    (d : Digest) (c : ControlChannelMap)
    → Distinct key1 c
    → All (λ y. key1 y ≢ d) (without key1 d c)
unfolding without
without-absent d [] u = tt
without-absent d (y ∷ c) u = elim (Bool-cases (key1 y == d)) [
  | inl same ↦ rw same (away c ((==_iff (key1 y) d).0 same) u.0)
  | inr other ↦ rw other ((λ q. ground (arith, ==_iff (key1 y) d)), without-absent d c u.1)
]
  where
    away :
        (l : ControlChannelMap)
        → key1 y ≡ d
        → All (λ z. key1 y ≢ key1 z) l
        → All (λ z. key1 z ≢ d) l
    away [] q a = tt
    away (z ∷ l) q a = ((λ r. a.0 (q ∙ sym r)), away l q a.1)

-- What the services have for other digests is the same.
abbrev SameBut :
    Digest → HashMap Digest ServerServiceConfig → HashMap Digest ServerServiceConfig → Type 0
SameBut d old new = (k : Digest) → k ≢ d → get k new ≡ get k old

Current-SameBut :
    (d : Digest) (old new : HashMap Digest ServerServiceConfig) (c : ControlChannelMap)
    → SameBut d old new
    → All (λ y. key1 y ≢ d) c
    → Current old c
    → Current new c
Current-SameBut d old new [] f a p = tt
Current-SameBut d old new (y ∷ c) f a p =
    (f (key1 y) a.0 ∙ p.0, Current-SameBut d old new c f a.1 p.1)

tasks-SameBut :
    (d : Digest) (old new : HashMap Digest ServerServiceConfig) (ts : List Task)
    → SameBut d old new
    → Idle d ts
    → All (TaskOk (Has old)) ts
    → All (TaskOk (Has new)) ts
tasks-SameBut d old new [] f a p = tt
tasks-SameBut d old new (Task.accepted n conn ∷ ts) f a p =
    (tt, tasks-SameBut d old new ts f a.1 p.1)
tasks-SameBut d old new (Task.waiting n e v conn ∷ ts) f a p =
    (f e a.0 ∙ p.0, tasks-SameBut d old new ts f a.1 p.1)

insert-SameBut :
    (d : Digest) (v : ServerServiceConfig) (services : HashMap Digest ServerServiceConfig)
    → SameBut d services (insert d v services)
insert-SameBut d v services k h = ground (arith, get-insert d k v services, ==_iff d k)

remove-SameBut :
    (d : Digest) (services : HashMap Digest ServerServiceConfig)
    → SameBut d services (remove d services)
remove-SameBut d services k h = ground (arith, get-remove d k services, ==_iff d k)

-- There is at most one control channel for a service and for a session key, each is for the service
-- that the server has, and so is each proof that a task waits for.
abbrev pub InStep : HashMap Digest ServerServiceConfig → ControlChannelMap → List Task → Type 0
InStep services c ts = OneEach c × Current services c × All (TaskOk (Has services)) ts

-- A reload of one service, for which no task waits, drops its control channel.
reload-InStep :
    (d : Digest) (old new : HashMap Digest ServerServiceConfig) (c : ControlChannelMap)
    (ts : List Task)
    → SameBut d old new
    → Idle d ts
    → InStep old c ts
    → InStep new (without key1 d c) ts
reload-InStep d old new c ts f idle (u, cur, tasks) = (
  without-OneEach d c u,
  Current-SameBut d old new (without key1 d c) f (without-absent d c u.0)
      (All-without key1 (λ y. get (key1 y) old ≡ some y.2.service) d c cur),
  tasks-SameBut d old new ts f idle tasks,
)

spawn-Has :
    (x : Codec) (b : Backoff) (services : HashMap Digest ServerServiceConfig)
    (o : Option (Digest × Conn)) (ts : List Task)
    → All (TaskOk (Has services)) ts
    → All (TaskOk (Has services)) (spawn x b o ts)
spawn-Has x b services none ts a = a
spawn-Has x b services (some (n, conn)) [] a = (tt, tt)
spawn-Has x b services (some (n, conn)) (t ∷ ts) a =
    (a.0, spawn-Has x b services (some (n, conn)) ts a.1)

module _ (x : Codec) where
  pub new_handle-service :
      (v : ServerServiceConfig) (h : ControlChannelHandle) → new_handle x v ≡ some h → h.service ≡ v
  new_handle-service v h q = ground arith

  module _ (services : HashMap Digest ServerServiceConfig) where
    table_insert-Current :
        (d n : Digest) (v : ServerServiceConfig) (h : ControlChannelHandle) (c : ControlChannelMap)
        → get d services ≡ some v
        → new_handle x v ≡ some h
        → Current services c
        → Current services (table_insert d n h c)
    unfolding table_insert
    table_insert-Current d n v h c q r p = ground (arith, new_handle-service v h)

    give-Current :
        (n : Digest) (conn : Conn) (c : ControlChannelMap)
        → Current services c
        → Current services (give x n conn c)
    give-Current n conn [] p = tt
    give-Current n conn (y ∷ c) p = elim (Bool-cases (key2 y == n)) [
      | inl same ↦ rw same p
      | inr other ↦ rw other (p.0, give-Current n conn c p.1)
    ]

module _ (x : Codec) (b : Backoff) where
  -- No task waits for the service that is added or deleted.
  abbrev pub Spares : ConfigChange → List Task → Type 0
  Spares (ConfigChange.server_change (ServerServiceChange.add cfg)) ts =
      Idle (name_digest x cfg.name) ts
  Spares (ConfigChange.server_change (ServerServiceChange.delete name)) ts =
      Idle (name_digest x name) ts
  Spares (ConfigChange.general c) ts = Unit
  Spares (ConfigChange.client_change c) ts = Unit

  abbrev pub Calm : Event → Running x b → Type 0
  Calm (Event.update (some e)) r = Spares e r.tasks
  Calm e r = Unit

  abbrev pub AllCalm : List Event → Running x b → Type 0
  AllCalm [] r = Unit
  AllCalm (e ∷ es) r = Calm e r × AllCalm es (step x b e r).0

  abbrev pub InStepAt : Running x b → Type 0
  InStepAt r = InStep r.server.services r.server.control_channels r.tasks

  update-InStep :
      (e : ConfigChange) (s : Server) (ts : List Task)
      → Spares e ts
      → InStep s.services s.control_channels ts
      → InStep (handle_hot_reload x e s).services (handle_hot_reload x e s).control_channels ts
  unfolding handle_hot_reload
  update-InStep (ConfigChange.server_change (ServerServiceChange.add cfg)) s ts idle h =
      let d = name_digest x cfg.name in
      reload-InStep d s.services (insert d cfg s.services) s.control_channels ts
        (insert-SameBut d cfg s.services) idle h
  update-InStep (ConfigChange.server_change (ServerServiceChange.delete name)) s ts idle h =
      let d = name_digest x name in
      reload-InStep d s.services (remove d s.services) s.control_channels ts
        (remove-SameBut d s.services) idle h
  update-InStep (ConfigChange.general c) s ts idle h = h
  update-InStep (ConfigChange.client_change c) s ts idle h = h

  turn-InStep :
      (n : ℕ) (r : Running x b)
      → InStepAt r
      → let (c, ts) = run_nth x r.server.services n r.tasks r.server.control_channels in
        InStep r.server.services c ts
  turn-InStep n r (u, cur, tasks) =
      let services = r.server.services in
      let (p, left) =
        run_nth-Ok x (λ c. OneEach c × Current services c) (Has services)
          (λ d c h. (
            without-OneEach d c h.0,
            All-without key1 (λ y. get (key1 y) services ≡ some y.2.service) d c h.1,
          ))
          (λ d n v t c q m h.
            (table_insert-Distinct d n t c h.0, table_insert-Current x services d n v t c q m h.1))
          (λ n conn c h. (give-OneEach x n conn c h.0, give-Current x services n conn c h.1))
          services (λ d v q. q) n r.tasks r.server.control_channels tasks (u, cur) in
      (p.0, p.1, left)

  back_off-InStep :
      (o : Option (ℕ × b.State)) (r : Running x b) → InStepAt r → InStepAt (back_off x b o r).0
  back_off-InStep none r h = h
  back_off-InStep (some d) r h = h

  step-InStep : (e : Event) (r : Running x b) → Calm e r → InStepAt r → InStepAt (step x b e r).0
  unfolding step
  step-InStep (Event.accept_failed true) r calm h = back_off-InStep (b.next_backoff r.backoff) r h
  step-InStep (Event.accept_failed false) r calm h = h
  step-InStep (Event.accepted o) r calm (u, cur, tasks) =
      (u, cur, spawn-Has x b r.server.services o r.tasks tasks)
  step-InStep (Event.turn n) r calm h = turn-InStep n r h
  step-InStep (Event.update none) r calm h = h
  step-InStep (Event.update (some e)) r calm h = update-InStep e r.server r.tasks calm h
  step-InStep Event.shutdown r calm h = h

  go_on-InStep :
      (p : Running x b × Bool) (rest : Running x b → Running x b)
      → (InStepAt p.0 → InStepAt (rest p.0))
      → InStepAt p.0
      → InStepAt (go_on x b rest p)
  go_on-InStep (r, true) rest f h = f h
  go_on-InStep (r, false) rest f (u, cur, tasks) = ((tt, tt), tt, tasks)

  -- If no service is added or deleted while a task waits for the proof of its token, then at any
  -- time each control channel is for the service that the server has under its digest, and so
  -- is each handshake that waits.
  pub run-InStep :
      (es : List Event) (r : Running x b) → AllCalm es r → InStepAt r → InStepAt (run x b es r)
  unfolding run
  run-InStep [] r calm h = h
  run-InStep (e ∷ es) r calm h =
      go_on-InStep (step x b e r) (run x b es) (run-InStep es (step x b e r).0 calm.1)
        (step-InStep e r calm.0 h)
